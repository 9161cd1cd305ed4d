-- ===== src/Regex/Pike/Moves.antt =====
-- How `pike_run` in src/regex.c moves a thread on by a byte: to its place, or nearer to it within a
-- character of several bytes.
use xzile.Prelude.{
  ℕ, zero, suc, ◌+◌, ◌-◌, ◌*◌, ◌≤◌, ◌<◌, ◌≡◌, refl, sym, ap, ◌∙◌, ◌⊎◌, inl, inr, Bool, true, false,
  Option, none, some, List, [], ◌∷◌, ◌++◌, arith, ltb, leb, ◌==◌, Bool-cases, Option-cases, length,
  get_elem?, set,
}
use mathlib.Core.Path.{subst}
use xzile.Utf8.Roundtrip.{utf8_decode-IsDecoded}
use xzile.VTerm.Dispatch.Safe.{either_lem}
use xzile.Regex.{
  Inst, op_char, op_any, op_set, op_wordchar, op_nwordchar, op_space, op_nspace, Regex,
}
use xzile.Regex.Run.{Ctype, Subject, char_len_at}
use xzile.Regex.Pike.{
  Thread, PikeState, max_wait, push, push_waiting, capacity, bytes_if, char_bytes, inst_bytes,
  moves_on,
}
use xzile.Regex.Pike.Grown.{IsMarked, IsSettled, IsSettled-IsGrown, IsAdded, add_thread-IsAdded}
use xzile.Regex.Pike.Lists.{Has, Has-append, append-Has, Has-last, set-value, set-new, ==_eq}

-- A thread that had `n` bytes to go before this position is at `pc`, or has fewer to go.
unfoldable pub Moved : ℕ → ℕ → PikeState → Type 0
Moved zero pc ps = Unit
Moved (suc zero) pc ps = IsMarked ps pc
Moved (suc (suc n)) pc ps = Has ps.list pc (suc n)

pub record Extends (ps ps2 : PikeState) : Type 0 where
  pub stamp_eq : ps2.stamp ≡ ps.stamp
  pub values :
      (x m : ℕ) → get_elem? ps2.marks x ≡ some m → (m ≡ ps.stamp) ⊎ (get_elem? ps.marks x ≡ some m)
  pub wait_values :
      (x m : ℕ)
      → get_elem? ps2.wait_marks x ≡ some m
      → (m ≡ ps.stamp) ⊎ (get_elem? ps.wait_marks x ≡ some m)
  pub marked : (x : ℕ) → IsMarked ps x → IsMarked ps2 x
  pub kept : (pc wait : ℕ) → Has ps.list pc wait → Has ps2.list pc wait

pub same-Extends : (ps : PikeState) → Extends ps ps
same-Extends ps = record {
  stamp_eq = refl;
  values = λ x m e. inr e;
  wait_values = λ x m e. inr e;
  marked = λ x m. m;
  kept = λ pc wait h. h;
}

pub both-Extends : (ps ps2 ps3 : PikeState) → Extends ps ps2 → Extends ps2 ps3 → Extends ps ps3
both-Extends ps ps2 ps3 f g = record {
  stamp_eq = g.stamp_eq ∙ f.stamp_eq;
  values = λ x m e. elim (g.values x m e) [ inl q ↦ inl (q ∙ f.stamp_eq) | inr q ↦ f.values x m q ];
  wait_values = λ x m e. elim (g.wait_values x m e) [
    | inl q ↦ inl (q ∙ f.stamp_eq)
    | inr q ↦ f.wait_values x m q
  ];
  marked = λ x m. g.marked x (f.marked x m);
  kept = λ pc wait h. g.kept pc wait (f.kept pc wait h);
}

pub Moved-Extends :
    (n pc : ℕ) (ps ps2 : PikeState) → Extends ps ps2 → Moved n pc ps → Moved n pc ps2
unfolding Moved
Moved-Extends zero pc ps ps2 g m = tt
Moved-Extends (suc zero) pc ps ps2 g m = g.marked pc m
Moved-Extends (suc (suc n)) pc ps ps2 g m = g.kept pc (suc n) m

-- A character has four bytes at most.
unfoldable pub IsShort : Option ℕ → Type 0
IsShort none = Unit
IsShort (some n) = n ≤ max_wait + 1

module _ (ct : Ctype) (re : Regex) (s : Subject) where
  -- A list with all that can be reached without a character, and whose waiting threads are marked.
  pub record IsComplete (sp : ℕ) (ps : PikeState) : Type 0 where
    pub settled : (x : ℕ) → IsMarked ps x → IsSettled ct re s sp ps x
    pub waiting :
        (pc w : ℕ)
        → w < max_wait
        → get_elem? ps.wait_marks (pc * max_wait + suc w - 1) ≡ some ps.stamp
        → Has ps.list pc (suc w)
    pub short : (pc w : ℕ) → Has ps.list pc w → w ≤ max_wait

  unfoldable pub IsMoved : ℕ → ℕ → ℕ → PikeState → Option PikeState → Type 0
  IsMoved sp n pc ps none = Unit
  IsMoved sp n pc ps (some ps2) = Extends ps ps2 × IsComplete sp ps2 × Moved n pc ps2

  pub added-IsMoved :
      (sp pc : ℕ) (ps : PikeState) (o : Option PikeState)
      → IsComplete sp ps
      → IsAdded ct re s sp ps pc o
      → IsMoved sp 1 pc ps o
  unfolding IsMoved IsAdded Moved
  added-IsMoved sp pc ps none c a = tt
  added-IsMoved sp pc ps (some ps2) c (g, m) = (
    record {
      stamp_eq = g.stamp_eq;
      values = g.values;
      wait_values = λ x v e. inr (ap (λ l. get_elem? l x) (sym g.waits_eq) ∙ e);
      marked = g.marked;
      kept = g.kept;
    },
    record {
      settled = λ x k. elim (g.settled x k) [
        | inl l ↦ IsSettled-IsGrown ct re s sp ps ps2 x g (c.settled x l)
        | inr l ↦ l
      ];
      waiting = λ pc2 w h e. g.kept pc2 (suc w) (
          c.waiting pc2 w h (
            ap (λ l. get_elem? l (pc2 * max_wait + suc w - 1)) (sym g.waits_eq)
            ∙ e
            ∙ ap some g.stamp_eq));
      short =
          λ pc2 w h. elim (g.short pc2 w h) [ inl k ↦ c.short pc2 w k | inr q ↦ omega (arith, q) ];
    },
    m,
  )

  -- Places and waits have marks of their own.
  wait_index :
      (a b v w : ℕ)
      → v < max_wait
      → w < max_wait
      → a * max_wait + suc v - 1 ≡ b * max_wait + suc w - 1
      → (a ≡ b) × (v ≡ w)
  wait_index a b v w h k e = omega (arith, h, k, e)

  waits-IsMoved :
      (sp pc start n : ℕ) (ps : PikeState)
      → n < max_wait
      → IsComplete sp ps
      → IsMoved sp (suc (suc n)) pc ps (
          some (record ps {
            wait_marks = set ps.wait_marks (pc * max_wait + suc n - 1) ps.stamp;
            list = ps.list ++ record { pc = pc; start = start; wait = suc n } ∷ [];
          }))
  unfolding IsMoved Moved
  waits-IsMoved sp pc start n ps h c = (
    record {
      stamp_eq = refl;
      values = λ x m e. inr e;
      wait_values = λ x m e. set-value ps.wait_marks (pc * max_wait + suc n - 1) x ps.stamp m e;
      marked = λ x m. m;
      kept = λ pc2 w k. Has-append ps.list _ pc2 w k;
    },
    record {
      settled = λ x m.
          let old = c.settled x m in
          record {
            targets = old.targets;
            listed = λ i e y. Has-append ps.list _ x 0 (old.listed i e y);
          };
      waiting = λ pc2 w k e. elim (set-new ps.wait_marks (pc * max_wait + suc n - 1) _ ps.stamp e) [
        | inl q ↦
            let (a, b) = wait_index pc2 pc w n k h q in
            let more : List Thread =
              ps.list ++ record { pc = pc; start = start; wait = suc n } ∷ [] in
            subst (λ x. Has more x (suc w)) (sym a)
              (subst (λ v. Has more pc (suc v)) (sym b) (Has-last ps.list pc start (suc n)))
        | inr q ↦ Has-append ps.list _ pc2 (suc w) (c.waiting pc2 w k q)
      ];
      short = λ pc2 w k. elim (append-Has ps.list _ pc2 w k) [
        | inl l ↦ c.short pc2 w l
        | inr l ↦ omega (arith, l.1, h)
      ];
    },
    Has-last ps.list pc start (suc n),
  )

  push_waiting-IsMoved :
      (sp pc start n : ℕ) (ps : PikeState)
      → n < max_wait
      → IsComplete sp ps
      → IsMoved sp (suc (suc n)) pc ps (push_waiting ct re s pc start (suc n) ps)
  unfolding push_waiting push IsMoved Moved
  push_waiting-IsMoved sp pc start n ps h c =
      let at = pc * max_wait + suc n - 1 in
      elim (Option-cases (get_elem? ps.wait_marks at)) [
        | inl e ↦ rw (push_waiting, e) tt
        | inr (m, e) ↦ elim (Bool-cases (m == ps.stamp)) [
          | inl q ↦
              rw (push_waiting, e, q)
                (same-Extends ps, c, c.waiting pc n h (e ∙ ap some (==_eq m ps.stamp q)))
          | inr q ↦ elim (Bool-cases (ltb (length ps.list) (capacity ct re s))) [
            | inr k ↦ rw (push_waiting, e, q, k) tt
            | inl k ↦ rw (push_waiting, e, q, k) (waits-IsMoved sp pc start n ps h c)
          ]
        ]
      ]

  pub moves_on-IsMoved :
      (sp pc start n : ℕ) (ps : PikeState)
      → n ≤ max_wait + 1
      → IsComplete (sp + 1) ps
      → IsMoved (sp + 1) n pc ps (moves_on ct re s n pc start sp ps)
  unfolding moves_on IsMoved Moved
  moves_on-IsMoved sp pc start zero ps h c = (same-Extends ps, c, tt)
  moves_on-IsMoved sp pc start (suc zero) ps h c =
      added-IsMoved (sp + 1) pc ps _ c
        (add_thread-IsAdded ct re s (sp + 1) (length re.prog + 1) start pc ps)
  moves_on-IsMoved sp pc start (suc (suc n)) ps h c =
      push_waiting-IsMoved (sp + 1) pc start n ps (omega (arith, h)) c

  char_len_at_le : (sp : ℕ) → (char_len_at s sp).0 ≤ max_wait + 1
  unfolding char_len_at
  char_len_at_le sp = ground (arith, utf8_decode-IsDecoded s.text sp)

  if-IsShort : (ok : Bool) (n : ℕ) → n ≤ max_wait + 1 → IsShort (bytes_if ok n)
  unfolding IsShort
  if-IsShort true n h = h
  if-IsShort false n h = omega arith

  char_bytes-IsShort : (i : Inst) (c sp : ℕ) → IsShort (char_bytes ct re s i c sp)
  unfolding char_bytes IsShort
  char_bytes-IsShort (op_char a) c sp = if-IsShort _ 1 (omega arith)
  char_bytes-IsShort op_any c sp = if-IsShort _ _ (char_len_at_le sp)
  char_bytes-IsShort (op_set index) c sp = elim (Option-cases (get_elem? re.sets index)) [
    | inl e ↦ rw (char_bytes, e) tt
    | inr (cs, e) ↦
        rw (char_bytes, e)
          (if-IsShort _ _
            (either_lem (λ n. n ≤ max_wait + 1) (ltb c 0x80) 1 _ (omega arith) (char_len_at_le sp)))
  ]
  char_bytes-IsShort op_wordchar c sp =
      if-IsShort _ _
        (either_lem (λ n. n ≤ max_wait + 1) (leb 0x80 c) _ 1 (char_len_at_le sp) (omega arith))
  char_bytes-IsShort op_nwordchar c sp =
      if-IsShort _ _
        (either_lem (λ n. n ≤ max_wait + 1) (leb 0x80 c) _ 1 (char_len_at_le sp) (omega arith))
  char_bytes-IsShort op_space c sp = if-IsShort _ 1 (omega arith)
  char_bytes-IsShort op_nspace c sp = if-IsShort _ 1 (omega arith)
  char_bytes-IsShort _ c sp = omega arith

  pub inst_bytes-IsShort : (i : Inst) (sp : ℕ) → IsShort (inst_bytes ct re s i sp)
  unfolding inst_bytes IsShort
  inst_bytes-IsShort i sp = elim (Option-cases (get_elem? s.text sp)) [
    | inl e ↦ rw (inst_bytes, e) (omega arith)
    | inr (c, e) ↦ rw (inst_bytes, e) (char_bytes-IsShort i c sp)
  ]
