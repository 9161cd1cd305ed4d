-- ===== src/Regex/Pike/Grown.antt =====
-- `add_thread` of src/regex.c marks all places that a thread can be at without a character, and
-- puts those in the list that wait for one.
use xzile.Prelude.{
  ℕ, zero, suc, ◌+◌, ◌-◌, ◌≡◌, refl, sym, ap, ◌∙◌, ◌⊎◌, inl, inr, Bool, true, false, Option, none,
  some, arith, ltb, ◌==◌, if◌then◌else◌, Bool-cases, Option-cases, length, get_elem?, set,
}
use mathlib.Core.Path.{subst}
use mathlib.Core.Option.{some-injective}
use xzile.Estr.{◌>>=◌}
use xzile.VTerm.Dispatch.Safe.{either_checked}
use xzile.Regex.{
  pos, negsuc, Inst, op_char, op_any, op_set, op_bol, op_eol, op_bob, op_eob, op_wordb, op_nwordb,
  op_wstart, op_wend, op_wordchar, op_nwordchar, op_space, op_nspace, op_split, op_jmp, op_save,
  op_mark, op_check, op_backref, op_match, Regex,
}
use xzile.Regex.Run.{Ctype, Subject}
use xzile.Regex.Pike.{PikeState, push, capacity, follow, add_thread}
use xzile.Regex.Pike.Kept.{Target}
use xzile.Regex.Pike.Lists.{
  ==_eq, Has, Has-append, append-Has, Has-last, set-here, set-kept, set-new, set-value,
}

-- The instructions that `add_thread` puts in the list.
unfoldable pub Stays : Inst → Type 0
Stays (op_char a) = Unit
Stays op_any = Unit
Stays (op_set a) = Unit
Stays op_wordchar = Unit
Stays op_nwordchar = Unit
Stays op_space = Unit
Stays op_nspace = Unit
Stays (op_backref g) = Unit
Stays op_match = Unit
Stays _ = ⊥

abbrev pub IsMarked : PikeState → ℕ → Type 0
IsMarked ps x = get_elem? ps.marks x ≡ some ps.stamp

module _ (ct : Ctype) (re : Regex) (s : Subject) (sp : ℕ) where
  -- What can be reached without a character from `x` is marked, and `x` is in the list if it waits
  -- for one.
  pub record IsSettled (ps : PikeState) (x : ℕ) : Type 0 where
    pub targets :
        (i : Inst) (to : ℕ) → get_elem? re.prog x ≡ some i → Target ct s i x sp to → IsMarked ps to
    pub listed : (i : Inst) → get_elem? re.prog x ≡ some i → Stays i → Has ps.list x 0

  pub record IsGrown (ps ps2 : PikeState) : Type 0 where
    pub stamp_eq : ps2.stamp ≡ ps.stamp
    pub waits_eq : ps2.wait_marks ≡ ps.wait_marks
    pub marked : (x : ℕ) → IsMarked ps x → IsMarked ps2 x
    pub kept : (pc wait : ℕ) → Has ps.list pc wait → Has ps2.list pc wait
    pub short : (pc wait : ℕ) → Has ps2.list pc wait → Has ps.list pc wait ⊎ (wait ≡ 0)
    pub values :
        (x m : ℕ)
        → get_elem? ps2.marks x ≡ some m
        → (m ≡ ps.stamp) ⊎ (get_elem? ps.marks x ≡ some m)
    pub settled : (x : ℕ) → IsMarked ps2 x → IsMarked ps x ⊎ IsSettled ps2 x

  pub IsSettled-IsGrown :
      (ps ps2 : PikeState) (x : ℕ) → IsGrown ps ps2 → IsSettled ps x → IsSettled ps2 x
  IsSettled-IsGrown ps ps2 x g h = record {
    targets = λ i to e t. g.marked to (h.targets i to e t);
    listed = λ i e y. g.kept x 0 (h.listed i e y);
  }

  same-IsGrown : (ps : PikeState) → IsGrown ps ps
  same-IsGrown ps = record {
    stamp_eq = refl;
    waits_eq = refl;
    marked = λ x m. m;
    kept = λ pc wait h. h;
    short = λ pc wait h. inl h;
    values = λ x m e. inr e;
    settled = λ x m. inl m;
  }

  both-IsGrown : (ps ps2 ps3 : PikeState) → IsGrown ps ps2 → IsGrown ps2 ps3 → IsGrown ps ps3
  both-IsGrown ps ps2 ps3 g h = record {
    stamp_eq = h.stamp_eq ∙ g.stamp_eq;
    waits_eq = h.waits_eq ∙ g.waits_eq;
    marked = λ x m. h.marked x (g.marked x m);
    kept = λ pc wait k. h.kept pc wait (g.kept pc wait k);
    short = λ pc wait k. elim (h.short pc wait k) [ inl l ↦ g.short pc wait l | inr q ↦ inr q ];
    values =
        λ x m e. elim (h.values x m e) [ inl q ↦ inl (q ∙ g.stamp_eq) | inr q ↦ g.values x m q ];
    settled = λ x m. elim (h.settled x m) [
      | inr k ↦ inr k
      | inl m2 ↦ elim (g.settled x m2) [
        | inl m3 ↦ inl m3
        | inr k ↦ inr (IsSettled-IsGrown ps2 ps3 x h k)
      ]
    ];
  }

  -- What `add_thread` at `pc` makes of `ps`.
  unfoldable pub IsAdded : PikeState → ℕ → Option PikeState → Type 0
  IsAdded ps pc none = Unit
  IsAdded ps pc (some ps2) = IsGrown ps ps2 × IsMarked ps2 pc

  unfoldable pub IsFollowed : PikeState → ℕ → Option PikeState → Type 0
  IsFollowed ps pc none = Unit
  IsFollowed ps pc (some ps2) = IsGrown ps ps2 × IsSettled ps2 pc

  module _ (ps : PikeState) (pc : ℕ) (i : Inst) (at : get_elem? re.prog pc ≡ some i) where
    settle :
        (ps2 : PikeState)
        → ((to : ℕ) → Target ct s i pc sp to → IsMarked ps2 to)
        → (Stays i → Has ps2.list pc 0)
        → IsSettled ps2 pc
    settle ps2 f g = record {
      targets = λ j to e t.
          f to (subst (λ k. Target ct s k pc sp to) (some-injective j i (sym e ∙ at)) t);
      listed = λ j e y. g (subst Stays (some-injective j i (sym e ∙ at)) y);
    }

    one-IsFollowed :
        (to : ℕ)
        → ((x : ℕ) → Target ct s i pc sp x → x ≡ to)
        → (Stays i → ⊥)
        → (o : Option PikeState) → IsAdded ps to o
        → IsFollowed ps pc o
    unfolding IsAdded IsFollowed
    one-IsFollowed to f g none a = tt
    one-IsFollowed to f g (some ps2) (grown, m) =
        (grown, settle ps2 (λ x t. subst (IsMarked ps2) (sym (f x t)) m) (λ y. absurd (g y)))

    split-IsFollowed :
        (a b : ℕ) (add : ℕ → PikeState → Option PikeState)
        → ((to : ℕ) (ps2 : PikeState) → IsAdded ps2 to (add to ps2))
        → ((x : ℕ) → Target ct s i pc sp x → (x ≡ a) ⊎ (x ≡ b))
        → (Stays i → ⊥)
        → (o : Option PikeState) → IsAdded ps a o
        → IsFollowed ps pc (o >>= (λ ps2. add b ps2))
    unfolding IsAdded IsFollowed
    split-IsFollowed a b add added f g none h = tt
    split-IsFollowed a b add added f g (some ps2) (grown, m) = then_b (add b ps2) (added b ps2)
      where
        then_b : (o : Option PikeState) → IsAdded ps2 b o → IsFollowed ps pc o
        then_b none k = tt
        then_b (some ps3) (grown2, m2) = (
          both-IsGrown ps ps2 ps3 grown grown2,
          settle ps3
              (λ x t. elim (f x t) [
                | inl q ↦ subst (IsMarked ps3) (sym q) (grown2.marked a m)
                | inr q ↦ subst (IsMarked ps3) (sym q) m2
              ])
              (λ y. absurd (g y)),
        )

    asserted-IsFollowed :
        (ok : Bool) (o : Option PikeState)
        → ((x : ℕ) → Target ct s i pc sp x → (ok ≡ true) × (x ≡ pc + 1))
        → (Stays i → ⊥)
        → IsAdded ps (pc + 1) o
        → IsFollowed ps pc (if ok then o else some ps)
    unfolding IsFollowed
    asserted-IsFollowed true o f g h = one-IsFollowed (pc + 1) (λ x t. (f x t).1) g o h
    asserted-IsFollowed false o f g h =
        (same-IsGrown ps, settle ps (λ x t. absurd (ground (arith, (f x t).0))) (λ y. absurd (g y)))

    push-IsFollowed :
        (start : ℕ)
        → ((x : ℕ) → Target ct s i pc sp x → ⊥)
        → IsFollowed ps pc (push ct re s (record { pc = pc; start = start; wait = 0 }) ps)
    unfolding IsFollowed push
    push-IsFollowed start f =
        either_checked (IsFollowed ps pc) (ltb (length ps.list) (capacity ct re s)) _ _
          (λ q. (
            record {
              stamp_eq = refl;
              waits_eq = refl;
              marked = λ x m. m;
              kept = λ pc2 wait h. Has-append ps.list _ pc2 wait h;
              short = λ pc2 wait h. elim (append-Has ps.list _ pc2 wait h) [
                | inl k ↦ inl k
                | inr k ↦ inr (sym k.1)
              ];
              values = λ x m e. inr e;
              settled = λ x m. inl m;
            },
            settle _ (λ x t. absurd (f x t)) (λ y. Has-last ps.list pc start 0),
          ))
          (λ q. tt)

  module _ (ps : PikeState) (pc start : ℕ) (add : ℕ → PikeState → Option PikeState)
      (added : (to : ℕ) (ps2 : PikeState) → IsAdded ps2 to (add to ps2)) where
    follow-IsFollowed :
        (i : Inst)
        → get_elem? re.prog pc ≡ some i
        → IsFollowed ps pc (follow ct re s add i pc start sp ps)
    unfolding follow Target Stays IsFollowed
    follow-IsFollowed (op_jmp (pos a)) e =
        one-IsFollowed ps pc _ e (pc + a) (λ x t. t) (λ y. y) _ (added (pc + a) ps)
    follow-IsFollowed (op_jmp (negsuc a)) e =
        either_checked (IsFollowed ps pc) (ltb a pc) _ _
          (λ q.
            one-IsFollowed ps pc _ e (pc - suc a) (λ x t. t.0) (λ y. y) _ (added (pc - suc a) ps))
          (λ q. tt)
    follow-IsFollowed (op_split a b) e =
        split-IsFollowed ps pc _ e (pc + a) (pc + b) add added (λ x t. t) (λ y. y) _
          (added (pc + a) ps)
    follow-IsFollowed (op_save r) e =
        one-IsFollowed ps pc _ e (pc + 1) (λ x t. t) (λ y. y) _ (added (pc + 1) ps)
    follow-IsFollowed (op_mark r) e =
        one-IsFollowed ps pc _ e (pc + 1) (λ x t. t) (λ y. y) _ (added (pc + 1) ps)
    follow-IsFollowed (op_check r) e =
        one-IsFollowed ps pc _ e (pc + 1) (λ x t. t) (λ y. y) _ (added (pc + 1) ps)
    follow-IsFollowed op_bol e =
        asserted-IsFollowed ps pc _ e _ _ (λ x t. t) (λ y. y) (added (pc + 1) ps)
    follow-IsFollowed op_eol e =
        asserted-IsFollowed ps pc _ e _ _ (λ x t. t) (λ y. y) (added (pc + 1) ps)
    follow-IsFollowed op_bob e =
        asserted-IsFollowed ps pc _ e _ _ (λ x t. t) (λ y. y) (added (pc + 1) ps)
    follow-IsFollowed op_eob e =
        asserted-IsFollowed ps pc _ e _ _ (λ x t. t) (λ y. y) (added (pc + 1) ps)
    follow-IsFollowed op_wordb e =
        asserted-IsFollowed ps pc _ e _ _ (λ x t. t) (λ y. y) (added (pc + 1) ps)
    follow-IsFollowed op_nwordb e =
        asserted-IsFollowed ps pc _ e _ _ (λ x t. t) (λ y. y) (added (pc + 1) ps)
    follow-IsFollowed op_wstart e =
        asserted-IsFollowed ps pc _ e _ _ (λ x t. t) (λ y. y) (added (pc + 1) ps)
    follow-IsFollowed op_wend e =
        asserted-IsFollowed ps pc _ e _ _ (λ x t. t) (λ y. y) (added (pc + 1) ps)
    follow-IsFollowed _ e = push-IsFollowed ps pc _ e start (λ x t. t)

  -- The place is marked before it is followed.
  mark-IsAdded :
      (ps : PikeState) (pc m : ℕ)
      → get_elem? ps.marks pc ≡ some m
      → (o : Option PikeState) → IsFollowed (record ps { marks = set ps.marks pc ps.stamp }) pc o
      → IsAdded ps pc o
  unfolding IsAdded IsFollowed
  mark-IsAdded ps pc m e none f = tt
  mark-IsAdded ps pc m e (some ps2) (g, h) = (
    record {
      stamp_eq = g.stamp_eq;
      waits_eq = g.waits_eq;
      marked = λ x k. g.marked x (set-kept ps.marks pc x ps.stamp k);
      kept = g.kept;
      short = g.short;
      values = λ x v k. elim (g.values x v k) [
        | inl q ↦ inl q
        | inr q ↦ set-value ps.marks pc x ps.stamp v q
      ];
      settled = λ x k. elim (g.settled x k) [
        | inr l ↦ inr l
        | inl l ↦ elim (set-new ps.marks pc x ps.stamp l) [
          | inl q ↦ inr (subst (IsSettled ps2) (sym q) h)
          | inr q ↦ inl q
        ]
      ];
    },
    g.marked pc (set-here ps.marks pc ps.stamp m e),
  )

  pub add_thread-IsAdded :
      (fuel start pc : ℕ) (ps : PikeState) → IsAdded ps pc (add_thread ct re s fuel start sp pc ps)
  unfolding add_thread IsAdded
  add_thread-IsAdded zero start pc ps = tt
  add_thread-IsAdded (suc fuel) start pc ps = elim (Option-cases (get_elem? ps.marks pc)) [
    | inl e ↦ rw (add_thread, e) tt
    | inr (m, e) ↦ elim (Bool-cases (m == ps.stamp)) [
      | inl q ↦ rw (add_thread, e, q) (same-IsGrown ps, e ∙ ap some (==_eq m ps.stamp q))
      | inr q ↦ elim (Option-cases (get_elem? re.prog pc)) [
        | inl f ↦ rw (add_thread, e, q, f) tt
        | inr (i, f) ↦
            rw (add_thread, e, q, f)
              (mark-IsAdded ps pc m e _ (
                follow-IsFollowed _ pc start (add_thread ct re s fuel start sp)
                  (λ to ps2. add_thread-IsAdded fuel start to ps2) i f))
      ]
    ]
  ]
