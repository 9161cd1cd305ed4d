-- ===== src/Regex/Pike/Kept.antt =====
-- What `pike_run` of src/regex.c keeps of its threads: `G start pc p` says that a thread that starts
-- at `start` may be at `pc` and the position `p`.
use xzile.Prelude.{
  ℕ, zero, suc, ◌+◌, ◌-◌, ◌≤◌, ◌<◌, ◌≡◌, refl, ◌∙◌, ◌⊎◌, inl, inr, Bool, true, false, Option, none,
  some, arith, ◌==◌, if◌then◌else◌, lt→ltb, Bool-cases, Option-cases, length, get_elem?, length-set,
}
use mathlib.Core.Path.{subst}
use xzile.Estr.{◌>>=◌}
use xzile.VTerm.Dispatch.Safe.{either_checked}
use xzile.Regex.Run.Safe.{get-within}
use xzile.Regex.{
  pos, negsuc, Inst, op_char, op_any, op_set, op_bol, op_eol, op_bob, op_eob, op_wordb, op_nwordb,
  op_wstart, op_wend, op_wordchar, op_nwordchar, op_space, op_nspace, op_split, op_jmp, op_save,
  op_mark, op_check, op_backref, op_match, Regex,
}
use xzile.Regex.Run.{Ctype, Subject}
use xzile.Regex.Pike.{PikeState, max_wait, push, check_assertion, follow, add_thread, inst_bytes}
use xzile.Regex.Pike.Marks.{count, count-le, count-set, IsGood, IsBuilding, IsBuilt, push-IsBuilt}

-- Where a thread goes from `pc` without a character.
unfoldable pub Target : Ctype → Subject → Inst → ℕ → ℕ → ℕ → Type 0
Target ct s (op_jmp (pos a)) pc sp to = to ≡ pc + a
Target ct s (op_jmp (negsuc a)) pc sp to = (to ≡ pc - suc a) × (a < pc)
Target ct s (op_split a b) pc sp to = (to ≡ pc + a) ⊎ (to ≡ pc + b)
Target ct s (op_save r) pc sp to = to ≡ pc + 1
Target ct s (op_mark r) pc sp to = to ≡ pc + 1
Target ct s (op_check r) pc sp to = to ≡ pc + 1
Target ct s op_bol pc sp to = (check_assertion ct s op_bol sp ≡ true) × (to ≡ pc + 1)
Target ct s op_eol pc sp to = (check_assertion ct s op_eol sp ≡ true) × (to ≡ pc + 1)
Target ct s op_bob pc sp to = (check_assertion ct s op_bob sp ≡ true) × (to ≡ pc + 1)
Target ct s op_eob pc sp to = (check_assertion ct s op_eob sp ≡ true) × (to ≡ pc + 1)
Target ct s op_wordb pc sp to = (check_assertion ct s op_wordb sp ≡ true) × (to ≡ pc + 1)
Target ct s op_nwordb pc sp to = (check_assertion ct s op_nwordb sp ≡ true) × (to ≡ pc + 1)
Target ct s op_wstart pc sp to = (check_assertion ct s op_wstart sp ≡ true) × (to ≡ pc + 1)
Target ct s op_wend pc sp to = (check_assertion ct s op_wend sp ≡ true) × (to ≡ pc + 1)
Target ct s _ pc sp to = ⊥

-- What is read at `p` is a number of bytes, behind which the thread may be.
unfoldable pub IsRead : (ℕ → ℕ → ℕ → Type 0) → ℕ → ℕ → ℕ → Option ℕ → Type 0
IsRead G start pc p none = ⊥
IsRead G start pc p (some zero) = Unit
IsRead G start pc p (some (suc n)) = (n ≤ max_wait) × G start (pc + 1) (p + suc n)

pub record IsKept (ct : Ctype) (re : Regex) (s : Subject) (G : ℕ → ℕ → ℕ → Type 0) (anchored : Bool)
    : Type 0 where
  pub in_prog : (start pc p : ℕ) → G start pc p → pc < length re.prog
  pub back : (pc a : ℕ) → get_elem? re.prog pc ≡ some (op_jmp (negsuc a)) → a < pc
  pub moves :
      (start pc p to : ℕ) (i : Inst)
      → G start pc p
      → get_elem? re.prog pc ≡ some i
      → Target ct s i pc p to
      → G start to p
  pub reads :
      (start pc p : ℕ) (i : Inst)
      → G start pc p
      → get_elem? re.prog pc ≡ some i
      → IsRead G start pc p (inst_bytes ct re s i p)
  pub fresh : (p : ℕ) → anchored ≡ false → p ≤ length s.text → G p 0 p

module _ (ct : Ctype) (re : Regex) (s : Subject) (G : ℕ → ℕ → ℕ → Type 0) (anchored : Bool)
    (kept : IsKept ct re s G anchored) where
  abbrev Built : ℕ → ℕ → ℕ → Option PikeState → Type 0
  Built = IsBuilt ct re s G

  abbrev Building : ℕ → ℕ → PikeState → Type 0
  Building = IsBuilding ct re s G

  pub bind-IsBuilt :
      (v sp n : ℕ) (o : Option PikeState) (f : PikeState → Option PikeState)
      → Built v sp n o
      → ((ps : PikeState) → Building v sp ps → n ≤ count v ps.marks → Built v sp n (f ps))
      → Built v sp n (o >>= f)
  unfolding IsBuilt
  bind-IsBuilt v sp n none f h g = h
  bind-IsBuilt v sp n (some ps) f (b, h) g = g ps b h

  module _ (v start pc sp n : ℕ) (ps : PikeState) (b : Building v sp ps) (h : n ≤ count v ps.marks)
      (good : G start pc sp) (add : ℕ → PikeState → Option PikeState)
      (added : (to : ℕ) (ps2 : PikeState)
        → G start to sp
        → Building v sp ps2
        → n ≤ count v ps2.marks
        → Built v sp n (add to ps2)) where
    asserted :
        (i : Inst)
        → (check_assertion ct s i sp ≡ true → G start (pc + 1) sp)
        → Built v sp n (if check_assertion ct s i sp then add (pc + 1) ps else some ps)
    unfolding IsBuilt
    asserted i f =
        either_checked (Built v sp n) (check_assertion ct s i sp) _ _
          (λ q. added (pc + 1) ps (f q) b h) (λ q. (b, h))

    pushed :
        length ps.list < count v ps.marks + count v ps.wait_marks
        → Built v sp n (push ct re s (record { pc = pc; start = start; wait = 0 }) ps)
    unfolding IsGood
    pushed room =
        push-IsBuilt ct re s G v sp n _ ps b room h
          (omega arith, subst (G start pc) (omega arith) good)

    follow-IsBuilt :
        (i : Inst)
        → get_elem? re.prog pc ≡ some i
        → length ps.list < count v ps.marks + count v ps.wait_marks
        → Built v sp n (follow ct re s add i pc start sp ps)
    unfolding follow Target
    follow-IsBuilt (op_jmp (pos a)) e room =
        added (pc + a) ps (kept.moves start pc sp _ _ good e refl) b h
    follow-IsBuilt (op_jmp (negsuc a)) e room =
        let k = kept.back pc a e in
        rw (lt→ltb a pc k) (added _ ps (kept.moves start pc sp _ _ good e (refl, k)) b h)
    follow-IsBuilt (op_split x y) e room =
        bind-IsBuilt v sp n _ _
          (added (pc + x) ps (kept.moves start pc sp _ _ good e (inl refl)) b h)
          (λ ps2 b2 h2. added (pc + y) ps2 (kept.moves start pc sp _ _ good e (inr refl)) b2 h2)
    follow-IsBuilt (op_save r) e room =
        added (pc + 1) ps (kept.moves start pc sp _ _ good e refl) b h
    follow-IsBuilt (op_mark r) e room =
        added (pc + 1) ps (kept.moves start pc sp _ _ good e refl) b h
    follow-IsBuilt (op_check r) e room =
        added (pc + 1) ps (kept.moves start pc sp _ _ good e refl) b h
    follow-IsBuilt op_bol e room =
        asserted op_bol (λ q. kept.moves start pc sp _ _ good e (q, refl))
    follow-IsBuilt op_eol e room =
        asserted op_eol (λ q. kept.moves start pc sp _ _ good e (q, refl))
    follow-IsBuilt op_bob e room =
        asserted op_bob (λ q. kept.moves start pc sp _ _ good e (q, refl))
    follow-IsBuilt op_eob e room =
        asserted op_eob (λ q. kept.moves start pc sp _ _ good e (q, refl))
    follow-IsBuilt op_wordb e room =
        asserted op_wordb (λ q. kept.moves start pc sp _ _ good e (q, refl))
    follow-IsBuilt op_nwordb e room =
        asserted op_nwordb (λ q. kept.moves start pc sp _ _ good e (q, refl))
    follow-IsBuilt op_wstart e room =
        asserted op_wstart (λ q. kept.moves start pc sp _ _ good e (q, refl))
    follow-IsBuilt op_wend e room =
        asserted op_wend (λ q. kept.moves start pc sp _ _ good e (q, refl))
    follow-IsBuilt (op_char a) e room = pushed room
    follow-IsBuilt op_any e room = pushed room
    follow-IsBuilt (op_set a) e room = pushed room
    follow-IsBuilt op_wordchar e room = pushed room
    follow-IsBuilt op_nwordchar e room = pushed room
    follow-IsBuilt op_space e room = pushed room
    follow-IsBuilt op_nspace e room = pushed room
    follow-IsBuilt (op_backref a) e room = pushed room
    follow-IsBuilt op_match e room = pushed room

  weaken-IsBuilt : (v sp n k : ℕ) (o : Option PikeState) → k ≤ n → Built v sp n o → Built v sp k o
  unfolding IsBuilt
  weaken-IsBuilt v sp n k none h b = b
  weaken-IsBuilt v sp n k (some ps) h (b, l) = (b, omega (arith, h, l))

  -- The fuel is enough for the places that have no mark.
  pub add_thread-IsBuilt :
      (fuel v start sp pc n : ℕ) (ps : PikeState)
      → G start pc sp
      → Building v sp ps
      → n ≤ count v ps.marks
      → length re.prog < fuel + n
      → Built v sp n (add_thread ct re s fuel start sp pc ps)
  unfolding add_thread IsBuilt
  add_thread-IsBuilt zero v start sp pc n ps good b h k =
      absurd (omega (arith, h, k, count-le v ps.marks, b.marks_len))
  add_thread-IsBuilt (suc fuel) v start sp pc n ps good b h k =
      let l = kept.in_prog start pc sp good in
      elim (Option-cases (get_elem? ps.marks pc)) [
        | inl e ↦ absurd (get-within ps.marks pc (omega (arith, l, b.marks_len)) e)
        | inr (m, e) ↦ elim (Option-cases (get_elem? re.prog pc)) [
          | inl f ↦ absurd (get-within re.prog pc l f)
          | inr (i, f) ↦ elim (Bool-cases (m == ps.stamp)) [
            | inl q ↦ rw (add_thread, e, q) (b, h)
            | inr q ↦
                let more = count-set v ps.stamp ps.marks pc m b.stamp_eq e q in
                rw (add_thread, e, q, f)
                  (weaken-IsBuilt v sp (n + 1) n _ (omega arith) (
                    follow-IsBuilt v start pc sp (n + 1) _
                      (record {
                        stamp_eq = b.stamp_eq;
                        marks_len = length-set ps.marks pc ps.stamp ∙ b.marks_len;
                        waits_len = b.waits_len;
                        list_le = omega (arith, b.list_le, more);
                        threads = b.threads;
                      })
                      (omega (arith, more, h)) good _
                      (λ to ps2 g2 b2 h2.
                        add_thread-IsBuilt fuel v start sp to (n + 1) ps2 g2 b2 h2
                          (omega (arith, k)))
                      i f (omega (arith, b.list_le, more))))
          ]
        ]
      ]
