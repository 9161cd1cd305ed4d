-- ===== src/Regex/Run/Paths/Complete.antt =====
-- The matcher of src/regex.c leaves no path out: where it finds nothing, no path
-- through the program leads to a match.
use xzile.Prelude.{
  ℕ, zero, suc, ◌≡◌, refl, sym, ap, ◌∙◌, inl, inr, Option, none, some, List, [], ◌∷◌, ltb,
  Option-cases, length, get_elem?, set, replicate,
}
use mathlib.Core.Path.{subst}
use mathlib.Core.Option.{some-injective}
use xzile.VTerm.Dispatch.Safe.{either_lem}
use xzile.Regex.{Inst, op_split, op_match, Regex}
use xzile.Regex.Run.{
  Ctype, Subject, BtEntry, bt_thread, bt_restore, StepOutcome, goes, fails, matches, faults,
  MatchResult, match_end, no_match, too_complex, fault, Resumed, resumes, exhausted, no_register,
  next_thread, step_inst, run_thread, match_here,
}
use xzile.Regex.Run.Paths.{runs, turns, Reaches, IsFound, match_here-IsFound}
use xzile.Regex.Run.Paths.Alike.{
  Accepts, ends, steps, Refuses, AllRefuse, IsAlike, step_inst-IsAlike,
}

module _ (ct : Ctype) (re : Regex) (s : Subject) where
  -- What is known of a run's result when steps are left.
  Known : Type 0 → MatchResult → Type 0
  Known P (match_end end regs) = Unit
  Known P too_complex = Unit
  Known P (no_match regs n) = P
  Known P fault = Unit

  known : (P : Type 0) (r : MatchResult) → P → Known P r
  unfolding Known
  known P (match_end end regs) p = tt
  known P too_complex p = tt
  known P (no_match regs n) p = p
  known P fault p = tt

  Known-map : (P Q : Type 0) (r : MatchResult) → (P → Q) → Known P r → Known Q r
  unfolding Known
  Known-map P Q (match_end end regs) f p = tt
  Known-map P Q too_complex f p = tt
  Known-map P Q (no_match regs n) f p = f p
  Known-map P Q fault f p = tt

  -- What the next thread of the stack says of the stack.
  IsNext : List BtEntry → List (Option ℕ) → Resumed → Type 0
  IsNext st regs (resumes pc sp st' regs') =
      Refuses ct re s pc sp regs' × AllRefuse ct re s st' regs' → AllRefuse ct re s st regs
  IsNext st regs (exhausted regs') = AllRefuse ct re s st regs
  IsNext st regs no_register = Unit

  restored :
      (st : List BtEntry) (regs : List (Option ℕ)) (r : ℕ) (val : Option ℕ) (n : Resumed)
      → IsNext st (set regs r val) n
      → IsNext (bt_restore r val ∷ st) regs n
  unfolding IsNext AllRefuse
  restored st regs r val (resumes pc sp st' regs') h = h
  restored st regs r val (exhausted regs') h = h
  restored st regs r val no_register h = tt

  next_thread-IsNext :
      (st : List BtEntry) (regs : List (Option ℕ)) → IsNext st regs (next_thread st regs)
  unfolding next_thread IsNext AllRefuse
  next_thread-IsNext [] regs = tt
  next_thread-IsNext (bt_thread pc sp ∷ st) regs = λ a. a
  next_thread-IsNext (bt_restore r val ∷ st) regs =
      either_lem (IsNext (bt_restore r val ∷ st) regs) (ltb r (length regs))
        (next_thread st (set regs r val)) no_register
        (restored st regs r val _ (next_thread-IsNext st (set regs r val))) tt

  -- The stack of an outcome, and the thread that goes on.
  GoesDead : StepOutcome → Type 0
  GoesDead (goes pc sp st regs) = Refuses ct re s pc sp regs × AllRefuse ct re s st regs
  GoesDead fails = Unit
  GoesDead matches = ⊥
  GoesDead faults = ⊥

  refused_step :
      (pc sp : ℕ) (st st2 st' : List BtEntry) (regs regs' : List (Option ℕ)) (pc' sp' : ℕ)
      → (o : StepOutcome) → IsAlike ct re s pc sp st st2 regs o (goes pc' sp' st' regs')
      → GoesDead o
      → Refuses ct re s pc' sp' regs'
  unfolding IsAlike GoesDead Refuses
  refused_step pc sp st st2 st' regs regs' pc' sp' (goes a b c d) ((p, q, r), k) (n, m) acc =
      let at_pc = subst (λ x. Accepts ct re s x sp' regs') (sym p) acc in
      let at_sp = subst (λ x. Accepts ct re s a x regs') (sym q) at_pc in
      n (subst (Accepts ct re s a b) (sym r) at_sp)
  refused_step pc sp st st2 st' regs regs' pc' sp' fails h g acc = absurd h
  refused_step pc sp st st2 st' regs regs' pc' sp' matches h g acc = absurd g
  refused_step pc sp st st2 st' regs regs' pc' sp' faults h g acc = absurd g

  -- Where an instruction fails or goes on to nothing, no path leads to a match.
  refused :
      (pc sp : ℕ) (st : List BtEntry) (regs : List (Option ℕ)) (i : Inst)
      → get_elem? re.prog pc ≡ some i
      → GoesDead (step_inst ct re s i pc sp st regs)
      → Refuses ct re s pc sp regs
  unfolding Refuses GoesDead step_inst AllRefuse
  refused pc sp st regs i at d (ends q) =
      subst (λ j. GoesDead (step_inst ct re s j pc sp st regs))
        (some-injective i op_match (sym at ∙ q)) d
  refused pc sp st regs i at d (steps (runs j st2 st' q f) rest) =
      let g = ap (λ k. step_inst ct re s k pc sp st2 regs) (some-injective i j (sym at ∙ q)) ∙ f in
      let h =
        subst (IsAlike ct re s pc sp st st2 regs (step_inst ct re s i pc sp st regs)) g
          (step_inst-IsAlike ct re s pc sp st st2 regs i) in
      refused_step pc sp st st2 st' regs _ _ _ (step_inst ct re s i pc sp st regs) h d rest
  refused pc sp st regs i at d (steps (turns x y q) rest) =
      let dead =
        subst (λ j. GoesDead (step_inst ct re s j pc sp st regs))
          (some-injective i (op_split x y) (sym at ∙ q)) d in
      dead.1.0 rest

  -- The thread and the stack of a run have no path to a match.
  AllDead : ℕ → ℕ → List BtEntry → List (Option ℕ) → Type 0
  AllDead pc sp st regs = Refuses ct re s pc sp regs × AllRefuse ct re s st regs

  module _ (n pc sp : ℕ) (st : List BtEntry) (regs : List (Option ℕ)) (i : Inst)
      (at : get_elem? re.prog pc ≡ some i)
      (rest : (pc' sp' : ℕ) (st' : List BtEntry) (regs' : List (Option ℕ))
        → Known (AllDead pc' sp' st' regs') (run_thread ct re s n pc' sp' st' regs')) where
    -- With nothing behind this step, there is nothing from here.
    step-AllDead :
        GoesDead (step_inst ct re s i pc sp st regs)
        → AllRefuse ct re s st regs
        → AllDead pc sp st regs
    unfolding AllDead
    step-AllDead d a = (refused pc sp st regs i at d, a)

    resumed-Known :
        (r : Resumed)
        → step_inst ct re s i pc sp st regs ≡ fails
        → next_thread st regs ≡ r
        → IsNext st regs r
        → Known (AllDead pc sp st regs) (run_thread ct re s (suc n) pc sp st regs)
    unfolding run_thread Known IsNext GoesDead AllDead
    resumed-Known (resumes pc' sp' st' regs') e q v =
        let dead = subst GoesDead (sym e) tt in
        let r = run_thread ct re s n pc' sp' st' regs' in
        rw (run_thread, at, e, q)
          (Known-map (AllDead pc' sp' st' regs') (AllDead pc sp st regs) r
            (λ p. step-AllDead dead (v p)) (rest pc' sp' st' regs'))
    resumed-Known (exhausted regs') e q v =
        let dead = subst GoesDead (sym e) tt in
        rw (run_thread, at, e, q)
          (known (AllDead pc sp st regs) (no_match regs' n) (step-AllDead dead v))
    resumed-Known no_register e q v = rw (run_thread, at, e, q) tt

    outcome-Known :
        (o : StepOutcome)
        → step_inst ct re s i pc sp st regs ≡ o
        → Known (AllDead pc sp st regs) (run_thread ct re s (suc n) pc sp st regs)
    unfolding run_thread Known IsAlike GoesDead AllDead
    outcome-Known (goes pc' sp' st' regs') e =
        let r = run_thread ct re s n pc' sp' st' regs' in
        let alike =
          subst (λ o. IsAlike ct re s pc sp st st regs o o) e
            (step_inst-IsAlike ct re s pc sp st st regs i) in
        rw (run_thread, at, e)
          (Known-map (AllDead pc' sp' st' regs') (AllDead pc sp st regs) r
            (λ p. step-AllDead (subst GoesDead (sym e) p) (alike.1 p.1)) (rest pc' sp' st' regs'))
    outcome-Known fails e = resumed-Known (next_thread st regs) e refl (next_thread-IsNext st regs)
    outcome-Known matches e = rw (run_thread, at, e) tt
    outcome-Known faults e = rw (run_thread, at, e) tt

  run_thread-Known :
      (n pc sp : ℕ) (st : List BtEntry) (regs : List (Option ℕ))
      → Known (AllDead pc sp st regs) (run_thread ct re s n pc sp st regs)
  unfolding run_thread Known
  run_thread-Known zero pc sp st regs = tt
  run_thread-Known (suc n) pc sp st regs = elim (Option-cases (get_elem? re.prog pc)) [
    | inl e ↦ rw (run_thread, e) tt
    | inr (i, e) ↦
        outcome-Known n pc sp st regs i e
          (λ pc' sp' st' regs'. run_thread-Known n pc' sp' st' regs') _ refl
  ]

  -- A match that is found, with its registers, is at the end of a path from `start`; and when none
  -- is found, no path from there leads to OP_MATCH.
  unfoldable pub IsAnswer : ℕ → MatchResult → Type 0
  IsAnswer start (match_end end regs) =
      (pc : ℕ) × Reaches ct re s start pc end regs × (get_elem? re.prog pc ≡ some op_match)
  IsAnswer start too_complex = Unit
  IsAnswer start (no_match regs n) = Accepts ct re s 0 start (replicate re.nregs none) → ⊥
  IsAnswer start fault = Unit

  both-IsAnswer :
      (start : ℕ) (st : List BtEntry) (r : MatchResult)
      → IsFound ct re s start r
      → Known (AllDead 0 start st (replicate re.nregs none)) r
      → IsAnswer start r
  unfolding IsFound IsAnswer Known AllDead Refuses
  both-IsAnswer start st (match_end end regs) f k = f
  both-IsAnswer start st too_complex f k = tt
  both-IsAnswer start st (no_match regs n) f k = k.0
  both-IsAnswer start st fault f k = tt

  -- A match that the backtracking matcher finds, with its registers, is where a path through the
  -- program from the start position reaches OP_MATCH, so that backtracking restores the registers;
  -- and where it finds none, there is no path from there to OP_MATCH. A step of a path is that of
  -- its instruction with any stack, or at OP_SPLIT to the alternative.
  pub match_here-IsAnswer : (n start : ℕ) → IsAnswer start (match_here ct re s n start)
  unfolding match_here
  match_here-IsAnswer n start =
      both-IsAnswer start [] _ (match_here-IsFound ct re s start n)
        (run_thread-Known n 0 start [] (replicate re.nregs none))
