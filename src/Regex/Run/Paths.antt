-- ===== src/Regex/Run/Paths.antt =====
-- The matcher of src/regex.c follows paths of its program: the stack's entries bring back the
-- registers that a thread had when it was left.
use xzile.Prelude.{
  ℕ, zero, suc, ◌+◌, ◌-◌, ◌*◌, ◌/◌, ◌%◌, ◌^◌, ◌≤◌, ◌<◌, min, max, ◌≡◌, refl, sym, ap, ap₂, ◌∙◌,
  fun_ext, ◌≢◌, ◌↔◌, ◌⊎◌, inl, inr, Bool, true, false, ◌&&◌, ◌||◌, not, Option, none, some, List,
  [], ◌∷◌, ◌++◌, map, append-nil, append_assoc, arith, ltb, leb, ◌==◌, if◌then◌else◌, ltb→lt,
  lt→ltb, leb→le, ==_iff, tests, Bool-cases, Option-cases, length, get_elem?, set, get_or, take,
  drop, replicate, length-append, length-set, length-take, length-drop, length-replicate,
  length-map, take-append-drop, ext_get, get-append, get-take, get-drop, get-replicate, get-ge,
  drop-nil, drop-drop, drop-cons_pos, drop-ge, take-ge, slices, lengths,
}
pub mod Alike
pub mod Complete
use mathlib.Core.Path.{subst}
use mathlib.Core.Option.{some-injective}
use xzile.VTerm.Dispatch.Safe.{either_lem}
use xzile.Regex.{
  ℤ, pos, negsuc, Inst, op_char, op_any, op_set, op_bol, op_eol, op_bob, op_eob, op_wordb,
  op_nwordb, op_wstart, op_wend, op_wordchar, op_nwordchar, op_space, op_nspace, op_split, op_jmp,
  op_save, op_mark, op_check, op_backref, op_match, CharSet, Regex,
}
use xzile.Regex.Run.{
  Ctype, Subject, BtEntry, bt_thread, bt_restore, StepOutcome, goes, fails, matches, faults,
  MatchResult, match_end, no_match, too_complex, fault, Resumed, resumes, exhausted, no_register,
  next_thread, char_len_at, saves_reg, jump, checks, backref, alike, step_char, on_char, step_inst,
  run_thread, match_here, consumes, asserts,
}

-- One step of a program, whatever the stack: as its instruction says, or at an OP_SPLIT to the
-- alternative.
pub data Step (ct : Ctype) (re : Regex) (s : Subject) (pc sp : ℕ) (regs : List (Option ℕ))
    : ℕ → ℕ → List (Option ℕ) → Type 0 where
  runs :
      {pc' sp' : ℕ} {regs' : List (Option ℕ)} (i : Inst) (st st' : List BtEntry)
      → get_elem? re.prog pc ≡ some i
      → step_inst ct re s i pc sp st regs ≡ goes pc' sp' st' regs'
      → Step ct re s pc sp regs pc' sp' regs'
  turns :
      (a b : ℕ)
      → get_elem? re.prog pc ≡ some (op_split a b)
      → Step ct re s pc sp regs (pc + b) sp regs

-- What a path from the start of the program reaches.
pub data Reaches (ct : Ctype) (re : Regex) (s : Subject) (start : ℕ)
    : ℕ → ℕ → List (Option ℕ) → Type 0 where
  begins : Reaches ct re s start 0 start (replicate re.nregs none)
  continues :
      {pc sp pc' sp' : ℕ} {regs regs' : List (Option ℕ)}
      → Reaches ct re s start pc sp regs
      → Step ct re s pc sp regs pc' sp' regs'
      → Reaches ct re s start pc' sp' regs'

set-restored :
    (regs : List (Option ℕ)) (r : ℕ) (old new : Option ℕ)
    → get_elem? regs r ≡ some old
    → set (set regs r new) r old ≡ regs
set-restored [] r old new e = absurd (ground arith)
set-restored (x ∷ regs) zero old new e = ap (◌∷ regs) (sym (some-injective x old e))
set-restored (x ∷ regs) (suc r) old new e = ap (x ∷◌) (set-restored regs r old new e)

module _ (ct : Ctype) (re : Regex) (s : Subject) (start : ℕ) where
  -- Every thread of the stack is reached, with the registers that the entries above it bring back.
  AllReached : List BtEntry → List (Option ℕ) → Type 0
  AllReached [] regs = Unit
  AllReached (bt_thread pc sp ∷ st) regs = Reaches ct re s start pc sp regs × AllReached st regs
  AllReached (bt_restore r val ∷ st) regs = AllReached st (set regs r val)

  IsKept : StepOutcome → Type 0
  IsKept (goes pc sp st regs) = AllReached st regs
  IsKept fails = Unit
  IsKept matches = ⊥
  IsKept faults = Unit

  IsBack : Resumed → Type 0
  IsBack (resumes pc sp st regs) = Reaches ct re s start pc sp regs × AllReached st regs
  IsBack (exhausted regs) = Unit
  IsBack no_register = Unit

  -- The end of a match is reached by a path to OP_MATCH.
  unfoldable pub IsFound : MatchResult → Type 0
  IsFound (match_end end regs) =
      (pc : ℕ) × Reaches ct re s start pc end regs × (get_elem? re.prog pc ≡ some op_match)
  IsFound (no_match regs steps) = Unit
  IsFound too_complex = Unit
  IsFound fault = Unit

  next_thread-IsBack :
      (st : List BtEntry) (regs : List (Option ℕ))
      → AllReached st regs
      → IsBack (next_thread st regs)
  unfolding next_thread AllReached IsBack
  next_thread-IsBack [] regs a = tt
  next_thread-IsBack (bt_thread pc sp ∷ st) regs (r, a) = (r, a)
  next_thread-IsBack (bt_restore r val ∷ st) regs a =
      either_lem IsBack (ltb r (length regs)) (next_thread st (set regs r val)) no_register
        (next_thread-IsBack st (set regs r val) a) tt

  module _ (pc sp : ℕ) (st : List BtEntry) (regs : List (Option ℕ)) (a : AllReached st regs) where
    asserts-IsKept : (ok : Bool) → IsKept (asserts ok pc sp st regs)
    unfolding IsKept
    asserts-IsKept true = a
    asserts-IsKept false = tt

    consumes-IsKept : (ok : Bool) (n : ℕ) → IsKept (consumes ok n pc sp st regs)
    unfolding IsKept
    consumes-IsKept true n = a
    consumes-IsKept false n = tt

    saves_reg-IsKept : (r : ℕ) → IsKept (saves_reg r pc sp st regs)
    unfolding saves_reg IsKept AllReached
    saves_reg-IsKept r = elim (Option-cases (get_elem? regs r)) [
      | inl e ↦ rw (saves_reg, e) tt
      | inr (old, e) ↦
          rw (saves_reg, e) (subst (AllReached st) (sym (set-restored regs r old (some sp) e)) a)
    ]

    checks-IsKept : (r : ℕ) → IsKept (checks r pc sp st regs)
    unfolding checks IsKept
    checks-IsKept r = elim (Option-cases (get_elem? regs r)) [
      | inl e ↦ rw (checks, e) tt
      | inr (old, e) ↦ rw (checks, e) (asserts-IsKept _)
    ]

    jump-IsKept : (d : ℤ) → IsKept (jump pc d st sp regs)
    unfolding jump IsKept
    jump-IsKept (pos d) = a
    jump-IsKept (negsuc d) = either_lem IsKept (ltb d pc) (goes (pc - suc d) sp st regs) faults a tt

    backref-IsKept : (gs ge : Option ℕ) → IsKept (backref ct re s gs ge pc sp st regs)
    unfolding backref IsKept
    backref-IsKept none ge = tt
    backref-IsKept (some gs) none = tt
    backref-IsKept (some gs) (some ge) =
        either_lem IsKept (ltb ge gs) fails _ tt
          (either_lem IsKept (ltb (length s.text) ge) faults _ tt (consumes-IsKept _ (ge - gs)))

    step_char-IsKept : (i : Inst) (c : ℕ) → IsKept (step_char ct re s i c pc sp st regs)
    unfolding step_char IsKept
    step_char-IsKept (op_char x) c = consumes-IsKept _ _
    step_char-IsKept op_any c = consumes-IsKept _ _
    step_char-IsKept (op_set index) c = elim (Option-cases (get_elem? re.sets index)) [
      | inl e ↦ rw (step_char, e) tt
      | inr (cs, e) ↦ rw (step_char, e) (consumes-IsKept _ _)
    ]
    step_char-IsKept op_wordchar c = consumes-IsKept _ _
    step_char-IsKept op_nwordchar c = consumes-IsKept _ _
    step_char-IsKept op_space c = consumes-IsKept _ _
    step_char-IsKept op_nspace c = consumes-IsKept _ _
    step_char-IsKept _ c = tt

    on_char-IsKept : (i : Inst) → IsKept (on_char ct re s i pc sp st regs)
    unfolding IsKept
    on_char-IsKept i = elim (Option-cases (get_elem? s.text sp)) [
      | inl e ↦ rw (on_char, e) tt
      | inr (c, e) ↦ rw (on_char, e) (step_char-IsKept i c)
    ]

    step_inst-IsKept :
        (i : Inst)
        → Reaches ct re s start pc sp regs
        → get_elem? re.prog pc ≡ some i
        → (i ≡ op_match) ⊎ IsKept (step_inst ct re s i pc sp st regs)
    unfolding step_inst IsKept AllReached
    step_inst-IsKept (op_split x y) h e = inr (continues h (turns x y e), a)
    step_inst-IsKept (op_jmp d) h e = inr (jump-IsKept d)
    step_inst-IsKept (op_save r) h e = inr (saves_reg-IsKept r)
    step_inst-IsKept (op_mark r) h e = inr (saves_reg-IsKept _)
    step_inst-IsKept (op_check r) h e = inr (checks-IsKept _)
    step_inst-IsKept (op_backref g) h e = elim (Option-cases (get_elem? regs (2 * g))) [
      | inl q ↦ inr (rw (step_inst, q) tt)
      | inr (gs, q) ↦ elim (Option-cases (get_elem? regs (2 * g + 1))) [
        | inl d ↦ inr (rw (step_inst, q, d) tt)
        | inr (ge, d) ↦ inr (rw (step_inst, q, d) (backref-IsKept gs ge))
      ]
    ]
    step_inst-IsKept op_match h e = inl refl
    step_inst-IsKept op_bol h e = inr (asserts-IsKept _)
    step_inst-IsKept op_eol h e = inr (asserts-IsKept _)
    step_inst-IsKept op_bob h e = inr (asserts-IsKept _)
    step_inst-IsKept op_eob h e = inr (asserts-IsKept _)
    step_inst-IsKept op_wordb h e = inr (asserts-IsKept _)
    step_inst-IsKept op_nwordb h e = inr (asserts-IsKept _)
    step_inst-IsKept op_wstart h e = inr (asserts-IsKept _)
    step_inst-IsKept op_wend h e = inr (asserts-IsKept _)
    step_inst-IsKept (op_char x) h e = inr (on_char-IsKept (op_char x))
    step_inst-IsKept op_any h e = inr (on_char-IsKept op_any)
    step_inst-IsKept (op_set x) h e = inr (on_char-IsKept (op_set x))
    step_inst-IsKept op_wordchar h e = inr (on_char-IsKept op_wordchar)
    step_inst-IsKept op_nwordchar h e = inr (on_char-IsKept op_nwordchar)
    step_inst-IsKept op_space h e = inr (on_char-IsKept op_space)
    step_inst-IsKept op_nspace h e = inr (on_char-IsKept op_nspace)

  module _ (steps pc sp : ℕ) (st : List BtEntry) (regs : List (Option ℕ)) (i : Inst)
      (h : Reaches ct re s start pc sp regs) (a : AllReached st regs)
      (at : get_elem? re.prog pc ≡ some i)
      (rest : (pc' sp' : ℕ) (st' : List BtEntry) (regs' : List (Option ℕ))
        → Reaches ct re s start pc' sp' regs'
        → AllReached st' regs'
        → IsFound (run_thread ct re s steps pc' sp' st' regs')) where
    resumed-IsFound :
        (r : Resumed)
        → step_inst ct re s i pc sp st regs ≡ fails
        → next_thread st regs ≡ r
        → IsBack r
        → IsFound (run_thread ct re s (suc steps) pc sp st regs)
    unfolding run_thread IsFound IsBack
    resumed-IsFound (resumes pc' sp' st' regs') e q (v, w) =
        rw (run_thread, at, e, q) (rest pc' sp' st' regs' v w)
    resumed-IsFound (exhausted regs') e q v = rw (run_thread, at, e, q) tt
    resumed-IsFound no_register e q v = rw (run_thread, at, e, q) tt

    outcome-IsFound :
        (o : StepOutcome)
        → step_inst ct re s i pc sp st regs ≡ o
        → IsKept o
        → IsFound (run_thread ct re s (suc steps) pc sp st regs)
    unfolding run_thread IsFound IsKept
    outcome-IsFound (goes pc' sp' st' regs') e v =
        rw (run_thread, at, e) (rest pc' sp' st' regs' (continues h (runs i st st' at e)) v)
    outcome-IsFound fails e v =
        resumed-IsFound (next_thread st regs) e refl (next_thread-IsBack st regs a)
    outcome-IsFound matches e v = absurd v
    outcome-IsFound faults e v = rw (run_thread, at, e) tt

    matched-IsFound : i ≡ op_match → IsFound (run_thread ct re s (suc steps) pc sp st regs)
    unfolding run_thread step_inst IsFound
    matched-IsFound q =
        let last = subst (λ x. get_elem? re.prog pc ≡ some x) q at in
        rw (run_thread, last) (pc, h, last)

    thread-IsFound : IsFound (run_thread ct re s (suc steps) pc sp st regs)
    thread-IsFound = elim (step_inst-IsKept pc sp st regs a i h at) [
      | inl q ↦ matched-IsFound q
      | inr v ↦ outcome-IsFound (step_inst ct re s i pc sp st regs) refl v
    ]

  run_thread-IsFound :
      (steps pc sp : ℕ) (st : List BtEntry) (regs : List (Option ℕ))
      → Reaches ct re s start pc sp regs
      → AllReached st regs
      → IsFound (run_thread ct re s steps pc sp st regs)
  unfolding run_thread IsFound
  run_thread-IsFound zero pc sp st regs h a = tt
  run_thread-IsFound (suc steps) pc sp st regs h a = elim (Option-cases (get_elem? re.prog pc)) [
    | inl e ↦ rw (run_thread, e) tt
    | inr (i, e) ↦
        thread-IsFound steps pc sp st regs i h a e
          (λ pc' sp' st' regs' h' a'. run_thread-IsFound steps pc' sp' st' regs' h' a')
  ]

  pub match_here-IsFound : (steps : ℕ) → IsFound (match_here ct re s steps start)
  unfolding match_here AllReached
  match_here-IsFound steps = run_thread-IsFound steps 0 start [] _ begins tt
