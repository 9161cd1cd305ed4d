-- ===== src/Regex/Run/Paths/Alike.antt =====
-- An instruction of src/regex.c does the same whatever the stack is.
use xzile.Prelude.{
  ℕ, ◌+◌, ◌-◌, ◌*◌, ◌≡◌, refl, inl, inr, Bool, true, false, Option, none, some, List, [], ◌∷◌, ltb,
  Bool-cases, Option-cases, length, get_elem?, set,
}
use mathlib.Core.Path.{subst}
use xzile.Regex.{
  ℤ, pos, negsuc, Inst, op_char, op_any, op_set, op_bol, op_eol, op_bob, op_eob, op_wordb,
  op_nwordb, op_wstart, op_wend, op_wordchar, op_nwordchar, op_space, op_nspace, op_split, op_jmp,
  op_save, op_mark, op_check, op_backref, op_match, Regex,
}
use xzile.Regex.Run.{
  Ctype, Subject, BtEntry, bt_thread, bt_restore, StepOutcome, goes, fails, matches, faults,
  saves_reg, jump, checks, backref, step_char, on_char, step_inst, consumes, asserts,
}
use xzile.Regex.Run.Paths.{Step, set-restored}

-- A path leads from here to OP_MATCH.
pub data Accepts (ct : Ctype) (re : Regex) (s : Subject) : ℕ → ℕ → List (Option ℕ) → Type 0 where
  ends :
      {pc sp : ℕ} {regs : List (Option ℕ)}
      → get_elem? re.prog pc ≡ some op_match
      → Accepts ct re s pc sp regs
  steps :
      {pc sp pc' sp' : ℕ} {regs regs' : List (Option ℕ)}
      → Step ct re s pc sp regs pc' sp' regs'
      → Accepts ct re s pc' sp' regs'
      → Accepts ct re s pc sp regs

module _ (ct : Ctype) (re : Regex) (s : Subject) where
  unfoldable pub Refuses : ℕ → ℕ → List (Option ℕ) → Type 0
  Refuses pc sp regs = Accepts ct re s pc sp regs → ⊥

  -- No thread of the stack leads to a match.
  unfoldable pub AllRefuse : List BtEntry → List (Option ℕ) → Type 0
  AllRefuse [] regs = Unit
  AllRefuse (bt_thread pc sp ∷ st) regs = Refuses pc sp regs × AllRefuse st regs
  AllRefuse (bt_restore r val ∷ st) regs = AllRefuse st (set regs r val)

  module _ (pc sp : ℕ) (st st2 : List BtEntry) (regs : List (Option ℕ)) where
    -- An instruction does the same with another stack, and a stack that it leaves with no match
    -- means that there was none on the stack before.
    unfoldable pub IsAlike : StepOutcome → StepOutcome → Type 0
    IsAlike (goes a b c d) (goes a' b' c' d') =
        ((a ≡ a') × (b ≡ b') × (d ≡ d')) × (AllRefuse c d → AllRefuse st regs)
    IsAlike fails fails = Unit
    IsAlike matches matches = Unit
    IsAlike faults faults = Unit
    IsAlike _ _ = ⊥

    asserts-IsAlike : (ok : Bool) → IsAlike (asserts ok pc sp st regs) (asserts ok pc sp st2 regs)
    unfolding IsAlike
    asserts-IsAlike true = ((refl, refl, refl), λ a. a)
    asserts-IsAlike false = tt

    consumes-IsAlike :
        (ok : Bool) (n : ℕ) → IsAlike (consumes ok n pc sp st regs) (consumes ok n pc sp st2 regs)
    unfolding IsAlike
    consumes-IsAlike true n = ((refl, refl, refl), λ a. a)
    consumes-IsAlike false n = tt

    saves_reg-IsAlike : (r : ℕ) → IsAlike (saves_reg r pc sp st regs) (saves_reg r pc sp st2 regs)
    unfolding saves_reg IsAlike AllRefuse
    saves_reg-IsAlike r = elim (Option-cases (get_elem? regs r)) [
      | inl e ↦ rw (saves_reg, e) tt
      | inr (old, e) ↦
          rw (saves_reg, e)
            ((refl, refl, refl), λ a. subst (AllRefuse st) (set-restored regs r old (some sp) e) a)
    ]

    checks-IsAlike : (r : ℕ) → IsAlike (checks r pc sp st regs) (checks r pc sp st2 regs)
    unfolding checks IsAlike
    checks-IsAlike r = elim (Option-cases (get_elem? regs r)) [
      | inl e ↦ rw (checks, e) tt
      | inr (old, e) ↦ rw (checks, e) (asserts-IsAlike _)
    ]

    jump-IsAlike : (d : ℤ) → IsAlike (jump pc d st sp regs) (jump pc d st2 sp regs)
    unfolding jump IsAlike
    jump-IsAlike (pos d) = ((refl, refl, refl), λ a. a)
    jump-IsAlike (negsuc d) = elim (Bool-cases (ltb d pc)) [
      | inl e ↦ rw (jump, e) ((refl, refl, refl), λ a. a)
      | inr e ↦ rw (jump, e) tt
    ]

    backref-IsAlike :
        (gs ge : Option ℕ)
        → IsAlike (backref ct re s gs ge pc sp st regs) (backref ct re s gs ge pc sp st2 regs)
    unfolding backref IsAlike
    backref-IsAlike none ge = tt
    backref-IsAlike (some gs) none = tt
    backref-IsAlike (some gs) (some ge) = elim (Bool-cases (ltb ge gs)) [
      | inl e ↦ rw (backref, e) tt
      | inr e ↦ elim (Bool-cases (ltb (length s.text) ge)) [
        | inl d ↦ rw (backref, e, d) tt
        | inr d ↦ rw (backref, e, d) (consumes-IsAlike _ (ge - gs))
      ]
    ]

    step_char-IsAlike :
        (i : Inst) (c : ℕ)
        → IsAlike (step_char ct re s i c pc sp st regs) (step_char ct re s i c pc sp st2 regs)
    unfolding step_char IsAlike
    step_char-IsAlike (op_char x) c = consumes-IsAlike _ _
    step_char-IsAlike op_any c = consumes-IsAlike _ _
    step_char-IsAlike (op_set index) c = elim (Option-cases (get_elem? re.sets index)) [
      | inl e ↦ rw (step_char, e) tt
      | inr (cs, e) ↦ rw (step_char, e) (consumes-IsAlike _ _)
    ]
    step_char-IsAlike op_wordchar c = consumes-IsAlike _ _
    step_char-IsAlike op_nwordchar c = consumes-IsAlike _ _
    step_char-IsAlike op_space c = consumes-IsAlike _ _
    step_char-IsAlike op_nspace c = consumes-IsAlike _ _
    step_char-IsAlike _ c = tt

    on_char-IsAlike :
        (i : Inst) → IsAlike (on_char ct re s i pc sp st regs) (on_char ct re s i pc sp st2 regs)
    unfolding IsAlike
    on_char-IsAlike i = elim (Option-cases (get_elem? s.text sp)) [
      | inl e ↦ rw (on_char, e) tt
      | inr (c, e) ↦ rw (on_char, e) (step_char-IsAlike i c)
    ]

    pub step_inst-IsAlike :
        (i : Inst)
        → IsAlike (step_inst ct re s i pc sp st regs) (step_inst ct re s i pc sp st2 regs)
    unfolding step_inst IsAlike AllRefuse
    step_inst-IsAlike (op_split x y) = ((refl, refl, refl), λ a. a.1)
    step_inst-IsAlike (op_jmp d) = jump-IsAlike d
    step_inst-IsAlike (op_save r) = saves_reg-IsAlike r
    step_inst-IsAlike (op_mark r) = saves_reg-IsAlike _
    step_inst-IsAlike (op_check r) = checks-IsAlike _
    step_inst-IsAlike (op_backref g) = elim (Option-cases (get_elem? regs (2 * g))) [
      | inl q ↦ rw (step_inst, q) tt
      | inr (gs, q) ↦ elim (Option-cases (get_elem? regs (2 * g + 1))) [
        | inl d ↦ rw (step_inst, q, d) tt
        | inr (ge, d) ↦ rw (step_inst, q, d) (backref-IsAlike gs ge)
      ]
    ]
    step_inst-IsAlike op_match = tt
    step_inst-IsAlike op_bol = asserts-IsAlike _
    step_inst-IsAlike op_eol = asserts-IsAlike _
    step_inst-IsAlike op_bob = asserts-IsAlike _
    step_inst-IsAlike op_eob = asserts-IsAlike _
    step_inst-IsAlike op_wordb = asserts-IsAlike _
    step_inst-IsAlike op_nwordb = asserts-IsAlike _
    step_inst-IsAlike op_wstart = asserts-IsAlike _
    step_inst-IsAlike op_wend = asserts-IsAlike _
    step_inst-IsAlike (op_char x) = on_char-IsAlike (op_char x)
    step_inst-IsAlike op_any = on_char-IsAlike op_any
    step_inst-IsAlike (op_set x) = on_char-IsAlike (op_set x)
    step_inst-IsAlike op_wordchar = on_char-IsAlike op_wordchar
    step_inst-IsAlike op_nwordchar = on_char-IsAlike op_nwordchar
    step_inst-IsAlike op_space = on_char-IsAlike op_space
    step_inst-IsAlike op_nspace = on_char-IsAlike op_nspace
