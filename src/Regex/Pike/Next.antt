-- ===== src/Regex/Pike/Next.antt =====
-- A step of a path of src/regex.c that is no back-reference is one that a thread of `pike_run` can
-- take.
use xzile.Prelude.{
  ℕ, zero, suc, ◌+◌, ◌<◌, ◌≡◌, refl, ◌∙◌, inl, inr, Bool, true, false, not, Option, some, List,
  arith, ltb, if◌then◌else◌, ltb→lt, Option-cases, get_elem?,
}
use xzile.VTerm.Dispatch.Safe.{either_checked}
use xzile.Regex.{
  pos, negsuc, Inst, op_char, op_any, op_set, op_bol, op_eol, op_bob, op_eob, op_wordb, op_nwordb,
  op_wstart, op_wend, op_wordchar, op_nwordchar, op_space, op_nspace, op_split, op_jmp, op_save,
  op_mark, op_check, op_backref, op_match, Regex,
}
use xzile.Regex.Run.{
  Ctype, Subject, BtEntry, StepOutcome, goes, fails, matches, faults, char_len_at, same, in_charset,
  step_inst, step_char, on_char, consumes, asserts, saves_reg, jump, checks,
}
use xzile.Regex.Pike.{bytes_if, check_assertion, char_bytes, inst_bytes}
use xzile.Regex.Pike.Kept.{Target}
use xzile.Regex.Pike.Control.{Control, moves, reads}

module _ (ct : Ctype) (re : Regex) (s : Subject) (start : ℕ) where
  -- A thread that goes on can be where it goes.
  unfoldable pub IsNext : StepOutcome → Type 0
  IsNext (goes pc sp st regs) = Control ct re s start pc sp
  IsNext fails = Unit
  IsNext matches = Unit
  IsNext faults = Unit

  positive-Control :
      (pc sp n : ℕ) (i : Inst)
      → Control ct re s start pc sp
      → get_elem? re.prog pc ≡ some i
      → 0 < n
      → inst_bytes ct re s i sp ≡ some n
      → Control ct re s start (pc + 1) (sp + n)
  positive-Control pc sp zero i c e h b = absurd (omega (arith, h))
  positive-Control pc sp (suc n) i c e h b = reads i n c e b

  char_len_at_pos : (sp : ℕ) → 0 < (char_len_at s sp).0
  unfolding char_len_at
  char_len_at_pos sp = ground arith

  module _ (pc sp : ℕ) (st : List BtEntry) (regs : List (Option ℕ))
      (c : Control ct re s start pc sp) where
    asserted-IsNext :
        (i : Inst) (ok : Bool)
        → (ok ≡ true → Target ct s i pc sp (pc + 1))
        → get_elem? re.prog pc ≡ some i
        → IsNext (asserts ok pc sp st regs)
    unfolding IsNext
    asserted-IsNext i true f e = moves i c e (f refl)
    asserted-IsNext i false f e = tt

    consumed-IsNext :
        (i : Inst) (ok : Bool) (n : ℕ)
        → get_elem? re.prog pc ≡ some i
        → 0 < n
        → inst_bytes ct re s i sp ≡ bytes_if ok n
        → IsNext (consumes ok n pc sp st regs)
    unfolding IsNext
    consumed-IsNext i true n e h b = positive-Control pc sp n i c e h b
    consumed-IsNext i false n e h b = tt

    module _ (b : ℕ) (at : get_elem? s.text sp ≡ some b) where
      read_at : (i : Inst) → inst_bytes ct re s i sp ≡ char_bytes ct re s i b sp
      unfolding inst_bytes
      read_at i = rw (inst_bytes, at) refl

      one_or_more_pos : (k : Bool) → 0 < (if k then 1 else (char_len_at s sp).0)
      one_or_more_pos true = omega arith
      one_or_more_pos false = char_len_at_pos sp

      more_or_one_pos : (k : Bool) → 0 < (if k then (char_len_at s sp).0 else 1)
      more_or_one_pos true = char_len_at_pos sp
      more_or_one_pos false = omega arith

      step_char-IsNext :
          (i : Inst) → get_elem? re.prog pc ≡ some i → IsNext (step_char ct re s i b pc sp st regs)
      unfolding step_char char_bytes IsNext
      step_char-IsNext (op_char a) e =
          consumed-IsNext (op_char a) _ 1 e (omega arith) (read_at (op_char a))
      step_char-IsNext op_any e = consumed-IsNext op_any _ _ e (char_len_at_pos sp) (read_at op_any)
      step_char-IsNext (op_set index) e = elim (Option-cases (get_elem? re.sets index)) [
        | inl f ↦ rw (step_char, f) tt
        | inr (cs, f) ↦
            let ok = not (same (in_charset s cs b sp) cs.negate) in
            let n = if ltb b 0x80 then 1 else (char_len_at s sp).0 in
            let set_bytes : char_bytes ct re s (op_set index) b sp ≡ bytes_if ok n =
              rw (char_bytes, f) refl in
            rw (step_char, f)
              (consumed-IsNext (op_set index) ok n e (one_or_more_pos _)
                (read_at (op_set index) ∙ set_bytes))
      ]
      step_char-IsNext op_wordchar e =
          consumed-IsNext op_wordchar _ _ e (more_or_one_pos _) (read_at op_wordchar)
      step_char-IsNext op_nwordchar e =
          consumed-IsNext op_nwordchar _ _ e (more_or_one_pos _) (read_at op_nwordchar)
      step_char-IsNext op_space e = consumed-IsNext op_space _ 1 e (omega arith) (read_at op_space)
      step_char-IsNext op_nspace e =
          consumed-IsNext op_nspace _ 1 e (omega arith) (read_at op_nspace)
      step_char-IsNext _ e = tt

    on_char-IsNext :
        (i : Inst) → get_elem? re.prog pc ≡ some i → IsNext (on_char ct re s i pc sp st regs)
    unfolding IsNext
    on_char-IsNext i e = elim (Option-cases (get_elem? s.text sp)) [
      | inl q ↦ rw (on_char, q) tt
      | inr (b, q) ↦ rw (on_char, q) (step_char-IsNext b q i e)
    ]

    saved-IsNext :
        (i : Inst) (r : ℕ)
        → get_elem? re.prog pc ≡ some i
        → Target ct s i pc sp (pc + 1)
        → IsNext (saves_reg r pc sp st regs)
    unfolding saves_reg IsNext
    saved-IsNext i r e t = elim (Option-cases (get_elem? regs r)) [
      | inl q ↦ rw (saves_reg, q) tt
      | inr (old, q) ↦ rw (saves_reg, q) (moves i c e t)
    ]

    checked-IsNext :
        (i : Inst) (r : ℕ)
        → get_elem? re.prog pc ≡ some i
        → Target ct s i pc sp (pc + 1)
        → IsNext (checks r pc sp st regs)
    unfolding checks IsNext
    checked-IsNext i r e t = elim (Option-cases (get_elem? regs r)) [
      | inl q ↦ rw (checks, q) tt
      | inr (old, q) ↦ rw (checks, q) (asserted-IsNext i _ (λ _. t) e)
    ]

    pub step_inst-IsNext :
        (i : Inst)
        → get_elem? re.prog pc ≡ some i
        → ((g : ℕ) → i ≡ op_backref g → ⊥)
        → IsNext (step_inst ct re s i pc sp st regs)
    unfolding step_inst Target IsNext jump check_assertion
    step_inst-IsNext (op_jmp (pos a)) e h = moves (op_jmp (pos a)) c e refl
    step_inst-IsNext (op_jmp (negsuc a)) e h =
        either_checked IsNext (ltb a pc) _ _
          (λ q. moves (op_jmp (negsuc a)) c e (refl, ltb→lt a pc q)) (λ q. tt)
    step_inst-IsNext (op_split x y) e h = moves (op_split x y) c e (inl refl)
    step_inst-IsNext (op_save r) e h = saved-IsNext (op_save r) r e refl
    step_inst-IsNext (op_mark r) e h = saved-IsNext (op_mark r) _ e refl
    step_inst-IsNext (op_check r) e h = checked-IsNext (op_check r) _ e refl
    step_inst-IsNext (op_backref g) e h = absurd (h g refl)
    step_inst-IsNext op_match e h = tt
    step_inst-IsNext op_bol e h = asserted-IsNext op_bol _ (λ q. (q, refl)) e
    step_inst-IsNext op_eol e h = asserted-IsNext op_eol _ (λ q. (q, refl)) e
    step_inst-IsNext op_bob e h = asserted-IsNext op_bob _ (λ q. (q, refl)) e
    step_inst-IsNext op_eob e h = asserted-IsNext op_eob _ (λ q. (q, refl)) e
    step_inst-IsNext op_wordb e h = asserted-IsNext op_wordb _ (λ q. (q, refl)) e
    step_inst-IsNext op_nwordb e h = asserted-IsNext op_nwordb _ (λ q. (q, refl)) e
    step_inst-IsNext op_wstart e h = asserted-IsNext op_wstart _ (λ q. (q, refl)) e
    step_inst-IsNext op_wend e h = asserted-IsNext op_wend _ (λ q. (q, refl)) e
    step_inst-IsNext (op_char a) e h = on_char-IsNext (op_char a) e
    step_inst-IsNext op_any e h = on_char-IsNext op_any e
    step_inst-IsNext (op_set a) e h = on_char-IsNext (op_set a) e
    step_inst-IsNext op_wordchar e h = on_char-IsNext op_wordchar e
    step_inst-IsNext op_nwordchar e h = on_char-IsNext op_nwordchar e
    step_inst-IsNext op_space e h = on_char-IsNext op_space e
    step_inst-IsNext op_nspace e h = on_char-IsNext op_nspace e
