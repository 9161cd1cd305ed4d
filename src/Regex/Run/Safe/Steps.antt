-- ===== src/Regex/Run/Safe/Steps.antt =====
-- Every step of the matcher of src/regex.c, and so every run, stays within the program, its
-- registers and the text.
use xzile.Prelude.{
  ℕ, zero, suc, ◌+◌, ◌-◌, ◌*◌, ◌≤◌, ◌<◌, ◌≡◌, refl, sym, ap, ◌∙◌, inl, inr, Bool, ◌&&◌, Option,
  none, some, List, [], ◌∷◌, arith, ltb, leb, lt→ltb, leb→le, Option-cases, length, get_elem?,
  replicate, length-append, length-set, length-replicate,
}
use xzile.Regex.{
  ℤ, pos, negsuc, Inst, op_char, op_any, op_set, op_bol, op_eol, op_bob, op_eob, op_wordb,
  op_nwordb, op_wstart, op_wend, op_wordchar, op_nwordchar, op_space, op_nspace, op_split, op_jmp,
  op_save, op_mark, op_check, op_backref, op_match, Regex,
}
use xzile.Regex.Closed.{Limits, FitsAt}
use xzile.Regex.Run.{
  Ctype, Subject, BtEntry, StepOutcome, goes, fails, matches, faults, Resumed, resumes, exhausted,
  no_register, next_thread, saves_reg, jump, checks, backref, alike, step_char, on_char, step_inst,
  run_thread, match_here, consumes, asserts,
}
use mathlib.Core.Path.{subst}
use xzile.VTerm.Dispatch.Safe.{either_lem, either_checked}
use xzile.Regex.Run.Safe.{
  IsProgram, IsPos, AllPos, IsEntry, AllEntries, IsThread, IsOutcome, IsResumed, IsResult,
  set-AllPos, get-IsPos, next_thread-IsResumed, get-within, within-get, char_len_at_bound,
  and_first, program_at, one_or_more, more_or_one,
}

module _ (ct : Ctype) (re : Regex) (s : Subject) (p : IsProgram re) where
  abbrev pub limits : Limits
  limits = record { groups = re.ngroups; loops = p.nloops; sets = length re.sets }

  pub length_prog : length re.prog ≡ length p.body + 1
  length_prog = ap length p.prog_eq ∙ length-append p.body (op_match ∷ [])

  module _ (pc sp : ℕ) (st : List BtEntry) (regs : List (Option ℕ))
      (t : IsThread re (length s.text) pc sp st regs) (h : pc < length p.body) where
    goes-IsOutcome :
        (pc' sp' : ℕ)
        → pc' ≤ length p.body
        → sp' ≤ length s.text
        → IsOutcome re (length s.text) (goes pc' sp' st regs)
    unfolding IsOutcome
    goes-IsOutcome pc' sp' k l = record {
      pc_lt = omega (arith, k, length_prog);
      sp_le = l;
      stack = t.stack;
      regs_len = t.regs_len;
      positions = t.positions;
    }

    fails-IsOutcome : IsOutcome re (length s.text) fails
    unfolding IsOutcome
    fails-IsOutcome = tt

    asserts-IsOutcome : (ok : Bool) → IsOutcome re (length s.text) (asserts ok pc sp st regs)
    asserts-IsOutcome ok =
        either_lem (IsOutcome re (length s.text)) ok _ _
          (goes-IsOutcome (pc + 1) sp (omega (arith, h)) t.sp_le) fails-IsOutcome

    consumes-IsOutcome :
        (ok : Bool) (n : ℕ)
        → sp + n ≤ length s.text
        → IsOutcome re (length s.text) (consumes ok n pc sp st regs)
    consumes-IsOutcome ok n k =
        either_lem (IsOutcome re (length s.text)) ok _ _
          (goes-IsOutcome (pc + 1) (sp + n) (omega (arith, h)) k) fails-IsOutcome

    saves_reg-IsOutcome :
        (r : ℕ) → r < re.nregs → IsOutcome re (length s.text) (saves_reg r pc sp st regs)
    unfolding saves_reg IsOutcome AllEntries IsEntry IsPos
    saves_reg-IsOutcome r k = elim (Option-cases (get_elem? regs r)) [
      | inl e ↦ absurd (get-within regs r (omega (arith, k, t.regs_len)) e)
      | inr (old, e) ↦
          rw (saves_reg, e)
            (record {
              pc_lt = omega (arith, h, length_prog);
              sp_le = t.sp_le;
              stack = ((k, get-IsPos (length s.text) regs r old t.positions e), t.stack);
              regs_len = length-set regs r (some sp) ∙ t.regs_len;
              positions = set-AllPos (length s.text) regs r (some sp) t.sp_le t.positions;
            })
    ]

    checks-IsOutcome :
        (r : ℕ) → r < re.nregs → IsOutcome re (length s.text) (checks r pc sp st regs)
    unfolding checks
    checks-IsOutcome r k = elim (Option-cases (get_elem? regs r)) [
      | inl e ↦ absurd (get-within regs r (omega (arith, k, t.regs_len)) e)
      | inr (old, e) ↦ rw (checks, e) (asserts-IsOutcome _)
    ]

    jump-IsOutcome :
        (a : ℤ)
        → FitsAt limits (length p.body) pc (op_jmp a)
        → IsOutcome re (length s.text) (jump pc a st sp regs)
    unfolding jump FitsAt
    jump-IsOutcome (pos a) f = goes-IsOutcome (pc + a) sp f t.sp_le
    jump-IsOutcome (negsuc a) f =
        rw (lt→ltb a pc f) (goes-IsOutcome (pc - suc a) sp (omega (arith, h)) t.sp_le)

    backref-IsOutcome :
        (gs ge : Option ℕ)
        → IsPos (length s.text) gs
        → IsPos (length s.text) ge
        → IsOutcome re (length s.text) (backref ct re s gs ge pc sp st regs)
    unfolding backref IsPos
    backref-IsOutcome none ge k l = fails-IsOutcome
    backref-IsOutcome (some gs) none k l = fails-IsOutcome
    backref-IsOutcome (some gs) (some ge) k l =
        let n = ge - gs in
        let here = leb (sp + n) (length s.text) in
        let same = alike ct re.icase s.text gs sp n in
        either_lem (IsOutcome re (length s.text)) (ltb ge gs) _ _ fails-IsOutcome (
          either_checked (IsOutcome re (length s.text)) (ltb (length s.text) ge) _ _
            (λ e. absurd (ground (arith, e, l)))
            (λ e.
              either_checked (IsOutcome re (length s.text)) (here && same) _ _
                (λ b.
                  goes-IsOutcome (pc + 1) (sp + n) (omega (arith, h))
                    (leb→le (sp + n) (length s.text) (and_first here same b)))
                (λ b. fails-IsOutcome)))

    step_char-IsOutcome :
        (i : Inst) (c : ℕ)
        → sp < length s.text
        → FitsAt limits (length p.body) pc i
        → IsOutcome re (length s.text) (step_char ct re s i c pc sp st regs)
    unfolding step_char FitsAt
    step_char-IsOutcome (op_char a) c k f = consumes-IsOutcome _ 1 (omega (arith, k))
    step_char-IsOutcome op_any c k f = consumes-IsOutcome _ _ (char_len_at_bound s sp k)
    step_char-IsOutcome (op_set index) c k f = elim (Option-cases (get_elem? re.sets index)) [
      | inl e ↦ absurd (get-within re.sets index f e)
      | inr (cs, e) ↦ rw (step_char, e) (consumes-IsOutcome _ _ (one_or_more s sp _ k))
    ]
    step_char-IsOutcome op_wordchar c k f = consumes-IsOutcome _ _ (more_or_one s sp _ k)
    step_char-IsOutcome op_nwordchar c k f = consumes-IsOutcome _ _ (more_or_one s sp _ k)
    step_char-IsOutcome op_space c k f = consumes-IsOutcome _ 1 (omega (arith, k))
    step_char-IsOutcome op_nspace c k f = consumes-IsOutcome _ 1 (omega (arith, k))
    step_char-IsOutcome _ c k f = fails-IsOutcome

    split-IsOutcome :
        (a b : ℕ)
        → FitsAt limits (length p.body) pc (op_split a b)
        → IsOutcome re (length s.text) (step_inst ct re s (op_split a b) pc sp st regs)
    unfolding step_inst FitsAt IsOutcome AllEntries IsEntry
    split-IsOutcome a b (f, g) = record {
      pc_lt = omega (arith, f, length_prog);
      sp_le = t.sp_le;
      stack = ((omega (arith, g, length_prog), t.sp_le), t.stack);
      regs_len = t.regs_len;
      positions = t.positions;
    }

    matches-IsOutcome : IsOutcome re (length s.text) matches
    unfolding IsOutcome
    matches-IsOutcome = tt

    register : (r : ℕ) → FitsAt limits (length p.body) pc (op_save r) → r < re.nregs
    unfolding FitsAt
    register r f = omega (arith, f, p.regs_eq)

    loop_register :
        (r : ℕ) → FitsAt limits (length p.body) pc (op_mark r) → 2 * (re.ngroups + 1) + r < re.nregs
    unfolding FitsAt
    loop_register r f = omega (arith, f, p.regs_eq)

    group-IsOutcome :
        (g : ℕ)
        → FitsAt limits (length p.body) pc (op_backref g)
        → IsOutcome re (length s.text) (step_inst ct re s (op_backref g) pc sp st regs)
    unfolding step_inst FitsAt
    group-IsOutcome g f = elim (Option-cases (get_elem? regs (2 * g))) [
      | inl e ↦ absurd (get-within regs (2 * g) (omega (arith, f, p.regs_eq, t.regs_len)) e)
      | inr (gs, e) ↦ elim (Option-cases (get_elem? regs (2 * g + 1))) [
        | inl d ↦ absurd (get-within regs (2 * g + 1) (omega (arith, f, p.regs_eq, t.regs_len)) d)
        | inr (ge, d) ↦
            rw (step_inst, e, d)
              (backref-IsOutcome gs ge (get-IsPos _ regs _ gs t.positions e)
                (get-IsPos _ regs _ ge t.positions d))
      ]
    ]

    on_char-IsOutcome :
        (i : Inst)
        → FitsAt limits (length p.body) pc i
        → IsOutcome re (length s.text) (on_char ct re s i pc sp st regs)
    on_char-IsOutcome i f = elim (Option-cases (get_elem? s.text sp)) [
      | inl e ↦ rw (on_char, e) fails-IsOutcome
      | inr (c, e) ↦ rw (on_char, e) (step_char-IsOutcome i c (within-get s.text sp c e) f)
    ]

    step_inst-IsOutcome :
        (i : Inst)
        → FitsAt limits (length p.body) pc i
        → IsOutcome re (length s.text) (step_inst ct re s i pc sp st regs)
    unfolding step_inst FitsAt
    step_inst-IsOutcome op_bol f = asserts-IsOutcome _
    step_inst-IsOutcome op_eol f = asserts-IsOutcome _
    step_inst-IsOutcome op_bob f = asserts-IsOutcome _
    step_inst-IsOutcome op_eob f = asserts-IsOutcome _
    step_inst-IsOutcome op_wordb f = asserts-IsOutcome _
    step_inst-IsOutcome op_nwordb f = asserts-IsOutcome _
    step_inst-IsOutcome op_wstart f = asserts-IsOutcome _
    step_inst-IsOutcome op_wend f = asserts-IsOutcome _
    step_inst-IsOutcome (op_split a b) f = split-IsOutcome a b f
    step_inst-IsOutcome (op_jmp a) f = jump-IsOutcome a f
    step_inst-IsOutcome (op_save r) f = saves_reg-IsOutcome r (register r f)
    step_inst-IsOutcome (op_mark r) f = saves_reg-IsOutcome _ (loop_register r f)
    step_inst-IsOutcome (op_check r) f = checks-IsOutcome _ (loop_register r f)
    step_inst-IsOutcome (op_backref g) f = group-IsOutcome g f
    step_inst-IsOutcome op_match f = matches-IsOutcome
    step_inst-IsOutcome (op_char a) f = on_char-IsOutcome (op_char a) f
    step_inst-IsOutcome op_any f = on_char-IsOutcome op_any f
    step_inst-IsOutcome (op_set a) f = on_char-IsOutcome (op_set a) f
    step_inst-IsOutcome op_wordchar f = on_char-IsOutcome op_wordchar f
    step_inst-IsOutcome op_nwordchar f = on_char-IsOutcome op_nwordchar f
    step_inst-IsOutcome op_space f = on_char-IsOutcome op_space f
    step_inst-IsOutcome op_nspace f = on_char-IsOutcome op_nspace f

  instruction-IsOutcome :
      (pc sp : ℕ) (st : List BtEntry) (regs : List (Option ℕ)) (i : Inst)
      → IsThread re (length s.text) pc sp st regs
      → get_elem? re.prog pc ≡ some i
      → IsOutcome re (length s.text) (step_inst ct re s i pc sp st regs)
  unfolding step_inst IsOutcome
  instruction-IsOutcome pc sp st regs i t e =
      let found = subst (λ v. get_elem? v pc ≡ some i) p.prog_eq e in
      elim (program_at limits (length p.body) 0 p.body pc i p.closed found) [
        | inl q ↦
            subst (λ x. IsOutcome re (length s.text) (step_inst ct re s x pc sp st regs)) (sym q) tt
        | inr (h, f) ↦
            step_inst-IsOutcome pc sp st regs t h i
              (subst (λ k. FitsAt limits (length p.body) k i) (omega arith) f)
      ]

  -- A step of a thread: what its instruction and the stack promise is kept by what follows.
  module _ (steps pc sp : ℕ) (st : List BtEntry) (regs : List (Option ℕ)) (i : Inst)
      (t : IsThread re (length s.text) pc sp st regs) (at : get_elem? re.prog pc ≡ some i)
      (rest : (pc' sp' : ℕ) (st' : List BtEntry) (regs' : List (Option ℕ))
        → IsThread re (length s.text) pc' sp' st' regs'
        → IsResult (length s.text) (run_thread ct re s steps pc' sp' st' regs')) where
    resumed-IsResult :
        (r : Resumed)
        → step_inst ct re s i pc sp st regs ≡ fails
        → next_thread st regs ≡ r
        → IsResumed re (length s.text) r
        → IsResult (length s.text) (run_thread ct re s (suc steps) pc sp st regs)
    unfolding run_thread IsResult IsResumed
    resumed-IsResult (resumes pc' sp' st' regs') e q v =
        rw (run_thread, at, e, q) (rest pc' sp' st' regs' v)
    resumed-IsResult (exhausted regs') e q v = rw (run_thread, at, e, q) tt
    resumed-IsResult no_register e q v = absurd v

    outcome-IsResult :
        (o : StepOutcome)
        → step_inst ct re s i pc sp st regs ≡ o
        → IsOutcome re (length s.text) o
        → IsResult (length s.text) (run_thread ct re s (suc steps) pc sp st regs)
    unfolding run_thread IsResult IsOutcome
    outcome-IsResult (goes pc' sp' st' regs') e v =
        rw (run_thread, at, e) (rest pc' sp' st' regs' v)
    outcome-IsResult fails e v =
        resumed-IsResult (next_thread st regs) e refl
          (next_thread-IsResumed re (length s.text) st regs t.stack t.regs_len t.positions)
    outcome-IsResult matches e v = rw (run_thread, at, e) (t.sp_le, t.positions)
    outcome-IsResult faults e v = absurd v

  run_thread-IsResult :
      (steps pc sp : ℕ) (st : List BtEntry) (regs : List (Option ℕ))
      → IsThread re (length s.text) pc sp st regs
      → IsResult (length s.text) (run_thread ct re s steps pc sp st regs)
  unfolding run_thread IsResult
  run_thread-IsResult zero pc sp st regs t = tt
  run_thread-IsResult (suc steps) pc sp st regs t = elim (Option-cases (get_elem? re.prog pc)) [
    | inl e ↦ absurd (get-within re.prog pc t.pc_lt e)
    | inr (i, e) ↦
        outcome-IsResult steps pc sp st regs i t e
          (λ pc' sp' st' regs' t'. run_thread-IsResult steps pc' sp' st' regs' t')
          (step_inst ct re s i pc sp st regs) refl (instruction-IsOutcome pc sp st regs i t e)
  ]

  start-AllPos : (n : ℕ) → AllPos (length s.text) (replicate n none)
  unfolding AllPos IsPos
  start-AllPos zero = tt
  start-AllPos (suc n) = (tt, start-AllPos n)

  -- t
  pub match_here-IsResult :
      (steps start : ℕ)
      → start ≤ length s.text
      → IsResult (length s.text) (match_here ct re s steps start)
  unfolding match_here AllEntries
  match_here-IsResult steps start h = run_thread-IsResult steps 0 start [] _ (record {
    pc_lt = omega (arith, length_prog);
    sp_le = h;
    stack = tt;
    regs_len = length-replicate re.nregs none;
    positions = start-AllPos re.nregs;
  })
