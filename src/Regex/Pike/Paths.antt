-- ===== src/Regex/Pike/Paths.antt =====
-- What the lockstep matcher of src/regex.c finds is a path of its program. Its threads have no
-- registers: where the program has no loops that can be empty, and so no OP_CHECK, every thread is
-- where a path is with some registers.
use xzile.Prelude.{
  ℕ, zero, suc, ◌+◌, ◌-◌, ◌≤◌, ◌<◌, ◌≡◌, refl, sym, ap, ◌∙◌, inl, inr, Bool, true, false, not,
  Option, none, some, List, [], ◌∷◌, arith, ltb, if◌then◌else◌, lt→ltb, Option-cases, length,
  get_elem?, set, replicate, length-set, length-replicate,
}
use mathlib.Core.Path.{subst}
use mathlib.Core.Option.{some-injective}
use xzile.Regex.{
  pos, negsuc, Inst, op_char, op_any, op_set, op_bol, op_eol, op_bob, op_eob, op_wordb, op_nwordb,
  op_wstart, op_wend, op_wordchar, op_nwordchar, op_space, op_nspace, op_split, op_jmp, op_save,
  op_mark, op_check, Regex,
}
use xzile.Regex.Closed.{FitsAt}
use xzile.Regex.Run.{
  Ctype, Subject, bt_restore, goes, char_len_at, same, in_charset, step_inst, step_char, on_char,
  consumes, asserts, saves_reg, jump,
}
use xzile.Regex.Run.Safe.{IsProgram, get-within}
use xzile.Regex.Run.Safe.Steps.{limits}
use xzile.Regex.Run.Paths.{Step, runs, turns, Reaches, begins, continues}
use xzile.Regex.Pike.{bytes_if, check_assertion, char_bytes, inst_bytes, pike_run}
use xzile.Regex.Pike.Kept.{Target, IsRead, IsKept}
use xzile.Regex.Pike.Rounds.{IsRun, pike_run-IsRun}
use xzile.Regex.Pike.Safe.{IsPlace, IsPlace-IsKept, fits, match-Target}

module _ (ct : Ctype) (re : Regex) (s : Subject) where
  -- A step to a place, with as many registers.
  StepTo : ℕ → ℕ → List (Option ℕ) → ℕ → ℕ → Type 0
  StepTo pc sp regs to sp2 =
      (regs2 : List (Option ℕ)) × Step ct re s pc sp regs to sp2 regs2
      × (length regs2 ≡ length regs)

  module _ (pc sp : ℕ) (regs : List (Option ℕ)) (i : Inst)
      (at : get_elem? re.prog pc ≡ some i) where
    goes-StepTo :
        (to sp2 : ℕ)
        → step_inst ct re s i pc sp [] regs ≡ goes to sp2 [] regs
        → StepTo pc sp regs to sp2
    unfolding StepTo
    goes-StepTo to sp2 e = (regs, runs i [] [] at e, refl)

    asserts-StepTo :
        (ok : Bool) (to : ℕ)
        → step_inst ct re s i pc sp [] regs ≡ asserts ok pc sp [] regs
        → ok ≡ true
        → to ≡ pc + 1
        → StepTo pc sp regs to sp
    asserts-StepTo ok to e q t =
        subst (λ x. StepTo pc sp regs x sp) (sym t)
          (goes-StepTo (pc + 1) sp (e ∙ ap (λ b. asserts b pc sp [] regs) q))

    saves-StepTo :
        (r to : ℕ)
        → step_inst ct re s i pc sp [] regs ≡ saves_reg r pc sp [] regs
        → r < length regs
        → to ≡ pc + 1
        → StepTo pc sp regs to sp
    unfolding StepTo saves_reg
    saves-StepTo r to e h t = elim (Option-cases (get_elem? regs r)) [
      | inl q ↦ absurd (get-within regs r h q)
      | inr (old, q) ↦
          let gone : step_inst ct re s i pc sp [] regs
              ≡ goes (pc + 1) sp (bt_restore r old ∷ []) (set regs r (some sp)) =
            e ∙ rw (saves_reg, q) refl in
          subst (λ x. StepTo pc sp regs x sp) (sym t)
            (set regs r (some sp), runs i [] _ at gone, length-set regs r (some sp))
    ]

    -- What an instruction consumes, `step_char` consumes as well.
    bytes_if-StepTo :
        (ok : Bool) (n k : ℕ)
        → step_inst ct re s i pc sp [] regs ≡ consumes ok n pc sp [] regs
        → bytes_if ok n ≡ some (suc k)
        → StepTo pc sp regs (pc + 1) (sp + suc k)
    bytes_if-StepTo false n k e q = absurd (ground (arith, q))
    bytes_if-StepTo true n k e q =
        let m : n ≡ suc k = some-injective _ _ q in
        goes-StepTo (pc + 1) (sp + suc k) (e ∙ ap (λ x. goes (pc + 1) (sp + x) [] regs) m)

  module _ (p : IsProgram re) (no_loops : p.nloops ≡ 0) (pc sp : ℕ) (regs : List (Option ℕ))
      (filled : length regs ≡ re.nregs) where
    Target-StepTo :
        (to : ℕ) (i : Inst)
        → get_elem? re.prog pc ≡ some i
        → FitsAt (limits ct re s p) (length p.body) pc i
        → Target ct s i pc sp to
        → StepTo pc sp regs to sp
    unfolding Target FitsAt step_inst check_assertion jump StepTo
    Target-StepTo to (op_jmp (pos a)) e f t =
        subst (λ x. StepTo pc sp regs x sp) (sym t) (goes-StepTo pc sp regs _ e (pc + a) sp refl)
    Target-StepTo to (op_jmp (negsuc a)) e f (t, k) =
        subst (λ x. StepTo pc sp regs x sp) (sym t)
          (goes-StepTo pc sp regs _ e (pc - suc a) sp (rw (lt→ltb a pc k) refl))
    Target-StepTo to (op_split a b) e f (inl t) =
        subst (λ x. StepTo pc sp regs x sp) (sym t) (regs, runs _ [] _ e refl, refl)
    Target-StepTo to (op_split a b) e f (inr t) =
        subst (λ x. StepTo pc sp regs x sp) (sym t) (regs, turns a b e, refl)
    Target-StepTo to (op_save r) e f t =
        saves-StepTo pc sp regs _ e r to refl (omega (arith, f, filled, p.regs_eq)) t
    Target-StepTo to (op_mark r) e f t = absurd (omega (arith, f, no_loops))
    Target-StepTo to (op_check r) e f t = absurd (omega (arith, f, no_loops))
    Target-StepTo to op_bol e f (q, t) = asserts-StepTo pc sp regs _ e _ to refl q t
    Target-StepTo to op_eol e f (q, t) = asserts-StepTo pc sp regs _ e _ to refl q t
    Target-StepTo to op_bob e f (q, t) = asserts-StepTo pc sp regs _ e _ to refl q t
    Target-StepTo to op_eob e f (q, t) = asserts-StepTo pc sp regs _ e _ to refl q t
    Target-StepTo to op_wordb e f (q, t) = asserts-StepTo pc sp regs _ e _ to refl q t
    Target-StepTo to op_nwordb e f (q, t) = asserts-StepTo pc sp regs _ e _ to refl q t
    Target-StepTo to op_wstart e f (q, t) = asserts-StepTo pc sp regs _ e _ to refl q t
    Target-StepTo to op_wend e f (q, t) = asserts-StepTo pc sp regs _ e _ to refl q t
    Target-StepTo to _ e f t = absurd t

    module _ (c : ℕ) (here : get_elem? s.text sp ≡ some c) where
      on_here : (i : Inst) → on_char ct re s i pc sp [] regs ≡ step_char ct re s i c pc sp [] regs
      on_here i = rw (on_char, here) refl

      bytes-StepTo :
          (k : ℕ) (i : Inst)
          → get_elem? re.prog pc ≡ some i
          → char_bytes ct re s i c sp ≡ some (suc k)
          → StepTo pc sp regs (pc + 1) (sp + suc k)
      unfolding char_bytes step_inst step_char
      bytes-StepTo k (op_char a) e q = bytes_if-StepTo pc sp regs _ e _ _ k (on_here (op_char a)) q
      bytes-StepTo k op_any e q = bytes_if-StepTo pc sp regs _ e _ _ k (on_here op_any) q
      bytes-StepTo k (op_set index) e q = elim (Option-cases (get_elem? re.sets index)) [
        | inl f ↦ absurd (ground (arith, f, q))
        | inr (cs, f) ↦
            let ok = not (same (in_charset s cs c sp) cs.negate) in
            let n = if ltb c 0x80 then 1 else (char_len_at s sp).0 in
            let steps : step_char ct re s (op_set index) c pc sp [] regs
                ≡ consumes ok n pc sp [] regs =
              rw (step_char, f) refl in
            let reads : char_bytes ct re s (op_set index) c sp ≡ bytes_if ok n =
              rw (char_bytes, f) refl in
            bytes_if-StepTo pc sp regs _ e ok n k (on_here (op_set index) ∙ steps) (sym reads ∙ q)
      ]
      bytes-StepTo k op_wordchar e q = bytes_if-StepTo pc sp regs _ e _ _ k (on_here op_wordchar) q
      bytes-StepTo k op_nwordchar e q =
          bytes_if-StepTo pc sp regs _ e _ _ k (on_here op_nwordchar) q
      bytes-StepTo k op_space e q = bytes_if-StepTo pc sp regs _ e _ _ k (on_here op_space) q
      bytes-StepTo k op_nspace e q = bytes_if-StepTo pc sp regs _ e _ _ k (on_here op_nspace) q
      bytes-StepTo k _ e q = absurd (ground (arith, q))

  module _ (p : IsProgram re) (no_loops : p.nloops ≡ 0) (anchored : Bool) (from : ℕ) where
    -- A thread is at a place of a path from its start.
    pub record IsOnPath (start pc sp : ℕ) : Type 0 where
      pub place : IsPlace ct re s p start pc sp
      pub anchor : anchored ≡ true → start ≡ from
      pub regs : List (Option ℕ)
      pub path : Reaches ct re s start pc sp regs
      pub filled : length regs ≡ re.nregs

    further :
        (start pc sp to sp2 : ℕ) (g : IsOnPath start pc sp)
        → IsPlace ct re s p start to sp2
        → StepTo pc sp g.regs to sp2
        → IsOnPath start to sp2
    unfolding StepTo
    further start pc sp to sp2 g h (regs2, step, l) = record {
      place = h;
      anchor = g.anchor;
      regs = regs2;
      path = continues g.path step;
      filled = l ∙ g.filled;
    }

    begun : (sp : ℕ) → IsPlace ct re s p sp 0 sp → (anchored ≡ true → sp ≡ from) → IsOnPath sp 0 sp
    begun sp h a = record {
      place = h;
      anchor = a;
      regs = replicate re.nregs none;
      path = begins;
      filled = length-replicate re.nregs none;
    }

    moved-IsOnPath :
        (start pc sp to : ℕ) (i : Inst)
        → IsOnPath start pc sp
        → get_elem? re.prog pc ≡ some i
        → Target ct s i pc sp to
        → IsOnPath start to sp
    moved-IsOnPath start pc sp to i g e t =
        let kept = IsPlace-IsKept ct re s p anchored in
        elim (fits ct re s p pc i e) [
          | inl q ↦ absurd (match-Target ct re s p pc sp to i q t)
          | inr (h, f) ↦
              further start pc sp to sp g (kept.moves start pc sp to i g.place e t)
                (Target-StepTo p no_loops pc sp g.regs g.filled to i e f t)
        ]

    both-IsRead :
        (start pc sp : ℕ) (o : Option ℕ)
        → IsRead (IsPlace ct re s p) start pc sp o
        → ((n : ℕ)
            → o ≡ some (suc n)
            → IsPlace ct re s p start (pc + 1) (sp + suc n)
            → IsOnPath start (pc + 1) (sp + suc n))
        → IsRead IsOnPath start pc sp o
    unfolding IsRead
    both-IsRead start pc sp none r f = r
    both-IsRead start pc sp (some zero) r f = tt
    both-IsRead start pc sp (some (suc n)) (h, r) f = (h, f n refl r)

    inst_bytes-IsOnPath :
        (start pc sp : ℕ) (i : Inst)
        → IsOnPath start pc sp
        → get_elem? re.prog pc ≡ some i
        → IsRead IsOnPath start pc sp (inst_bytes ct re s i sp)
    unfolding inst_bytes
    inst_bytes-IsOnPath start pc sp i g e =
        let kept = IsPlace-IsKept ct re s p anchored in
        both-IsRead start pc sp _ (kept.reads start pc sp i g.place e) λ n q h.
          elim (Option-cases (get_elem? s.text sp)) [
            | inl d ↦ absurd (get-within s.text sp (omega (arith, h.sp_le)) d)
            | inr (c, d) ↦
                let read : inst_bytes ct re s i sp ≡ char_bytes ct re s i c sp =
                  rw (inst_bytes, d) refl in
                further start pc sp (pc + 1) (sp + suc n) g h
                  (bytes-StepTo p no_loops pc sp g.regs g.filled c d n i e (sym read ∙ q))
          ]

    IsOnPath-IsKept : IsKept ct re s IsOnPath anchored
    IsOnPath-IsKept =
        let kept = IsPlace-IsKept ct re s p anchored in
        record {
          in_prog = λ start pc sp g. kept.in_prog start pc sp g.place;
          back = kept.back;
          moves = moved-IsOnPath;
          reads = inst_bytes-IsOnPath;
          fresh = λ sp a h. begun sp (kept.fresh sp a h) (λ b. absurd (ground (arith, sym a ∙ b)));
        }

    -- What `pike_run` finds is the end of a path from its start, which is `from` if anchored.
    pub pike_run-IsOnPath :
        from ≤ length s.text → IsRun ct re s IsOnPath (pike_run ct re s from anchored)
    pike_run-IsOnPath h =
        let kept = IsPlace-IsKept ct re s p false in
        pike_run-IsRun ct re s IsOnPath anchored IsOnPath-IsKept from h
          (begun from (kept.fresh from refl h) (λ _. refl))
