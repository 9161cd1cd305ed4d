-- ===== src/Regex/Pike/Answer.antt =====
-- The lockstep matcher of src/regex.c finds a match just where a path of the program ends in
-- OP_MATCH: a path without back-references is one that its threads can take.
use xzile.Prelude.{
  ℕ, zero, suc, ◌+◌, ◌^◌, ◌≤◌, ◌<◌, ◌≡◌, refl, sym, ap, ◌∙◌, inr, Bool, true, false, ◌&&◌, not,
  Option, none, some, List, [], ◌∷◌, arith, ltb, length, get_elem?,
}
use mathlib.Core.Path.{subst}
use mathlib.Core.Option.{some-injective}
use xzile.Regex.{Inst, op_split, op_backref, op_match, Regex}
use xzile.Regex.Run.{Ctype, Subject}
use xzile.Regex.Run.Safe.{IsProgram}
use xzile.Regex.Parse.{regex_compile}
use xzile.Regex.Parse.Compile.{IsCompiled, regex_compile-IsCompiled}
use xzile.Regex.Run.Paths.{Step, runs, turns, Reaches, begins, continues}
use xzile.Regex.Pike.{Found, pike_run}
use xzile.Regex.Pike.Kept.{Target}
use xzile.Regex.Pike.Rounds.{IsBest, IsRun}
use xzile.Regex.Pike.Paths.{IsOnPath, pike_run-IsOnPath}
use xzile.Regex.Pike.Control.{Control, starts, moves, Control-IsPlace, IsStart}
use xzile.Regex.Pike.Complete.{NoMatch, IsSilent, pike_run-IsSilent}
use xzile.Regex.Pike.Next.{IsNext, step_inst-IsNext}

unfoldable pub is_backref : Inst → Bool
is_backref (op_backref g) = true
is_backref _ = false

unfoldable pub no_backrefs : List Inst → Bool
no_backrefs [] = true
no_backrefs (i ∷ prog) = not (is_backref i) && no_backrefs prog

no_backrefs-get :
    (prog : List Inst) (pc g : ℕ) (i : Inst)
    → no_backrefs prog ≡ true
    → get_elem? prog pc ≡ some i
    → i ≡ op_backref g
    → ⊥
unfolding no_backrefs is_backref
no_backrefs-get [] pc g i h e q = ground (arith, e)
no_backrefs-get (j ∷ prog) zero g i h e q =
    let same_inst : j ≡ op_backref g = some-injective j i e ∙ q in
    ground (arith, h, ap is_backref same_inst)
no_backrefs-get (j ∷ prog) (suc pc) g i h e q = no_backrefs-get prog pc g i (ground (arith, h)) e q

module _ (ct : Ctype) (re : Regex) (s : Subject) where
  Step-Control :
      (start pc sp pc2 sp2 : ℕ) (regs regs2 : List (Option ℕ))
      → no_backrefs re.prog ≡ true
      → Control ct re s start pc sp
      → Step ct re s pc sp regs pc2 sp2 regs2
      → Control ct re s start pc2 sp2
  unfolding IsNext Target
  Step-Control start pc sp pc2 sp2 regs regs2 h c (runs i st st2 at e) =
      subst (IsNext ct re s start) e (
        step_inst-IsNext ct re s start pc sp st regs c i at
          (λ g q. no_backrefs-get re.prog pc g i h at q))
  Step-Control start pc sp _ _ regs _ h c (turns a b at) = moves (op_split a b) c at (inr refl)

  Reaches-Control :
      (start pc sp : ℕ) (regs : List (Option ℕ))
      → no_backrefs re.prog ≡ true
      → Reaches ct re s start pc sp regs
      → Control ct re s start pc sp
  Reaches-Control start _ _ _ h begins = starts
  Reaches-Control start pc2 sp2 regs2 h (continues {pc = pc} {sp = sp} {regs = regs} r t) =
      Step-Control start pc sp pc2 sp2 regs regs2 h (Reaches-Control start pc sp regs h r) t

  module _ (anchored : Bool) (from : ℕ) where
    -- A match from `start` to `end`: a path of the program.
    unfoldable pub IsPathMatch : ℕ → ℕ → Type 0
    IsPathMatch start end =
        (pc : ℕ) × (regs : List (Option ℕ)) × Reaches ct re s start pc end regs
        × (get_elem? re.prog pc ≡ some op_match)

    -- A match is found, within the text and from `from` if anchored, or no path from any start
    -- leads to one.
    unfoldable pub IsPikeAnswer : Option Found → Type 0
    IsPikeAnswer none = ⊥
    IsPikeAnswer (some none) =
        (start end : ℕ) → IsStart ct re s anchored from start → IsPathMatch start end → ⊥
    IsPikeAnswer (some (some (start, end))) =
        (start ≤ end)
        × (end ≤ length s.text)
        × (anchored ≡ true → start ≡ from)
        × IsPathMatch start end

    module _ (p : IsProgram re) (no_loops : p.nloops ≡ 0) (h : no_backrefs re.prog ≡ true) where
      both-IsPikeAnswer :
          (o : Option Found)
          → IsRun ct re s (IsOnPath ct re s p no_loops anchored from) o
          → IsSilent ct re s anchored p from from o
          → IsPikeAnswer o
      unfolding IsRun IsBest IsSilent NoMatch IsPikeAnswer IsPathMatch
      both-IsPikeAnswer none r q = r
      both-IsPikeAnswer (some none) r q = λ start end a (pc, regs, path, e).
          let c = Reaches-Control start pc end regs h path in
          let place = Control-IsPlace ct re s p start pc end a.start_le c in
          q start pc end a c (omega (arith, place.start_le, a.from_le)) e
      both-IsPikeAnswer (some (some (start, end))) (pc, g, e) q =
          (g.place.start_le, g.place.sp_le, g.anchor, (pc, g.regs, g.path, e))

pub compiled-IsProgram :
    (ct : Ctype) (icase : Bool) (pattern : List ℕ) (re : Regex)
    → regex_compile ct icase pattern ≡ inr re
    → IsProgram re
unfolding IsCompiled
compiled-IsProgram ct icase pattern re e =
    subst IsCompiled e (regex_compile-IsCompiled ct icase pattern)

no_more_loops : (n : ℕ) → ltb 0 n ≡ false → n ≡ 0
no_more_loops n e = ground (arith, e)

-- For a compiled pattern whose program has no loops that can be empty and no back-references, and a
-- text shorter than 2 ^ 32 - 2 bytes, the lockstep matcher ends, and finds a path of the program
-- from a start in the text, which is `from` if anchored, to OP_MATCH; or it finds nothing, and then
-- no such path starts at `from` or, if not anchored, behind it. A step of a path is that of the
-- backtracking matcher, registers included, or at OP_SPLIT the alternative.
pub pike_run-IsPikeAnswer :
    (ct : Ctype) (icase : Bool) (pattern : List ℕ) (re : Regex) (s : Subject) (anchored : Bool)
    (from : ℕ)
    → regex_compile ct icase pattern ≡ inr re
    → re.has_empty_loop ≡ false
    → no_backrefs re.prog ≡ true
    → from ≤ length s.text
    → length s.text + 2 < 2 ^ 32
    → IsPikeAnswer ct re s anchored from (pike_run ct re s from anchored)
pike_run-IsPikeAnswer ct icase pattern re s anchored from e loops refs h l =
    let p = compiled-IsProgram ct icase pattern re e in
    let none_left = no_more_loops p.nloops (sym p.loops_eq ∙ loops) in
    both-IsPikeAnswer ct re s anchored from p none_left refs _
      (pike_run-IsOnPath ct re s p none_left anchored from h)
      (pike_run-IsSilent ct re s anchored p from h l)
