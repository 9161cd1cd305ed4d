-- ===== src/Regex/Search/Complete.antt =====
-- When `regex_search` of src/regex.c finds nothing with a program, there is no match: the positions
-- that it skips are none where a match starts.
use xzile.Prelude.{
  ℕ, zero, suc, ◌+◌, ◌^◌, ◌≤◌, ◌<◌, ◌≡◌, refl, sym, ap, ◌∙◌, ◌⊎◌, inl, inr, Bool, true, false, ◌&&◌,
  not, Option, none, some, List, arith, ◌==◌, if◌then◌else◌, Bool-cases, Option-cases, length,
  get_elem?, replicate,
}
use mathlib.Core.Path.{subst}
use mathlib.Core.Option.{some-injective}
use xzile.VTerm.Dispatch.Safe.{either_lem, either_checked}
use xzile.Regex.{Inst, op_char, Regex}
use xzile.Regex.Run.{
  Ctype, Subject, BtEntry, StepOutcome, goes, fails, matches, faults, MatchResult, match_end,
  no_match, too_complex, fault, step_inst, step_char, on_char, consumes,
}
use xzile.Regex.Run.Paths.{runs, turns, Reaches, begins, continues}
use xzile.Regex.Run.Paths.Alike.{Accepts, ends, steps}
use xzile.Regex.Run.Paths.Complete.{IsAnswer, match_here-IsAnswer}
use xzile.Regex.Pike.{Found, pike_run}
use xzile.Regex.Pike.Control.{IsStart}
use xzile.Regex.Pike.Answer.{
  IsPathMatch, IsPikeAnswer, no_backrefs, pike_run-IsPikeAnswer, compiled-IsProgram,
}
use xzile.Regex.Parse.{regex_compile}
use xzile.Regex.Search.Safe.{IsMatch, IsSearched, program_search-IsSearched}
use xzile.Regex.Search.{
  SearchResult, found_at, not_found, regex_too_complex, search_fault, first_byte, may_start,
  found_by_pike, pike_backward, backtrack_forward, backtrack_backward, program_search, regex_search,
}

module _ (ct : Ctype) (re : Regex) (s : Subject) where
  -- A path from a position to OP_MATCH.
  unfoldable pub Starts : ℕ → Type 0
  Starts pos = Accepts ct re s 0 pos (replicate re.nregs none)

  pub path-Starts :
      (start pc sp : ℕ) (regs : List (Option ℕ))
      → Reaches ct re s start pc sp regs
      → Accepts ct re s pc sp regs
      → Starts start
  unfolding Starts
  path-Starts start _ _ _ begins a = a
  path-Starts start pc2 sp2 regs2 (continues {pc = pc} {sp = sp} {regs = regs} r t) a =
      path-Starts start pc sp regs r (steps t a)

  Starts-path :
      (start pc sp : ℕ) (regs : List (Option ℕ))
      → Reaches ct re s start pc sp regs
      → Accepts ct re s pc sp regs
      → (end : ℕ) × IsPathMatch ct re s false 0 start end
  unfolding IsPathMatch
  Starts-path start pc sp regs r (ends q) = (sp, (pc, regs, r, q))
  Starts-path start pc sp regs r (steps t rest) = Starts-path start _ _ _ (continues r t) rest

  -- An instruction OP_CHAR does not go on from another byte.
  Stuck : StepOutcome → Type 0
  Stuck (goes pc sp st regs) = ⊥
  Stuck fails = Unit
  Stuck matches = Unit
  Stuck faults = Unit

  consumed-Stuck :
      (ok : Bool) (n pc sp : ℕ) (st : List BtEntry) (regs : List (Option ℕ))
      → ok ≡ false
      → Stuck (consumes ok n pc sp st regs)
  unfolding Stuck
  consumed-Stuck true n pc sp st regs e = absurd (ground (arith, e))
  consumed-Stuck false n pc sp st regs e = tt

  char-Stuck :
      (a pc sp : ℕ) (st : List BtEntry) (regs : List (Option ℕ))
      → re.icase ≡ false
      → may_start ct re s (some a) sp ≡ false
      → Stuck (step_inst ct re s (op_char a) pc sp st regs)
  unfolding step_inst step_char Stuck may_start
  char-Stuck a pc sp st regs f m = elim (Option-cases (get_elem? s.text sp)) [
    | inl e ↦
        let stops : on_char ct re s (op_char a) pc sp st regs ≡ fails = rw (on_char, e) refl in
        subst Stuck (sym stops) tt
    | inr (c, e) ↦
        let first : may_start ct re s (some a) sp ≡ (c == a) = rw (may_start, e) refl in
        let other = ap (λ b. (if b then ct.tolower c else c) == a) f ∙ sym first ∙ m in
        let reads : on_char ct re s (op_char a) pc sp st regs
            ≡ step_char ct re s (op_char a) c pc sp st regs =
          rw (on_char, e) refl in
        subst Stuck (sym reads) (consumed-Stuck _ 1 pc sp st regs other)
  ]

  not_char :
      (a : ℕ) (pos : ℕ)
      → get_elem? re.prog 0 ≡ some (op_char a)
      → re.icase ≡ false
      → may_start ct re s (some a) pos ≡ false
      → Starts pos
      → ⊥
  unfolding Starts Stuck
  not_char a pos at f m (ends q) = ground (arith, at, q)
  not_char a pos at f m (steps (turns x y q) rest) = ground (arith, at, q)
  not_char a pos at f m (steps (runs i st st2 q e) rest) =
      let same : i ≡ op_char a = some-injective i (op_char a) (sym q ∙ at) in
      subst Stuck (ap (λ j. step_inst ct re s j 0 pos st (replicate re.nregs none)) (sym same) ∙ e)
        (char-Stuck a 0 pos st (replicate re.nregs none) f m)

  -- Where a match cannot start by its first byte, none does.
  skipped :
      (i : Inst) (pos : ℕ)
      → get_elem? re.prog 0 ≡ some i
      → may_start ct re s (first_byte ct re s i) pos ≡ false
      → Starts pos
      → ⊥
  unfolding first_byte may_start
  skipped (op_char a) pos e m = elim (Bool-cases re.icase) [
    | inl f ↦
        let always = ap (λ b. may_start ct re s (if b then none else some a) pos) f in
        absurd (ground (arith, sym always ∙ m))
    | inr f ↦
        let exact = ap (λ b. may_start ct re s (if b then none else some a) pos) f in
        not_char a pos e f (sym exact ∙ m)
  ]
  skipped _ pos e m = absurd (ground (arith, m))

  -- A search that fails has passed no start of a match.
  unfoldable pub IsPassed : (ℕ → Type 0) → SearchResult → Type 0
  IsPassed P (found_at start end) = Unit
  IsPassed P not_found = (pos : ℕ) → P pos → Starts pos → ⊥
  IsPassed P regex_too_complex = Unit
  IsPassed P search_fault = Unit

  IsPassed-map :
      (P Q : ℕ → Type 0) (r : SearchResult)
      → ((pos : ℕ) → P pos → Q pos ⊎ (Starts pos → ⊥))
      → IsPassed Q r
      → IsPassed P r
  unfolding IsPassed
  IsPassed-map P Q (found_at start end) f h = tt
  IsPassed-map P Q not_found f h = λ pos p. elim (f pos p) [ inl q ↦ h pos q | inr g ↦ g ]
  IsPassed-map P Q regex_too_complex f h = tt
  IsPassed-map P Q search_fault f h = tt

  IsAhead : ℕ → ℕ → Type 0
  IsAhead pos q = (pos ≤ q) × (q ≤ length s.text)

  IsAhead-cases : (pos q : ℕ) → IsAhead pos q → IsAhead (pos + 1) q ⊎ (q ≡ pos)
  unfolding IsAhead
  IsAhead-cases pos q h = grind arith

  before_or_at : (pos q : ℕ) → q < pos + 1 → (q < pos) ⊎ (q ≡ pos)
  before_or_at pos q h = grind arith

  forward-map :
      (pos : ℕ) (r : SearchResult)
      → (Starts pos → ⊥)
      → IsPassed (IsAhead (pos + 1)) r
      → IsPassed (IsAhead pos) r
  forward-map pos r f = IsPassed-map (IsAhead pos) (IsAhead (pos + 1)) r λ q h.
      elim (IsAhead-cases pos q h) [
        | inl k ↦ inl k
        | inr e ↦ inr (subst (λ x. Starts x → ⊥) (sym e) f)
      ]

  backward-map :
      (pos : ℕ) (r : SearchResult)
      → (Starts pos → ⊥)
      → IsPassed (λ q. q < pos) r
      → IsPassed (λ q. q < suc pos) r
  backward-map pos r f =
      IsPassed-map (λ q. q < suc pos) (λ q. q < pos) r
        λ q h. elim (before_or_at pos q (omega (arith, h))) [
          | inl k ↦ inl k
          | inr e ↦ inr (subst (λ x. Starts x → ⊥) (sym e) f)
        ]

  module _ (pos : ℕ) (P : ℕ → Type 0) (next : ℕ → SearchResult)
      (rest : (left : ℕ) → (Starts pos → ⊥) → IsPassed P (next left)) where
    tried-IsPassed :
        (r : MatchResult)
        → IsAnswer ct re s pos r
        → IsPassed P (elim r [
          | match_end end regs ↦ found_at pos end
          | no_match regs left ↦ next left
          | too_complex ↦ regex_too_complex
          | fault ↦ search_fault
        ])
    unfolding IsPassed IsAnswer Starts
    tried-IsPassed (match_end end regs) a = tt
    tried-IsPassed (no_match regs left) a = rest left a
    tried-IsPassed too_complex a = tt
    tried-IsPassed fault a = tt

  module _ (i : Inst) (at : get_elem? re.prog 0 ≡ some i) where
    abbrev first : Option ℕ
    first = first_byte ct re s i

    backtrack_forward-IsPassed :
        (rounds pos count : ℕ)
        → rounds + pos ≡ length s.text + 1
        → IsPassed (IsAhead pos) (backtrack_forward ct re s first rounds pos count)
    unfolding backtrack_forward IsPassed IsAhead
    backtrack_forward-IsPassed zero pos count h = λ q k. absurd (omega (arith, h, k.0, k.1))
    backtrack_forward-IsPassed (suc rounds) pos count h =
        let rest = λ (left : ℕ) (f : Starts pos → ⊥).
          forward-map pos _ f
            (backtrack_forward-IsPassed rounds (pos + 1) left (omega (arith, h))) in
        elim (Bool-cases (may_start ct re s first pos)) [
          | inr m ↦ rw (backtrack_forward, m) (rest count (skipped i pos at m))
          | inl m ↦
              rw (backtrack_forward, m)
                (tried-IsPassed pos (IsAhead pos) _ rest _ (match_here-IsAnswer ct re s count pos))
        ]

    backtrack_backward-IsPassed :
        (pos count : ℕ) → IsPassed (λ q. q < pos) (backtrack_backward ct re s first pos count)
    unfolding backtrack_backward IsPassed
    backtrack_backward-IsPassed zero count = λ q k. absurd (omega (arith, k))
    backtrack_backward-IsPassed (suc pos) count =
        let rest = λ (left : ℕ) (f : Starts pos → ⊥).
          backward-map pos _ f (backtrack_backward-IsPassed pos left) in
        elim (Bool-cases (may_start ct re s first pos)) [
          | inr m ↦ rw (backtrack_backward, m) (rest count (skipped i pos at m))
          | inl m ↦
              rw (backtrack_backward, m)
                (tried-IsPassed pos (λ q. q < suc pos) _ rest _
                  (match_here-IsAnswer ct re s count pos))
        ]

    module _
        (pike : (anchored : Bool) (from : ℕ)
          → from ≤ length s.text
          → IsPikeAnswer ct re s anchored from (pike_run ct re s from anchored)) where
      no-Starts :
          (anchored : Bool) (from start : ℕ)
          → IsPikeAnswer ct re s anchored from (some none)
          → IsStart ct re s anchored from start
          → Starts start
          → ⊥
      unfolding IsPikeAnswer Starts IsPathMatch
      no-Starts anchored from start f a h =
          let (end, m) = Starts-path start 0 start _ begins h in f start end a m

      pike_forward-IsPassed :
          (o : Option Found)
          → IsPikeAnswer ct re s false 0 o
          → IsPassed (λ q. q ≤ length s.text) (found_by_pike ct re s o)
      unfolding IsPassed
      pike_forward-IsPassed none f = tt
      pike_forward-IsPassed (some none) f = λ q k.
          no-Starts false 0 q f (record {
            from_le = omega arith;
            start_le = k;
            anchor = λ e. absurd (ground (arith, e));
          })
      pike_forward-IsPassed (some (some m)) f = tt

      module _ (pos : ℕ) (h : pos ≤ length s.text)
          (rest : IsPassed (λ q. q < pos) (pike_backward ct re s first pos)) where
        at_pos-IsPassed :
            may_start ct re s first pos ≡ true
            → (o : Option Found) → pike_run ct re s pos true ≡ o
            → IsPikeAnswer ct re s true pos o
            → IsPassed (λ q. q < suc pos) (pike_backward ct re s first (suc pos))
        unfolding pike_backward IsPassed
        at_pos-IsPassed m none e f = rw (pike_backward, m, e) tt
        at_pos-IsPassed m (some none) e f =
            rw (pike_backward, m, e)
              (backward-map pos _
                (no-Starts true pos pos f
                  (record { from_le = omega arith; start_le = h; anchor = λ _. refl }))
                rest)
        at_pos-IsPassed m (some (some k)) e f = rw (pike_backward, m, e) tt

      pike_backward-IsPassed :
          (pos : ℕ)
          → pos ≤ length s.text + 1
          → IsPassed (λ q. q < pos) (pike_backward ct re s first pos)
      unfolding pike_backward IsPassed
      pike_backward-IsPassed zero h = λ q k. absurd (omega (arith, k))
      pike_backward-IsPassed (suc pos) h =
          let rest = pike_backward-IsPassed pos (omega (arith, h)) in
          elim (Bool-cases (may_start ct re s first pos)) [
            | inr m ↦ rw (pike_backward, m) (backward-map pos _ (skipped i pos at m) rest)
            | inl m ↦
                at_pos-IsPassed pos (omega (arith, h)) rest m _ refl
                  (pike true pos (omega (arith, h)))
          ]

  -- What is found is a match, and when nothing is found, there is none.
  pub IsSearchAnswer : SearchResult → Type 0
  IsSearchAnswer (found_at start end) = IsMatch ct re s start end
  IsSearchAnswer not_found = (start end : ℕ) → IsMatch ct re s start end → ⊥
  IsSearchAnswer regex_too_complex = Unit
  IsSearchAnswer search_fault = ⊥

  both-IsSearchAnswer :
      (r : SearchResult)
      → IsSearched ct re s r
      → IsPassed (λ q. q ≤ length s.text) r
      → IsSearchAnswer r
  unfolding IsSearched IsPassed IsSearchAnswer
  both-IsSearchAnswer (found_at start end) f g = f
  both-IsSearchAnswer not_found f g =
      λ start end m. g start m.start_le (path-Starts start m.pc end m.regs m.path (ends m.last))
  both-IsSearchAnswer regex_too_complex f g = tt
  both-IsSearchAnswer search_fault f g = f

  both_false : (a b : Bool) → (not a && not b) ≡ true → (a ≡ false) × (b ≡ false)
  both_false a b e = ground (arith, e)

  program_search-IsPassed :
      (forward : Bool)
      → (re.has_backref ≡ false
          → re.has_empty_loop ≡ false
          → (anchored : Bool) (from : ℕ) → from ≤ length s.text
          → IsPikeAnswer ct re s anchored from (pike_run ct re s from anchored))
      → IsPassed (λ q. q ≤ length s.text) (program_search ct re s forward)
  unfolding program_search IsPassed IsAhead
  program_search-IsPassed forward pike = elim (Option-cases (get_elem? re.prog 0)) [
    | inl e ↦ rw (program_search, e) tt
    | inr (i, e) ↦
        let P : ℕ → Type 0 = λ q. q ≤ length s.text in
        let all = λ (r : SearchResult).
          IsPassed-map P (λ q. q < length s.text + 1) r (λ q k. inl (omega (arith, k))) in
        rw (program_search, e)
          (either_checked (IsPassed P) (not re.has_backref && not re.has_empty_loop) _ _
            (λ q.
              let (b, l) = both_false _ _ q in
              either_lem (IsPassed P) forward _ _
                (pike_forward-IsPassed i e (pike b l) _ (pike b l false 0 (omega arith)))
                (all _ (pike_backward-IsPassed i e (pike b l) (length s.text + 1) (omega arith))))
            (λ q.
              either_lem (IsPassed P) forward _ _
                (IsPassed-map P (IsAhead 0) _ (λ q k. inl (omega arith, k))
                  (backtrack_forward-IsPassed i e (length s.text + 1) 0 _ (omega arith)))
                (all _ (backtrack_backward-IsPassed i e (length s.text + 1) _))))
  ]

-- With the program of a compiled pattern and a text shorter than 2 ^ 32 - 2 bytes, `regex_search`
-- finds a match, forward and backward, or gives up as too complex, or finds nothing, and then the
-- text has no match: neither the matchers nor the skipping to a first byte miss one. A match is a
-- path of the program from its start to OP_MATCH at its end. A program whose `has_backref` is false
-- must have no back-reference.
pub regex_search-IsSearchAnswer :
    (ct : Ctype) (icase : Bool) (pattern : List ℕ) (re : Regex) (s : Subject) (forward : Bool)
    → regex_compile ct icase pattern ≡ inr re
    → (re.has_backref ≡ false → no_backrefs re.prog ≡ true)
    → length s.text + 2 < 2 ^ 32
    → IsSearchAnswer ct re s (regex_search ct (inr re) s forward)
unfolding regex_search
regex_search-IsSearchAnswer ct icase pattern re s forward e refs l =
    both-IsSearchAnswer ct re s _
      (program_search-IsSearched ct re s (compiled-IsProgram ct icase pattern re e) forward)
      (program_search-IsPassed ct re s forward (λ b loops anchored from h.
        pike_run-IsPikeAnswer ct icase pattern re s anchored from e loops (refs b) h l))
