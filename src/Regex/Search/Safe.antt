-- ===== src/Regex/Search/Safe.antt =====
-- What `regex_search` of src/regex.c finds with a program is a path of the program, by either
-- matcher and in either direction.
use xzile.Prelude.{
  ℕ, zero, suc, ◌+◌, ◌≤◌, ◌≡◌, refl, sym, ◌∙◌, ◌⊎◌, inl, inr, Bool, true, false, ◌&&◌, not, Option,
  none, some, List, arith, ltb, Bool-cases, Option-cases, length, get_elem?,
}
use xzile.VTerm.Dispatch.Safe.{either_lem, either_checked}
use xzile.Regex.{op_match, Regex}
use xzile.Regex.Run.{
  Ctype, Subject, MatchResult, match_end, no_match, too_complex, fault, match_here,
}
use xzile.Regex.Run.Safe.{IsProgram, IsResult, get-within}
use xzile.Regex.Run.Safe.Steps.{match_here-IsResult, length_prog}
use xzile.Regex.Run.Paths.{Reaches, IsFound, match_here-IsFound}
use xzile.Regex.Bracket.{RegexError}
use xzile.Regex.Parse.{regex_compile}
use xzile.Regex.Parse.Compile.{IsCompiled, regex_compile-IsCompiled}
use xzile.Regex.Pike.{Found, pike_run}
use xzile.Regex.Pike.Rounds.{IsBest, IsRun}
use xzile.Regex.Pike.Paths.{IsOnPath, pike_run-IsOnPath}
use xzile.Regex.Search.{
  SearchResult, found_at, not_found, regex_too_complex, search_fault, first_byte, may_start,
  found_by_pike, pike_backward, backtrack_forward, backtrack_backward, program_search, regex_search,
}

module _ (ct : Ctype) (re : Regex) (s : Subject) where
  -- A match is a path of the program in the text, from its start to OP_MATCH at its end.
  pub record IsMatch (start end : ℕ) : Type 0 where
    pub start_le : start ≤ length s.text
    pub end_le : end ≤ length s.text
    pub pc : ℕ
    pub regs : List (Option ℕ)
    pub path : Reaches ct re s start pc end regs
    pub last : get_elem? re.prog pc ≡ some op_match

  unfoldable pub IsSearched : SearchResult → Type 0
  IsSearched (found_at start end) = IsMatch start end
  IsSearched not_found = Unit
  IsSearched regex_too_complex = Unit
  IsSearched search_fault = ⊥

  module _ (p : IsProgram re) where
    module _ (no_loops : p.nloops ≡ 0) where
      pike-IsMatch :
          (anchored : Bool) (from start end : ℕ)
          → IsBest ct re s (IsOnPath ct re s p no_loops anchored from) (some (start, end))
          → IsMatch start end × (anchored ≡ true → start ≡ from)
      unfolding IsBest
      pike-IsMatch anchored from start end (pc, g, e) = (
        record {
          start_le = omega (arith, g.place.start_le, g.place.sp_le);
          end_le = g.place.sp_le;
          pc = pc;
          regs = g.regs;
          path = g.path;
          last = e;
        },
        g.anchor,
      )

      forward-IsSearched :
          (o : Option Found)
          → IsRun ct re s (IsOnPath ct re s p no_loops false 0) o
          → IsSearched (found_by_pike ct re s o)
      unfolding IsRun IsSearched
      forward-IsSearched none r = r
      forward-IsSearched (some none) r = tt
      forward-IsSearched (some (some (start, end))) r = (pike-IsMatch false 0 start end r).0

      at_pos :
          (first : Option ℕ) (pos : ℕ)
          → may_start ct re s first pos ≡ true
          → IsSearched (pike_backward ct re s first pos)
          → (o : Option Found) → pike_run ct re s pos true ≡ o
          → IsRun ct re s (IsOnPath ct re s p no_loops true pos) o
          → IsSearched (pike_backward ct re s first (suc pos))
      unfolding pike_backward IsSearched IsRun
      at_pos first pos m rest none e r = absurd r
      at_pos first pos m rest (some none) e r = rw (pike_backward, m, e) rest
      at_pos first pos m rest (some (some (start, end))) e r =
          rw (pike_backward, m, e) (pike-IsMatch true pos start end r).0

      pike_backward-IsSearched :
          (first : Option ℕ) (pos : ℕ)
          → pos ≤ length s.text + 1
          → IsSearched (pike_backward ct re s first pos)
      unfolding pike_backward IsSearched
      pike_backward-IsSearched first zero h = tt
      pike_backward-IsSearched first (suc pos) h =
          let rest = pike_backward-IsSearched first pos (omega (arith, h)) in
          elim (Bool-cases (may_start ct re s first pos)) [
            | inr m ↦ rw (pike_backward, m) rest
            | inl m ↦
                at_pos first pos m rest (pike_run ct re s pos true) refl
                  (pike_run-IsOnPath ct re s p no_loops true pos (omega (arith, h)))
          ]

    -- What a call of `match_here` says of the search that goes on from its result.
    module _ (steps pos : ℕ) (h : pos ≤ length s.text) where
      tried : MatchResult → (ℕ → SearchResult) → SearchResult
      tried r next = elim r [
        | match_end end regs ↦ found_at pos end
        | no_match regs left ↦ next left
        | too_complex ↦ regex_too_complex
        | fault ↦ search_fault
      ]

      tried-IsSearched :
          (next : ℕ → SearchResult)
          → ((left : ℕ) → IsSearched (next left))
          → (r : MatchResult) → IsResult (length s.text) r
          → IsFound ct re s pos r
          → IsSearched (tried r next)
      unfolding tried IsSearched IsResult IsFound
      tried-IsSearched next f (match_end end regs) (k, a) (pc, path, e) = record {
        start_le = h;
        end_le = k;
        pc = pc;
        regs = regs;
        path = path;
        last = e;
      }
      tried-IsSearched next f (no_match regs left) k a = f left
      tried-IsSearched next f too_complex k a = tt
      tried-IsSearched next f fault k a = k

      match-IsSearched :
          (next : ℕ → SearchResult)
          → ((left : ℕ) → IsSearched (next left))
          → IsSearched (tried (match_here ct re s steps pos) next)
      match-IsSearched next f =
          tried-IsSearched next f _ (match_here-IsResult ct re s p steps pos h)
            (match_here-IsFound ct re s pos steps)

    backtrack_forward-IsSearched :
        (first : Option ℕ) (rounds pos steps : ℕ)
        → rounds + pos ≤ length s.text + 1
        → IsSearched (backtrack_forward ct re s first rounds pos steps)
    unfolding backtrack_forward IsSearched tried
    backtrack_forward-IsSearched first zero pos steps h = tt
    backtrack_forward-IsSearched first (suc rounds) pos steps h =
        let rest = λ (left : ℕ).
          backtrack_forward-IsSearched first rounds (pos + 1) left (omega (arith, h)) in
        elim (Bool-cases (may_start ct re s first pos)) [
          | inr m ↦ rw (backtrack_forward, m) (rest steps)
          | inl m ↦ rw (backtrack_forward, m) (match-IsSearched steps pos (omega (arith, h)) _ rest)
        ]

    backtrack_backward-IsSearched :
        (first : Option ℕ) (pos steps : ℕ)
        → pos ≤ length s.text + 1
        → IsSearched (backtrack_backward ct re s first pos steps)
    unfolding backtrack_backward IsSearched tried
    backtrack_backward-IsSearched first zero steps h = tt
    backtrack_backward-IsSearched first (suc pos) steps h =
        let rest = λ (left : ℕ). backtrack_backward-IsSearched first pos left (omega (arith, h)) in
        elim (Bool-cases (may_start ct re s first pos)) [
          | inr m ↦ rw (backtrack_backward, m) (rest steps)
          | inl m ↦
              rw (backtrack_backward, m) (match-IsSearched steps pos (omega (arith, h)) _ rest)
        ]

    none_below : (n : ℕ) → ltb 0 n ≡ false → n ≡ 0
    none_below n e = ground (arith, e)

    not_either : (a b : Bool) → (not a && not b) ≡ true → b ≡ false
    not_either a b e = ground (arith, e)

    pub program_search-IsSearched : (forward : Bool) → IsSearched (program_search ct re s forward)
    unfolding program_search
    program_search-IsSearched forward = elim (Option-cases (get_elem? re.prog 0)) [
      | inl e ↦ absurd (get-within re.prog 0 (omega (arith, length_prog ct re s p)) e)
      | inr (i, e) ↦
          rw (program_search, e)
            (either_checked IsSearched (not re.has_backref && not re.has_empty_loop) _ _
              (λ q.
                let none = none_below p.nloops (sym p.loops_eq ∙ not_either _ _ q) in
                either_lem IsSearched forward _ _
                  (forward-IsSearched none _
                    (pike_run-IsOnPath ct re s p none false 0 (omega arith)))
                  (pike_backward-IsSearched none (first_byte ct re s i) _ (omega arith)))
              (λ q.
                either_lem IsSearched forward _ _
                  (backtrack_forward-IsSearched (first_byte ct re s i) _ 0 _ (omega arith))
                  (backtrack_backward-IsSearched (first_byte ct re s i) _ _ (omega arith))))
    ]

-- A pattern is refused, or what `regex_search` finds with it is a match.
pub SearchesWithin : Ctype → Subject → Bool → RegexError ⊎ Regex → Type 0
SearchesWithin ct s forward (inl e) = Unit
SearchesWithin ct s forward (inr re) = IsSearched ct re s (regex_search ct (inr re) s forward)

compiled-SearchesWithin :
    (ct : Ctype) (s : Subject) (forward : Bool) (c : RegexError ⊎ Regex)
    → IsCompiled c
    → SearchesWithin ct s forward c
unfolding SearchesWithin IsCompiled regex_search
compiled-SearchesWithin ct s forward (inl e) v = tt
compiled-SearchesWithin ct s forward (inr re) v = program_search-IsSearched ct re s v forward

-- Any pattern is refused, or `regex_search` with its program, forward or backward, ends and reads
-- and writes nothing outside the program, its sets, registers and marks, the matchers' lists and
-- the text; and what it finds, by the backtracking matcher or by lockstep threads, is a path of the
-- program from its start to OP_MATCH at its end, both in the text.
pub regex_compile-SearchesWithin :
    (ct : Ctype) (icase : Bool) (p : List ℕ) (s : Subject) (forward : Bool)
    → SearchesWithin ct s forward (regex_compile ct icase p)
regex_compile-SearchesWithin ct icase p s forward =
    compiled-SearchesWithin ct s forward _ (regex_compile-IsCompiled ct icase p)
