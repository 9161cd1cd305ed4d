-- ===== src/Regex/Search/Tests.antt =====
-- Searches with programs and plain patterns, by each matcher.
use xzile.Prelude.{arith, ℕ, ◌≡◌, refl, inl, inr, true, false, some, List, [], ◌∷◌}
use xzile.Regex.Tests.{ascii, pattern, line, program, compiled}
use xzile.Regex.Pike.Answer.{IsPikeAnswer, no_backrefs, is_backref, pike_run-IsPikeAnswer}
use xzile.Regex.Parse.{regex_compile}
use xzile.Regex.Pike.{
  push, push_waiting, follow, add_thread, char_bytes, inst_bytes, moves_on, is_match, scan,
  is_found, no_threads, run_from, pike_run,
}
use xzile.Regex.Search.{
  found_at, compile_plain, literal_at, plain_forward, plain_search, first_byte, may_start,
  pike_backward, program_search, regex_search,
}
use xzile.Regex.Search.Safe.{SearchesWithin, regex_compile-SearchesWithin}
use xzile.Regex.Search.Complete.{IsSearchAnswer, regex_search-IsSearchAnswer}
use xzile.Regex.Search.Plain.{IsFirst, regex_search-IsFirst}

lockstep : pike_run ascii program line 0 false ≡ some (some (0, 2))
unfolding pike_run run_from add_thread follow push push_waiting char_bytes inst_bytes moves_on
    is_match scan is_found no_threads
lockstep = refl

backward : regex_search ascii (inr program) line false ≡ found_at 3 3
unfolding pike_run run_from add_thread follow push push_waiting char_bytes inst_bytes moves_on
    is_match scan is_found no_threads regex_search program_search first_byte may_start pike_backward
backward = refl

-- "AB"
abbrev capitals : List ℕ
capitals = 65 ∷ 66 ∷ []

plain_match : regex_search ascii (inl (compile_plain ascii true capitals)) line true ≡ found_at 0 2
unfolding regex_search plain_search plain_forward literal_at compile_plain
plain_match = refl

regex_compile-SearchesWithin_example :
    SearchesWithin ascii line true (regex_compile ascii false pattern)
regex_compile-SearchesWithin_example = regex_compile-SearchesWithin ascii false pattern line true

regex_search-IsFirst_example :
    IsFirst ascii
      (compile_plain ascii true capitals)
      line.text
      false
      (regex_search ascii (inl (compile_plain ascii true capitals)) line false)
regex_search-IsFirst_example = regex_search-IsFirst ascii true capitals line false

pike_run-IsPikeAnswer_example :
    IsPikeAnswer ascii program line false 0 (pike_run ascii program line 0 false)
unfolding no_backrefs is_backref
pike_run-IsPikeAnswer_example =
    pike_run-IsPikeAnswer ascii false pattern program line false 0 compiled refl refl (omega arith)
      (omega arith)

regex_search-IsSearchAnswer_example :
    IsSearchAnswer ascii program line (regex_search ascii (inr program) line true)
unfolding no_backrefs is_backref
regex_search-IsSearchAnswer_example =
    regex_search-IsSearchAnswer ascii false pattern program line true compiled (λ _. refl)
      (omega arith)
