-- ===== src/Completion/Tests.antt =====
-- Completions of "f" and "fo" among "bar", "fob" and "foo".
use xzile.Prelude.{◌≡◌, refl, false, none, [], ◌∷◌, arith}
use xzile.Completion.{
  Completion, nonunique, completion_try, collect, differs, common_end, several, try_search,
  starts_with,
}
use xzile.StrVec.{same_bytes, str_less, lower_bound, sv_lower_bound, sv_add_sorted}
use xzile.Completion.Common.{IsAnswer, completion_try-IsAnswer}

abbrev words : Completion
words = record {
  completions = (98 ∷ 97 ∷ 114 ∷ []) ∷ (102 ∷ 111 ∷ 98 ∷ []) ∷ (102 ∷ 111 ∷ 111 ∷ []) ∷ [];
  matches = [];
  match_bytes = [];
  matchsize = 0;
  shown = none;
}

two_found : (completion_try words (102 ∷ []) false).0 ≡ nonunique
unfolding completion_try try_search collect starts_with several common_end differs same_bytes
    str_less lower_bound sv_lower_bound sv_add_sorted
two_found = refl

common_part : (completion_try words (102 ∷ []) false).1.matchsize ≡ 2
unfolding completion_try try_search collect starts_with several common_end differs same_bytes
    str_less lower_bound sv_lower_bound sv_add_sorted
common_part = refl

completion_try-IsAnswer_example : IsAnswer words (102 ∷ []) (completion_try words (102 ∷ []) false)
completion_try-IsAnswer_example = completion_try-IsAnswer words (102 ∷ []) false (omega arith)
