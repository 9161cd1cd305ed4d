-- ===== src/Keycode/Tests.antt =====
-- Keys written as in the default bindings.
use xzile.Prelude.{ℕ, ◌≡◌, refl, true, none, some, List, [], ◌∷◌}
use xzile.Completion.{starts_with}
use xzile.Keycode.{
  keyinfo, find_best, strtokey, strtochord, chord_from, keys_from, keystrtovec, find_desc,
  keytodesc, chordtodesc, keyvectodesc, descs_after, hex,
}
use xzile.Keycode.Strings.{IsBest, find_best-IsBest}

-- "\\C-x\\F10"
abbrev text : List ℕ
text = 92 ∷ 67 ∷ 45 ∷ 120 ∷ 92 ∷ 70 ∷ 49 ∷ 48 ∷ []

two_keys : keystrtovec (some text) ≡ some (0x278 ∷ 0x119 ∷ [])
unfolding keystrtovec keys_from strtochord chord_from strtokey find_best starts_with
two_keys = refl

-- "C-x <f10>"
described :
    keyvectodesc (λ c. true) (0x278 ∷ 0x119 ∷ [])
    ≡ 67 ∷ 45 ∷ 120 ∷ 32 ∷ 60 ∷ 102 ∷ 49 ∷ 48 ∷ 62 ∷ []
unfolding keyvectodesc descs_after chordtodesc keytodesc find_desc hex
described = refl

find_best-IsBest_example :
    IsBest keyinfo
      (92 ∷ 70 ∷ 49 ∷ 48 ∷ [])
      (find_best keyinfo (92 ∷ 70 ∷ 49 ∷ 48 ∷ []) none 0).0
      (find_best keyinfo (92 ∷ 70 ∷ 49 ∷ 48 ∷ []) none 0).1
find_best-IsBest_example = find_best-IsBest keyinfo (92 ∷ 70 ∷ 49 ∷ 48 ∷ [])
