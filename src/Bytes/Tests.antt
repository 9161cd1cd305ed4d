-- ===== src/Bytes/Tests.antt =====
-- The searches of src/util.c and src/estr.c on small texts.
use xzile.Prelude.{ℕ, ◌≡◌, refl, some, List, [], ◌∷◌}
use xzile.Bytes.{xmemmem, memrmem}
use xzile.Bytes.Find.{IsFirst, xmemmem-IsFirst}

-- "abcab"
abbrev hay : List ℕ
hay = 97 ∷ 98 ∷ 99 ∷ 97 ∷ 98 ∷ []

found_first : xmemmem hay (97 ∷ 98 ∷ []) ≡ some 0
unfolding xmemmem
found_first = refl

found_last : memrmem hay (97 ∷ 98 ∷ []) ≡ some 3
unfolding memrmem
found_last = refl

xmemmem-IsFirst_example : IsFirst (98 ∷ 99 ∷ []) hay (xmemmem hay (98 ∷ 99 ∷ []))
xmemmem-IsFirst_example = xmemmem-IsFirst hay 98 (99 ∷ [])
