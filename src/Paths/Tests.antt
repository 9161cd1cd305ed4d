-- ===== src/Paths/Tests.antt =====
-- Paths of a few bytes.
use xzile.Prelude.{ℕ, zero, suc, ◌<◌, ◌≡◌, refl, true, false, List, [], ◌∷◌, arith, ◌==◌, get_or}
use xzile.Bytes.{is_prefix}
use xzile.Paths.{strip_slashes, strip_name, path_basename, path_dirname, path_join, str_has_suffix}
use xzile.Paths.Join.{IsName, path_basename-path_join}

-- "ab"
abbrev name : List ℕ
name = 97 ∷ 98 ∷ []

name-IsName : IsName name
name-IsName = (omega arith, plain)
  where
    plain : (i : ℕ) → i < 2 → (get_or name i 0 == 47) ≡ false
    plain zero h = refl
    plain (suc zero) h = refl
    plain (suc (suc i)) h = absurd (omega arith)

-- In "/c/"
path_basename-path_join_example : path_basename (path_join (47 ∷ 99 ∷ 47 ∷ []) name) ≡ name
path_basename-path_join_example = path_basename-path_join (47 ∷ 99 ∷ 47 ∷ []) name name-IsName

-- The directory of "/c/ab//" is "/c".
dirname : path_dirname (47 ∷ 99 ∷ 47 ∷ 97 ∷ 98 ∷ 47 ∷ 47 ∷ []) ≡ 47 ∷ 99 ∷ []
unfolding path_dirname strip_name strip_slashes
dirname = refl

suffix : str_has_suffix (99 ∷ 97 ∷ 98 ∷ []) name ≡ true
unfolding str_has_suffix is_prefix
suffix = refl
