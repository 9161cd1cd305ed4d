-- ===== src/Prelude/Slices.antt =====
-- Equality of lists by their elements, and the elements of a slice, a joined or a filled list.
-- With these an equation between slices is a question of arithmetic on indices.
use Prim.Native.Nat.{ℕ, zero, suc, ◌+◌, ◌-◌, ◌≤◌, ◌<◌}
use mathlib.Core.Path.{◌≡◌, refl, ap}
use mathlib.Core.List.{List, [], ◌∷◌, ◌++◌}
use mathlib.Core.Option.{none, some}
use native.Mathlib.Omega.{arith}
use xzile.Prelude.Tests.{ltb, ◌==◌, if◌then◌else◌}
use xzile.Prelude.Lists.{
  length, get_elem?, get_or, set, take, drop, replicate, length-append, length-take, length-drop,
  length-replicate,
}

module _ {ℓ} {A : Type ℓ} where
  pub ext_get : (xs ys : List A) → ((i : ℕ) → get_elem? xs i ≡ get_elem? ys i) → xs ≡ ys
  ext_get [] [] h = refl
  ext_get [] (y ∷ ys) h = cc (h 0)
  ext_get (x ∷ xs) [] h = cc (h 0)
  ext_get (x ∷ xs) (y ∷ ys) h = cc (h 0, ext_get xs ys (λ i. h (suc i)))

  pub get-append :
      (xs ys : List A) (i : ℕ)
      → get_elem? (xs ++ ys) i
        ≡ (if ltb i (length xs) then get_elem? xs i else get_elem? ys (i - length xs))
  get-append [] ys i = ground arith
  get-append (x ∷ xs) ys zero = ground arith
  get-append (x ∷ xs) ys (suc i) = ground (arith, get-append xs ys i)

  pub get-take :
      (n : ℕ) (xs : List A) (i : ℕ)
      → get_elem? (take n xs) i ≡ (if ltb i n then get_elem? xs i else none)
  get-take zero xs i = ground arith
  get-take (suc n) [] i = ground arith
  get-take (suc n) (x ∷ xs) zero = ground arith
  get-take (suc n) (x ∷ xs) (suc i) = ground (arith, get-take n xs i)

  pub get-drop : (n : ℕ) (xs : List A) (i : ℕ) → get_elem? (drop n xs) i ≡ get_elem? xs (n + i)
  get-drop zero xs i = ground arith
  get-drop (suc n) [] i = ground arith
  get-drop (suc n) (x ∷ xs) i = ground (arith, get-drop n xs i)

  pub get-replicate :
      (n : ℕ) (a : A) (i : ℕ) → get_elem? (replicate n a) i ≡ (if ltb i n then some a else none)
  get-replicate zero a i = ground arith
  get-replicate (suc n) a zero = ground arith
  get-replicate (suc n) a (suc i) = ground (arith, get-replicate n a i)

  pub drop-nil : (n : ℕ) → drop {A = A} n [] ≡ []
  drop-nil zero = refl
  drop-nil (suc n) = refl

  pub get-ge : (xs : List A) (i : ℕ) → length xs ≤ i → get_elem? xs i ≡ none
  get-ge [] i h = refl
  get-ge (x ∷ xs) zero h = absurd (omega arith)
  get-ge (x ∷ xs) (suc i) h = get-ge xs i (omega arith)

module _ {ℓ} {A : Type ℓ} where
  pub drop-drop : (m n : ℕ) (xs : List A) → drop m (drop n xs) ≡ drop (n + m) xs
  drop-drop m n xs = ext_get _ _ (λ i. simp get-drop (ap (get_elem? xs) (omega arith)))

  pub drop-cons_pos : (n : ℕ) (x : A) (xs : List A) → 0 < n → drop n (x ∷ xs) ≡ drop (n - 1) xs
  drop-cons_pos zero x xs h = absurd (omega arith)
  drop-cons_pos (suc n) x xs h = ap (λ k. drop k xs) (omega arith)

  pub drop-ge : (n : ℕ) (xs : List A) → length xs ≤ n → drop n xs ≡ []
  drop-ge zero [] h = refl
  drop-ge zero (x ∷ xs) h = absurd (omega arith)
  drop-ge (suc n) [] h = refl
  drop-ge (suc n) (x ∷ xs) h = drop-ge n xs (omega arith)

  pub take-ge : (n : ℕ) (xs : List A) → length xs ≤ n → take n xs ≡ xs
  take-ge zero [] h = refl
  take-ge zero (x ∷ xs) h = absurd (omega arith)
  take-ge (suc n) [] h = refl
  take-ge (suc n) (x ∷ xs) h = ap (x ∷◌) (take-ge n xs (omega arith))

pub get_or-set {ℓ} :
    {A : Type ℓ} (xs : List A) (i j : ℕ) (x d : A)
    → i < length xs
    → get_or (set xs i x) j d ≡ (if j == i then x else get_or xs j d)
get_or-set [] i j x d h = absurd (omega arith)
get_or-set (y ∷ xs) zero zero x d h = ground arith
get_or-set (y ∷ xs) zero (suc j) x d h = ground arith
get_or-set (y ∷ xs) (suc i) zero x d h = ground arith
get_or-set (y ∷ xs) (suc i) (suc j) x d h = ground (arith, get_or-set xs i j x d)

pub ruleset slices = (get-append, get-take, get-drop, get-replicate)

pub ruleset lengths = (length-append, length-take, length-drop, length-replicate)
