-- ===== src/Bytes/Find.antt =====
-- `xmemmem` and `memrmem` find the first and the last occurrence.
use xzile.Prelude.{
  ℕ, zero, suc, ◌+◌, ◌-◌, ◌≤◌, ◌<◌, ◌≡◌, refl, ◌≢◌, inl, inr, true, false, Option, none, some, List,
  [], ◌∷◌, arith, Bool-cases, Option-cases, length, get_elem?, drop, length-drop, get-drop, get-ge,
}
use xzile.Bytes.{is_prefix, matches_at, memchr, search_from, xmemmem, scan_back, memrmem}

-- What a search from the front returns: the first index at which the needle stands, or none.
abbrev pub IsFirst : List ℕ → List ℕ → Option ℕ → Type 0
IsFirst t s (some i) = (matches_at t s i ≡ true) × ((j : ℕ) → j < i → matches_at t s j ≡ false)
IsFirst t s none = (j : ℕ) → matches_at t s j ≡ false

-- What a search from the back returns.
abbrev pub IsLast : List ℕ → List ℕ → Option ℕ → Type 0
IsLast t s (some i) =
    (matches_at t s i ≡ true)
    × ((j : ℕ) → i < j → j + length t ≤ length s → matches_at t s j ≡ false)
IsLast t s none = (j : ℕ) → j + length t ≤ length s → matches_at t s j ≡ false

pub length-le_of_is_prefix : (t s : List ℕ) → is_prefix t s ≡ true → length t ≤ length s
unfolding is_prefix
length-le_of_is_prefix [] s h = omega arith
length-le_of_is_prefix (c ∷ t) [] h = cc
length-le_of_is_prefix (c ∷ t) (d ∷ s) h = ground (arith, length-le_of_is_prefix t s)

pub get_of_is_prefix : (c : ℕ) (t s : List ℕ) → is_prefix (c ∷ t) s ≡ true → get_elem? s 0 ≡ some c
unfolding is_prefix
get_of_is_prefix c t [] h = cc
get_of_is_prefix c t (d ∷ s) h = ground arith

-- Only the bytes that are compared count.
pub is_prefix_ext :
    (t s s' : List ℕ)
    → ((i : ℕ) → i < length t → get_elem? s i ≡ get_elem? s' i)
    → is_prefix t s ≡ is_prefix t s'
unfolding is_prefix
is_prefix_ext [] s s' h = refl
is_prefix_ext (c ∷ t) [] [] h = refl
is_prefix_ext (c ∷ t) [] (y ∷ s') h = cc (h 0 (omega arith))
is_prefix_ext (c ∷ t) (x ∷ s) [] h = cc (h 0 (omega arith))
is_prefix_ext (c ∷ t) (x ∷ s) (y ∷ s') h =
    ground (arith, h 0 (omega arith), is_prefix_ext t s s' (λ i b. h (suc i) (omega arith)))

-- A needle that stands at `j` fits there, and begins with its first byte.
pub matches_fits :
    (c : ℕ) (t s : List ℕ) (j : ℕ) → matches_at (c ∷ t) s j ≡ true → j + suc (length t) ≤ length s
matches_fits c t s j h = omega (arith, length-le_of_is_prefix (c ∷ t) (drop j s) h, length-drop j s)

pub get_of_matches :
    (c : ℕ) (t s : List ℕ) (j : ℕ) → matches_at (c ∷ t) s j ≡ true → get_elem? s j ≡ some c
get_of_matches c t s j h = ground (arith, get_of_is_prefix c t (drop j s) h, get-drop j s 0)

get-none : (xs : List ℕ) (i : ℕ) → get_elem? xs i ≡ none → length xs ≤ i
get-none [] i h = omega arith
get-none (x ∷ xs) zero h = cc
get-none (x ∷ xs) (suc i) h = omega (arith, get-none xs i h)

no_match : (c : ℕ) (t s : List ℕ) (j : ℕ) → get_elem? s j ≢ some c → matches_at (c ∷ t) s j ≡ false
no_match c t s j h = elim (Bool-cases (matches_at (c ∷ t) s j)) [
  | inl e ↦ absurd (h (get_of_matches c t s j e))
  | inr e ↦ e
]

-- `memchr` finds the first such byte of its `n`, and finds it if there is one.
memchr_bounds : (s : List ℕ) (p c n q : ℕ) → memchr s p c n ≡ some q → (p ≤ q) × (q < p + n)
unfolding memchr
memchr_bounds s p c zero q h = cc
memchr_bounds s p c (suc n) q h = ground (arith, memchr_bounds s (p + 1) c n q)

memchr_skips :
    (s : List ℕ) (p c n q j : ℕ) → memchr s p c n ≡ some q → p ≤ j → j < q → get_elem? s j ≢ some c
unfolding memchr
memchr_skips s p c zero q j h a b e = cc
memchr_skips s p c (suc n) q j h a b e = ground (arith, memchr_skips s (p + 1) c n q j)

memchr-none :
    (s : List ℕ) (p c n j : ℕ) → memchr s p c n ≡ none → p ≤ j → j < p + n → get_elem? s j ≢ some c
unfolding memchr
memchr-none s p c zero j h a b e = omega arith
memchr-none s p c (suc n) j h a b e =
    ground (arith, memchr-none s (p + 1) c n j, get-ge s j, get-none s p)

-- The loop finds the first match from `p` on, given fuel for the bytes that are left.
module _ (hay needle : List ℕ) (c last : ℕ) where
  search_from-some :
      (fuel p i : ℕ)
      → search_from fuel hay c (c ∷ needle) last p ≡ some i
      → (p ≤ i) × (matches_at (c ∷ needle) hay i ≡ true)
  unfolding search_from
  search_from-some zero p i h = cc
  search_from-some (suc fuel) p i h = elim (Option-cases (memchr hay p c (last - p + 1))) [
    | inl e ↦ ground arith
    | inr (q, e) ↦
        ground (arith, memchr_bounds hay p c (last - p + 1) q, search_from-some fuel (q + 1) i)
  ]

  search_from_skips :
      (fuel p i j : ℕ)
      → search_from fuel hay c (c ∷ needle) last p ≡ some i
      → p ≤ j
      → j < i
      → matches_at (c ∷ needle) hay j ≡ false
  unfolding search_from
  search_from_skips zero p i j h a b = cc
  search_from_skips (suc fuel) p i j h a b = elim (Option-cases (memchr hay p c (last - p + 1))) [
    | inl e ↦ ground arith
    | inr (q, e) ↦ ground (
      arith,
      memchr_skips hay p c (last - p + 1) q j,
      no_match c needle hay j,
      search_from_skips fuel (q + 1) i j,
    )
  ]

  search_from-none :
      (fuel p j : ℕ)
      → suc last < p + fuel
      → search_from fuel hay c (c ∷ needle) last p ≡ none
      → p ≤ j
      → j ≤ last
      → matches_at (c ∷ needle) hay j ≡ false
  unfolding search_from
  search_from-none zero p j f h a b = absurd (omega arith)
  search_from-none (suc fuel) p j f h a b = elim (Option-cases (memchr hay p c (last - p + 1))) [
    | inl e ↦ ground (arith, memchr-none hay p c (last - p + 1) j, no_match c needle hay j)
    | inr (q, e) ↦ ground (
      arith,
      memchr_bounds hay p c (last - p + 1) q,
      memchr_skips hay p c (last - p + 1) q j,
      no_match c needle hay j,
      search_from-none fuel (q + 1) j,
    )
  ]

module _ (hay : List ℕ) (c : ℕ) (needle : List ℕ) where
  xmemmem-none : (j : ℕ) → xmemmem hay (c ∷ needle) ≡ none → matches_at (c ∷ needle) hay j ≡ false
  unfolding xmemmem
  xmemmem-none j h = elim (Bool-cases (matches_at (c ∷ needle) hay j)) [
    | inl e ↦ ground (
      arith,
      matches_fits c needle hay j e,
      search_from-none hay needle c (length hay - suc (length needle)) (length hay + 1) 0 j,
    )
    | inr e ↦ e
  ]

  xmemmem_skips :
      (i j : ℕ) → xmemmem hay (c ∷ needle) ≡ some i → j < i → matches_at (c ∷ needle) hay j ≡ false
  unfolding xmemmem
  xmemmem_skips i j h b = ground (
    arith,
    search_from_skips hay needle c (length hay - suc (length needle)) (length hay + 1) 0 i j,
  )

  pub xmemmem-some :
      (i : ℕ) → xmemmem hay (c ∷ needle) ≡ some i → matches_at (c ∷ needle) hay i ≡ true
  unfolding xmemmem
  xmemmem-some i h =
      ground (
        arith,
        search_from-some hay needle c (length hay - suc (length needle)) (length hay + 1) 0 i,
      )

  -- `xmemmem`, which skips with `memchr`, returns the first index at which a non-empty needle
  -- stands, and fails only if there is none.
  pub xmemmem-IsFirst : IsFirst (c ∷ needle) hay (xmemmem hay (c ∷ needle))
  xmemmem-IsFirst = elim (Option-cases (xmemmem hay (c ∷ needle))) [
    | inl e ↦ rw (e, IsFirst) (λ j. xmemmem-none j e)
    | inr (i, e) ↦ rw (e, IsFirst) (xmemmem-some i e, λ j b. xmemmem_skips i j e b)
  ]

no_match_at : (t s : List ℕ) (j k : ℕ) → j ≡ k → matches_at t s k ≡ false → matches_at t s j ≡ false
no_match_at t s j k e h = rw e h

scan_back-some :
    (i : ℕ) (s t : List ℕ) (k : ℕ) → scan_back i s t ≡ some k → (k ≤ i) × (matches_at t s k ≡ true)
unfolding scan_back
scan_back-some zero s t k h = ground arith
scan_back-some (suc i) s t k h = ground (arith, scan_back-some i s t k)

scan_back_skips :
    (i : ℕ) (s t : List ℕ) (k j : ℕ)
    → scan_back i s t ≡ some k
    → k < j
    → j ≤ i
    → matches_at t s j ≡ false
unfolding scan_back
scan_back_skips zero s t k j h a b = ground arith
scan_back_skips (suc i) s t k j h a b = elim (Bool-cases (matches_at t s (suc i))) [
  | inl e ↦ ground arith
  | inr e ↦ ground (arith, scan_back_skips i s t k j, no_match_at t s j (suc i))
]

scan_back-none :
    (i : ℕ) (s t : List ℕ) (j : ℕ) → scan_back i s t ≡ none → j ≤ i → matches_at t s j ≡ false
unfolding scan_back
scan_back-none zero s t j h b = ground arith
scan_back-none (suc i) s t j h b = ground (arith, scan_back-none i s t j)

module _ (s t : List ℕ) where
  memrmem-none : (j : ℕ) → memrmem s t ≡ none → j + length t ≤ length s → matches_at t s j ≡ false
  unfolding memrmem
  memrmem-none j h b = ground (arith, scan_back-none (length s - length t) s t j)

  memrmem_skips :
      (i j : ℕ) → memrmem s t ≡ some i → i < j → j + length t ≤ length s → matches_at t s j ≡ false
  unfolding memrmem
  memrmem_skips i j h a b = ground (arith, scan_back_skips (length s - length t) s t i j)

  pub memrmem-some :
      (i : ℕ) → memrmem s t ≡ some i → (matches_at t s i ≡ true) × (i + length t ≤ length s)
  unfolding memrmem
  memrmem-some i h = ground (arith, scan_back-some (length s - length t) s t i)

  -- `memrmem` returns the last index at which the needle stands, and fails only if there is none.
  pub memrmem-IsLast : IsLast t s (memrmem s t)
  memrmem-IsLast = elim (Option-cases (memrmem s t)) [
    | inl e ↦ rw (e, IsLast) (λ j b. memrmem-none j e b)
    | inr (i, e) ↦ rw (e, IsLast) ((memrmem-some i e).0, λ j a b. memrmem_skips i j e a b)
  ]
