-- ===== src/StrVec/Insert.antt =====
-- `sv_add_sorted` of src/util.c adds a string to a sorted vector, or finds it there.
use xzile.Prelude.{
  ℕ, zero, suc, ◌+◌, ◌-◌, ◌≤◌, ◌<◌, ◌≡◌, ◌≢◌, ◌⊎◌, refl, inl, inr, true, false, ◌&&◌, List, [], ◌∷◌,
  ◌++◌, arith, ltb, if◌then◌else◌, Bool-cases, length, take, drop, length-append, length-take,
  length-drop,
}
use xzile.StrVec.{same_bytes, str_less, nth, sv_lower_bound, sv_add_sorted}
use xzile.StrVec.Search.{
  IsSorted, IsBound, less_trans, same_bytes_eq, sv_lower_bound-IsBound, absent,
}

less_total : (a b : List ℕ) → str_less a b ≡ false → same_bytes a b ≡ false → str_less b a ≡ true
unfolding str_less same_bytes
less_total [] [] h k = absurd (ground arith)
less_total [] (y ∷ b) h k = absurd (ground arith)
less_total (x ∷ a) [] h k = refl
less_total (x ∷ a) (y ∷ b) h k = ground (arith, less_total a b)

-- `s` put in at index `i`.
abbrev pub inserted : List (List ℕ) → ℕ → List ℕ → List (List ℕ)
inserted v i s = take i v ++ (s ∷ drop i v)

pub nth-inserted :
    (v : List (List ℕ)) (s : List ℕ) (i j : ℕ)
    → i ≤ length v
    → nth (inserted v i s) j ≡ (if ltb j i then nth v j else if ltb i j then nth v (j - 1) else s)
nth-inserted v s zero zero h = ground arith
nth-inserted v s zero (suc j) h = ground arith
nth-inserted [] s (suc i) j h = absurd (omega arith)
nth-inserted (x ∷ v) s (suc i) zero h = ground arith
nth-inserted (x ∷ v) s (suc i) (suc zero) h = ground (arith, nth-inserted v s i 0)
nth-inserted (x ∷ v) s (suc i) (suc (suc j)) h = ground (arith, nth-inserted v s i (suc j))

pub length-inserted :
    (v : List (List ℕ)) (s : List ℕ) (i : ℕ) → i ≤ length v → length (inserted v i s) ≡ length v + 1
length-inserted v s i h =
    ground (arith, length-append (take i v) (s ∷ drop i v), length-take i v, length-drop i v)

module _ (v : List (List ℕ)) (s : List ℕ) (sorted : IsSorted v) where
  -- Behind its place the strings are greater.
  greater :
      (i : ℕ)
      → IsBound v s i i
      → (ltb i (length v) && same_bytes (nth v i) s) ≡ false
      → (m : ℕ) → i ≤ m
      → m < length v
      → str_less s (nth v m) ≡ true
  greater i b e m h c =
      let first : str_less s (nth v i) ≡ true =
        less_total (nth v i) s (b.behind i (omega arith) (omega arith)) (ground arith) in
      elim (Bool-cases (ltb i m)) [
        | inl f ↦ less_trans s (nth v i) (nth v m) first (sorted i m (ground arith) c)
        | inr f ↦ let here : m ≡ i = ground arith in rw here first
      ]

  inserted-IsSorted :
      (i : ℕ)
      → IsBound v s i i
      → (ltb i (length v) && same_bytes (nth v i) s) ≡ false
      → IsSorted (inserted v i s)
  inserted-IsSorted i b e j k h c =
      let n = length-inserted v s i b.within in
      ground (
        arith,
        nth-inserted v s i j b.within,
        nth-inserted v s i k b.within,
        b.before j,
        sorted j k,
        sorted j (k - 1),
        sorted (j - 1) (k - 1),
        greater i b e (k - 1),
      )

  -- `sv_add_sorted` keeps a sorted vector sorted, each string once. Either the string stands in the
  -- vector, which is left as it is, with no addition reported; or it stands nowhere in it, and the
  -- result is the vector with the string put in at one place, with an addition reported.
  pub sv_add_sorted-IsSorted :
      IsSorted (sv_add_sorted v s).0
      × (((j : ℕ) × (j < length v) × (nth v j ≡ s) × (sv_add_sorted v s ≡ (v, false)))
          ⊎ (((j : ℕ) → j < length v → nth v j ≢ s)
              × ((i : ℕ) × (i ≤ length v) × (sv_add_sorted v s ≡ (inserted v i s, true)))))
  unfolding sv_add_sorted
  sv_add_sorted-IsSorted =
      let i = sv_lower_bound v s in
      let b = sv_lower_bound-IsBound v s sorted in
      elim (Bool-cases (ltb i (length v) && same_bytes (nth v i) s)) [
        | inl e ↦ (
          rw e sorted,
          inl (i, ground arith, same_bytes_eq (nth v i) s (ground arith), rw e refl),
        )
        | inr e ↦ (
          rw e (inserted-IsSorted i b e),
          inr (λ j c k. absent v s sorted b e j c k, (i, b.within, rw e refl)),
        )
      ]
