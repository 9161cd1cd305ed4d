-- ===== src/StrVec/Search.antt =====
-- The binary search of src/util.c finds the place of a string in a sorted vector.
use xzile.Prelude.{
  ℕ, zero, suc, ◌+◌, ◌-◌, ◌/◌, ◌≤◌, ◌<◌, ◌≡◌, refl, sym, ap, ◌∙◌, ◌≢◌, ◌⊎◌, inl, inr, true, false,
  ◌&&◌, List, [], ◌∷◌, arith, ltb, ◌==◌, Bool-cases, length,
}
use xzile.StrVec.{same_bytes, str_less, nth, lower_bound, sv_lower_bound, sv_contains}

pub less_trans : (a b c : List ℕ) → str_less a b ≡ true → str_less b c ≡ true → str_less a c ≡ true
unfolding str_less
less_trans [] [] c h k = absurd (ground arith)
less_trans [] (y ∷ b) [] h k = absurd (ground arith)
less_trans [] (y ∷ b) (z ∷ c) h k = refl
less_trans (x ∷ a) [] c h k = absurd (ground arith)
less_trans (x ∷ a) (y ∷ b) [] h k = absurd (ground arith)
less_trans (x ∷ a) (y ∷ b) (z ∷ c) h k = ground (arith, less_trans a b c)

less_irrefl : (a : List ℕ) → str_less a a ≡ false
unfolding str_less
less_irrefl [] = refl
less_irrefl (x ∷ a) = ground (arith, less_irrefl a)

pub same_bytes_eq : (s t : List ℕ) → same_bytes s t ≡ true → s ≡ t
unfolding same_bytes
same_bytes_eq [] [] h = refl
same_bytes_eq [] (d ∷ t) h = absurd (ground arith)
same_bytes_eq (c ∷ s) [] h = absurd (ground arith)
same_bytes_eq (c ∷ s) (d ∷ t) h = let e = same_bytes_eq s t in ground arith

pub same_bytes_refl : (s : List ℕ) → same_bytes s s ≡ true
unfolding same_bytes
same_bytes_refl [] = refl
same_bytes_refl (c ∷ s) = ground (arith, same_bytes_refl s)

-- Sorted, each string once.
abbrev pub IsSorted : List (List ℕ) → Type 0
IsSorted v = (i j : ℕ) → i < j → j < length v → str_less (nth v i) (nth v j) ≡ true

-- The strings before `r` are less than `s`, the others are not.
pub record IsBound (v : List (List ℕ)) (s : List ℕ) (lo hi : ℕ) : Type 0 where
  pub within : hi ≤ length v
  pub before : (j : ℕ) → j < lo → str_less (nth v j) s ≡ true
  pub behind : (j : ℕ) → hi ≤ j → j < length v → str_less (nth v j) s ≡ false

module _ (v : List (List ℕ)) (s : List ℕ) (sorted : IsSorted v) where
  less_up_to :
      (m j : ℕ) → m < length v → j ≤ m → str_less (nth v m) s ≡ true → str_less (nth v j) s ≡ true
  less_up_to m j b h k = elim (Bool-cases (j == m)) [
    | inl e ↦ let same : j ≡ m = ground arith in rw same k
    | inr e ↦ less_trans (nth v j) (nth v m) s (sorted j m (ground arith) b) k
  ]

  -- A round: the middle string is less than `s`, or it is not.
  above :
      (lo hi m : ℕ)
      → IsBound v s lo hi
      → m < hi
      → str_less (nth v m) s ≡ true
      → IsBound v s (m + 1) hi
  above lo hi m b h k = record {
    within = b.within;
    before = λ j c. less_up_to m j (omega (arith, b.within)) (omega arith) k;
    behind = b.behind;
  }

  below :
      (lo hi m : ℕ) → IsBound v s lo hi → m < hi → str_less (nth v m) s ≡ false → IsBound v s lo m
  below lo hi m b h k = record {
    within = omega (arith, b.within);
    before = b.before;
    behind = λ j c d. elim (Bool-cases (str_less (nth v j) s)) [
      | inl e ↦ absurd (ground (arith, less_up_to j m d c e))
      | inr e ↦ e
    ];
  }

  lower_bound-IsBound :
      (fuel lo hi : ℕ)
      → hi ≤ lo + fuel
      → lo ≤ hi
      → IsBound v s lo hi
      → IsBound v s (lower_bound fuel v s lo hi) (lower_bound fuel v s lo hi)
  unfolding lower_bound
  lower_bound-IsBound zero lo hi f o b =
      let same : hi ≡ lo = omega arith in
      record {
        within = omega (arith, b.within);
        before = b.before;
        behind = λ j c d. b.behind j (omega arith) d;
      }
  lower_bound-IsBound (suc fuel) lo hi f o b = elim (Bool-cases (ltb lo hi)) [
    | inr e ↦
        rw (e, lower_bound)
          (record {
            within = ground (arith, b.within);
            before = b.before;
            behind = λ j c d. b.behind j (ground arith) d;
          })
    | inl e ↦
        let m = lo + (hi - lo) / 2 in
        let inside : (lo ≤ m) × (m < hi) = ground arith in
        elim (Bool-cases (str_less (nth v m) s)) [
          | inl k ↦
              rw (e, k, lower_bound)
                (lower_bound-IsBound fuel (m + 1) hi (omega (arith, inside)) (omega (arith, inside))
                  (above lo hi m b inside.1 k))
          | inr k ↦
              rw (e, k, lower_bound)
                (lower_bound-IsBound fuel lo m (omega (arith, inside)) (omega (arith, inside))
                  (below lo hi m b inside.1 k))
        ]
  ]

  -- In a sorted vector, the binary search `sv_lower_bound` ends at the place of the string: all
  -- strings before it are less, and none from it on is.
  pub sv_lower_bound-IsBound : IsBound v s (sv_lower_bound v s) (sv_lower_bound v s)
  unfolding sv_lower_bound
  sv_lower_bound-IsBound =
      lower_bound-IsBound (length v + 1) 0 (length v) (omega arith) (omega arith) (record {
        within = omega arith;
        before = λ j c. absurd (omega arith);
        behind = λ j c d. absurd (omega arith);
      })

  pub absent :
      {i : ℕ}
      → IsBound v s i i
      → (ltb i (length v) && same_bytes (nth v i) s) ≡ false
      → (j : ℕ) → j < length v
      → nth v j ≢ s
  absent {i} b e j c k =
      let not_less : str_less (nth v j) s ≡ false = rw k (less_irrefl s) in
      elim (Bool-cases (ltb j i)) [
        | inl f ↦ absurd (ground (arith, b.before j))
        | inr f ↦ elim (Bool-cases (ltb i j)) [
          | inl g ↦
              let less : str_less (nth v i) s ≡ true =
                ap (λ t. str_less (nth v i) t) (sym k) ∙ sorted i j (ground arith) c in
              absurd (ground (arith, b.behind i))
          | inr g ↦
              let here : i ≡ j = ground arith in
              let found : same_bytes (nth v i) s ≡ true =
                ap (λ n. same_bytes (nth v n) s) here
                ∙ (ap (λ t. same_bytes t s) k ∙ same_bytes_refl s) in
              absurd (ground arith)
        ]
      ]

  -- For a sorted vector, `sv_contains` answers true exactly if the string is one of the vector's:
  -- then there is an index where it stands, otherwise it stands at none.
  pub sv_contains_lem :
      ((j : ℕ) × (j < length v) × (nth v j ≡ s) × (sv_contains v s ≡ true))
      ⊎ (((j : ℕ) → j < length v → nth v j ≢ s) × (sv_contains v s ≡ false))
  unfolding sv_contains
  sv_contains_lem =
      let i = sv_lower_bound v s in
      let b = sv_lower_bound-IsBound in
      elim (Bool-cases (ltb i (length v) && same_bytes (nth v i) s)) [
        | inl e ↦ inl (i, ground arith, same_bytes_eq (nth v i) s (ground arith), e)
        | inr e ↦ inr (λ j c k. absent b e j c k, e)
      ]
