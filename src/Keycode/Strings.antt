-- ===== src/Keycode/Strings.antt =====
-- Reading keys from strings in src/keycode.c: which name of the table is taken, and how far the
-- readers go.
use xzile.Prelude.{
  ℕ, zero, suc, ◌≤◌, ◌<◌, ◌≡◌, refl, sym, ◌⊎◌, inl, inr, true, false, ◌&&◌, Option, none, some,
  List, [], ◌∷◌, arith, ltb, Bool-cases, length, get_or,
}
use xzile.Completion.{starts_with}
use xzile.Keycode.{KeyInfo, key, find_best}

abbrev pub row : List KeyInfo → ℕ → KeyInfo
row ks i = get_or ks i (key 0 [] none)

-- Row `i` has the code found, and its name, of `n` bytes, starts the string.
pub record IsRow (ks : List KeyInfo) (buf : List ℕ) (found : Option ℕ) (n i : ℕ) : Type 0 where
  pub inside : i < length ks
  pub starts : starts_with buf (row ks i).name ≡ true
  pub len : length (row ks i).name ≡ n
  pub code : found ≡ some (row ks i).code

-- The row with the longest name that starts the string, or nothing where no name does.
pub record IsBest (ks : List KeyInfo) (buf : List ℕ) (found : Option ℕ) (n : ℕ) : Type 0 where
  pub longest :
      (i : ℕ)
      → i < length ks
      → (starts_with buf (row ks i).name ≡ false) ⊎ (length (row ks i).name ≤ n)
  pub taken : ((found ≡ none) × (n ≡ 0)) ⊎ ((0 < n) × ((i : ℕ) × IsRow ks buf found n i))

-- The same with a best row to start from.
record IsBetter (ks : List KeyInfo) (buf : List ℕ) (b0 : Option ℕ) (n0 : ℕ) (found : Option ℕ)
    (n : ℕ) : Type 0 where
  pub longest :
      (i : ℕ)
      → i < length ks
      → (starts_with buf (row ks i).name ≡ false) ⊎ (length (row ks i).name ≤ n)
  pub grows : n0 ≤ n
  pub taken : ((found ≡ b0) × (n ≡ n0)) ⊎ ((n0 < n) × ((i : ℕ) × IsRow ks buf found n i))

next-IsRow :
    (k : KeyInfo) (ks : List KeyInfo) (buf : List ℕ) (found : Option ℕ) (n i : ℕ)
    → IsRow ks buf found n i
    → IsRow (k ∷ ks) buf found n (suc i)
next-IsRow k ks buf found n i r = record {
  inside = omega (arith, r.inside);
  starts = r.starts;
  len = r.len;
  code = r.code;
}

bigger :
    (n : ℕ) (k : KeyInfo) (buf : List ℕ)
    → (ltb n (length k.name) && starts_with buf k.name) ≡ true
    → (n < length k.name) × (starts_with buf k.name ≡ true)
bigger n k buf e = (ground (arith, e), ground (arith, e))

-- What holds of the first row and of the others.
longest_with :
    (k : KeyInfo) (ks : List KeyInfo) (buf : List ℕ) (n : ℕ)
    → (starts_with buf k.name ≡ false) ⊎ (length k.name ≤ n)
    → ((i : ℕ)
        → i < length ks
        → (starts_with buf (row ks i).name ≡ false) ⊎ (length (row ks i).name ≤ n))
    → (i : ℕ) → i < length (k ∷ ks)
    → (starts_with buf (row (k ∷ ks) i).name ≡ false) ⊎ (length (row (k ∷ ks) i).name ≤ n)
longest_with k ks buf n first others zero h = first
longest_with k ks buf n first others (suc i) h = others i (omega (arith, h))

shorter :
    (buf : List ℕ) (k : KeyInfo) (m n : ℕ)
    → (starts_with buf k.name ≡ false) ⊎ (length k.name ≤ m)
    → m ≤ n
    → (starts_with buf k.name ≡ false) ⊎ (length k.name ≤ n)
shorter buf k m n (inl e) h = inl e
shorter buf k m n (inr l) h = inr (omega (arith, l, h))

find_best-IsBetter :
    (ks : List KeyInfo) (buf : List ℕ) (b0 : Option ℕ) (n0 : ℕ)
    → IsBetter ks buf b0 n0 (find_best ks buf b0 n0).0 (find_best ks buf b0 n0).1
unfolding find_best
find_best-IsBetter [] buf b0 n0 = record {
  longest = λ i h. absurd (omega (arith, h));
  grows = omega arith;
  taken = inl (refl, refl);
}
find_best-IsBetter (k ∷ ks) buf b0 n0 =
    elim (Bool-cases (ltb n0 (length k.name) && starts_with buf k.name)) [
      | inl e ↦
          let r = find_best-IsBetter ks buf (some k.code) (length k.name) in
          let (more, start) = bigger n0 k buf e in
          rw (find_best, e)
            (record {
              longest = longest_with k ks buf _ (inr r.grows) r.longest;
              grows = omega (arith, r.grows, more);
              taken = elim r.taken [
                | inl (same, n) ↦ inr (
                  omega (arith, n, more),
                  (0, record { inside = omega arith; starts = start; len = sym n; code = same }),
                )
                | inr (h, (i, x)) ↦
                    inr (omega (arith, h, more), (suc i, next-IsRow k ks buf _ _ i x))
              ];
            })
      | inr e ↦
          let r = find_best-IsBetter ks buf b0 n0 in
          let first : (starts_with buf k.name ≡ false) ⊎ (length k.name ≤ n0) = ground (arith, e) in
          rw (find_best, e)
            (record {
              longest = longest_with k ks buf _ (shorter buf k n0 _ first r.grows) r.longest;
              grows = r.grows;
              taken = elim r.taken [
                | inl same ↦ inl same
                | inr (h, (i, x)) ↦ inr (h, (suc i, next-IsRow k ks buf _ _ i x))
              ];
            })
    ]

-- For any table and string, the loop of `strtokey` finds the row with the longest name that starts
-- the string, with the length of the name, or nothing, with length 0.
pub find_best-IsBest :
    (ks : List KeyInfo) (buf : List ℕ)
    → IsBest ks buf (find_best ks buf none 0).0 (find_best ks buf none 0).1
find_best-IsBest ks buf =
    let r = find_best-IsBetter ks buf none 0 in record { longest = r.longest; taken = r.taken }
