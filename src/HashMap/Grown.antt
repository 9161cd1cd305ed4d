-- ===== src/HashMap/Grown.antt =====
-- `map_rehash` of src/util.c, over all buckets.
use xzile.Prelude.{
  ℕ, zero, suc, ◌+◌, ◌*◌, ◌%◌, ◌<◌, ◌≡◌, refl, sym, ap, ap₂, ◌∙◌, ◌⊎◌, inl, inr, Option, none, some,
  List, [], ◌∷◌, arith, ◌==◌, Bool-cases, length, get_or, replicate, length-replicate,
}
use mathlib.Core.Path.{subst}
use xzile.HashMap.{
  Bucket, Map, nbuckets, str_hash, find_entry, rehash_bucket, rehash_buckets, map_rehash, map_get,
}
use xzile.HashMap.Buckets.{IsUnique, HashesTo, find_entry-other}
use xzile.HashMap.Rehash.{lookup, IsPlaced, or_else, Rehashed, rehash_bucket-Rehashed}

module _ {ℓ} {A : Type ℓ} where
  -- Looking a string up in one bucket after another.
  unfoldable pub found : List (Bucket A) → List ℕ → Option A
  found [] q = none
  found (b ∷ bs) q = or_else (find_entry b q) (found bs q)

  -- Buckets number `i` on, of `n`.
  unfoldable AreHashed : ℕ → ℕ → List (Bucket A) → Type ℓ
  AreHashed n i [] = Unit
  AreHashed n i (b ∷ bs) = IsUnique b × (HashesTo n i b × AreHashed n (suc i) bs)

  or_else-none : (a : Option A) → or_else a none ≡ a
  or_else-none none = refl
  or_else-none (some x) = refl

  or_else_snd : (a b : Option A) → or_else a b ≡ none → b ≡ none
  or_else_snd none b e = e
  or_else_snd (some x) b e = absurd (ground (arith, e))

  found-below :
      (n i : ℕ) (bs : List (Bucket A)) (q : List ℕ)
      → AreHashed n i bs
      → str_hash q % n < i
      → found bs q ≡ none
  unfolding found AreHashed
  found-below n i [] q h c = refl
  found-below n i (b ∷ bs) q (u, (h, hs)) c =
      let here = find_entry-other n i b q h (λ e. omega (arith, e, c)) in
      let later = found-below n (suc i) bs q hs (omega (arith, c)) in rw (here, later) refl

  find_entry-nothing : (j : ℕ) (q : List ℕ) → find_entry {A = A} (get_or [] j []) q ≡ none
  unfolding find_entry
  find_entry-nothing zero q = refl
  find_entry-nothing (suc j) q = refl

  found-lookup :
      (n i j : ℕ) (bs : List (Bucket A)) (q : List ℕ)
      → AreHashed n i bs
      → str_hash q % n ≡ i + j
      → found bs q ≡ find_entry (get_or bs j []) q
  unfolding found AreHashed
  found-lookup n i j [] q h c = sym (find_entry-nothing j q)
  found-lookup n i zero (b ∷ bs) q (u, (h, hs)) c =
      let later = found-below n (suc i) bs q hs (omega (arith, c)) in
      rw later (or_else-none (find_entry b q))
  found-lookup n i (suc j) (b ∷ bs) q (u, (h, hs)) c =
      let here = find_entry-other n i b q h (λ e. omega (arith, e, c)) in
      rw here (found-lookup n (suc i) j bs q hs (omega (arith, c)))

  buckets-AreHashed :
      (n i : ℕ) (bs : List (Bucket A))
      → ((j : ℕ) → j < length bs → IsUnique (get_or bs j []))
      → ((j k : ℕ) → j < length bs → k ≡ i + j → HashesTo n k (get_or bs j []))
      → AreHashed n i bs
  unfolding AreHashed
  buckets-AreHashed n i [] us hs = tt
  buckets-AreHashed n i (b ∷ bs) us hs = (
    us zero (omega arith),
    (
      hs zero i (omega arith) (omega arith),
      buckets-AreHashed n (suc i) bs (λ j c. us (suc j) (omega (arith, c)))
          (λ j k c e. hs (suc j) k (omega (arith, c)) (omega (arith, e))),
    ),
  )

  or_else_swap :
      (a b c : Option A)
      → (a ≡ none) ⊎ (b ≡ none)
      → or_else b (or_else a c) ≡ or_else (or_else a b) c
  or_else_swap a none c d = ap (λ t. or_else t c) (sym (or_else-none a))
  or_else_swap none (some x) c d = refl
  or_else_swap (some y) (some x) c (inl e) = absurd (ground (arith, e))
  or_else_swap (some y) (some x) c (inr e) = absurd (ground (arith, e))

  found-apart :
      (n i : ℕ) (b : Bucket A) (bs : List (Bucket A)) (q : List ℕ)
      → AreHashed n i (b ∷ bs)
      → (find_entry b q ≡ none) ⊎ (found bs q ≡ none)
  unfolding AreHashed
  found-apart n i b bs q (u, (h, hs)) = elim (Bool-cases (str_hash q % n == i)) [
    | inl e ↦ inr (found-below n (suc i) bs q hs (ground (arith, e)))
    | inr e ↦ inl (find_entry-other n i b q h (λ c. ground (arith, e, c)))
  ]

  left_apart :
      (a b r : Option A)
      → (a ≡ none) ⊎ (b ≡ none)
      → (or_else a b ≡ none) ⊎ (r ≡ none)
      → (b ≡ none) ⊎ (or_else a r ≡ none)
  left_apart a b r d (inl e) = inl (or_else_snd a b e)
  left_apart a b r (inl d) (inr e) = inr (ap₂ or_else d e)
  left_apart a b r (inr d) (inr e) = inl d

  first_apart : (a b r : Option A) → (or_else a b ≡ none) ⊎ (r ≡ none) → (a ≡ none) ⊎ (r ≡ none)
  first_apart none b r d = inl refl
  first_apart (some x) b r (inl e) = absurd (ground (arith, e))
  first_apart (some x) b r (inr e) = inr e

  AreHashed-head :
      (n i : ℕ) (b : Bucket A) (bs : List (Bucket A)) → AreHashed n i (b ∷ bs) → IsUnique b
  unfolding AreHashed
  AreHashed-head n i b bs h = h.0

  AreHashed-tail :
      (n i : ℕ) (b : Bucket A) (bs : List (Bucket A))
      → AreHashed n i (b ∷ bs)
      → AreHashed n (suc i) bs
  unfolding AreHashed
  AreHashed-tail n i b bs h = h.1.1

  rehash_buckets-Rehashed :
      (n i nb : ℕ) (olds bs : List (Bucket A))
      → AreHashed n i olds
      → nb ≡ length bs
      → IsPlaced bs
      → ((q : List ℕ) → (found olds q ≡ none) ⊎ (lookup bs q ≡ none))
      → Rehashed bs (rehash_buckets nb olds bs) (found olds)
  unfolding rehash_buckets found
  rehash_buckets-Rehashed n i nb [] bs hs e v d = record {
    len = refl;
    placed = v;
    reads = λ q. refl;
  }
  rehash_buckets-Rehashed n i nb (b ∷ olds) bs hs e v d =
      let first =
        rehash_bucket-Rehashed b bs nb e v (AreHashed-head n i b olds hs)
          (λ q. first_apart (find_entry b q) (found olds q) (lookup bs q) (d q)) in
      let both : (q : List ℕ) → _ = λ q. found-apart n i b olds q hs in
      let rest =
        rehash_buckets-Rehashed n (suc i) nb olds (rehash_bucket nb b bs)
          (AreHashed-tail n i b olds hs) (e ∙ sym first.len) first.placed
          (λ q.
            rw (first.reads q)
              (left_apart (find_entry b q) (found olds q) (lookup bs q) (both q) (d q))) in
      record {
        len = rest.len ∙ first.len;
        placed = rest.placed;
        reads = λ q.
            rest.reads q
            ∙ (ap (or_else (found olds q)) (first.reads q)
                ∙ or_else_swap (find_entry b q) (found olds q) (lookup bs q) (both q));
      }

  -- New buckets are empty.
  get_or-empty : (n i : ℕ) → get_or {A = Bucket A} (replicate n []) i [] ≡ []
  get_or-empty zero i = refl
  get_or-empty (suc n) zero = refl
  get_or-empty (suc n) (suc i) = get_or-empty n i

  pub empty-IsPlaced : (n : ℕ) → 0 < n → IsPlaced {A = A} (replicate n [])
  unfolding IsUnique HashesTo
  empty-IsPlaced n c = record {
    some_bucket = rw (length-replicate {A = Bucket A} n []) c;
    unique = λ i h. rw (get_or-empty n i) tt;
    hashed = λ i h. rw (get_or-empty n i) tt;
  }

  pub lookup-empty : (n : ℕ) (q : List ℕ) → lookup {A = A} (replicate n []) q ≡ none
  unfolding find_entry
  lookup-empty n q = rw (get_or-empty n (str_hash q % length {A = Bucket A} (replicate n []))) refl

  IsPlaced-AreHashed : (bs : List (Bucket A)) → IsPlaced bs → AreHashed (length bs) 0 bs
  IsPlaced-AreHashed bs v = buckets-AreHashed (length bs) 0 bs v.unique (λ j k c e.
      subst (λ i. HashesTo (length bs) i (get_or bs j [])) (omega (arith, e)) (v.hashed j c))

  pub map_rehash-Rehashed :
      (m : Map A)
      → IsPlaced m.buckets
      → Rehashed (replicate (nbuckets m * 2) []) (map_rehash m).buckets (found m.buckets)
  unfolding map_rehash
  map_rehash-Rehashed m v =
      let nb = nbuckets m * 2 in
      rehash_buckets-Rehashed (nbuckets m) 0 nb m.buckets (replicate nb [])
        (IsPlaced-AreHashed m.buckets v) (sym (length-replicate nb []))
        (empty-IsPlaced nb (omega (arith, v.some_bucket))) (λ q. inr (lookup-empty nb q))

  pub map_get-map_rehash :
      (m : Map A) (q : List ℕ) → IsPlaced m.buckets → map_get (map_rehash m) q ≡ map_get m q
  unfolding map_get
  map_get-map_rehash m q v =
      let r = map_rehash-Rehashed m v in
      r.reads q
      ∙ (ap (or_else (found m.buckets q)) (lookup-empty (nbuckets m * 2) q)
          ∙ (or_else-none (found m.buckets q)
              ∙ found-lookup (nbuckets m) 0 _ m.buckets q (IsPlaced-AreHashed m.buckets v)
                  (omega arith)))

  pub nbuckets-map_rehash :
      (m : Map A) → IsPlaced m.buckets → nbuckets (map_rehash m) ≡ nbuckets m * 2
  nbuckets-map_rehash m v = (map_rehash-Rehashed m v).len ∙ length-replicate _ []

  pub size-map_rehash : (m : Map A) → (map_rehash m).size ≡ m.size
  unfolding map_rehash
  size-map_rehash m = refl
