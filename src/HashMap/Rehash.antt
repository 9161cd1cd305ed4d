-- ===== src/HashMap/Rehash.antt =====
-- `map_rehash` of src/util.c keeps what the map holds.
use xzile.Prelude.{
  ℕ, ◌%◌, ◌<◌, ◌≡◌, refl, sym, ap, ◌∙◌, ◌⊎◌, inl, inr, true, false, Option, none, some, List, [],
  ◌∷◌, arith, ◌==◌, if◌then◌else◌, Bool-cases, length, set, get_or, length-set, get_or-set,
}
use xzile.StrVec.{same_bytes}
use xzile.StrVec.Search.{same_bytes_eq, same_bytes_refl}
use xzile.HashMap.{Bucket, str_hash, find_entry, rehash_bucket}
use xzile.HashMap.Buckets.{IsUnique, HashesTo}

module _ {ℓ} {A : Type ℓ} where
  -- `map_get` on the buckets.
  abbrev pub lookup : List (Bucket A) → List ℕ → Option A
  lookup bs q = find_entry (get_or bs (str_hash q % length bs) []) q

  -- Every bucket has its own keys, each once.
  pub record IsPlaced (bs : List (Bucket A)) : Type ℓ where
    pub some_bucket : 0 < length bs
    pub unique : (i : ℕ) → i < length bs → IsUnique (get_or bs i [])
    pub hashed : (i : ℕ) → i < length bs → HashesTo (length bs) i (get_or bs i [])

  module _ (bs : List (Bucket A)) (v : IsPlaced bs) (k : List ℕ) where
    abbrev pub home : ℕ
    home = str_hash k % length bs

    pub home_lt : home < length bs
    home_lt = omega (arith, v.some_bucket)

    changed :
        (b : Bucket A) (i : ℕ)
        → get_or (set bs home b) i [] ≡ (if i == home then b else get_or bs i [])
    changed b i = get_or-set bs home i b [] home_lt

    -- A bucket that keeps to its keys may take the place of one.
    pub set-IsPlaced :
        (b : Bucket A) → IsUnique b → HashesTo (length bs) home b → IsPlaced (set bs home b)
    set-IsPlaced b u h = record {
      some_bucket = omega (arith, v.some_bucket, length-set bs home b);
      unique = λ i c. elim (Bool-cases (i == home)) [
        | inl e ↦ rw (changed b i, e) u
        | inr e ↦ rw (changed b i, e) (v.unique i (omega (arith, c, length-set bs home b)))
      ];
      hashed = λ i c. elim (Bool-cases (i == home)) [
        | inl e ↦
            let same : i ≡ home = ground arith in
            rw (length-set bs home b, changed b i, e) (rw same h)
        | inr e ↦
            rw (length-set bs home b, changed b i, e)
              (v.hashed i (omega (arith, c, length-set bs home b)))
      ];
    }

    -- What is looked up then, where the bucket has changed at `k` only.
    pub lookup-set :
        (b : Bucket A) (r : Option A)
        → ((q : List ℕ)
            → find_entry b q ≡ (if same_bytes k q then r else find_entry (get_or bs home []) q))
        → (q : List ℕ) → lookup (set bs home b) q ≡ (if same_bytes k q then r else lookup bs q)
    lookup-set b r h q =
        let i = str_hash q % length bs in
        elim (Bool-cases (i == home)) [
          | inl e ↦
              let same : i ≡ home = ground arith in
              rw (length-set bs home b, changed b i, e, h q, same) refl
          | inr e ↦
              let other : same_bytes k q ≡ false = elim (Bool-cases (same_bytes k q)) [
                | inl s ↦
                    absurd (ground (arith, ap (λ t. str_hash t % length bs) (same_bytes_eq k q s)))
                | inr s ↦ s
              ] in
              rw (length-set bs home b, changed b i, e, other) refl
        ]

  -- The first, if there is one.
  abbrev pub or_else : Option A → Option A → Option A
  or_else none b = b
  or_else (some a) b = some a

  -- `bs` with the entries of `es` pushed.
  pub record Rehashed (bs bs' : List (Bucket A)) (found : List ℕ → Option A) : Type ℓ where
    pub len : length bs' ≡ length bs
    pub placed : IsPlaced bs'
    pub reads : (q : List ℕ) → lookup bs' q ≡ or_else (found q) (lookup bs q)

  module _ (bs : List (Bucket A)) (v : IsPlaced bs) (k : List ℕ) (val : A)
      (fresh : lookup bs k ≡ none) where
    abbrev pushed : List (Bucket A)
    pushed = set bs (home bs v k) ((k, val) ∷ get_or bs (home bs v k) [])

    pushed-IsPlaced : IsPlaced pushed
    unfolding IsUnique HashesTo
    pushed-IsPlaced =
        let i = home_lt bs v k in set-IsPlaced bs v k _ (fresh, v.unique _ i) (refl, v.hashed _ i)

    lookup-pushed :
        (q : List ℕ) → lookup pushed q ≡ (if same_bytes k q then some val else lookup bs q)
    unfolding find_entry
    lookup-pushed = lookup-set bs v k _ (some val) (λ q. refl)

  -- Pushing an entry first, then `es`, that has none of its key.
  Rehashed-pushed :
      (bs : List (Bucket A)) (v : IsPlaced bs) (k : List ℕ) (val : A) (fresh : lookup bs k ≡ none)
      (es : Bucket A) (bs' : List (Bucket A))
      → Rehashed (pushed bs v k val fresh) bs' (find_entry es)
      → find_entry es k ≡ none
      → Rehashed bs bs' (find_entry ((k, val) ∷ es))
  unfolding find_entry
  Rehashed-pushed bs v k val fresh es bs' r once =
      let step : (q : List ℕ) → _ =
        λ q. r.reads q ∙ ap (or_else (find_entry es q)) (lookup-pushed bs v k val fresh q) in
      let none_left : (q : List ℕ) → same_bytes k q ≡ true → find_entry es q ≡ none =
        λ q e. ap (λ t. find_entry es t) (sym (same_bytes_eq k q e)) ∙ once in
      record {
        len = r.len ∙ length-set bs (home bs v k) _;
        placed = r.placed;
        reads = λ q. elim (Bool-cases (same_bytes k q)) [
          | inl e ↦ step q ∙ rw (e, none_left q e) refl
          | inr e ↦ step q ∙ rw e refl
        ];
      }

  missing :
      (bs : List (Bucket A)) (k : List ℕ) (val : A) (es : Bucket A)
      → (find_entry ((k, val) ∷ es) k ≡ none) ⊎ (lookup bs k ≡ none)
      → lookup bs k ≡ none
  unfolding find_entry
  missing bs k val es (inl e) = absurd (ground (arith, e, same_bytes_refl k))
  missing bs k val es (inr e) = e

  still_apart :
      (bs : List (Bucket A)) (v : IsPlaced bs) (k : List ℕ) (val : A) (fresh : lookup bs k ≡ none)
      (es : Bucket A) (q : List ℕ)
      → find_entry es k ≡ none
      → (find_entry ((k, val) ∷ es) q ≡ none) ⊎ (lookup bs q ≡ none)
      → (find_entry es q ≡ none) ⊎ (lookup (pushed bs v k val fresh) q ≡ none)
  unfolding find_entry
  still_apart bs v k val fresh es q once apart = elim (Bool-cases (same_bytes k q)) [
    | inl e ↦ inl (ap (λ t. find_entry es t) (sym (same_bytes_eq k q e)) ∙ once)
    | inr e ↦ elim apart [
      | inl a ↦ inl (sym (rw e refl) ∙ a)
      | inr a ↦ inr (lookup-pushed bs v k val fresh q ∙ rw e a)
    ]
  ]

  pub rehash_bucket-Rehashed :
      (es : Bucket A) (bs : List (Bucket A)) (nb : ℕ)
      → nb ≡ length bs
      → IsPlaced bs
      → IsUnique es
      → ((q : List ℕ) → (find_entry es q ≡ none) ⊎ (lookup bs q ≡ none))
      → Rehashed bs (rehash_bucket nb es bs) (find_entry es)
  unfolding rehash_bucket IsUnique find_entry
  rehash_bucket-Rehashed [] bs nb n v u apart = record { len = refl; placed = v; reads = λ q. refl }
  rehash_bucket-Rehashed ((k, val) ∷ es) bs nb n v (once, u) apart =
      let fresh = missing bs k val es (apart k) in
      let bs' = pushed bs v k val fresh in
      let rest =
        rehash_bucket-Rehashed es bs' nb (n ∙ sym (length-set bs (home bs v k) _))
          (pushed-IsPlaced bs v k val fresh) u
          (λ q. still_apart bs v k val fresh es q once (apart q)) in
      Rehashed-pushed bs v k val fresh es _ (rw n rest) once
