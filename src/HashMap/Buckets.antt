-- ===== src/HashMap/Buckets.antt =====
-- Single buckets of the hash maps of src/util.c, and the bucket that a key is looked up in.
use xzile.Prelude.{
  ℕ, ◌%◌, ◌≡◌, refl, sym, ap, ◌∙◌, ◌≢◌, inl, inr, true, false, none, some, List, [], ◌∷◌, arith,
  if◌then◌else◌, Bool-cases,
}
use xzile.StrVec.{same_bytes}
use xzile.StrVec.Search.{same_bytes_eq, same_bytes_refl}
use xzile.HashMap.{Bucket, str_hash, find_entry, set_entry, remove_entry}

same_bytes_trans : (k p q : List ℕ) → same_bytes k p ≡ true → same_bytes k q ≡ same_bytes p q
same_bytes_trans k p q h = ap (λ t. same_bytes t q) (same_bytes_eq k p h)

same_bytes-apart :
    (p k q : List ℕ) → same_bytes p k ≡ false → same_bytes k q ≡ true → same_bytes p q ≡ false
same_bytes-apart p k q e h = ap (λ t. same_bytes p t) (sym (same_bytes_eq k q h)) ∙ e

same_bytes-sym : (p k : List ℕ) → same_bytes p k ≡ false → same_bytes k p ≡ false
same_bytes-sym p k e = elim (Bool-cases (same_bytes k p)) [
  | inl h ↦ absurd (ground (arith, same_bytes-apart p k p e h, same_bytes_refl p))
  | inr h ↦ h
]

module _ {ℓ} {A : Type ℓ} where
  -- Each key stands once in a bucket.
  unfoldable pub IsUnique : Bucket A → Type ℓ
  IsUnique [] = Unit
  IsUnique ((k, val) ∷ es) = (find_entry es k ≡ none) × IsUnique es

  -- Every key of a bucket hashes to `i` of `n`.
  unfoldable pub HashesTo : ℕ → ℕ → Bucket A → Type 0
  HashesTo n i [] = Unit
  HashesTo n i ((k, val) ∷ es) = (str_hash k % n ≡ i) × HashesTo n i es

  pub find_entry-set_entry :
      (b : Bucket A) (k : List ℕ) (val : A) (q : List ℕ)
      → find_entry (set_entry b k val) q ≡ (if same_bytes k q then some val else find_entry b q)
  unfolding find_entry set_entry
  find_entry-set_entry [] k val q = refl
  find_entry-set_entry ((p, old) ∷ es) k val q =
      let ih = find_entry-set_entry es k val q in
      elim (Bool-cases (same_bytes p k)) [
        | inl e ↦ let same = same_bytes_trans p k q e in rw (e, same) (ground arith)
        | inr e ↦ rw (e, ih) (ground (arith, same_bytes-apart p k q))
      ]

  pub find_entry-other :
      (n i : ℕ) (b : Bucket A) (q : List ℕ)
      → HashesTo n i b
      → str_hash q % n ≢ i
      → find_entry b q ≡ none
  unfolding HashesTo find_entry
  find_entry-other n i [] q h d = refl
  find_entry-other n i ((k, val) ∷ es) q (h, hs) d = elim (Bool-cases (same_bytes k q)) [
    | inl e ↦ absurd (d (ap (λ t. str_hash t % n) (sym (same_bytes_eq k q e)) ∙ h))
    | inr e ↦ rw e (find_entry-other n i es q hs d)
  ]

  pub find_entry-remove_entry :
      (b : Bucket A) (k q : List ℕ)
      → IsUnique b
      → find_entry (remove_entry b k) q ≡ (if same_bytes k q then none else find_entry b q)
  unfolding find_entry remove_entry IsUnique
  find_entry-remove_entry [] k q u = ground arith
  find_entry-remove_entry ((p, old) ∷ es) k q (fresh, u) =
      let ih = find_entry-remove_entry es k q u in
      elim (Bool-cases (same_bytes p k)) [
        | inl e ↦
            let same = same_bytes_trans p k q e in
            let gone : same_bytes p q ≡ true → find_entry es q ≡ none =
              λ h. ap (λ t. find_entry es t) (sym (same_bytes_eq p q h)) ∙ fresh in
            rw (e, remove_entry) (ground (arith, same, gone))
        | inr e ↦ rw (e, remove_entry, find_entry) (ground (arith, ih, same_bytes-apart p k q))
      ]

  pub set_entry-HashesTo :
      (n i : ℕ) (b : Bucket A) (k : List ℕ) (val : A)
      → str_hash k % n ≡ i
      → HashesTo n i b
      → HashesTo n i (set_entry b k val)
  unfolding HashesTo set_entry
  set_entry-HashesTo n i [] k val e h = (e, tt)
  set_entry-HashesTo n i ((p, old) ∷ es) k val e (h, hs) = elim (Bool-cases (same_bytes p k)) [
    | inl s ↦ rw (s, set_entry) (h, hs)
    | inr s ↦ rw (s, set_entry) (h, set_entry-HashesTo n i es k val e hs)
  ]

  pub remove_entry-HashesTo :
      (n i : ℕ) (b : Bucket A) (k : List ℕ) → HashesTo n i b → HashesTo n i (remove_entry b k)
  unfolding HashesTo remove_entry
  remove_entry-HashesTo n i [] k h = tt
  remove_entry-HashesTo n i ((p, old) ∷ es) k (h, hs) = elim (Bool-cases (same_bytes p k)) [
    | inl s ↦ rw (s, remove_entry) hs
    | inr s ↦ rw (s, remove_entry) (h, remove_entry-HashesTo n i es k hs)
  ]

  pub set_entry-IsUnique :
      (b : Bucket A) (k : List ℕ) (val : A) → IsUnique b → IsUnique (set_entry b k val)
  unfolding IsUnique set_entry find_entry
  set_entry-IsUnique [] k val u = (refl, tt)
  set_entry-IsUnique ((p, old) ∷ es) k val (fresh, u) = elim (Bool-cases (same_bytes p k)) [
    | inl s ↦ rw (s, set_entry) (fresh, u)
    | inr s ↦
        rw (s, set_entry)
          (
            ground (arith, find_entry-set_entry es k val p, same_bytes-sym p k s),
            set_entry-IsUnique es k val u,
          )
  ]

  pub remove_entry-IsUnique : (b : Bucket A) (k : List ℕ) → IsUnique b → IsUnique (remove_entry b k)
  unfolding IsUnique remove_entry
  remove_entry-IsUnique [] k u = tt
  remove_entry-IsUnique ((p, old) ∷ es) k (fresh, u) = elim (Bool-cases (same_bytes p k)) [
    | inl s ↦ rw (s, remove_entry) u
    | inr s ↦
        rw (s, remove_entry)
          (ground (arith, find_entry-remove_entry es k p u), remove_entry-IsUnique es k u)
  ]
