-- ===== src/HashMap.antt =====
-- The hash maps of src/util.c, from strings to values. Strings are lists of bytes without a NUL. A
-- bucket is the list of its entries; `nbuckets` is the number of buckets.
pub mod Buckets
pub mod Rehash
pub mod Grown
pub mod Refine
mod Tests
use xzile.Prelude.{
  ℕ, zero, suc, ◌+◌, ◌-◌, ◌*◌, ◌/◌, ◌%◌, ◌^◌, ◌≤◌, ◌<◌, min, max, ◌≡◌, refl, sym, ap, ap₂, ◌∙◌,
  fun_ext, ◌≢◌, ◌↔◌, ◌⊎◌, inl, inr, Bool, true, false, ◌&&◌, ◌||◌, not, Option, none, some, List,
  [], ◌∷◌, ◌++◌, map, append-nil, append_assoc, arith, ltb, leb, ◌==◌, if◌then◌else◌, ltb→lt,
  lt→ltb, leb→le, ==_iff, tests, Bool-cases, Option-cases, length, get_elem?, set, get_or, take,
  drop, replicate, length-append, length-set, length-take, length-drop, length-replicate,
  length-map, take-append-drop, ext_get, get-append, get-take, get-drop, get-replicate, get-ge,
  drop-nil, drop-drop, drop-cons_pos, drop-ge, take-ge, slices, lengths,
}
use xzile.StrVec.{same_bytes}

abbrev pub Bucket {ℓ} : Type ℓ → Type ℓ
Bucket A = List (List ℕ × A)

pub record Map {ℓ} (A : Type ℓ) : Type ℓ where
  pub buckets : List (Bucket A)
  pub size : ℕ

-- The loop of `str_hash`, in `size_t`.
unfoldable pub hash_from : ℕ → List ℕ → ℕ
hash_from h [] = h
hash_from h (c ∷ s) = hash_from ((h * 33 + c) % 2 ^ 64) s

abbrev pub str_hash : List ℕ → ℕ
str_hash s = hash_from 5381 s

module _ {ℓ} {A : Type ℓ} where
  abbrev pub nbuckets : Map A → ℕ
  nbuckets m = length m.buckets

  abbrev pub map_new : Map A
  map_new = record { buckets = replicate 64 []; size = 0 }

  -- The number of the bucket that `map_slot` looks in.
  abbrev pub bucket_of : Map A → List ℕ → ℕ
  bucket_of m key = str_hash key % nbuckets m

  -- What is at the entry that the loop of `map_slot` stops at.
  unfoldable pub find_entry : Bucket A → List ℕ → Option A
  find_entry [] key = none
  find_entry ((k, val) ∷ es) key =
      let rest = find_entry es key in if same_bytes k key then some val else rest

  unfoldable pub map_get : Map A → List ℕ → Option A
  map_get m key = find_entry (get_or m.buckets (bucket_of m key) []) key

  -- Storing at the entry that the loop stops at, or at the end of the bucket.
  unfoldable pub set_entry : Bucket A → List ℕ → A → Bucket A
  set_entry [] key val = (key, val) ∷ []
  set_entry ((k, old) ∷ es) key val =
      let rest = set_entry es key val in if same_bytes k key then (k, val) ∷ es else (k, old) ∷ rest

  unfoldable pub remove_entry : Bucket A → List ℕ → Bucket A
  remove_entry [] key = []
  remove_entry ((k, val) ∷ es) key =
      let rest = remove_entry es key in if same_bytes k key then es else (k, val) ∷ rest

  -- The loops of `map_rehash`: each entry goes to the front of its new bucket.
  unfoldable pub rehash_bucket : ℕ → Bucket A → List (Bucket A) → List (Bucket A)
  rehash_bucket nb [] buckets = buckets
  rehash_bucket nb ((k, val) ∷ es) buckets =
      let h = str_hash k % nb in
      rehash_bucket nb es (set buckets h ((k, val) ∷ get_or buckets h []))

  unfoldable pub rehash_buckets : ℕ → List (Bucket A) → List (Bucket A) → List (Bucket A)
  rehash_buckets nb [] buckets = buckets
  rehash_buckets nb (b ∷ bs) buckets = rehash_buckets nb bs (rehash_bucket nb b buckets)

  unfoldable pub map_rehash : Map A → Map A
  map_rehash m =
      let nb = nbuckets m * 2 in
      record m { buckets = rehash_buckets nb m.buckets (replicate nb []) }

  unfoldable pub map_set : Map A → List ℕ → A → Map A
  map_set m key val =
      let i = bucket_of m key in
      let m' = record m { buckets = set m.buckets i (set_entry (get_or m.buckets i []) key val) } in
      let grown = record m' { size = m.size + 1 } in
      elim (map_get m key) [
        | some old ↦ m'
        | none ↦ if ltb (nbuckets m * 2) (m.size + 1) then map_rehash grown else grown
      ]

  -- The value removed, and the map.
  unfoldable pub map_remove : Map A → List ℕ → Option A × Map A
  map_remove m key =
      let i = bucket_of m key in
      elim (map_get m key) [
        | none ↦ (none, m)
        | some val ↦ (
          some val,
          record m {
            buckets = set m.buckets i (remove_entry (get_or m.buckets i []) key);
            size = m.size - 1;
          },
        )
      ]
