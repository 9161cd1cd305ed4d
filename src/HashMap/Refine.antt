-- ===== src/HashMap/Refine.antt =====
-- The hash maps of src/util.c as functions from strings to values.
use xzile.Prelude.{
  ℕ, ◌+◌, ◌-◌, ◌*◌, ◌%◌, ◌≤◌, ◌≡◌, refl, sym, ap, ◌∙◌, fun_ext, inl, inr, Option, none, some, List,
  [], ◌∷◌, arith, ltb, if◌then◌else◌, Bool-cases, Option-cases, set, get_or, length-set,
}
use xzile.StrVec.{same_bytes}
use xzile.StrVec.Search.{same_bytes_eq}
use xzile.HashMap.{
  Map, map_new, nbuckets, str_hash, set_entry, remove_entry, map_rehash, map_get, map_set,
  map_remove,
}
use xzile.HashMap.Buckets.{
  find_entry-set_entry, find_entry-remove_entry, set_entry-HashesTo, set_entry-IsUnique,
  remove_entry-HashesTo, remove_entry-IsUnique,
}
use xzile.HashMap.Rehash.{IsPlaced, home_lt, set-IsPlaced, lookup-set}
use xzile.HashMap.Grown.{
  map_rehash-Rehashed, map_get-map_rehash, nbuckets-map_rehash, size-map_rehash, empty-IsPlaced,
  lookup-empty,
}

-- Changes to a map, and what they mean for the map as a function.
pub data MapChange {ℓ} (A : Type ℓ) : Type ℓ where
  put : List ℕ → A → MapChange A
  cut : List ℕ → MapChange A

module _ {ℓ} {A : Type ℓ} where
  -- Every key is in its bucket, once, and a bucket has two entries on average at most.
  pub record IsMap (m : Map A) : Type ℓ where
    pub placed : IsPlaced m.buckets
    pub load : m.size ≤ nbuckets m * 2

  -- What `map_set` has to leave behind.
  record IsStored (m : Map A) (k : List ℕ) (val : A) (m' : Map A) : Type ℓ where
    pub sound : IsMap m'
    pub reads : (q : List ℕ) → map_get m' q ≡ (if same_bytes k q then some val else map_get m q)

  module _ (m : Map A) (v : IsMap m) (k : List ℕ) (val : A) where
    stored : ℕ → Map A
    stored n = record {
      buckets =
          let i = str_hash k % nbuckets m in
          set m.buckets i (set_entry (get_or m.buckets i []) k val);
      size = n;
    }

    stored-IsPlaced : (n : ℕ) → IsPlaced (stored n).buckets
    unfolding stored
    stored-IsPlaced n =
        let p = v.placed in
        let i = home_lt m.buckets p k in
        set-IsPlaced m.buckets p k _ (set_entry-IsUnique _ k val (p.unique _ i))
          (set_entry-HashesTo _ _ _ k val refl (p.hashed _ i))

    nbuckets-stored : (n : ℕ) → nbuckets (stored n) ≡ nbuckets m
    unfolding stored
    nbuckets-stored n = length-set m.buckets _ _

    size-stored : (n : ℕ) → (stored n).size ≡ n
    unfolding stored
    size-stored n = refl

    map_get-stored :
        (n : ℕ) (q : List ℕ)
        → map_get (stored n) q ≡ (if same_bytes k q then some val else map_get m q)
    unfolding stored map_get
    map_get-stored n =
        let i = str_hash k % nbuckets m in
        lookup-set m.buckets v.placed k _ (some val)
          (find_entry-set_entry (get_or m.buckets i []) k val)

    stored-IsStored : (n : ℕ) → n ≤ nbuckets m * 2 → IsStored m k val (stored n)
    stored-IsStored n h = record {
      sound = record {
        placed = stored-IsPlaced n;
        load = omega (arith, nbuckets-stored n, size-stored n, h);
      };
      reads = map_get-stored n;
    }

    grown-IsStored : (n : ℕ) → n ≤ nbuckets m * 4 → IsStored m k val (map_rehash (stored n))
    grown-IsStored n h =
        let p = stored-IsPlaced n in
        record {
          sound = record {
            placed = (map_rehash-Rehashed (stored n) p).placed;
            load = omega (
              arith,
              nbuckets-map_rehash (stored n) p,
              nbuckets-stored n,
              size-map_rehash (stored n),
              size-stored n,
              h,
            );
          };
          reads = λ q. map_get-map_rehash (stored n) q p ∙ map_get-stored n q;
        }

    map_set-IsStored : IsStored m k val (map_set m k val)
    unfolding map_set stored
    map_set-IsStored = elim (Option-cases (map_get m k)) [
      | inl e ↦ elim (Bool-cases (ltb (nbuckets m * 2) (m.size + 1))) [
        | inl c ↦
            rw (map_set, e, c)
              (grown-IsStored (m.size + 1) (omega (arith, v.load, v.placed.some_bucket)))
        | inr c ↦ rw (map_set, e, c) (stored-IsStored (m.size + 1) (ground (arith, c)))
      ]
      | inr (old, e) ↦ rw (map_set, e) (stored-IsStored m.size v.load)
    ]

  -- What `map_remove` has to leave behind.
  record IsRemoved (m : Map A) (k : List ℕ) (m' : Map A) : Type ℓ where
    pub sound : IsMap m'
    pub reads : (q : List ℕ) → map_get m' q ≡ (if same_bytes k q then none else map_get m q)

  module _ (m : Map A) (v : IsMap m) (k : List ℕ) where
    removed : Map A
    removed = record {
      buckets =
          let i = str_hash k % nbuckets m in
          set m.buckets i (remove_entry (get_or m.buckets i []) k);
      size = m.size - 1;
    }

    removed-IsRemoved : IsRemoved m k removed
    unfolding removed map_get
    removed-IsRemoved =
        let p = v.placed in
        let i = str_hash k % nbuckets m in
        let i_lt = home_lt m.buckets p k in
        record {
          sound = record {
            placed =
                set-IsPlaced m.buckets p k _ (remove_entry-IsUnique _ k (p.unique _ i_lt))
                  (remove_entry-HashesTo _ _ _ k (p.hashed _ i_lt));
            load =
                omega
                  (arith, v.load, length-set m.buckets i (remove_entry (get_or m.buckets i []) k));
          };
          reads =
              lookup-set m.buckets p k _ none
                (λ q. find_entry-remove_entry (get_or m.buckets i []) k q (p.unique _ i_lt));
        }

    absent_reads :
        map_get m k ≡ none
        → (q : List ℕ) → map_get m q ≡ (if same_bytes k q then none else map_get m q)
    absent_reads e q = elim (Bool-cases (same_bytes k q)) [
      | inl s ↦ rw s (ap (map_get m) (sym (same_bytes_eq k q s)) ∙ e)
      | inr s ↦ rw s refl
    ]

    map_remove-IsRemoved : IsRemoved m k (map_remove m k).1
    unfolding map_remove removed
    map_remove-IsRemoved = elim (Option-cases (map_get m k)) [
      | inl e ↦ rw (map_remove, e) (record { sound = v; reads = absent_reads e })
      | inr (old, e) ↦ rw (map_remove, e) removed-IsRemoved
    ]

  map_new-IsMap : IsMap (map_new {A = A})
  map_new-IsMap = record { placed = empty-IsPlaced 64 (omega arith); load = omega arith }

  unfoldable pub change_map : MapChange A → Map A → Map A
  change_map (put k val) m = map_set m k val
  change_map (cut k) m = (map_remove m k).1

  unfoldable pub change_maps : List (MapChange A) → Map A → Map A
  change_maps [] m = m
  change_maps (c ∷ cs) m = change_maps cs (change_map c m)

  unfoldable pub meaning : MapChange A → (List ℕ → Option A) → List ℕ → Option A
  meaning (put k val) f q = if same_bytes k q then some val else f q
  meaning (cut k) f q = if same_bytes k q then none else f q

  unfoldable pub meanings : List (MapChange A) → (List ℕ → Option A) → List ℕ → Option A
  meanings [] f = f
  meanings (c ∷ cs) f = meanings cs (meaning c f)

  change_map-IsMap : (c : MapChange A) (m : Map A) → IsMap m → IsMap (change_map c m)
  unfolding change_map
  change_map-IsMap (put k val) m v = (map_set-IsStored m v k val).sound
  change_map-IsMap (cut k) m v = (map_remove-IsRemoved m v k).sound

  map_get-change_map :
      (c : MapChange A) (m : Map A) → IsMap m → map_get (change_map c m) ≡ meaning c (map_get m)
  unfolding change_map meaning
  map_get-change_map (put k val) m v = fun_ext (map_set-IsStored m v k val).reads
  map_get-change_map (cut k) m v = fun_ext (map_remove-IsRemoved m v k).reads

  map_get-change_maps :
      (cs : List (MapChange A)) (m : Map A)
      → IsMap m
      → IsMap (change_maps cs m) × (map_get (change_maps cs m) ≡ meanings cs (map_get m))
  unfolding change_maps meanings
  map_get-change_maps [] m v = (v, refl)
  map_get-change_maps (c ∷ cs) m v =
      let (sound, reads) = map_get-change_maps cs (change_map c m) (change_map-IsMap c m v) in
      (sound, reads ∙ ap (meanings cs) (map_get-change_map c m v))

  map_get-map_new : map_get (map_new {A = A}) ≡ (λ q. none)
  unfolding map_get
  map_get-map_new = fun_ext (lookup-empty 64)

  -- After any list of stores and removals on a new map, every key is in its bucket, once, its size
  -- is at most twice its number of buckets, and looking up a string gives what the same changes
  -- make of the function that is nothing everywhere: growing by `map_rehash` and keys that share a
  -- bucket make no difference.
  pub map_get-change_maps_new :
      (cs : List (MapChange A))
      → IsMap (change_maps cs map_new)
        × (map_get (change_maps cs map_new) ≡ meanings cs (λ q. none))
  map_get-change_maps_new cs =
      let (sound, reads) = map_get-change_maps cs map_new map_new-IsMap in
      (sound, reads ∙ ap (meanings cs) map_get-map_new)
