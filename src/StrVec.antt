-- ===== src/StrVec.antt =====
-- The sorted string vectors of src/util.c. Strings are lists of bytes without a NUL.
pub mod Search
pub mod Insert
mod Tests
use xzile.Prelude.{
  ℕ, zero, suc, ◌+◌, ◌-◌, ◌*◌, ◌/◌, ◌%◌, ◌^◌, ◌≤◌, ◌<◌, min, max, ◌≡◌, refl, sym, ap, ap₂, ◌∙◌,
  fun_ext, ◌≢◌, ◌↔◌, ◌⊎◌, inl, inr, Bool, true, false, ◌&&◌, ◌||◌, not, Option, none, some, List,
  [], ◌∷◌, ◌++◌, map, append-nil, append_assoc, arith, ltb, leb, ◌==◌, if◌then◌else◌, ltb→lt,
  lt→ltb, leb→le, ==_iff, tests, Bool-cases, Option-cases, length, get_elem?, set, get_or, take,
  drop, replicate, length-append, length-set, length-take, length-drop, length-replicate,
  length-map, take-append-drop, ext_get, get-append, get-take, get-drop, get-replicate, get-ge,
  drop-nil, drop-drop, drop-cons_pos, drop-ge, take-ge, slices, lengths,
}

-- strcmp (a, b) == 0
unfoldable pub same_bytes : List ℕ → List ℕ → Bool
same_bytes [] [] = true
same_bytes [] (d ∷ t) = false
same_bytes (c ∷ s) [] = false
same_bytes (c ∷ s) (d ∷ t) = c == d && same_bytes s t

-- strcmp (a, b) < 0
unfoldable pub str_less : List ℕ → List ℕ → Bool
str_less [] [] = false
str_less [] (d ∷ t) = true
str_less (c ∷ s) [] = false
str_less (c ∷ s) (d ∷ t) = ltb c d || (c == d && str_less s t)

abbrev pub nth : List (List ℕ) → ℕ → List ℕ
nth v i = get_or v i []

-- The loop of `sv_lower_bound`. Each round makes the range shorter, so its length is fuel enough.
unfoldable pub lower_bound : ℕ → List (List ℕ) → List ℕ → ℕ → ℕ → ℕ
lower_bound zero v s lo hi = lo
lower_bound (suc fuel) v s lo hi =
    let mid = lo + (hi - lo) / 2 in
    elim (ltb lo hi) [
      | false ↦ lo
      | true ↦ elim (str_less (nth v mid) s) [
        | true ↦ lower_bound fuel v s (mid + 1) hi
        | false ↦ lower_bound fuel v s lo mid
      ]
    ]

unfoldable pub sv_lower_bound : List (List ℕ) → List ℕ → ℕ
sv_lower_bound v s = lower_bound (length v + 1) v s 0 (length v)

unfoldable pub sv_contains : List (List ℕ) → List ℕ → Bool
sv_contains v s = let i = sv_lower_bound v s in ltb i (length v) && same_bytes (nth v i) s

-- The vector, and whether the string was added.
unfoldable pub sv_add_sorted : List (List ℕ) → List ℕ → List (List ℕ) × Bool
sv_add_sorted v s =
    let i = sv_lower_bound v s in
    if ltb i (length v) && same_bytes (nth v i) s
    then (v, false)
    else (take i v ++ (s ∷ drop i v), true)

abbrev pub sv_push : List (List ℕ) → List ℕ → List (List ℕ)
sv_push v s = v ++ s ∷ []
