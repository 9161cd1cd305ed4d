-- ===== src/Bytes.antt =====
-- The C library's operations on bytes that src/estr.c and src/util.c use, and the two substring
-- searches that the program adds (`memrmem` of src/estr.c, `xmemmem` of src/util.c).
-- A byte is a number; a block of memory is the list of its bytes, and a pointer an index.
pub mod Find
pub mod Writes
mod Tests
use xzile.Prelude.{
  ℕ, zero, suc, ◌+◌, ◌-◌, Bool, true, false, ◌&&◌, ltb, leb, ◌==◌, if◌then◌else◌, List, [], ◌∷◌,
  ◌++◌, Option, none, some, length, take, drop, replicate, get_elem?,
}

-- memcmp (s, t, length t) == 0; what lies behind the end of `s` is unequal to anything.
unfoldable pub is_prefix : List ℕ → List ℕ → Bool
is_prefix [] s = true
is_prefix (c ∷ t) [] = false
is_prefix (c ∷ t) (d ∷ s) = c == d && is_prefix t s

-- memcmp (s + i, t, length t) == 0
abbrev pub matches_at : List ℕ → List ℕ → ℕ → Bool
matches_at t s i = is_prefix t (drop i s)

-- memchr (s + p, c, n), as an index into `s`.
unfoldable pub memchr : List ℕ → ℕ → ℕ → ℕ → Option ℕ
memchr s p c zero = none
memchr s p c (suc n) = elim (get_elem? s p) [
  | none ↦ none
  | some d ↦ if c == d then some p else memchr s (p + 1) c n
]

-- memmove (t + pos, src, length src)
unfoldable pub overwrite : ℕ → List ℕ → List ℕ → List ℕ
overwrite pos src t = take pos t ++ (src ++ drop (pos + length src) t)

-- memset (t + pos, c, n)
unfoldable pub memset : ℕ → ℕ → ℕ → List ℕ → List ℕ
unfolding overwrite
memset pos c n t = overwrite pos (replicate n c) t

-- The loop of `memrmem`, from index `i` down to 0.
pub scan_back : ℕ → List ℕ → List ℕ → Option ℕ
scan_back zero s t = if matches_at t s 0 then some 0 else none
scan_back (suc i) s t = if matches_at t s (suc i) then some (suc i) else scan_back i s t

unfoldable pub memrmem : List ℕ → List ℕ → Option ℕ
unfolding scan_back is_prefix
memrmem s t = if leb (length t) (length s) then scan_back (length s - length t) s t else none

-- The loop of `xmemmem`: `p` is the candidate and `last` the last index where the needle fits.
-- Each round moves `p` on, so fuel beyond the candidates left is never used up.
pub search_from : ℕ → List ℕ → ℕ → List ℕ → ℕ → ℕ → Option ℕ
search_from zero hay c needle last p = none
search_from (suc fuel) hay c needle last p = elim (leb p last) [
  | false ↦ none
  | true ↦ elim (memchr hay p c (last - p + 1)) [
    | none ↦ none
    | some q ↦ elim (matches_at needle hay q) [
      | true ↦ some q
      | false ↦ search_from fuel hay c needle last (q + 1)
    ]
  ]
]

unfoldable pub xmemmem : List ℕ → List ℕ → Option ℕ
unfolding search_from memchr is_prefix
xmemmem hay [] = some 0
xmemmem hay (c ∷ needle) =
    if ltb (length hay) (length (c ∷ needle))
    then none
    else search_from (length hay + 1) hay c (c ∷ needle) (length hay - length (c ∷ needle)) 0
