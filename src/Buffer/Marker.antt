-- ===== src/Buffer/Marker.antt =====
-- What `buffer_replace_estr` of src/buffer.c does to the markers of src/marker.c.
use xzile.Prelude.{
  ℕ, ◌+◌, ◌-◌, ◌%◌, ◌≤◌, ◌<◌, max, ◌≡◌, refl, ◌≢◌, ◌⊎◌, inl, inr, List, ◌++◌, arith, ltb,
  if◌then◌else◌, length, get_elem?, take, drop, length-append, length-take, length-drop, get-append,
  get-take, get-drop,
}
use native.Mathlib.Decide.{dec_lt}
use xzile.Estr.{size_mod}
use xzile.Buffer.Replace.{adjust_marker}

-- Without wrapping, and with it.
wrapped :
    (a b : ℕ)
    → a < size_mod
    → b < size_mod
    → (a + size_mod - b) % size_mod ≡ (if ltb a b then size_mod - (b - a) else a - b)
wrapped a b h k = ground arith

-- The text with `new` for the `del` bytes at `pt`.
abbrev pub spliced : List ℕ → ℕ → ℕ → List ℕ → List ℕ
spliced c pt del new = take pt c ++ (new ++ drop (pt + del) c)

module _ (c new : List ℕ) (pt del m : ℕ) (h : pt + del ≤ length c)
    (small : length c + length new < size_mod) (within : m ≤ length c) where
  abbrev m' : ℕ
  m' = adjust_marker pt (length new) del m

  value : adjust_marker pt (length new) del m ≡ (
      if ltb pt m
      then max pt (
          if ltb (m + length new) del
          then size_mod - (del - (m + length new))
          else m + length new - del)
      else m)
  unfolding adjust_marker
  value = rw (wrapped (m + length new) del (omega arith) (omega arith)) refl

  -- With `del` bytes at `pt` replaced within a text whose sizes add up within `size_t`, a marker
  -- before `pt`, or behind `pt` and not before the end of the replaced bytes, stays within the text
  -- and at the same byte.
  pub adjust_marker-outside :
      m < pt ⊎ pt + del ≤ m
      → pt ≢ m
      → (m' ≤ length (spliced c pt del new)) × (get_elem? (spliced c pt del new) m' ≡ get_elem? c m)
  adjust_marker-outside out apart = (
    ground (
      arith,
      value,
      length-append (take pt c) (new ++ drop (pt + del) c),
      length-append new (drop (pt + del) c),
      length-take pt c,
      length-drop (pt + del) c,
    ),
    ground (
      arith,
      value,
      get-append (take pt c) (new ++ drop (pt + del) c) m',
      get-append new (drop (pt + del) c) (m' - pt),
      get-take pt c m',
      get-drop (pt + del) c (m' - pt - length new),
      length-take pt c,
    ),
  )

  -- With `del` bytes at `pt` replaced within a text whose sizes add up within `size_t`, a marker
  -- strictly within the replaced bytes goes to a place in the new text or at its ends, except when
  -- the new offset would be negative: then the unsigned sum wraps, and the marker is at 2 ^ 64 less
  -- what is missing.
  pub adjust_marker-within :
      pt < m
      → m < pt + del
      → (del ≤ m + length new × pt ≤ m' × m' ≤ pt + length new)
        ⊎ (m + length new < del × m' ≡ size_mod - (del - (m + length new)))
  adjust_marker-within a b = elim (dec_lt (m + length new) del) [
    | yes w ↦ inr (ground (arith, value))
    | no w ↦ inl (ground (arith, value))
  ]
