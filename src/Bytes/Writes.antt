-- ===== src/Bytes/Writes.antt =====
-- What is in memory after a write.
use xzile.Prelude.{
  ℕ, ◌+◌, ◌-◌, ◌≤◌, ◌≡◌, ltb, if◌then◌else◌, List, [], ◌++◌, some, length, get_elem?, arith,
  lengths, slices, length-append, get-append, ext_get,
}
use xzile.Bytes.{overwrite, memset}

module _ (pos : ℕ) (src t : List ℕ) where
  pub length-overwrite : pos + length src ≤ length t → length (overwrite pos src t) ≡ length t
  unfolding overwrite
  length-overwrite h = simp lengths (omega arith)

  pub get-overwrite :
      (i : ℕ)
      → pos + length src ≤ length t
      → get_elem? (overwrite pos src t) i ≡ (
          if ltb i pos
          then get_elem? t i
          else if ltb i (pos + length src)
          then get_elem? src (i - pos)
          else get_elem? t i)
  unfolding overwrite
  get-overwrite i h = simp (slices, lengths) (ground arith)

module _ (pos c n : ℕ) (t : List ℕ) where
  pub length-memset : pos + n ≤ length t → length (memset pos c n t) ≡ length t
  unfolding memset
  length-memset h = simp lengths (omega arith)

  pub get-memset :
      (i : ℕ)
      → pos + n ≤ length t
      → get_elem? (memset pos c n t) i
        ≡ (if ltb i pos then get_elem? t i else if ltb i (pos + n) then some c else get_elem? t i)
  unfolding memset
  get-memset i h = simp (slices, lengths) (ground arith)

-- Two writes one behind the other are one write.
pub overwrite-overwrite :
    (pos : ℕ) (a b t : List ℕ)
    → pos + length a + length b ≤ length t
    → overwrite (pos + length a) b (overwrite pos a t) ≡ overwrite pos (a ++ b) t
overwrite-overwrite pos a b t h = ext_get _ _ λ i. ground (
  arith,
  length-append a b,
  length-overwrite pos a t,
  get-overwrite (pos + length a) b (overwrite pos a t) i,
  get-overwrite pos a t i,
  get-overwrite pos (a ++ b) t i,
  get-append a b (i - pos),
)

pub overwrite-nil : (pos : ℕ) (t : List ℕ) → pos ≤ length t → overwrite pos [] t ≡ t
overwrite-nil pos t h = ext_get _ _ λ i. ground (arith, get-overwrite pos [] t i)

pub overwrite_thrice :
    (pos n m : ℕ) (a b c t : List ℕ)
    → length a ≡ n
    → length b ≡ m
    → pos + n + m + length c ≤ length t
    → overwrite (pos + n + m) c (overwrite (pos + n) b (overwrite pos a t))
      ≡ overwrite pos (a ++ (b ++ c)) t
overwrite_thrice pos n m a b c t ea eb h = ext_get _ _ λ i. ground (
  arith,
  length-append a (b ++ c),
  length-append b c,
  length-overwrite pos a t,
  length-overwrite (pos + n) b (overwrite pos a t),
  get-overwrite (pos + n + m) c (overwrite (pos + n) b (overwrite pos a t)) i,
  get-overwrite (pos + n) b (overwrite pos a t) i,
  get-overwrite pos a t i,
  get-overwrite pos (a ++ (b ++ c)) t i,
  get-append a (b ++ c) (i - pos),
  get-append b c (i - pos - length a),
)

-- A write over a whole segment replaces it.
pub overwrite_segment :
    (n : ℕ) (a m c b : List ℕ)
    → length a ≡ n
    → length m ≡ length c
    → overwrite n c (a ++ (m ++ b)) ≡ a ++ (c ++ b)
overwrite_segment n a m c b e h = ext_get _ _ λ i. ground (
  arith,
  length-append a (m ++ b),
  length-append m b,
  get-overwrite n c (a ++ (m ++ b)) i,
  get-append a (m ++ b) i,
  get-append m b (i - length a),
  get-append a (c ++ b) i,
  get-append c b (i - length a),
)
