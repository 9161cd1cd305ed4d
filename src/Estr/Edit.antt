-- ===== src/Estr/Edit.antt =====
-- What the editing operations of src/estr.c do to the bytes, and that their assertions hold for
-- arguments in range.
use xzile.Prelude.{
  ℕ, ◌+◌, ◌-◌, ◌%◌, ◌≤◌, ◌<◌, max, ◌≡◌, true, some, List, ◌++◌, arith, leb, length, get_elem?, take,
  drop, replicate, length-take, length-drop, length-replicate, ext_get, get-append, get-take,
  get-drop, get-replicate, get-ge, slices, lengths,
}
use xzile.Bytes.{overwrite, memset}
use xzile.Bytes.Writes.{length-overwrite, get-overwrite, get-memset}
use xzile.Estr.{Estr, size_mod, estr_resize, estr_insert, estr_remove, estr_move, estr_set}

-- The tail moved up over the new bytes, and zeros in its place.
module _ (es : Estr) (pos size : ℕ) (h : pos ≤ length es.text) where
  -- The text lengthened, and the tail moved up.
  grown : List ℕ
  grown = (estr_resize es (length es.text + size)).text

  length-grown : length grown ≡ length es.text + size
  unfolding grown estr_resize
  length-grown = simp lengths (omega arith)

  get-grown : (i : ℕ) → i < length es.text → get_elem? grown i ≡ get_elem? es.text i
  unfolding grown estr_resize
  get-grown i b = simp (slices, lengths) (ground arith)

  moved_up : List ℕ
  moved_up = overwrite (pos + size) (take (length es.text - pos) (drop pos grown)) grown

  length-tail : length (take (length es.text - pos) (drop pos grown)) ≡ length es.text - pos
  length-tail = simp lengths (omega (arith, length-grown))

  insert_text :
      memset pos 0 size moved_up ≡ take pos es.text ++ (replicate size 0 ++ drop pos es.text)
  unfolding moved_up
  insert_text = ext_get _ _ λ i. ground (
    arith,
    length-grown,
    length-tail,
    get-memset pos 0 size moved_up i,
    length-overwrite (pos + size) (take (length es.text - pos) (drop pos grown)) grown,
    get-overwrite (pos + size) (take (length es.text - pos) (drop pos grown)) grown i,
    get-take (length es.text - pos) (drop pos grown) (i - (pos + size)),
    get-drop pos grown (i - (pos + size)),
    get-grown (pos + (i - (pos + size))),
    get-grown i,
    get-ge es.text (pos + (i - (pos + size))),
    get-ge grown i,
    get-append (take pos es.text) (replicate size 0 ++ drop pos es.text) i,
    get-append (replicate size 0) (drop pos es.text) (i - pos),
    get-take pos es.text i,
    get-replicate {A = ℕ} size 0 (i - pos),
    get-drop pos es.text (i - pos - size),
    length-take pos es.text,
    length-replicate {A = ℕ} size 0,
  )

-- The proof of a premise of `assert`.
passes : (a b : ℕ) → a ≤ b → leb a b ≡ true
passes a b h = ground arith

remove_text :
    (t : List ℕ) (pos size : ℕ)
    → pos + size ≤ length t
    → let moved = overwrite pos (drop (pos + size) t) t in
      take (length t - size) moved ++ replicate (length t - size - length moved) 0
      ≡ take pos t ++ drop (pos + size) t
remove_text t pos size h = ext_get _ _ λ i. ground (
  arith,
  length-drop (pos + size) t,
  length-take pos t,
  length-overwrite pos (drop (pos + size) t) t,
  get-append (take (length t - size) moved) (replicate (length t - size - length moved) 0) i,
  get-take (length t - size) moved i,
  length-take (length t - size) moved,
  get-replicate {A = ℕ} (length t - size - length moved) 0
      (i - length (take (length t - size) moved)),
  get-overwrite pos (drop (pos + size) t) t i,
  get-append (take pos t) (drop (pos + size) t) i,
  get-take pos t i,
  get-drop (pos + size) t (i - pos),
  get-ge t (pos + size + (i - pos)),
)
  where
    moved : List ℕ
    moved = overwrite pos (drop (pos + size) t) t

module _ (es : Estr) (pos size : ℕ) where
  -- `estr_insert` at a place in the string, or at its end, runs and opens a gap of zeros there,
  -- where the new length is less than 2 ^ 64.
  pub estr_insert_lem :
      pos ≤ length es.text
      → length es.text + size < size_mod
      → estr_insert es pos size
        ≡ some (record (estr_resize es (length es.text + size)) {
          text = take pos es.text ++ (replicate size 0 ++ drop pos es.text);
        })
  unfolding estr_insert grown moved_up
  estr_insert_lem h b =
      rw (passes pos (length es.text) h, passes (max pos size) ((pos + size) % size_mod) wraps_not)
        (ground (arith, insert_text es pos size h))
    where
      wraps_not : max pos size ≤ (pos + size) % size_mod
      wraps_not = omega arith

  -- `estr_remove` of bytes within the string runs and takes out exactly these bytes.
  pub estr_remove_lem :
      pos + size ≤ length es.text
      → estr_remove es pos size
        ≡ some (record (estr_resize es (length es.text - size)) {
          text = take pos es.text ++ drop (pos + size) es.text;
        })
  unfolding estr_remove estr_resize
  estr_remove_lem h =
      rw
        (
          passes pos (length es.text) (omega arith),
          passes size (length es.text - pos) (omega arith),
        )
        (ground (arith, remove_text es.text pos size h))

-- `estr_move` and `estr_set` write what they are asked to write, in range.
pub estr_move_lem :
    (es : Estr) (to from n : ℕ)
    → to + n ≤ length es.text
    → from + n ≤ length es.text
    → estr_move es to from n
      ≡ some (record es { text = overwrite to (take n (drop from es.text)) es.text })
unfolding estr_move
estr_move_lem es to from n h k = rw (
  passes to (length es.text) (omega arith),
  passes from (length es.text) (omega arith),
  passes n (length es.text - max from to) (omega arith),
)

pub estr_set_lem :
    (es : Estr) (pos c n : ℕ)
    → pos + n ≤ length es.text
    → estr_set es pos c n ≡ some (record es { text = memset pos c n es.text })
unfolding estr_set
estr_set_lem es pos c n h =
    rw (passes pos (length es.text) (omega arith), passes n (length es.text - pos) (omega arith))
