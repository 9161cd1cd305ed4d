-- ===== src/Buffer/Read.antt =====
-- Reading characters of src/buffer.c over the gap.
use xzile.Prelude.{
  if_false, ℕ, zero, suc, ◌+◌, ◌-◌, ◌≤◌, ◌<◌, min, ◌≡◌, refl, ap, ◌∙◌, false, some, List, [], ◌∷◌,
  arith, leb, if◌then◌else◌, length, get_elem?, get_or, take, drop, ext_get, get-take, get-drop,
  get-ge,
}
use xzile.Utf8.{utf8_decode}
use xzile.Buffer.{Buffer, bytes, o_to_realo, buffer_get_char, copy_chars, buffer_get_utf8_char}
use xzile.Buffer.Gap.{IsValid, contents, get-without_gap, length-without_gap, buffer_length_lem}

get_or-some : (s : List ℕ) (i : ℕ) → i < length s → get_elem? s i ≡ some (get_or s i 0)
get_or-some [] i h = absurd (omega arith)
get_or-some (x ∷ s) zero h = refl
get_or-some (x ∷ s) (suc i) h = get_or-some s i (omega arith)

drop-some : (s : List ℕ) (i x : ℕ) → get_elem? s i ≡ some x → drop i s ≡ x ∷ drop (suc i) s
drop-some [] i x h = absurd (ground arith)
drop-some (y ∷ s) zero x h = ground arith
drop-some (y ∷ s) (suc i) x h = drop-some s i x h

-- In a valid buffer, for an offset within the text, `buffer_get_char` is the byte of the text at
-- the offset, on either side of the gap.
pub buffer_get_char_lem :
    (bp : Buffer) (o : ℕ)
    → IsValid bp
    → o < length (contents bp)
    → get_elem? (contents bp) o ≡ some (buffer_get_char bp o)
unfolding buffer_get_char o_to_realo
buffer_get_char_lem bp o v h = ground (
  arith,
  v.within,
  length-without_gap (bytes bp) bp.pt bp.gap,
  get-without_gap (bytes bp) bp.pt bp.gap o,
  get_or-some (bytes bp) o,
  get_or-some (bytes bp) (o + bp.gap),
)

copy_chars_lem :
    (bp : Buffer) (n o : ℕ)
    → IsValid bp
    → o + n ≤ length (contents bp)
    → copy_chars bp o n ≡ take n (drop o (contents bp))
unfolding copy_chars
copy_chars_lem bp zero o v h = refl
copy_chars_lem bp (suc n) o v h =
    let next : o + 1 ≡ suc o = omega arith in
    rw (drop-some (contents bp) o (buffer_get_char bp o) (buffer_get_char_lem bp o v (omega arith)))
      (ap (buffer_get_char bp o ∷◌) (
        copy_chars_lem bp n (o + 1) v (omega arith) ∙ ap (λ k. take n (drop k (contents bp))) next))

-- In a valid buffer, for an offset within the text, `buffer_get_utf8_char` decodes the text at the
-- offset, also across the gap.
pub buffer_get_utf8_char_lem :
    (bp : Buffer) (o : ℕ)
    → IsValid bp
    → o < length (contents bp)
    → buffer_get_utf8_char bp o ≡ utf8_decode (take 4 (drop o (contents bp))) 0
unfolding buffer_get_utf8_char
buffer_get_utf8_char_lem bp o v h =
    let c = contents bp in
    let len = buffer_length_lem bp v in
    let inside : leb (length c) o ≡ false = ground arith in
    let same : take (min (length c - o) 4) (drop o c) ≡ take 4 (drop o c) = ext_get _ _ λ i.
      ground (
        arith,
        get-take (min (length c - o) 4) (drop o c) i,
        get-take 4 (drop o c) i,
        get-drop o c i,
        get-ge c (o + i),
      ) in
    ap (λ n. if leb n o then (0, 0) else utf8_decode (copy_chars bp o (min (n - o) 4)) 0) len
    ∙ (if_false (leb (length c) o) (0, 0) _ inside
        ∙ ap (λ s. utf8_decode s 0)
            (copy_chars_lem bp (min (length c - o) 4) o v (omega arith) ∙ same))
