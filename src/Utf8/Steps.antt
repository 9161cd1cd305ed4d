-- ===== src/Utf8/Steps.antt =====
-- `utf8_next_char` and `utf8_prev_char` of src/utf8.c: steps over a character and back.
use xzile.Prelude.{
  ℕ, zero, suc, ◌+◌, ◌-◌, ◌/◌, ◌≤◌, ◌<◌, ◌≡◌, refl, sym, ap, ◌∙◌, ◌≢◌, ◌⊎◌, inl, inr, List, [], ◌∷◌,
  ◌++◌, arith, length, get_or, drop, length-append,
}
use native.Mathlib.Decide.{dec_lt}
use xzile.Utf8.{utf8_decode, utf8_encode, back_up, utf8_next_char, utf8_prev_char}
use xzile.Utf8.Roundtrip.{
  IsScalar, decode-encode, encode_one, encode_two, encode_three, encode_four, range,
  utf8_decode-IsDecoded,
}
use xzile.Utf8.Exact.{decode-drop}

drop-append {ℓ} : {A : Type ℓ} (xs ys : List A) → drop (length xs) (xs ++ ys) ≡ ys
drop-append [] ys = refl
drop-append (x ∷ xs) ys = drop-append xs ys

-- A character in the middle of a text is decoded there.
decode_within :
    (pre rest : List ℕ) (cp : ℕ)
    → IsScalar cp
    → utf8_decode (pre ++ (utf8_encode cp ++ rest)) (length pre) ≡ (cp, length (utf8_encode cp))
decode_within pre rest cp v =
    sym (decode-drop (length pre) (pre ++ (utf8_encode cp ++ rest)))
    ∙ rw drop-append (decode-encode cp rest v)

-- On any bytes, `utf8_next_char` never leaves the text, and moves on unless it is at the end.
pub next_char_bounds :
    (s : List ℕ) (i : ℕ)
    → (utf8_next_char s i ≤ length s) × ((i < utf8_next_char s i) ⊎ (length s ≤ i))
unfolding utf8_next_char
next_char_bounds s i = ground (arith, utf8_decode-IsDecoded s i)

-- From the start of the encoding of a scalar value, `utf8_next_char` steps to behind it, whatever
-- stands around it.
pub next_char-encode :
    (pre rest : List ℕ) (cp : ℕ)
    → IsScalar cp
    → utf8_next_char (pre ++ (utf8_encode cp ++ rest)) (length pre)
      ≡ length pre + length (utf8_encode cp)
unfolding utf8_next_char
next_char-encode pre rest cp v = ground (
  arith,
  decode_within pre rest cp v,
  length-append pre (utf8_encode cp ++ rest),
  length-append (utf8_encode cp) rest,
)

-- The loop stops at the lead byte: the bytes behind it are continuation bytes.
back_up_lead :
    (s : List ℕ) (p q : ℕ)
    → p ≤ q
    → get_or s p 0 / 64 ≢ 2
    → ((j : ℕ) → p < j → j ≤ q → get_or s j 0 / 64 ≡ 2)
    → back_up s q ≡ p
unfolding back_up
back_up_lead s p zero b h c = omega arith
back_up_lead s p (suc q) b h c = elim (dec_lt p (suc q)) [
  | yes l ↦
      rw (c (suc q) l (omega arith))
        (back_up_lead s p q (omega arith) h (λ j x y. c j x (omega arith)))
  | no l ↦ let e : suc q ≡ p = omega arith in ground (arith, rw (← e) at h)
]

IsTail : List ℕ → Type 0
IsTail [] = Unit
IsTail (c ∷ t) = (c / 64 ≡ 2) × IsTail t

get_or-tail : (t rest : List ℕ) (j : ℕ) → IsTail t → j < length t → get_or (t ++ rest) j 0 / 64 ≡ 2
unfolding IsTail
get_or-tail [] rest j h b = absurd (omega arith)
get_or-tail (c ∷ t) rest zero h b = h.0
get_or-tail (c ∷ t) rest (suc j) h b = get_or-tail t rest j h.1 (omega arith)

-- An encoding is a lead byte and continuation bytes.
encode_shape :
    (cp : ℕ)
    → cp < 0x110000
    → (a : ℕ) × (t : List ℕ) × (utf8_encode cp ≡ a ∷ t) × (a / 64 ≢ 2) × IsTail t × (length t < 4)
unfolding IsTail
encode_shape cp v = elim (range cp) [
  | inl a ↦ (_, _, encode_one cp a, omega arith, tt, omega arith)
  | inr (inl (a, b)) ↦ (_, _, encode_two cp a b, omega arith, (omega arith, tt), omega arith)
  | inr (inr (inl (a, b))) ↦
      (_, _, encode_three cp a b, omega arith, (omega arith, (omega arith, tt)), omega arith)
  | inr (inr (inr a)) ↦ (
    _,
    _,
    encode_four cp a v,
    omega arith,
    (omega arith, (omega arith, (omega arith, tt))),
    omega arith,
  )
]

get_or-append : (xs ys : List ℕ) (k : ℕ) → get_or (xs ++ ys) (length xs + k) 0 ≡ get_or ys k 0
get_or-append [] ys k = ap (λ i. get_or ys i 0) (omega arith)
get_or-append (x ∷ xs) ys k = ground (arith, get_or-append xs ys k)

back_up_char :
    (pre rest : List ℕ) (a : ℕ) (t : List ℕ)
    → a / 64 ≢ 2
    → IsTail t
    → back_up (pre ++ (a ∷ (t ++ rest))) (length pre + length t) ≡ length pre
back_up_char pre rest a t lead tail =
    back_up_lead (pre ++ s) (length pre) (length pre + length t) (omega arith) at_lead at_tail
  where
    s : List ℕ
    s = a ∷ (t ++ rest)

    at_lead : get_or (pre ++ s) (length pre) 0 / 64 ≢ 2
    at_lead =
        let e : length pre + 0 ≡ length pre = omega arith in
        rw (rw e at (get_or-append pre s 0)) lead

    at_tail : (j : ℕ) → length pre < j → j ≤ length pre + length t → get_or (pre ++ s) j 0 / 64 ≡ 2
    at_tail j x y =
        let e : length pre + suc (j - length pre - 1) ≡ j = omega arith in
        rw (rw e at (get_or-append pre s (suc (j - length pre - 1))))
          (get_or-tail t rest (j - length pre - 1) tail (omega arith))

-- From behind the encoding of a scalar value, `utf8_prev_char` steps back to where the encoding
-- starts, whatever stands around it.
pub prev_char-encode :
    (pre rest : List ℕ) (cp : ℕ)
    → IsScalar cp
    → utf8_prev_char (pre ++ (utf8_encode cp ++ rest)) (length pre + length (utf8_encode cp))
      ≡ length pre
unfolding utf8_prev_char
prev_char-encode pre rest cp v =
    let (a, t, e, lead, tail, short) = encode_shape cp v.small in
    let s = pre ++ (utf8_encode cp ++ rest) in
    let p = length pre + length (utf8_encode cp) - 1 in
    let p_eq : p ≡ length pre + length t = omega (arith, ap length e) in
    let backed : back_up s p ≡ length pre = rw (p_eq, e) (back_up_char pre rest a t lead tail) in
    rw backed (ground (arith, decode_within pre rest cp v, ap length e))
