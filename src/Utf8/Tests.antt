-- ===== src/Utf8/Tests.antt =====
-- The UTF-8 functions of src/utf8.c on small texts.
use xzile.Prelude.{ℕ, ◌+◌, ◌≡◌, refl, inl, inr, List, [], ◌∷◌, ◌++◌, map, arith, length, take, drop}
use xzile.Utf8.{
  utf8_seq_len, gather, refused, utf8_decode, utf8_encode, utf8_prev_char, Utf8Pending,
  nothing_pending,
}
use xzile.Utf8.Roundtrip.{IsScalar, decode-encode}
use xzile.Utf8.Exact.{take-utf8_decode}
use xzile.Utf8.Steps.{prev_char-encode}
use xzile.Utf8.Pending.{IsPending, feed_all, typed, feed_all-typed}

-- U+20AC, three bytes long
euro-IsScalar : IsScalar 0x20AC
euro-IsScalar = record { small = omega arith; plain = inl (omega arith) }

abbrev tail : List ℕ
tail = 33 ∷ []

decode-encode_example :
    utf8_decode (utf8_encode 0x20AC ++ tail) 0 ≡ (0x20AC, length (utf8_encode 0x20AC))
decode-encode_example = decode-encode 0x20AC tail euro-IsScalar

abbrev euro_bytes : List ℕ
euro_bytes = 97 ∷ 0xE2 ∷ 0x82 ∷ 0xAC ∷ []

decodes_euro : utf8_decode euro_bytes 1 ≡ (0x20AC, 3)
unfolding utf8_decode utf8_seq_len gather refused
decodes_euro = refl

take-utf8_decode_example : take 3 (drop 1 euro_bytes) ≡ utf8_encode 0x20AC
take-utf8_decode_example = take-utf8_decode euro_bytes 1 0x20AC 3 decodes_euro (omega arith)

prev_char-encode_example :
    utf8_prev_char (tail ++ (utf8_encode 0x20AC ++ tail)) (1 + length (utf8_encode 0x20AC)) ≡ 1
prev_char-encode_example = prev_char-encode tail tail 0x20AC euro-IsScalar

abbrev two_bytes : Utf8Pending
two_bytes = record { bytes = 0xE2 ∷ 0x82 ∷ []; need = 3 }

two_bytes-IsPending : IsPending two_bytes
two_bytes-IsPending = record { fits = omega arith; waits = inr (omega arith, omega arith) }

abbrev code_points : List ℕ
code_points = 0x20AC ∷ 97 ∷ []

letter-IsScalar : IsScalar 97
letter-IsScalar = record { small = omega arith; plain = inl (omega arith) }

feed_all-typed_example :
    ((feed_all nothing_pending (typed code_points)).0.bytes ≡ [])
    × ((feed_all nothing_pending (typed code_points)).1 ≡ map utf8_encode code_points)
feed_all-typed_example =
    feed_all-typed code_points nothing_pending (euro-IsScalar, (letter-IsScalar, tt)) refl
