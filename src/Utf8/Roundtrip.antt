-- ===== src/Utf8/Roundtrip.antt =====
-- Decoding what `utf8_encode` wrote.
use xzile.Prelude.{
  ℕ, zero, suc, ◌+◌, ◌-◌, ◌*◌, ◌/◌, ◌%◌, ◌^◌, ◌≤◌, ◌<◌, ◌≡◌, refl, ap, ◌∙◌, ◌⊎◌, inl, inr, false,
  List, [], ◌∷◌, ◌++◌, arith, Option-cases, length, get_or,
}
use Prim.Native.Nat.{bit_or}
use xzile.Utf8.{replacement, utf8_seq_len, gather, min_cp, refused, utf8_decode, utf8_encode}

-- A Unicode scalar value: no surrogate, and at most U+10FFFF.
pub record IsScalar (cp : ℕ) : Type 0 where
  pub small : cp < 0x110000
  pub plain : (cp < 0xD800) ⊎ (0xDFFF < cp)

refused_no : (n cp : ℕ) → IsScalar cp → min_cp n ≤ cp → refused n cp ≡ false
unfolding refused
refused_no n cp v h = ground arith

decode_two :
    (x y : ℕ) (rest : List ℕ)
    → x < 32
    → y < 64
    → 2 ≤ x
    → utf8_decode ((0xC0 + x) ∷ (0x80 + y) ∷ rest) 0 ≡ (x * 64 + y, 2)
unfolding utf8_decode gather refused
decode_two x y rest hx hy h =
    let lead : utf8_seq_len (0xC0 + x) ≡ 2 = unfold utf8_seq_len in ground arith in
    rw lead (ground arith)

decode_three :
    (x y z : ℕ) (rest : List ℕ)
    → x < 16
    → y < 64
    → z < 64
    → IsScalar ((x * 64 + y) * 64 + z)
    → 0x800 ≤ (x * 64 + y) * 64 + z
    → utf8_decode ((0xE0 + x) ∷ (0x80 + y) ∷ (0x80 + z) ∷ rest) 0 ≡ ((x * 64 + y) * 64 + z, 3)
unfolding utf8_decode gather refused
decode_three x y z rest hx hy hz v h =
    let lead : utf8_seq_len (0xE0 + x) ≡ 3 = unfold utf8_seq_len in ground arith in
    rw lead (ground arith)

decode_four :
    (x y z w : ℕ) (rest : List ℕ)
    → x < 8
    → y < 64
    → z < 64
    → w < 64
    → ((x * 64 + y) * 64 + z) * 64 + w < 0x110000
    → 0x10000 ≤ ((x * 64 + y) * 64 + z) * 64 + w
    → utf8_decode ((0xF0 + x) ∷ (0x80 + y) ∷ (0x80 + z) ∷ (0x80 + w) ∷ rest) 0
      ≡ (((x * 64 + y) * 64 + z) * 64 + w, 4)
unfolding utf8_decode gather refused
decode_four x y z w rest hx hy hz hw v h =
    let lead : utf8_seq_len (0xF0 + x) ≡ 4 = unfold utf8_seq_len in ground arith in
    rw lead (ground arith)

decode_one : (b : ℕ) (rest : List ℕ) → b < 128 → utf8_decode (b ∷ rest) 0 ≡ (b, 1)
unfolding utf8_decode
decode_one b rest h = ground arith

-- The lead byte of four: below 8 the `|` is a sum.
lead_four : (x : ℕ) → x < 8 → bit_or 0xF0 x % 256 ≡ 0xF0 + x
lead_four zero h = refl
lead_four (suc zero) h = refl
lead_four (suc (suc zero)) h = refl
lead_four (suc (suc (suc zero))) h = refl
lead_four (suc (suc (suc (suc zero)))) h = refl
lead_four (suc (suc (suc (suc (suc zero))))) h = refl
lead_four (suc (suc (suc (suc (suc (suc zero)))))) h = refl
lead_four (suc (suc (suc (suc (suc (suc (suc zero))))))) h = refl
lead_four (suc (suc (suc (suc (suc (suc (suc (suc x)))))))) h = absurd (omega arith)

-- The encoding, by ranges.
pub encode_one : (cp : ℕ) → cp < 0x80 → utf8_encode cp ≡ cp ∷ []
unfolding utf8_encode
encode_one cp h = ground arith

pub encode_two :
    (cp : ℕ) → 0x80 ≤ cp → cp < 0x800 → utf8_encode cp ≡ (0xC0 + cp / 64) ∷ (0x80 + cp % 64) ∷ []
unfolding utf8_encode
encode_two cp a h = ground arith

pub encode_three :
    (cp : ℕ)
    → 0x800 ≤ cp
    → cp < 0x10000
    → utf8_encode cp ≡ (0xE0 + cp / 64 / 64) ∷ (0x80 + cp / 64 % 64) ∷ (0x80 + cp % 64) ∷ []
unfolding utf8_encode
encode_three cp a h = ground arith

pub encode_four :
    (cp : ℕ)
    → 0x10000 ≤ cp
    → cp < 0x110000
    → utf8_encode cp
      ≡ (0xF0 + cp / 64 / 64 / 64)
        ∷ (0x80 + cp / 64 / 64 % 64)
        ∷ (0x80 + cp / 64 % 64)
        ∷ (0x80 + cp % 64)
        ∷ []
unfolding utf8_encode
encode_four cp a h = ground (arith, lead_four (cp / 2 ^ 18))

abbrev pub Range : ℕ → Type 0
Range cp =
    (cp < 0x80) ⊎ ((0x80 ≤ cp) × (cp < 0x800)) ⊎ ((0x800 ≤ cp) × (cp < 0x10000)) ⊎ (0x10000 ≤ cp)

pub range : (cp : ℕ) → Range cp
range cp = grind arith

-- Every scalar value is decoded from its encoding, whatever follows it, and exactly the bytes of
-- the encoding are taken.
pub decode-encode :
    (cp : ℕ) (rest : List ℕ)
    → IsScalar cp
    → utf8_decode (utf8_encode cp ++ rest) 0 ≡ (cp, length (utf8_encode cp))
decode-encode cp rest v = elim (range cp) [
  | inl a ↦ rw (encode_one cp a) (decode_one cp rest a)
  | inr (inl (a, b)) ↦
      let e : cp / 64 * 64 + cp % 64 ≡ cp = omega arith in
      rw (encode_two cp a b) (
        decode_two (cp / 64) (cp % 64) rest (omega arith) (omega arith) (omega arith)
        ∙ ap (λ k. (k, 2)) e)
  | inr (inr (inl (a, b))) ↦
      let e : (cp / 64 / 64 * 64 + cp / 64 % 64) * 64 + cp % 64 ≡ cp = omega arith in
      rw (encode_three cp a b) (
        decode_three (cp / 64 / 64) (cp / 64 % 64) (cp % 64) rest (omega arith) (omega arith)
          (omega arith) (rw e v) (omega arith)
        ∙ ap (λ k. (k, 3)) e)
  | inr (inr (inr a)) ↦
      let top = cp / 64 / 64 / 64 in
      let e : ((top * 64 + cp / 64 / 64 % 64) * 64 + cp / 64 % 64) * 64 + cp % 64 ≡ cp =
        omega arith in
      rw (encode_four cp a v.small) (
        decode_four top (cp / 64 / 64 % 64) (cp / 64 % 64) (cp % 64) rest (omega (arith, v.small))
          (omega arith) (omega arith) (omega arith) (omega (arith, v.small)) (omega arith)
        ∙ ap (λ k. (k, 4)) e)
]

-- What a decoder may return at `i`: nothing behind the end; and before it a scalar value, over one
-- to four bytes that all lie in the slice.
abbrev pub IsDecoded : List ℕ → ℕ → ℕ × ℕ → Type 0
IsDecoded s i (cp, n) =
    IsScalar cp
    × (((i < length s) × (1 ≤ n) × (n ≤ 4) × (i + n ≤ length s)) ⊎ ((length s ≤ i) × (n ≡ 0)))

pub utf8_seq_len_le : (b : ℕ) → utf8_seq_len b ≤ 4
unfolding utf8_seq_len
utf8_seq_len_le b = ground arith

replacement-IsScalar : IsScalar replacement
replacement-IsScalar = omega arith

not_refused : (n cp : ℕ) → refused n cp ≡ false → IsScalar cp × (min_cp n ≤ cp)
unfolding refused
not_refused n cp h = ground arith

-- On any bytes, valid or not, what `utf8_decode` returns satisfies `IsDecoded`: within the slice a
-- scalar value and a length that stays in the slice.
pub utf8_decode-IsDecoded : (s : List ℕ) (i : ℕ) → IsDecoded s i (utf8_decode s i)
unfolding utf8_decode
utf8_decode-IsDecoded s i =
    let b = get_or s i 0 in
    let n = utf8_seq_len b in
    elim (Option-cases (gather s (n - 1) (i + 1) (b % 2 ^ (7 - n)))) [
      | inl e ↦ ground (arith, utf8_seq_len_le b)
      | inr (cp, e) ↦ ground (arith, not_refused n cp, utf8_seq_len_le b)
    ]
