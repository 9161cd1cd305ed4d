-- ===== src/Utf8/Exact.antt =====
-- A multi-byte decoding is exact: the bytes are those that `utf8_encode` writes.
use xzile.Prelude.{
  ℕ, zero, suc, ◌+◌, ◌-◌, ◌*◌, ◌%◌, ◌^◌, ◌≤◌, ◌<◌, ◌≡◌, refl, ap, ◌∙◌, List, [], ◌∷◌, arith, length,
  get_or, take, drop, length-drop,
}
use xzile.Utf8.{utf8_seq_len, gather, refused, utf8_decode, utf8_encode}
use xzile.Utf8.Roundtrip.{encode_two, encode_three, encode_four}

get_or-drop : (i : ℕ) (s : List ℕ) (k : ℕ) → get_or (drop i s) k 0 ≡ get_or s (i + k) 0
get_or-drop zero s k = ground arith
get_or-drop (suc i) [] k = refl
get_or-drop (suc i) (x ∷ s) k = ground (arith, get_or-drop i s k)

gather-drop : (i : ℕ) (s : List ℕ) (n j cp : ℕ) → gather (drop i s) n j cp ≡ gather s n (i + j) cp
unfolding gather
gather-drop i s zero j cp = refl
gather-drop i s (suc n) j cp =
    let e : i + (j + 1) ≡ i + j + 1 = omega arith in
    ground (
      arith,
      get_or-drop i s j,
      rw e at (gather-drop i s n (j + 1) (cp * 64 + get_or s (i + j) 0 % 64)),
    )

-- A decoding looks only at the bytes from `i` on.
pub decode-drop : (i : ℕ) (s : List ℕ) → utf8_decode (drop i s) 0 ≡ utf8_decode s i
unfolding utf8_decode
decode-drop i s =
    let first : get_or (drop i s) 0 0 ≡ get_or s i 0 =
      get_or-drop i s 0 ∙ ap (λ k. get_or s k 0) (omega arith) in
    let b = get_or s i 0 in
    let n = utf8_seq_len b in
    rw first (ground (arith, length-drop i s, gather-drop i s (n - 1) (0 + 1) (b % 2 ^ (7 - n))))

lead_two : (b : ℕ) → utf8_seq_len b ≡ 2 → (0xC0 ≤ b) × (b < 0xE0)
unfolding utf8_seq_len
lead_two b h = ground arith

lead_three : (b : ℕ) → utf8_seq_len b ≡ 3 → (0xE0 ≤ b) × (b < 0xF0)
unfolding utf8_seq_len
lead_three b h = ground arith

lead_four : (b : ℕ) → utf8_seq_len b ≡ 4 → (0xF0 ≤ b) × (b < 0xF8)
unfolding utf8_seq_len
lead_four b h = ground arith

exact_two :
    (a b cp : ℕ) (s : List ℕ)
    → utf8_seq_len a ≡ 2
    → utf8_decode (a ∷ b ∷ s) 0 ≡ (cp, 2)
    → a ∷ b ∷ [] ≡ utf8_encode cp
unfolding utf8_decode gather refused
exact_two a b cp s l h = ground (arith, lead_two a l, encode_two cp)

exact_three :
    (a b c cp : ℕ) (s : List ℕ)
    → utf8_seq_len a ≡ 3
    → utf8_decode (a ∷ b ∷ c ∷ s) 0 ≡ (cp, 3)
    → a ∷ b ∷ c ∷ [] ≡ utf8_encode cp
unfolding utf8_decode gather refused
exact_three a b c cp s l h = ground (arith, lead_three a l, encode_three cp)

exact_four :
    (a b c d cp : ℕ) (s : List ℕ)
    → utf8_seq_len a ≡ 4
    → utf8_decode (a ∷ b ∷ c ∷ d ∷ s) 0 ≡ (cp, 4)
    → a ∷ b ∷ c ∷ d ∷ [] ≡ utf8_encode cp
unfolding utf8_decode gather refused
exact_four a b c d cp s l h = ground (arith, lead_four a l, encode_four cp)

-- A length above 1 is that of the lead byte, and in range.
decoded_len :
    (a cp n : ℕ) (s : List ℕ)
    → utf8_decode (a ∷ s) 0 ≡ (cp, n)
    → 2 ≤ n
    → (utf8_seq_len a ≡ n) × (n ≤ suc (length s)) × (n ≤ 4)
unfolding utf8_decode utf8_seq_len
decoded_len a cp n s h m = ground arith

exact : (cp n : ℕ) (s : List ℕ) → utf8_decode s 0 ≡ (cp, n) → 2 ≤ n → take n s ≡ utf8_encode cp
exact cp n [] h m = absurd (ends n h m)
  where
    ends : (n : ℕ) → utf8_decode [] 0 ≡ (cp, n) → 2 ≤ n → ⊥
    ends n h m = unfold utf8_decode in ground arith
exact cp zero (a ∷ s) h m = absurd (omega arith)
exact cp (suc zero) (a ∷ s) h m = absurd (omega arith)
exact cp (suc (suc zero)) (a ∷ []) h m = absurd (omega (arith, decoded_len a cp 2 [] h m))
exact cp (suc (suc zero)) (a ∷ b ∷ s) h m = exact_two a b cp s (decoded_len a cp 2 (b ∷ s) h m).0 h
exact cp (suc (suc (suc zero))) (a ∷ []) h m = absurd (omega (arith, decoded_len a cp 3 [] h m))
exact cp (suc (suc (suc zero))) (a ∷ b ∷ []) h m =
    absurd (omega (arith, decoded_len a cp 3 (b ∷ []) h m))
exact cp (suc (suc (suc zero))) (a ∷ b ∷ c ∷ s) h m =
    exact_three a b c cp s (decoded_len a cp 3 (b ∷ c ∷ s) h m).0 h
exact cp (suc (suc (suc (suc zero)))) (a ∷ []) h m =
    absurd (omega (arith, decoded_len a cp 4 [] h m))
exact cp (suc (suc (suc (suc zero)))) (a ∷ b ∷ []) h m =
    absurd (omega (arith, decoded_len a cp 4 (b ∷ []) h m))
exact cp (suc (suc (suc (suc zero)))) (a ∷ b ∷ c ∷ []) h m =
    absurd (omega (arith, decoded_len a cp 4 (b ∷ c ∷ []) h m))
exact cp (suc (suc (suc (suc zero)))) (a ∷ b ∷ c ∷ d ∷ s) h m =
    exact_four a b c d cp s (decoded_len a cp 4 (b ∷ c ∷ d ∷ s) h m).0 h
exact cp (suc (suc (suc (suc (suc n))))) (a ∷ s) h m =
    absurd (omega (arith, decoded_len a cp (suc (suc (suc (suc (suc n))))) s h m))

-- If a decoding takes more than one byte, these bytes are the encoding of the code point: overlong
-- forms and other spellings are not accepted.
pub take-utf8_decode :
    (s : List ℕ) (i cp n : ℕ)
    → utf8_decode s i ≡ (cp, n)
    → 2 ≤ n
    → take n (drop i s) ≡ utf8_encode cp
take-utf8_decode s i cp n h m = exact cp n (drop i s) (decode-drop i s ∙ h) m
