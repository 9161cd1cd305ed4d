-- ===== src/Regex/Sets.antt =====
-- Sets of characters of src/regex.c are the ranges added to them.
use xzile.Prelude.{
  ℕ, zero, suc, ◌+◌, ◌≤◌, ◌<◌, max, ◌≡◌, refl, ◌∙◌, inl, inr, Bool, true, false, ◌&&◌, ◌||◌, List,
  [], ◌∷◌, ◌++◌, arith, ltb, leb, ◌==◌, if◌then◌else◌, ltb→lt, Bool-cases, length, length-set,
}
use xzile.Regex.{
  CharSet, set_add_byte, set_has_byte, set_has_cp, add_bytes, set_add_range, in_ranges,
}
use xzile.Prelude.{get_or-set}
use xzile.VTerm.Dispatch.Safe.{either_lem}

-- Bytes below 0x80 are in the bits, other characters in the ranges, as `match_here` tests them.
abbrev pub has_char : CharSet → ℕ → Bool
has_char cs c = if ltb c 0x80 then set_has_byte cs c else set_has_cp cs c

length-add_bytes :
    (fuel : ℕ) (cs : CharSet) (a hi : ℕ) → length (add_bytes fuel cs a hi).bits ≡ length cs.bits
unfolding add_bytes
length-add_bytes zero cs a hi = refl
length-add_bytes (suc fuel) cs a hi =
    either_lem (λ r. length r.bits ≡ length cs.bits) (leb a hi && ltb a 0x80) _ cs
      (length-add_bytes fuel (set_add_byte cs a) (a + 1) hi ∙ length-set cs.bits a true) refl

ranges-add_bytes :
    (fuel : ℕ) (cs : CharSet) (a hi : ℕ) → (add_bytes fuel cs a hi).ranges ≡ cs.ranges
unfolding add_bytes
ranges-add_bytes zero cs a hi = refl
ranges-add_bytes (suc fuel) cs a hi =
    either_lem (λ r. r.ranges ≡ cs.ranges) (leb a hi && ltb a 0x80) _ cs
      (ranges-add_bytes fuel (set_add_byte cs a) (a + 1) hi) refl

added :
    (cs : CharSet) (a hi c : ℕ)
    → 0x80 ≤ length cs.bits
    → (leb a hi && ltb a 0x80) ≡ true
    → (set_has_byte (set_add_byte cs a) c || (leb (a + 1) c && leb c hi))
      ≡ (set_has_byte cs c || (leb a c && leb c hi))
added cs a hi c l e =
    let inside : a < length cs.bits = ground (arith, l, e) in
    let got = get_or-set cs.bits a c true false inside in
    elim (Bool-cases (c == a)) [
      | inl q ↦ rw (got, q) (ground (arith, q, e))
      | inr q ↦ rw (got, q) (ground (arith, q))
    ]

add_bytes_lem :
    (fuel : ℕ) (cs : CharSet) (a hi c : ℕ)
    → 0x80 ≤ length cs.bits
    → 0x80 ≤ a + fuel
    → c < 0x80
    → set_has_byte (add_bytes fuel cs a hi) c ≡ (set_has_byte cs c || (leb a c && leb c hi))
unfolding add_bytes
add_bytes_lem zero cs a hi c l h k = ground (arith, h, k)
add_bytes_lem (suc fuel) cs a hi c l h k = elim (Bool-cases (leb a hi && ltb a 0x80)) [
  | inl e ↦
      let rest =
        add_bytes_lem fuel (set_add_byte cs a) (a + 1) hi c
          (omega (arith, l, length-set cs.bits a true)) (omega (arith, h)) k in
      rw (add_bytes, e) (rest ∙ added cs a hi c l e)
  | inr e ↦ rw (add_bytes, e) (ground (arith, e, k))
]

in_ranges-append :
    (rs : List (ℕ × ℕ)) (lo hi c : ℕ)
    → in_ranges (rs ++ (lo, hi) ∷ []) c ≡ (in_ranges rs c || (leb lo c && leb c hi))
unfolding in_ranges
in_ranges-append [] lo hi c = ground arith
in_ranges-append ((a, b) ∷ rs) lo hi c = ground (arith, in_ranges-append rs lo hi c)

-- After `set_add_range`, a set has just the characters that it had and those of the range, whether
-- they are tested as bytes or as code points, if its bits are all there.
pub has_char-set_add_range :
    (cs : CharSet) (lo hi c : ℕ)
    → 0x80 ≤ length cs.bits
    → has_char (set_add_range cs lo hi) c ≡ (has_char cs c || (leb lo c && leb c hi))
unfolding set_add_range
has_char-set_add_range cs lo hi c l =
    let bits = add_bytes_lem 0x80 cs lo hi c l (omega arith) in
    let kept = ranges-add_bytes 0x80 cs lo hi in
    let more = in_ranges-append cs.ranges (max lo 0x80) hi c in
    elim (Bool-cases (leb 0x80 hi)) [
      | inl b ↦ elim (Bool-cases (ltb c 0x80)) [
        | inl k ↦ rw (set_add_range, b, k) (bits (ltb→lt c 0x80 k))
        | inr k ↦ rw (set_add_range, b, k, kept, more) (ground (arith, k))
      ]
      | inr b ↦ elim (Bool-cases (ltb c 0x80)) [
        | inl k ↦ rw (set_add_range, b, k) (bits (ltb→lt c 0x80 k))
        | inr k ↦ rw (set_add_range, b, k, kept) (ground (arith, b, k))
      ]
    ]
