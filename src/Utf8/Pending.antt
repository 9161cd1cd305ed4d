-- ===== src/Utf8/Pending.antt =====
-- The assembly of typed bytes, `utf8_pending_feed` of src/utf8.c, over a whole stream.
use xzile.Prelude.{
  ℕ, ◌+◌, ◌/◌, ◌≤◌, ◌<◌, ◌≡◌, refl, ap, ◌⊎◌, inl, inr, Option, none, some, List, [], ◌∷◌, ◌++◌, map,
  arith, length, length-append,
}
use xzile.Utf8.{utf8_seq_len, utf8_decode, utf8_encode, Utf8Pending, utf8_pending_feed}
use xzile.Utf8.Roundtrip.{
  IsScalar, decode-encode, encode_one, encode_two, encode_three, encode_four, range,
  utf8_seq_len_le,
}

abbrev emit : Option (List ℕ) → List (List ℕ) → List (List ℕ)
emit none outs = outs
emit (some out) outs = out ∷ outs

-- Feeding bytes one by one: the accumulator left, and what came out, in order.
unfoldable pub feed_all : Utf8Pending → List ℕ → Utf8Pending × List (List ℕ)
feed_all acc [] = (acc, [])
feed_all acc (b ∷ bs) =
    let fed = utf8_pending_feed acc b in let rest = feed_all fed.0 bs in (rest.0, emit fed.1 rest.1)

-- What the accumulator holds fits the four bytes of its array, and is shorter than what it waits for.
pub record IsPending (acc : Utf8Pending) : Type 0 where
  pub fits : length acc.bytes < 4
  pub waits : (length acc.bytes ≡ 0) ⊎ ((length acc.bytes < acc.need) × (acc.need ≤ 4))

-- Every byte fed keeps the accumulator within the four bytes of its array, and shorter than the
-- character that it waits for.
pub utf8_pending_feed-IsPending :
    (acc : Utf8Pending) (b : ℕ) → IsPending acc → IsPending (utf8_pending_feed acc b).0
unfolding utf8_pending_feed
utf8_pending_feed-IsPending acc b v =
    ground (arith, length-append acc.bytes (b ∷ []), utf8_seq_len_le b)

feed_start :
    (acc : Utf8Pending) (b : ℕ)
    → acc.bytes ≡ []
    → 2 ≤ utf8_seq_len b
    → utf8_pending_feed acc b ≡ (record { bytes = b ∷ []; need = utf8_seq_len b }, none)
unfolding utf8_pending_feed
feed_start acc b e h = ground arith

feed_more :
    (acc : Utf8Pending) (b : ℕ)
    → 0 < length acc.bytes
    → b / 64 ≡ 2
    → length acc.bytes + 1 < acc.need
    → utf8_pending_feed acc b ≡ (record acc { bytes = acc.bytes ++ b ∷ [] }, none)
unfolding utf8_pending_feed
feed_more acc b h c n = ground (arith, length-append acc.bytes (b ∷ []))

feed_last :
    (acc : Utf8Pending) (b cp : ℕ)
    → 0 < length acc.bytes
    → b / 64 ≡ 2
    → acc.need ≤ length acc.bytes + 1
    → utf8_decode (acc.bytes ++ b ∷ []) 0 ≡ (cp, length acc.bytes + 1)
    → utf8_pending_feed acc b ≡ (record acc { bytes = [] }, some (acc.bytes ++ b ∷ []))
unfolding utf8_pending_feed
feed_last acc b cp h c n d = ground (arith, length-append acc.bytes (b ∷ []))

-- Nothing is pending, and this is what came out.
abbrev Emits : List (List ℕ) → Utf8Pending × List (List ℕ) → Type 0
Emits outs r = (r.0.bytes ≡ []) × (r.1 ≡ outs)

abbrev pending : List ℕ → ℕ → Utf8Pending
pending bytes need = record { bytes = bytes; need = need }

feed_two :
    (acc : Utf8Pending) (a b cp : ℕ)
    → acc.bytes ≡ []
    → utf8_seq_len a ≡ 2
    → b / 64 ≡ 2
    → utf8_decode (a ∷ b ∷ []) 0 ≡ (cp, 2)
    → Emits ((a ∷ b ∷ []) ∷ []) (feed_all acc (a ∷ b ∷ []))
unfolding feed_all
feed_two acc a b cp e l hb d =
    rw
      (
        feed_start acc a e (omega arith),
        feed_last (pending (a ∷ []) (utf8_seq_len a)) b cp (omega arith) hb (omega arith) d,
      )
      (refl, refl)

feed_three :
    (acc : Utf8Pending) (a b c cp : ℕ)
    → acc.bytes ≡ []
    → utf8_seq_len a ≡ 3
    → b / 64 ≡ 2
    → c / 64 ≡ 2
    → utf8_decode (a ∷ b ∷ c ∷ []) 0 ≡ (cp, 3)
    → Emits ((a ∷ b ∷ c ∷ []) ∷ []) (feed_all acc (a ∷ b ∷ c ∷ []))
unfolding feed_all
feed_three acc a b c cp e l hb hc d =
    rw
      (
        feed_start acc a e (omega arith),
        feed_more (pending (a ∷ []) (utf8_seq_len a)) b (omega arith) hb (omega arith),
        feed_last (pending (a ∷ b ∷ []) (utf8_seq_len a)) c cp (omega arith) hc (omega arith) d,
      )
      (refl, refl)

feed_four :
    (acc : Utf8Pending) (a b c f cp : ℕ)
    → acc.bytes ≡ []
    → utf8_seq_len a ≡ 4
    → b / 64 ≡ 2
    → c / 64 ≡ 2
    → f / 64 ≡ 2
    → utf8_decode (a ∷ b ∷ c ∷ f ∷ []) 0 ≡ (cp, 4)
    → Emits ((a ∷ b ∷ c ∷ f ∷ []) ∷ []) (feed_all acc (a ∷ b ∷ c ∷ f ∷ []))
unfolding feed_all
feed_four acc a b c f cp e l hb hc hf d =
    rw
      (
        feed_start acc a e (omega arith),
        feed_more (pending (a ∷ []) (utf8_seq_len a)) b (omega arith) hb (omega arith),
        feed_more (pending (a ∷ b ∷ []) (utf8_seq_len a)) c (omega arith) hc (omega arith),
        feed_last (pending (a ∷ b ∷ c ∷ []) (utf8_seq_len a)) f cp (omega arith) hf (omega arith) d,
      )
      (refl, refl)

feed_one :
    (acc : Utf8Pending) (a : ℕ)
    → acc.bytes ≡ []
    → a < 128
    → Emits ((a ∷ []) ∷ []) (feed_all acc (a ∷ []))
unfolding feed_all utf8_pending_feed utf8_seq_len
feed_one acc a e h = ground arith

lead_two : (x : ℕ) → x < 32 → utf8_seq_len (0xC0 + x) ≡ 2
unfolding utf8_seq_len
lead_two x h = ground arith

lead_three : (x : ℕ) → x < 16 → utf8_seq_len (0xE0 + x) ≡ 3
unfolding utf8_seq_len
lead_three x h = ground arith

lead_four : (x : ℕ) → x < 8 → utf8_seq_len (0xF0 + x) ≡ 4
unfolding utf8_seq_len
lead_four x h = ground arith

feed_char :
    (acc : Utf8Pending) (cp : ℕ)
    → IsScalar cp
    → acc.bytes ≡ []
    → Emits (utf8_encode cp ∷ []) (feed_all acc (utf8_encode cp))
feed_char acc cp v e =
    let whole = decode-encode cp [] v in
    elim (range cp) [
      | inl a ↦ rw (encode_one cp a) (feed_one acc cp e a)
      | inr (inl (a, b)) ↦ rw (encode_two cp a b) (
          feed_two acc _ _ cp e (lead_two (cp / 64) (omega arith)) (omega arith)
            (rw (encode_two cp a b) at whole))
      | inr (inr (inl (a, b))) ↦ rw (encode_three cp a b) (
          feed_three acc _ _ _ cp e (lead_three (cp / 64 / 64) (omega arith)) (omega arith)
            (omega arith) (rw (encode_three cp a b) at whole))
      | inr (inr (inr a)) ↦ rw (encode_four cp a v.small) (
          feed_four acc _ _ _ _ cp e (lead_four (cp / 64 / 64 / 64) (omega (arith, v.small)))
            (omega arith) (omega arith) (omega arith) (rw (encode_four cp a v.small) at whole))
    ]

emit-append : (o : Option (List ℕ)) (xs ys : List (List ℕ)) → emit o xs ++ ys ≡ emit o (xs ++ ys)
emit-append none xs ys = refl
emit-append (some x) xs ys = refl

feed_all-append :
    (acc : Utf8Pending) (bs cs : List ℕ)
    → let first = feed_all acc bs in
      let second = feed_all first.0 cs in feed_all acc (bs ++ cs) ≡ (second.0, first.1 ++ second.1)
unfolding feed_all
feed_all-append acc [] cs = refl
feed_all-append acc (b ∷ bs) cs =
    let fed = utf8_pending_feed acc b in rw (feed_all-append fed.0 bs cs, emit-append fed.1)

-- The bytes of some code points, one after the other.
abbrev pub typed : List ℕ → List ℕ
typed [] = []
typed (cp ∷ cps) = utf8_encode cp ++ typed cps

abbrev pub AllScalar : List ℕ → Type 0
AllScalar [] = Unit
AllScalar (cp ∷ cps) = IsScalar cp × AllScalar cps

-- Fed byte by byte to an accumulator with nothing pending, a text of scalar values comes out
-- character by character, each whole and once, and nothing stays pending.
pub feed_all-typed :
    (cps : List ℕ) (acc : Utf8Pending)
    → AllScalar cps
    → acc.bytes ≡ []
    → ((feed_all acc (typed cps)).0.bytes ≡ [])
      × ((feed_all acc (typed cps)).1 ≡ map utf8_encode cps)
unfolding feed_all
feed_all-typed [] acc v e = (e, refl)
feed_all-typed (cp ∷ cps) acc (v, vs) e =
    let (drained, out) = feed_char acc cp v e in
    let (end, outs) = feed_all-typed cps (feed_all acc (utf8_encode cp)).0 vs drained in
    rw (feed_all-append acc (utf8_encode cp) (typed cps), out) (end, ap (utf8_encode cp ∷◌) outs)
