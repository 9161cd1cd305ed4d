-- ===== src/Buffer/Gap.antt =====
-- What a buffer's bytes stand for: the text without the gap. Moving the gap does not change it.
use xzile.Prelude.{
  ℕ, ◌+◌, ◌-◌, ◌≤◌, ◌<◌, min, ◌≡◌, inl, inr, some, List, ◌++◌, arith, ltb, if◌then◌else◌,
  Bool-cases, length, get_elem?, take, drop, length-take, length-drop, ext_get, get-append,
  get-take, get-drop, lengths,
}
use xzile.Bytes.{overwrite, memset}
use xzile.Bytes.Writes.{length-overwrite, get-overwrite, length-memset, get-memset}
use xzile.Estr.{Estr}
use xzile.Estr.Edit.{estr_move_lem, estr_set_lem}
use xzile.Buffer.{Buffer, bytes, buffer_length, realo_to_o}
use xzile.Buffer.Replace.{move_gap}

-- The text of some bytes with a gap of `gap` at `pt`.
abbrev pub without_gap : List ℕ → ℕ → ℕ → List ℕ
without_gap t pt gap = take pt t ++ drop (pt + gap) t

abbrev pub contents : Buffer → List ℕ
contents bp = without_gap (bytes bp) bp.pt bp.gap

-- The gap lies within the bytes, and holds nothing but zeros.
pub record HasGap (t : List ℕ) (pt gap : ℕ) : Type 0 where
  pub within : pt + gap ≤ length t
  pub zeros : (i : ℕ) → pt ≤ i → i < pt + gap → get_elem? t i ≡ some 0

abbrev pub IsValid : Buffer → Type 0
IsValid bp = HasGap (bytes bp) bp.pt bp.gap

pub length-without_gap :
    (t : List ℕ) (pt gap : ℕ) → pt + gap ≤ length t → length (without_gap t pt gap) + gap ≡ length t
length-without_gap t pt gap h = simp lengths (omega arith)

pub get-without_gap :
    (t : List ℕ) (pt gap i : ℕ)
    → pt + gap ≤ length t
    → get_elem? (without_gap t pt gap) i
      ≡ (if ltb i pt then get_elem? t i else get_elem? t (i + gap))
get-without_gap t pt gap i h = ground (
  arith,
  get-append (take pt t) (drop (pt + gap) t) i,
  get-take pt t i,
  get-drop (pt + gap) t (i - pt),
  length-take pt t,
)

pub buffer_length_lem : (bp : Buffer) → IsValid bp → buffer_length bp ≡ length (contents bp)
unfolding buffer_length realo_to_o
buffer_length_lem bp v =
    ground (arith, v.within, length-without_gap (bytes bp) bp.pt bp.gap v.within)

-- The bytes after the text [pt, pt + gap) has moved down or up over the gap.
module _ (t : List ℕ) (pt gap value : ℕ) where
  moved_down : List ℕ
  moved_down =
      memset value 0 (min (pt - value) gap)
        (overwrite (value + gap) (take (pt - value) (drop value t)) t)

  moved_up : List ℕ
  moved_up =
      memset (value + gap - min (value - pt) gap) 0 (min (value - pt) gap)
        (overwrite pt (take (value - pt) (drop (pt + gap) t)) t)

  module _ (v : HasGap t pt gap) (fits : value + gap ≤ length t) where
    length-moved_down : value < pt → length moved_down ≡ length t
    unfolding moved_down
    length-moved_down b = ground (
      arith,
      v.within,
      length-take (pt - value) (drop value t),
      length-drop value t,
      length-overwrite (value + gap) (take (pt - value) (drop value t)) t,
      length-memset value 0 (min (pt - value) gap)
          (overwrite (value + gap) (take (pt - value) (drop value t)) t),
    )

    get-moved_down :
        (i : ℕ)
        → value < pt
        → get_elem? moved_down i ≡ (
            if ltb i value
            then get_elem? t i
            else if ltb i (value + gap)
            then some 0
            else if ltb i (pt + gap)
            then get_elem? t (i - gap)
            else get_elem? t i)
    unfolding moved_down
    get-moved_down i b = ground (
      arith,
      v.within,
      v.zeros i,
      length-take (pt - value) (drop value t),
      length-drop value t,
      length-overwrite (value + gap) (take (pt - value) (drop value t)) t,
      get-memset value 0 (min (pt - value) gap)
          (overwrite (value + gap) (take (pt - value) (drop value t)) t) i,
      get-overwrite (value + gap) (take (pt - value) (drop value t)) t i,
      get-take (pt - value) (drop value t) (i - (value + gap)),
      get-drop value t (i - (value + gap)),
    )

    length-moved_up : pt < value → length moved_up ≡ length t
    unfolding moved_up
    length-moved_up b = ground (
      arith,
      v.within,
      length-take (value - pt) (drop (pt + gap) t),
      length-drop (pt + gap) t,
      length-overwrite pt (take (value - pt) (drop (pt + gap) t)) t,
      length-memset (value + gap - min (value - pt) gap) 0 (min (value - pt) gap)
          (overwrite pt (take (value - pt) (drop (pt + gap) t)) t),
    )

    get-moved_up :
        (i : ℕ)
        → pt < value
        → get_elem? moved_up i ≡ (
            if ltb i pt
            then get_elem? t i
            else if ltb i value
            then get_elem? t (i + gap)
            else if ltb i (value + gap)
            then some 0
            else get_elem? t i)
    unfolding moved_up
    get-moved_up i b = ground (
      arith,
      v.within,
      v.zeros i,
      length-take (value - pt) (drop (pt + gap) t),
      length-drop (pt + gap) t,
      length-overwrite pt (take (value - pt) (drop (pt + gap) t)) t,
      get-memset (value + gap - min (value - pt) gap) 0 (min (value - pt) gap)
          (overwrite pt (take (value - pt) (drop (pt + gap) t)) t) i,
      get-overwrite pt (take (value - pt) (drop (pt + gap) t)) t i,
      get-take (value - pt) (drop (pt + gap) t) (i - pt),
      get-drop (pt + gap) t (i - pt),
    )

  pub moved_to : List ℕ
  moved_to = if ltb value pt then moved_down else if ltb pt value then moved_up else t

  module _ (v : HasGap t pt gap) (fits : value + gap ≤ length t) where
    -- The gap is zeroed and whole at its new place.
    pub moved_to-HasGap : HasGap moved_to value gap
    unfolding moved_to
    moved_to-HasGap = record {
      within = ground (arith, length-moved_down v fits, length-moved_up v fits);
      zeros = λ i a b. ground (arith, v.zeros i, get-moved_down v fits i, get-moved_up v fits i);
    }

    pub without_gap-moved_to : without_gap moved_to value gap ≡ without_gap t pt gap
    unfolding moved_to
    without_gap-moved_to = ext_get _ _ λ i. ground (
      arith,
      moved_to-HasGap.within,
      v.within,
      get-without_gap moved_to value gap i,
      get-without_gap t pt gap i,
      get-moved_down v fits i,
      get-moved_up v fits i,
      get-moved_down v fits (i + gap),
      get-moved_up v fits (i + gap),
    )

-- The assertions of `estr_move` and `estr_set` hold, and the bytes are moved.
pub move_gap_lem :
    (text : Estr) (pt gap value : ℕ)
    → HasGap text.text pt gap
    → value + gap ≤ length text.text
    → move_gap text pt gap value ≡ some (record text { text = moved_to text.text pt gap value })
unfolding move_gap moved_to moved_down moved_up
move_gap_lem text pt gap value v fits = elim (Bool-cases (ltb value pt)) [
  | inl b ↦
      let t = overwrite (value + gap) (take (pt - value) (drop value text.text)) text.text in
      let down : length t ≡ length text.text =
        length-overwrite (value + gap) _ text.text
          (ground (arith, v.within, length-take (pt - value) (drop value text.text))) in
      rw
        (
          b,
          estr_move_lem text (value + gap) value (pt - value) (ground (arith, v.within))
              (ground (arith, v.within)),
        )
        (estr_set_lem (record text { text = t }) value 0 (min (pt - value) gap)
          (omega (arith, down)))
  | inr b ↦ elim (Bool-cases (ltb pt value)) [
    | inl c ↦
        let t = overwrite pt (take (value - pt) (drop (pt + gap) text.text)) text.text in
        let back = min (value - pt) gap in
        let up : length t ≡ length text.text =
          length-overwrite pt _ text.text
            (ground (arith, v.within, length-take (value - pt) (drop (pt + gap) text.text))) in
        rw
          (
            b,
            c,
            estr_move_lem text pt (pt + gap) (value - pt) (ground (arith, v.within))
                (ground (arith, v.within)),
          )
          (estr_set_lem (record text { text = t }) (value + gap - back) 0 back (omega (arith, up)))
    | inr c ↦ rw (b, c)
  ]
]
