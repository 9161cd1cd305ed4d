-- ===== src/Buffer/Region.antt =====
-- `buffer_get_region` of src/buffer.c reads the text, whichever side of the gap it lies on.
use xzile.Prelude.{
  ℕ, ◌+◌, ◌-◌, ◌≤◌, ◌<◌, min, max, ◌≡◌, refl, ap, ◌∙◌, inl, inr, Option, some, List, [], ◌++◌,
  append-nil, arith, ltb, if◌then◌else◌, Bool-cases, length, take, drop, length-take, length-drop,
  ext_get, get-append, get-take, get-drop,
}
use xzile.Estr.{Eol, Estr, view, estr_new, estr_cat, estr_resize, size_mod}
use xzile.Estr.Convert.{convert_same}
use xzile.Estr.Cat.{estr_cat_lem}
use xzile.Buffer.{Buffer, bytes, buffer_eol}
use xzile.Buffer.Replace.{Region, region_size, cat_before, cat_behind, buffer_get_region}
use xzile.Buffer.Gap.{HasGap, IsValid, contents, without_gap, get-without_gap, length-without_gap}

-- A string with this text, of this kind, is what a step returns.
abbrev pub Gives : Option Estr → List ℕ → Eol → Type 0
Gives r t e = (es : Estr) × (r ≡ some es) × (es.text ≡ t) × (es.eol ≡ e)

-- Appending a text of the string's own kind.
cat_same :
    (es : Estr) (t : List ℕ) (e : Eol)
    → es.eol ≡ e
    → length es.text + length t < size_mod
    → Gives (estr_cat es (view t e)) (es.text ++ t) e
unfolding estr_resize
cat_same es t e eq h = (
  record (estr_resize es (length es.text + length t)) { text = es.text ++ t },
  rw (← eq) (rw convert_same at (estr_cat_lem es (view t es.eol) (rw convert_same h))),
  refl,
  eq,
)

module _ (t : List ℕ) (pt gap start end : ℕ) where
  abbrev before_gap : List ℕ
  before_gap = if ltb start pt then take (min end pt - start) (drop start t) else []

  abbrev behind_gap : List ℕ
  behind_gap = if ltb pt end then take (end - max start pt) (drop (gap + max start pt) t) else []

  both_parts :
      HasGap t pt gap
      → start ≤ end
      → end + gap ≤ length t
      → before_gap ++ behind_gap ≡ take (end - start) (drop start (without_gap t pt gap))
  both_parts v h b = ext_get _ _ λ i. ground (
    arith,
    v.within,
    get-append before_gap behind_gap i,
    get-take (min end pt - start) (drop start t) i,
    get-drop start t i,
    length-take (min end pt - start) (drop start t),
    length-drop start t,
    get-take (end - max start pt) (drop (gap + max start pt) t) (i - length before_gap),
    get-drop (gap + max start pt) t (i - length before_gap),
    get-take (end - start) (drop start (without_gap t pt gap)) i,
    get-drop start (without_gap t pt gap) i,
    get-without_gap t pt gap (start + i),
  )

module _ (bp : Buffer) (r : Region) (small : length (bytes bp) + length (bytes bp) < size_mod) where
  abbrev t : List ℕ
  t = bytes bp

  before_lem :
      (es : Estr)
      → es.eol ≡ buffer_eol bp
      → es.text ≡ []
      → Gives (cat_before bp r es) (before_gap t bp.pt bp.gap r.start r.end) (buffer_eol bp)
  unfolding cat_before
  before_lem es e n = elim (Bool-cases (ltb r.start bp.pt)) [
    | inl b ↦
        let part = take (min r.end bp.pt - r.start) (drop r.start t) in
        let (es', runs, text, eol) = cat_same es part (buffer_eol bp) e (
          omega (
            arith,
            ap length n,
            length-take (min r.end bp.pt - r.start) (drop r.start t),
            length-drop r.start t,
          )) in
        rw b (es', runs, text ∙ ap (λ a. a ++ part) n, eol)
    | inr b ↦ rw b (es, refl, n, e)
  ]

  behind_lem :
      (es : Estr)
      → es.eol ≡ buffer_eol bp
      → length es.text ≤ length t
      → Gives
          (cat_behind bp r es)
          (es.text ++ behind_gap t bp.pt bp.gap r.start r.end)
          (buffer_eol bp)
  unfolding cat_behind
  behind_lem es e n = elim (Bool-cases (ltb bp.pt r.end)) [
    | inl b ↦
        let from = max r.start bp.pt in
        let part = take (r.end - from) (drop (bp.gap + from) t) in
        let (es', runs, text, eol) = cat_same es part (buffer_eol bp) e (
          omega (
            arith,
            length-take (r.end - from) (drop (bp.gap + from) t),
            length-drop (bp.gap + from) t,
          )) in
        rw b (es', runs, text, eol)
    | inr b ↦ rw (b, append-nil) (es, refl, refl, e)
  ]

  -- In a valid buffer less than half of the address space long, `buffer_get_region` of a region
  -- within the text runs and gives the bytes of the region, whichever side of the gap they lie on,
  -- in the buffer's kind of line ends.
  pub buffer_get_region_lem :
      IsValid bp
      → r.start ≤ r.end
      → r.end ≤ length (contents bp)
      → Gives
          (buffer_get_region bp r)
          (take (region_size r) (drop r.start (contents bp)))
          (buffer_eol bp)
  unfolding buffer_get_region
  buffer_get_region_lem v h b =
      let (es1, runs1, text1, eol1) = before_lem (estr_new (buffer_eol bp)) refl refl in
      let within : r.end + bp.gap ≤ length t =
        omega (arith, v.within, length-without_gap t bp.pt bp.gap v.within, b) in
      let (es2, runs2, text2, eol2) = behind_lem es1 eol1 (
        ground (
          arith,
          ap length text1,
          length-take (min r.end bp.pt - r.start) (drop r.start t),
          length-drop r.start t,
        )) in
      (
        es2,
        rw runs1 runs2,
        text2
            ∙ ap (λ a. a ++ behind_gap t bp.pt bp.gap r.start r.end) text1
            ∙ both_parts t bp.pt bp.gap r.start r.end v h within,
        eol2,
      )
