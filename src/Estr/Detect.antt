-- ===== src/Estr/Detect.antt =====
-- `estr_set_eol_from_text` of src/estr.c: which kind of line end a text is taken to have.
use xzile.Prelude.{
  ℕ, zero, suc, ◌+◌, ◌-◌, ◌≤◌, ◌≡◌, refl, inl, inr, true, false, none, some, List, [], ◌∷◌, arith,
  Bool, ◌==◌, if◌then◌else◌, Option-cases, length, take, drop,
}
use xzile.Estr.{
  Eol, lf, crlf, cr, eol_len, same_eol, Estr, line_end, detect, estr_set_eol_from_text,
}

-- The line ends of a text, in order, by the byte before: LF alone, CR alone, and LF directly behind
-- CR, which makes one line end of the two. `after_cr` is whether a CR was just read.
unfoldable pub line_ends_after : Bool → List ℕ → List Eol
line_ends_after true [] = cr ∷ []
line_ends_after false [] = []
line_ends_after true (c ∷ s) =
    let after_lf = crlf ∷ line_ends_after false s in
    let after_other = cr ∷ line_ends_after false s in
    let next_cr = cr ∷ line_ends_after true s in
    if c == 10 then after_lf else if c == 13 then next_cr else after_other
line_ends_after false (c ∷ s) =
    let after_lf = lf ∷ line_ends_after false s in
    let after_other = line_ends_after false s in
    let next_cr = line_ends_after true s in
    if c == 10 then after_lf else if c == 13 then next_cr else after_other

abbrev pub line_ends : List ℕ → List Eol
line_ends s = line_ends_after false s

-- The kinds as the code finds them, with fuel.
unfoldable found : ℕ → List ℕ → List Eol
unfolding line_end
found zero s = []
found (suc fuel) [] = []
found (suc fuel) (c ∷ s) = elim (line_end c s) [
  | none ↦ found fuel s
  | some e ↦ e ∷ found fuel (drop (eol_len e - 1) s)
]

found-line_ends : (fuel : ℕ) (s : List ℕ) → length s ≤ fuel → found fuel s ≡ line_ends s
unfolding found line_end line_ends_after
found-line_ends zero [] h = refl
found-line_ends zero (c ∷ s) h = absurd (omega (arith, h))
found-line_ends (suc fuel) [] h = refl
found-line_ends (suc fuel) (c ∷ []) h = ground (arith, found-line_ends fuel [])
found-line_ends (suc fuel) (c ∷ d ∷ s) h =
    ground (arith, found-line_ends fuel s, found-line_ends fuel (d ∷ s))

-- `e`, if all of the kinds are `e`; otherwise LF.
unfoldable pub agreed : Eol → List Eol → Eol
agreed e [] = e
agreed lf (lf ∷ ds) = agreed lf ds
agreed crlf (crlf ∷ ds) = agreed crlf ds
agreed cr (cr ∷ ds) = agreed cr ds
agreed _ (_ ∷ ds) = lf

agreed-cons :
    (e d : Eol) (ds : List Eol) → agreed e (d ∷ ds) ≡ (if same_eol e d then agreed e ds else lf)
unfolding agreed
agreed-cons lf lf ds = refl
agreed-cons lf crlf ds = refl
agreed-cons lf cr ds = refl
agreed-cons crlf lf ds = refl
agreed-cons crlf crlf ds = refl
agreed-cons crlf cr ds = refl
agreed-cons cr lf ds = refl
agreed-cons cr crlf ds = refl
agreed-cons cr cr ds = refl

-- What the first kinds of a text decide.
unfoldable pub decide_eol : List Eol → Eol
unfolding agreed
decide_eol [] = lf
decide_eol (e ∷ es) = agreed e es

-- After the first line end, the rest of the three decide by agreeing with it.
detect_rest :
    (fuel : ℕ) (s : List ℕ) (total k : ℕ) (e : Eol)
    → total + k ≡ 3
    → detect fuel s total false e ≡ agreed e (take k (found fuel s))
unfolding detect found agreed
detect_rest zero s total zero e h = refl
detect_rest zero s total (suc k) e h = refl
detect_rest (suc fuel) [] total zero e h = refl
detect_rest (suc fuel) [] total (suc k) e h = refl
detect_rest (suc fuel) (c ∷ s) total zero e h = ground arith
detect_rest (suc fuel) (c ∷ s) total (suc k) e h = elim (Option-cases (line_end c s)) [
  | inl n ↦ ground (arith, detect_rest fuel s total (suc k) e h)
  | inr (d, n) ↦
      let more = found fuel (drop (eol_len d - 1) s) in
      ground (
        arith,
        agreed-cons e d (take k more),
        detect_rest fuel (drop (eol_len d - 1) s) (total + 1) k e (omega arith),
      )
]

detect_first :
    (fuel : ℕ) (s : List ℕ) → detect fuel s 0 true lf ≡ decide_eol (take 3 (found fuel s))
unfolding detect found decide_eol
detect_first zero s = refl
detect_first (suc fuel) [] = refl
detect_first (suc fuel) (c ∷ s) = elim (Option-cases (line_end c s)) [
  | inl n ↦ ground (arith, detect_first fuel s)
  | inr (d, n) ↦ ground (arith, detect_rest fuel (drop (eol_len d - 1) s) (0 + 1) 2 d (omega arith))
]

-- `estr_set_eol_from_text` decides by the first three line ends of the text, or all if they are
-- fewer: their kind if they agree, LF if they differ or there is none. A line end is LF, CR, or the
-- two bytes CR LF. Nothing but the kind of line ends changes.
pub estr_set_eol_from_text_lem :
    (es : Estr)
    → estr_set_eol_from_text es ≡ record es { eol = decide_eol (take 3 (line_ends es.text)) }
unfolding estr_set_eol_from_text
estr_set_eol_from_text_lem es =
    rw (
      detect_first (length es.text) es.text,
      found-line_ends (length es.text) es.text (omega arith),
    )
