-- ===== src/Estr/Lines.antt =====
-- What `ev_start_of_line` and `ev_end_of_line` of src/estr.c return.
use xzile.Prelude.{
  ℕ, ◌+◌, ◌-◌, ◌≤◌, ◌<◌, ◌≡◌, refl, ◌⊎◌, inl, inr, Bool, true, false, Option, none, some, List, [],
  ◌∷◌, arith, length, take, drop, length-take, length-drop, drop-drop, slices,
}
use xzile.Bytes.{matches_at, memrmem, xmemmem}
use xzile.Bytes.Find.{
  IsFirst, IsLast, xmemmem-IsFirst, memrmem-IsLast, matches_fits, memrmem-some, is_prefix_ext,
}
use xzile.Estr.{Eol, lf, crlf, cr, eol_bytes, eol_len, EstrView, ev_start_of_line, ev_end_of_line}

-- A line end stands at `j`.
abbrev pub eol_at : EstrView → ℕ → Bool
eol_at ev j = matches_at (eol_bytes ev.eol) ev.text j

pub xmemmem_eol : (e : Eol) (s : List ℕ) → IsFirst (eol_bytes e) s (xmemmem s (eol_bytes e))
xmemmem_eol lf s = xmemmem-IsFirst s 10 []
xmemmem_eol crlf s = xmemmem-IsFirst s 13 (10 ∷ [])
xmemmem_eol cr s = xmemmem-IsFirst s 13 []

pub eol_fits :
    (e : Eol) (s : List ℕ) (j : ℕ) → matches_at (eol_bytes e) s j ≡ true → j + eol_len e ≤ length s
eol_fits lf s j h = matches_fits 10 [] s j h
eol_fits crlf s j h = matches_fits 13 (10 ∷ []) s j h
eol_fits cr s j h = matches_fits 13 [] s j h

pub eol_len_pos : (e : Eol) → 0 < eol_len e
eol_len_pos lf = omega arith
eol_len_pos crlf = omega arith
eol_len_pos cr = omega arith

eol_at-drop :
    (ev : EstrView) (o j : ℕ) → matches_at (eol_bytes ev.eol) (drop o ev.text) j ≡ eol_at ev (o + j)
eol_at-drop ev o j = rw (drop-drop j o ev.text)

eol_at-take :
    (ev : EstrView) (o j : ℕ)
    → j + eol_len ev.eol ≤ o
    → matches_at (eol_bytes ev.eol) (take o ev.text) j ≡ eol_at ev j
eol_at-take ev o j h = is_prefix_ext (eol_bytes ev.eol) _ _ (λ i b. simp slices (ground arith))

-- `eo` is the end of the line that `o` lies in.
pub record IsLineEnd (ev : EstrView) (o eo : ℕ) : Type 0 where
  pub after : o ≤ eo
  pub within : eo ≤ length ev.text
  pub none_between : (j : ℕ) → o ≤ j → j < eo → eol_at ev j ≡ false
  pub at_end : (eo ≡ length ev.text) ⊎ (eol_at ev eo ≡ true)

-- `so` is the start of the line that `o` lies in: behind a line end or at 0, and with no whole line
-- end between it and `o`.
pub record IsLineStart (ev : EstrView) (o so : ℕ) : Type 0 where
  pub before : so ≤ o
  pub none_between : (j : ℕ) → so ≤ j → j + eol_len ev.eol ≤ o → eol_at ev j ≡ false
  pub at_start : (so ≡ 0) ⊎ ((eol_len ev.eol ≤ so) × (eol_at ev (so - eol_len ev.eol) ≡ true))

eol_at_of_drop :
    (ev : EstrView) (o j : ℕ) (b : Bool)
    → o ≤ j
    → matches_at (eol_bytes ev.eol) (drop o ev.text) (j - o) ≡ b
    → eol_at ev j ≡ b
eol_at_of_drop ev o j b h e = let p : o + (j - o) ≡ j = omega arith in rw p at (rw eol_at-drop at e)

module _ (ev : EstrView) (o : ℕ) (h : o ≤ length ev.text) where
  found_end :
      (r : Option ℕ)
      → xmemmem (drop o ev.text) (eol_bytes ev.eol) ≡ r
      → IsFirst (eol_bytes ev.eol) (drop o ev.text) r
      → IsLineEnd ev o (elim r [ none ↦ length ev.text | some next ↦ o + next ])
  found_end none e f = record {
    after = h;
    within = omega arith;
    none_between = λ j a b. eol_at_of_drop ev o j false a (f (j - o));
    at_end = inl refl;
  }
  found_end (some next) e f = record {
    after = omega arith;
    within = omega (arith, eol_fits ev.eol (drop o ev.text) next f.0, length-drop o ev.text);
    none_between = λ j a b. eol_at_of_drop ev o j false a (f.1 (j - o) (omega arith));
    at_end = inr (rw eol_at-drop at f.0);
  }

  -- For an offset in the view or at its end, `ev_end_of_line` returns the first line end from the
  -- offset on, or the end of the view if there is none.
  pub ev_end_of_line-IsLineEnd : IsLineEnd ev o (ev_end_of_line ev o)
  unfolding ev_end_of_line
  ev_end_of_line-IsLineEnd = found_end _ refl (xmemmem_eol ev.eol (drop o ev.text))

  found_start :
      (r : Option ℕ)
      → memrmem (take o ev.text) (eol_bytes ev.eol) ≡ r
      → IsLast (eol_bytes ev.eol) (take o ev.text) r
      → IsLineStart ev o (elim r [ none ↦ 0 | some prev ↦ prev + eol_len ev.eol ])
  found_start none e f = record {
    before = omega arith;
    none_between = λ j a b. rw eol_at-take at (f j (omega (arith, length-take o ev.text)));
    at_start = inl refl;
  }
  found_start (some prev) e f =
      let fits = memrmem-some (take o ev.text) (eol_bytes ev.eol) prev e in
      record {
        before = omega (arith, fits.1, length-take o ev.text);
        none_between = λ j a b.
            rw (eol_at-take ev o j b) at
              (f.1 j (omega (arith, eol_len_pos ev.eol)) (omega (arith, length-take o ev.text)));
        at_start = inr (
          omega arith,
          let back : prev + eol_len ev.eol - eol_len ev.eol ≡ prev = omega arith in
              rw back (rw (eol_at-take ev o prev (omega (arith, length-take o ev.text))) at f.0),
        );
      }

  -- For an offset in the view or at its end, `ev_start_of_line` returns the place behind the last
  -- whole line end before the offset, or 0 if there is none.
  pub ev_start_of_line-IsLineStart : IsLineStart ev o (ev_start_of_line ev o)
  unfolding ev_start_of_line
  ev_start_of_line-IsLineStart =
      found_start _ refl (memrmem-IsLast (take o ev.text) (eol_bytes ev.eol))
