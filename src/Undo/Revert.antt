-- ===== src/Undo/Revert.antt =====
-- Undo of src/undo.c takes an edit of src/buffer.c back.
use xzile.Prelude.{
  ℕ, ◌+◌, ◌-◌, ◌≤◌, ◌<◌, ◌≡◌, refl, sym, ap, ap₂, ◌∙◌, inl, inr, Bool, false, not, some, List, ◌∷◌,
  ◌++◌, arith, if◌then◌else◌, Bool-cases, length, take, drop, length-append, length-take,
  length-drop, ext_get, get-append, get-take, get-drop,
}
use xzile.Estr.{Estr, estr_view, size_mod}
use xzile.Estr.Convert.{convert, convert_same}
use xzile.Buffer.{Display, Buffer, Undo, save_block, bytes, buffer_eol}
use xzile.Buffer.Replace.{min_gap}
use xzile.Buffer.Gap.{IsValid, contents, length-without_gap}
use xzile.Buffer.Point.{Moved, buffer_goto_offset-Moved}
use xzile.Buffer.Edit.{Replaced, buffer_replace_estr_lem}
use xzile.Undo.{revert_entry}

-- Small enough that `size_t` holds all the sums, when `n` bytes are added.
abbrev pub Fits : Buffer → ℕ → Type 0
Fits bp n =
    (length (bytes bp) + length (bytes bp) < size_mod)
    × (length (bytes bp) + n + min_gap < size_mod)

-- Replacing the new text by the old one in its place gives the old text.
pub splice_back :
    (c new : List ℕ) (pt del : ℕ)
    → pt + del ≤ length c
    → take pt (take pt c ++ (new ++ drop (pt + del) c))
        ++ (take del (drop pt c)
            ++ drop (pt + length new) (take pt c ++ (new ++ drop (pt + del) c)))
      ≡ c
splice_back c new pt del h =
    let c' = take pt c ++ (new ++ drop (pt + del) c) in
    ext_get _ _ λ i. ground (
      arith,
      get-append (take pt c') (take del (drop pt c) ++ drop (pt + length new) c') i,
      get-append (take del (drop pt c)) (drop (pt + length new) c') (i - pt),
      get-take pt c' i,
      get-take del (drop pt c) (i - pt),
      get-drop pt c (i - pt),
      get-drop (pt + length new) c' (i - pt - del),
      get-append (take pt c) (new ++ drop (pt + del) c) i,
      get-append (take pt c) (new ++ drop (pt + del) c) (pt + length new + (i - pt - del)),
      get-append new (drop (pt + del) c) (length new + (i - pt - del)),
      get-take pt c i,
      get-drop (pt + del) c (i - pt - del),
      length-take pt c,
      length-take pt c',
      length-take del (drop pt c),
      length-drop pt c,
      length-append (take pt c) (new ++ drop (pt + del) c),
    )

abbrev pub saved_block : ℕ → ℕ → Estr → Bool → Undo
saved_block o size es unchanged = record {
  type = save_block;
  o = o;
  size = size;
  text = some es;
  unchanged = unchanged;
}

-- One delta is put before the others, for a block of `newsize` bytes in place of the `size` there.
abbrev pub OneMore : Buffer → Buffer → ℕ → ℕ → ℕ → Type 0
OneMore bp bp' o size newsize =
    (t : Estr) × (u : Bool) × (bp'.last_undo ≡ saved_block o newsize t u ∷ bp.last_undo)
    × (t.text ≡ take size (drop o (contents bp)))

-- The buffer after the entry for a block is reverted.
pub record Reverted (bp bp' : Buffer) (o size : ℕ) (old : List ℕ) (unchanged : Bool) : Type 0 where
  pub valid : IsValid bp'
  pub text : contents bp' ≡ take o (contents bp) ++ (old ++ drop (o + size) (contents bp))
  pub at_end : bp'.pt ≡ o + length old
  pub same_eol : buffer_eol bp' ≡ buffer_eol bp
  pub is_modified : bp'.modified ≡ not unchanged
  pub same_readonly : bp'.readonly ≡ bp.readonly
  pub same_noundo : bp'.noundo ≡ bp.noundo
  pub undo : bp.noundo ≡ false → OneMore bp bp' o size (length old)

splice_ap :
    (size : ℕ) {o o' : ℕ} {c c' new new' : List ℕ}
    → o ≡ o'
    → c ≡ c'
    → new ≡ new'
    → take o c ++ (new ++ drop (o + size) c) ≡ take o' c' ++ (new' ++ drop (o' + size) c')
splice_ap size a b e = rw (a, b, e) refl

-- The delta of a replacement at a point gone to.
added :
    (bp bp1 bp2 : Buffer) (o size : ℕ) (new old : List ℕ)
    → Moved bp bp1 o
    → Replaced bp1 bp2 size new
    → new ≡ old
    → bp.noundo ≡ false
    → OneMore bp bp2 o size (length old)
added bp bp1 bp2 o size new old m r e n = elim r.undo [
  | inl (off, _) ↦ absurd (ground (arith, m.same_noundo))
  | inr (_, (t, us, text, _)) ↦ (
    t,
    not bp1.modified,
    us
        ∙ ap₂ (λ l ls. l ∷ ls) (ap₂ (λ a n. saved_block a (length n) t (not bp1.modified)) m.at_o e)
            m.same_undo,
    text ∙ ap₂ (λ a c. take size (drop a c)) m.at_o m.same_text,
  )
]

module _ (d : Display) (bp : Buffer) (o size : ℕ) (es : Estr) (unchanged : Bool) where
  after_replace :
      (bp1 bp2 : Buffer) (new : List ℕ)
      → Moved bp bp1 o
      → Replaced bp1 bp2 size new
      → new ≡ es.text
      → Reverted bp
          (if unchanged then record bp2 { modified = false } else bp2)
          o
          size
          es.text
          unchanged
  after_replace bp1 bp2 new m r e =
      let text = r.text ∙ splice_ap size m.at_o m.same_text e in
      let at_end = r.at_end ∙ ap₂ (λ a n. a + length n) m.at_o e in
      elim (Bool-cases unchanged) [
        | inl u ↦ rw u (record {
          valid = r.valid;
          text = text;
          at_end = at_end;
          same_eol = r.same_eol ∙ m.same_eol;
          is_modified = refl;
          same_readonly = r.same_readonly ∙ m.same_readonly;
          same_noundo = r.same_noundo ∙ m.same_noundo;
          undo = added bp bp1 bp2 o size new es.text m r e;
        })
        | inr u ↦ rw u (record {
          valid = r.valid;
          text = text;
          at_end = at_end;
          same_eol = r.same_eol ∙ m.same_eol;
          is_modified = r.is_modified;
          same_readonly = r.same_readonly ∙ m.same_readonly;
          same_noundo = r.same_noundo ∙ m.same_noundo;
          undo = added bp bp1 bp2 o size new es.text m r e;
        })
      ]

  -- In a valid buffer that is not read-only, reverting the delta of a block within the text runs:
  -- the block is replaced by the saved text, point is behind it, the buffer is valid, and the
  -- modified flag is cleared exactly if the delta says that the buffer was unchanged; with undo on,
  -- one delta is put before the others, which has the text of the block. The saved text has the
  -- buffer's kind of line ends, and the sums stay within `size_t`.
  pub revert_entry-Reverted :
      IsValid bp
      → bp.readonly ≡ false
      → o + size ≤ length (contents bp)
      → es.eol ≡ buffer_eol bp
      → Fits bp (length es.text)
      → (bp' : Buffer) × (revert_entry d bp (saved_block o size es unchanged) ≡ some bp')
        × Reverted bp bp' o size es.text unchanged
  unfolding revert_entry
  revert_entry-Reverted v w h e fits =
      let (bp1, goes, m) = buffer_goto_offset-Moved d bp o v (omega arith) in
      let same : length (bytes bp1) ≡ length (bytes bp) = omega (
        arith,
        length-without_gap (bytes bp) bp.pt bp.gap v.within,
        length-without_gap (bytes bp1) bp1.pt bp1.gap m.valid.within,
        m.same_gap,
        ap length m.same_text,
      ) in
      let new : convert es.eol (buffer_eol bp1) 0 es.text ≡ es.text =
        ap (λ k. convert es.eol k 0 es.text) (m.same_eol ∙ sym e) ∙ convert_same es.eol es.text in
      elim (buffer_replace_estr_lem d bp1 size (estr_view es) m.valid
        (omega (arith, m.at_o, ap length m.same_text)) (omega (arith, same))
        (omega (arith, same, ap length new))) [
          | inl (r, _) ↦ absurd (ground (arith, m.same_readonly))
          | inr (r, (bp2, runs, replaced)) ↦ (
            if unchanged then record bp2 { modified = false } else bp2,
            simp (goes, runs),
            after_replace bp1 bp2 _ m replaced new,
          )
        ]
