-- ===== src/Undo/Command.antt =====
-- A command that edits, between the calls of src/undo.c that make its sequence, and its undoing.
use xzile.Prelude.{
  if_false, ℕ, suc, ◌+◌, ◌-◌, ◌*◌, ◌≤◌, ◌<◌, ◌≡◌, refl, sym, ap, ap₂, ◌∙◌, inl, inr, Bool, true,
  false, not, Option, none, some, List, ◌∷◌, ◌++◌, arith, ◌==◌, length, take, drop, length-append,
  length-take, length-drop,
}
use xzile.Estr.{EstrView, Estr, size_mod, ◌>>=◌}
use xzile.Estr.Convert.{convert}
use xzile.Buffer.{
  Display, Buffer, Undo, UndoType, start_sequence, end_sequence, save_block, bytes, buffer_eol,
}
use xzile.Buffer.Replace.{min_gap, buffer_replace_estr, undo_save}
use xzile.Buffer.Gap.{IsValid, contents, length-without_gap}
use xzile.Buffer.Point.{Moved, buffer_goto_offset-Moved}
use xzile.Buffer.Edit.{Replaced, Saved, delta, buffer_replace_estr_lem}
use xzile.Undo.{
  revert_entry, revert_until, revert_action, undo, undo_start_sequence, undo_end_sequence,
  close_sequence,
}
use xzile.Undo.Revert.{Fits, saved_block, revert_entry-Reverted, splice_back}

abbrev bare_entry : UndoType → ℕ → Undo
bare_entry t o = record { type = t; o = o; size = 0; text = none; unchanged = false }

not-not : (b : Bool) → not (not b) ≡ b
not-not true = refl
not-not false = refl

-- The entries that the next `undo` starts from.
abbrev pub to_undo : Buffer → List Undo
to_undo bp = drop (length bp.last_undo - bp.next_undo) bp.last_undo

four_left :
    (bp : Buffer) (l1 l2 l3 l4 : Undo) (rest : List Undo)
    → bp.next_undo ≡ length rest
    → bp.last_undo ≡ l1 ∷ l2 ∷ l3 ∷ l4 ∷ rest
    → to_undo bp ≡ rest
four_left bp l1 l2 l3 l4 rest n e =
    let four : length bp.last_undo - bp.next_undo ≡ 4 = omega (arith, n, ap length e) in
    ap₂ (λ k ls. drop k ls) four e

module _ (d : Display) where
  -- A command that replaces text, as `execute_with_uniarg` of src/bind.c runs one.
  abbrev pub edit : Buffer → ℕ → EstrView → Option Buffer
  edit bp del es =
      undo_start_sequence bp
      >>= (λ b0. buffer_replace_estr d b0 del es)
      >>= (λ r. undo_end_sequence r.0 false)

  sequence_lem :
      (k o size : ℕ) (t : Estr) (unchanged : Bool) (start : ℕ) (rest : List Undo)
      (b b' b'' : Buffer)
      → revert_entry d b (saved_block o size t unchanged) ≡ some b'
      → revert_entry d b' (bare_entry start_sequence start) ≡ some b''
      → revert_action d (suc (suc k)) b (
          bare_entry end_sequence 0
          ∷ saved_block o size t unchanged
          ∷ bare_entry start_sequence start
          ∷ rest)
        ≡ some (b'', rest)
  unfolding revert_action revert_until
  sequence_lem k o size t unchanged start rest b b' b'' e f = simp (e, f)

  revert_start :
      (bp : Buffer) (o : ℕ)
      → IsValid bp
      → o ≤ length (contents bp)
      → (bp' : Buffer) × (revert_entry d bp (bare_entry start_sequence o) ≡ some bp')
        × Moved bp bp' o
  unfolding revert_entry
  revert_start bp o v h =
      let (bp', goes, m) = buffer_goto_offset-Moved d bp o v h in (bp', simp goes, m)

  module _ (bp : Buffer) (del : ℕ) (es : EstrView) where
    abbrev new_text : List ℕ
    new_text = convert es.eol (buffer_eol bp) 0 es.text

    abbrev b0 : Buffer
    b0 = record bp { last_undo = bare_entry start_sequence bp.pt ∷ bp.last_undo }

    abbrev closed : Buffer → Buffer
    closed b1 = record b1 {
      last_undo = bare_entry end_sequence 0 ∷ b1.last_undo;
      next_undo = suc (length b1.last_undo);
    }

    abbrev reverted_to : Buffer × List Undo → Option (Buffer × Bool)
    reverted_to r = some (record r.0 { next_undo = length r.1 }, true)

    starts : bp.noundo ≡ false → undo_start_sequence bp ≡ some b0
    unfolding undo_start_sequence undo_save
    starts n = if_false bp.noundo _ _ n

    ends :
        (b1 : Buffer) (u : Undo) (us : List Undo)
        → b1.noundo ≡ false
        → b1.last_undo ≡ u ∷ us
        → u.type ≡ save_block
        → undo_end_sequence b1 false ≡ some (closed b1)
    unfolding undo_end_sequence close_sequence undo_save
    ends b1 u us n e t = simp (e, t, n)

    undoes :
        (b1 b3 : Buffer) (rest : List Undo)
        → b1.noundo ≡ false
        → b1.readonly ≡ false
        → revert_action d
            (suc (suc (length b1.last_undo)))
            (closed b1)
            (bare_entry end_sequence 0 ∷ b1.last_undo)
          ≡ some (b3, rest)
        → undo d (closed b1) ≡ some (record b3 { next_undo = length rest }, true)
    unfolding undo
    undoes b1 b3 rest n w e =
        let k = length b1.last_undo in
        let top : suc k - suc k ≡ 0 = omega arith in
        let some_left : (suc k == 0) ≡ false = ground arith in
        if_false b1.noundo _ _ n
        ∙ (if_false b1.readonly _ _ w
            ∙ (if_false (suc k == 0) _ _ some_left
                ∙ (ap
                      (λ i.
                        revert_action d (suc (suc k)) (closed b1) (drop i (closed b1).last_undo)
                        >>= reverted_to)
                      top
                    ∙ ap (λ r. r >>= reverted_to) e)))

    -- The buffer after the undo of a command.
    pub record Undone (b3 : Buffer) : Type 0 where
      pub valid : IsValid b3
      pub text : contents b3 ≡ contents bp
      pub at_start : b3.pt ≡ bp.pt
      pub is_modified : b3.modified ≡ bp.modified

    -- With undo on, the edit saved a delta.
    saved_on :
        {us : List Undo}
        → Saved b0 del (length new_text) us
        → bp.noundo ≡ false
        → (t : Estr) × (us ≡ delta b0 (length new_text) t ∷ b0.last_undo)
          × (t.text ≡ take del (drop bp.pt (contents bp)))
          × (t.eol ≡ buffer_eol bp)
    saved_on (inl (off, e)) n = absurd (ground arith)
    saved_on (inr (on, s)) n = s

    module _ (v : IsValid bp) (h : bp.pt + del ≤ length (contents bp))
        (small : 4 * (length (bytes bp) + length new_text + min_gap) < size_mod) (b1 : Buffer)
        (r : Replaced b0 b1 del new_text) (w1 : b1.readonly ≡ false) where
      abbrev b2 : Buffer
      b2 = closed b1

      block-Fits :
          (t : Estr)
          → t.text ≡ take del (drop bp.pt (contents bp))
          → (bp.pt + length new_text ≤ length (contents b2)) × Fits b2 (length t.text)
      block-Fits t saved =
          let c = contents bp in
          (
            omega (
              arith,
              ap length r.text,
              length-append (take bp.pt c) (new_text ++ drop (bp.pt + del) c),
              length-append new_text (drop (bp.pt + del) c),
              length-take bp.pt c,
            ),
            (
              omega (arith, r.bounded),
              omega (
                arith,
                r.bounded,
                ap length saved,
                length-take del (drop bp.pt c),
                length-drop bp.pt c,
                length-without_gap (bytes bp) bp.pt bp.gap v.within,
              ),
            ),
          )

      -- The sequence's block is replaced by the text saved, and point goes to where it started.
      reverts :
          (t : Estr)
          → b1.last_undo ≡ delta b0 (length new_text) t ∷ b0.last_undo
          → t.text ≡ take del (drop bp.pt (contents bp))
          → t.eol ≡ buffer_eol bp
          → b1.noundo ≡ false
          → (bb : Buffer) × (revert_action d
                (suc (suc (length b1.last_undo)))
                b2
                (bare_entry end_sequence 0 ∷ b1.last_undo)
              ≡ some (bb, bp.last_undo))
            × Undone bb
            × ((l : Undo) × (bb.last_undo ≡ l ∷ b2.last_undo))
      reverts t us saved eol n1 =
          let (within, fits) = block-Fits t saved in
          let (ba, reverts, rev) =
            revert_entry-Reverted d b2 bp.pt (length new_text) t (not bp.modified) r.valid w1 within
              (eol ∙ sym r.same_eol) fits in
          let back : contents ba ≡ contents bp =
            rev.text
            ∙ (ap₂ (λ c old. take bp.pt c ++ (old ++ drop (bp.pt + length new_text) c)) r.text saved
                ∙ splice_back (contents bp) new_text bp.pt del h) in
          let (bb, starts_back, m) =
            revert_start ba bp.pt rev.valid (omega (arith, h, ap length back)) in
          let fuel = length b1.last_undo in
          let (t2, u2, more, _) = rev.undo n1 in
          (
            bb,
            ap (λ l. revert_action d (suc (suc fuel)) b2 (bare_entry end_sequence 0 ∷ l)) us
                ∙ sequence_lem fuel bp.pt (length new_text) t (not bp.modified) bp.pt bp.last_undo
                    b2 ba bb reverts starts_back,
            record {
              valid = m.valid;
              text = m.same_text ∙ back;
              at_start = m.at_o;
              is_modified = m.same_modified ∙ (rev.is_modified ∙ not-not bp.modified);
            },
            (saved_block bp.pt (length t.text) t2 u2, m.same_undo ∙ more),
          )

    -- In a valid buffer that is neither read-only nor without undo, a command that replaces `del`
    -- bytes within the text, between `undo_start_sequence` and `undo_end_sequence`, and the undo
    -- after it both run. The undo gives back the text, point and the modified flag of before the
    -- command, in a valid buffer; it keeps all deltas, puts one more before them, and the next undo
    -- goes on with just those of before the command. The condition on the sizes keeps all sums
    -- within `size_t`.
    pub undo-edit :
        IsValid bp
        → bp.readonly ≡ false
        → bp.noundo ≡ false
        → bp.pt + del ≤ length (contents bp)
        → 4 * (length (bytes bp) + length new_text + min_gap) < size_mod
        → (b2 : Buffer) × (edit bp del es ≡ some b2)
          × ((b3 : Buffer) × (undo d b2 ≡ some (b3, true))
              × Undone b3
              × ((l : Undo) × (b3.last_undo ≡ l ∷ b2.last_undo))
              × (to_undo b3 ≡ bp.last_undo))
    undo-edit v w n h small =
        elim (buffer_replace_estr_lem d b0 del es v h (omega arith) (omega arith)) [
          | inl (r, _) ↦ absurd (ground arith)
          | inr (_, (b1, runs, r)) ↦
              let (t, us, saved, eol) = saved_on r.undo n in
              let n1 = r.same_noundo ∙ n in
              let w1 = r.same_readonly ∙ w in
              let (bb, seq, undone, (l, more)) = reverts v h small b1 r w1 t us saved eol n1 in
              let b3 = record bb { next_undo = length bp.last_undo } in
              (
                closed b1,
                simp (
                  starts n,
                  runs,
                  ends b1 (delta b0 (length new_text) t) b0.last_undo n1 us refl,
                ),
                (
                  b3,
                  undoes b1 bb bp.last_undo n1 w1 seq,
                  record {
                    valid = undone.valid;
                    text = undone.text;
                    at_start = undone.at_start;
                    is_modified = undone.is_modified;
                  },
                  (l, more),
                  four_left b3 l (bare_entry end_sequence 0) (delta b0 (length new_text) t)
                      (bare_entry start_sequence bp.pt) bp.last_undo refl
                      (more ∙ ap (λ ls. l ∷ bare_entry end_sequence 0 ∷ ls) us),
                ),
              )
        ]
