-- ===== src/Buffer/Point.antt =====
-- Moving point: `set_pt` and `buffer_goto_offset` of src/buffer.c.
use xzile.Prelude.{
  ℕ, ◌+◌, ◌≤◌, ◌≡◌, refl, inl, inr, true, some, arith, ◌==◌, if◌then◌else◌, Bool-cases, length,
}
use xzile.Buffer.{Buffer, Display, bytes, buffer_line_o, buffer_calculate_goalc}
use xzile.Buffer.Replace.{set_pt, buffer_goto_offset}
use xzile.Buffer.Gap.{
  contents, IsValid, length-without_gap, moved_to, moved_to-HasGap, without_gap-moved_to,
  move_gap_lem,
}

-- Point is at `o`, and the text is as it was; the gap is as large, and zeroed.
pub record Moved (bp bp' : Buffer) (o : ℕ) : Type 0 where
  pub valid : IsValid bp'
  pub same_text : contents bp' ≡ contents bp
  pub at_o : bp'.pt ≡ o
  pub same_gap : bp'.gap ≡ bp.gap
  pub same_eol : bp'.text.eol ≡ bp.text.eol
  pub same_undo : bp'.last_undo ≡ bp.last_undo
  pub same_next : bp'.next_undo ≡ bp.next_undo
  pub same_markers : bp'.markers ≡ bp.markers
  pub same_modified : bp'.modified ≡ bp.modified
  pub same_readonly : bp'.readonly ≡ bp.readonly
  pub same_noundo : bp'.noundo ≡ bp.noundo

resync-Moved :
    (bp bp' : Buffer) (o : ℕ) → Moved bp bp' o → Moved bp (record bp' { need_resync = true }) o
resync-Moved bp bp' o m = record {
  valid = m.valid;
  same_text = m.same_text;
  at_o = m.at_o;
  same_gap = m.same_gap;
  same_eol = m.same_eol;
  same_undo = m.same_undo;
  same_next = m.same_next;
  same_markers = m.same_markers;
  same_modified = m.same_modified;
  same_readonly = m.same_readonly;
  same_noundo = m.same_noundo;
}

module _ (d : Display) (bp : Buffer) (o : ℕ) where
  abbrev with_pt : Buffer
  with_pt = record bp {
    text = record bp.text { text = moved_to (bytes bp) bp.pt bp.gap o };
    pt = o;
  }

  abbrev pt_set : Buffer
  pt_set = record with_pt { goalc = some (buffer_calculate_goalc d with_pt o) }

  abbrev gone_to : Buffer
  gone_to =
      if buffer_line_o pt_set == buffer_line_o bp
      then pt_set
      else record pt_set { need_resync = true }

  module _ (v : IsValid bp) (h : o ≤ length (contents bp)) where
    room : o + bp.gap ≤ length (bytes bp)
    room = omega (arith, length-without_gap (bytes bp) bp.pt bp.gap v.within)

    pt_set_lem : set_pt d bp o ≡ some pt_set
    unfolding set_pt
    pt_set_lem = rw (move_gap_lem bp.text bp.pt bp.gap o v room)

    pt_set-Moved : Moved bp pt_set o
    pt_set-Moved = record {
      valid = moved_to-HasGap (bytes bp) bp.pt bp.gap o v room;
      same_text = without_gap-moved_to (bytes bp) bp.pt bp.gap o v room;
      at_o = refl;
      same_gap = refl;
      same_eol = refl;
      same_undo = refl;
      same_next = refl;
      same_markers = refl;
      same_modified = refl;
      same_readonly = refl;
      same_noundo = refl;
    }

    -- `set_pt` runs, its assertions included, and moves point to any place in the text or its end.
    pub set_pt-Moved : (bp' : Buffer) × (set_pt d bp o ≡ some bp') × Moved bp bp' o
    set_pt-Moved = (pt_set, pt_set_lem, pt_set-Moved)

    gone_to-Moved : Moved bp gone_to o
    gone_to-Moved = elim (Bool-cases (buffer_line_o pt_set == buffer_line_o bp)) [
      | inl e ↦ rw e pt_set-Moved
      | inr e ↦ rw e (resync-Moved bp pt_set o pt_set-Moved)
    ]

    -- In a valid buffer `buffer_goto_offset` runs, its assertions included, for every place in the
    -- text or at its end. Point is there, the text is the same, and the gap, as large as before, is
    -- zeroed at its new place.
    pub buffer_goto_offset-Moved :
        (bp' : Buffer) × (buffer_goto_offset d bp o ≡ some bp') × Moved bp bp' o
    unfolding buffer_goto_offset
    buffer_goto_offset-Moved = (gone_to, rw pt_set_lem, gone_to-Moved)
