-- ===== src/Buffer/Replace.antt =====
-- Point and gap movement, regions and the replacement of text of src/buffer.c, `undo_save` of
-- src/undo.c, and the regions of src/marker.c. A failed assertion aborts the program: `none`.
use xzile.Prelude.{
  ℕ, ◌+◌, ◌-◌, ◌%◌, min, max, Bool, true, false, ◌&&◌, not, Option, none, some, ◌∷◌, map, ltb, leb,
  ◌==◌, if◌then◌else◌,
}
use xzile.Estr.{
  EstrView, Estr, estr_view, ev_substring, ev_next_line, ev_len_with_eol, estr_new, estr_insert,
  estr_remove, estr_move, estr_set, estr_replace, estr_cat, size_mod, ◌>>=◌,
}
use xzile.Buffer.{
  Display, UndoType, save_block, Buffer, buffer_eol, buffer_line_o, buffer_calculate_goalc,
}
use xzile.Buffer.Index.{invalidate_line_index_at, invalidate_syntax_cache_at}

abbrev pub min_gap : ℕ
min_gap = 1024

abbrev pub max_gap : ℕ
max_gap = 4096

-- `Region`: [start, end)
pub record Region : Type 0 where
  pub start : ℕ
  pub end : ℕ

abbrev pub region_new : ℕ → ℕ → Region
region_new o1 o2 = record { start = min o1 o2; end = max o1 o2 }

abbrev pub region_size : Region → ℕ
region_size r = r.end - r.start

abbrev pub region_contains : Region → ℕ → Bool
region_contains r o = leb r.start o && ltb o r.end

-- The move of the text between point and `value` over the gap.
unfoldable pub move_gap : Estr → ℕ → ℕ → ℕ → Option Estr
move_gap text pt gap value =
    if ltb value pt
    then estr_move text (value + gap) value (pt - value)
      >>= (λ moved. estr_set moved value 0 (min (pt - value) gap))
    else if ltb pt value
    then estr_move text pt (pt + gap) (value - pt)
      >>= (λ moved. estr_set moved (value + gap - min (value - pt) gap) 0 (min (value - pt) gap))
    else some text

module _ (d : Display) where
  unfoldable pub set_pt : Buffer → ℕ → Option Buffer
  set_pt bp value = do
    text ← move_gap bp.text bp.pt bp.gap value
    let bp' = record bp { text = text; pt = value }
    some (record bp' { goalc = some (buffer_calculate_goalc d bp' value) })

  unfoldable pub buffer_goto_offset : Buffer → ℕ → Option Buffer
  buffer_goto_offset bp o = do
    let old_lineo = buffer_line_o bp
    bp' ← set_pt bp o
    some (if buffer_line_o bp' == old_lineo then bp' else record bp' { need_resync = true })

-- The part of a region before point, and the part behind it, appended to `es`.
unfoldable pub cat_before : Buffer → Region → Estr → Option Estr
cat_before bp r es =
    if ltb r.start bp.pt
    then estr_cat es (ev_substring (estr_view bp.text) r.start (min r.end bp.pt - r.start))
    else some es

unfoldable pub cat_behind : Buffer → Region → Estr → Option Estr
cat_behind bp r es =
    let from = max r.start bp.pt in
    if ltb bp.pt r.end
    then estr_cat es (ev_substring (estr_view bp.text) (bp.gap + from) (r.end - from))
    else some es

unfoldable pub buffer_get_region : Buffer → Region → Option Estr
buffer_get_region bp r = do es ← cat_before bp r (estr_new (buffer_eol bp)); cat_behind bp r es

-- `undo_save` of src/undo.c.
unfoldable pub undo_save : Buffer → UndoType → ℕ → ℕ → ℕ → Option Buffer
undo_save bp type o osize size = if bp.noundo then some bp else elim type [
  | save_block ↦ buffer_get_region bp (region_new o (o + osize)) >>= λ text. some (record bp {
    last_undo =
        record {
          type = save_block;
          o = o;
          size = size;
          text = some text;
          unchanged = not bp.modified;
        }
        ∷ bp.last_undo;
  })
  | other ↦ some (record bp {
    last_undo =
        record { type = other; o = o; size = 0; text = none; unchanged = false } ∷ bp.last_undo;
  })
]

-- What the gap adjustment of `buffer_replace_estr` leaves: the text, the gap, and how much of the
-- new gap `estr_insert` gave.
unfoldable pub adjust_gap : Estr → ℕ → ℕ → ℕ → ℕ → Option (Estr × ℕ)
adjust_gap text pt oldgap del newlen =
    if ltb (oldgap + del) newlen
    then estr_insert text pt (newlen + min_gap - (oldgap + del))
      >>= (λ opened. estr_set opened (pt + newlen) 0 min_gap)
      >>= (λ zeroed. some (zeroed, min_gap))
    else if ltb (max_gap + newlen) (oldgap + del)
    then estr_remove text (pt + newlen + max_gap) (oldgap + del - (max_gap + newlen))
      >>= (λ cut. some (cut, max_gap))
    else some (text, oldgap + del - newlen)

-- "Zero any new bit of gap not produced by estr_insert."
unfoldable pub zero_gap : Estr → ℕ → ℕ → ℕ → ℕ → ℕ → Option Estr
zero_gap text pt oldgap del newlen gap =
    let added_gap = if ltb (oldgap + del) newlen then min_gap else 0 in
    if ltb (max oldgap newlen + added_gap) (gap + newlen)
    then estr_set text (pt + max oldgap newlen + added_gap) 0
        (newlen + gap - max oldgap newlen - added_gap)
    else some text

-- `if (m->o > pt) m->o = MAX (pt, m->o + newlen - del);` in `size_t`
unfoldable pub adjust_marker : ℕ → ℕ → ℕ → ℕ → ℕ
adjust_marker pt newlen del m =
    if ltb pt m then max pt ((m + newlen + size_mod - del) % size_mod) else m

module _ (d : Display) where
  -- `buffer_replace_estr` behind its test for a read-only buffer.
  unfoldable pub replace_text : Buffer → ℕ → EstrView → Option Buffer
  replace_text bp del es = do
    let pt = bp.pt
    let bp1 = invalidate_syntax_cache_at (invalidate_line_index_at bp pt) pt
    let bp2 = record bp1 { changes = bp1.changes + 1 }
    let newlen = ev_len_with_eol es (buffer_eol bp)
    bp3 ← (if bp2.noundo then some bp2 else undo_save bp2 save_block pt del newlen)
    adjusted ← adjust_gap bp3.text pt bp3.gap del newlen
    text ← zero_gap adjusted.0 pt bp3.gap del newlen adjusted.1
    let bp4 = record bp3 { text = estr_replace text pt es; pt = pt + newlen; gap = adjusted.1 }
    some (record bp4 {
      goalc = some (buffer_calculate_goalc d bp4 bp4.pt);
      markers = map (adjust_marker pt newlen del) bp4.markers;
      modified = true;
      need_resync = elim (ev_next_line es 0) [ none ↦ bp4.need_resync | some _ ↦ true ];
    })

  -- The buffer, and whether it could be changed.
  unfoldable pub buffer_replace_estr : Buffer → ℕ → EstrView → Option (Buffer × Bool)
  buffer_replace_estr bp del es =
      if bp.readonly then some (bp, false) else replace_text bp del es >>= (λ bp'. some (bp', true))

  abbrev pub buffer_insert_estr : Buffer → EstrView → Option (Buffer × Bool)
  buffer_insert_estr bp es = buffer_replace_estr bp 0 es
