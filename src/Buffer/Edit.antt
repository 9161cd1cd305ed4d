-- ===== src/Buffer/Edit.antt =====
-- `buffer_replace_estr` of src/buffer.c as a whole: what it does to the text that the buffer stands
-- for, to point and the gap, and the delta that it saves for undo.
use xzile.Prelude.{
  if_true, ℕ, ◌+◌, ◌-◌, ◌≤◌, ◌<◌, min, max, ◌≡◌, refl, ap, ap₂, ◌∙◌, ◌⊎◌, inl, inr, Bool, true,
  false, not, none, some, List, ◌∷◌, ◌++◌, map, arith, ltb, if◌then◌else◌, Bool-cases, length, take,
  drop,
}
use xzile.Bytes.{overwrite}
use xzile.Bytes.Writes.{length-overwrite}
use xzile.Estr.{Eol, EstrView, Estr, size_mod, ev_next_line, estr_replace}
use xzile.Estr.Convert.{convert, ev_len_with_eol_lem, estr_replace_lem}
use xzile.Buffer.{
  Display, Undo, save_block, Buffer, LineIndex, SyntaxCache, bytes, buffer_eol,
  buffer_calculate_goalc, buffer_start_of_line,
}
use xzile.Buffer.Index.{
  invalidate_line_index_at, invalidate_syntax_cache_at, buffer_offset_to_line,
  find_line_checkpoint_index, ensure_line_index_to_offset,
}
use xzile.Buffer.Replace.{
  min_gap, region_new, undo_save, adjust_marker, replace_text, buffer_replace_estr,
}
use xzile.Buffer.Gap.{IsValid, contents, length-without_gap}
use xzile.Buffer.Region.{buffer_get_region_lem}
use xzile.Buffer.Room.{overwrite-HasGap, without_gap-overwrite}
use xzile.Buffer.Opening.{make_room}

abbrev with_caches : LineIndex → SyntaxCache → Buffer → Buffer
with_caches i s bp = record bp { index = i; syntax = s }

-- Nothing but the caches differs.
abbrev Cached : Buffer → Buffer → Type 0
Cached bp bp' = (i : LineIndex) × (s : SyntaxCache) × (bp' ≡ with_caches i s bp)

pick_cache :
    (bp : Buffer) (i : LineIndex) (s : SyntaxCache) (cached stale : Bool)
    → Cached bp (
        if not cached
        then bp
        else if stale
        then record bp { index = i; syntax = s }
        else record bp { index = i })
pick_cache bp i s false stale = (bp.index, bp.syntax, refl)
pick_cache bp i s true true = (i, s, refl)
pick_cache bp i s true false = (i, bp.syntax, refl)

syntax-Cached : (bp : Buffer) (o : ℕ) → Cached bp (invalidate_syntax_cache_at bp o)
unfolding invalidate_syntax_cache_at buffer_offset_to_line find_line_checkpoint_index
    ensure_line_index_to_offset
syntax-Cached bp o =
    let (line_idx, bp') = buffer_offset_to_line bp o in
    pick_cache bp bp'.index
      (record bp'.syntax { valid_upto = line_idx; valid_offset = buffer_start_of_line bp' o })
      bp.syntax.cached (ltb line_idx bp'.syntax.valid_upto)

line_at :
    (bp : Buffer) (o : ℕ)
    → invalidate_line_index_at bp o ≡ record bp { index = (invalidate_line_index_at bp o).index }
unfolding invalidate_line_index_at buffer_offset_to_line find_line_checkpoint_index
    ensure_line_index_to_offset
line_at bp o = refl

invalidate-Cached :
    (bp : Buffer) (o : ℕ) → Cached bp (invalidate_syntax_cache_at (invalidate_line_index_at bp o) o)
invalidate-Cached bp o =
    let (j, s, syn) = syntax-Cached (invalidate_line_index_at bp o) o in
    (j, s, syn ∙ ap (with_caches j s) (line_at bp o))

-- The delta of an edit: where, how long the new text is, the text replaced, and whether the buffer
-- was unmodified.
abbrev pub delta : Buffer → ℕ → Estr → Undo
delta bp newlen es = record {
  type = save_block;
  o = bp.pt;
  size = newlen;
  text = some es;
  unchanged = not bp.modified;
}

-- The deltas after an edit: one more, unless the buffer has none.
abbrev pub Saved : Buffer → ℕ → ℕ → List Undo → Type 0
Saved bp del newlen us =
    (bp.noundo ≡ true × us ≡ bp.last_undo)
    ⊎ (bp.noundo ≡ false
        × ((es : Estr) × (us ≡ delta bp newlen es ∷ bp.last_undo)
            × (es.text ≡ take del (drop bp.pt (contents bp)))
            × (es.eol ≡ buffer_eol bp)))

saves :
    (bp : Buffer) (del newlen : ℕ)
    → IsValid bp
    → bp.pt + del ≤ length (contents bp)
    → length (bytes bp) + length (bytes bp) < size_mod
    → (us : List Undo) × ((if bp.noundo then some bp else undo_save bp save_block bp.pt del newlen)
        ≡ some (record bp { last_undo = us }))
      × Saved bp del newlen us
unfolding undo_save
saves bp del newlen v h small = elim (Bool-cases bp.noundo) [
  | inl n ↦ (bp.last_undo, if_true bp.noundo _ _ n, inl (n, refl))
  | inr n ↦
      let (es, gives, text, eol) =
        buffer_get_region_lem bp (region_new bp.pt (bp.pt + del)) small v (ground arith)
          (ground arith) in
      let from : min bp.pt (bp.pt + del) ≡ bp.pt = ground arith in
      let size : max bp.pt (bp.pt + del) - min bp.pt (bp.pt + del) ≡ del = ground arith in
      (
        delta bp newlen es ∷ bp.last_undo,
        simp (n, gives),
        inr (n, (es, refl, text ∙ ap₂ (λ n a. take n (drop a (contents bp))) size from, eol)),
      )
]

-- The new text in a string whose kind of line ends is known.
replaces :
    (t : Estr) (pos : ℕ) (src : EstrView) (e : Eol)
    → t.eol ≡ e
    → pos + length (convert src.eol e 0 src.text) ≤ length t.text
    → estr_replace t pos src
      ≡ record t { text = overwrite pos (convert src.eol e 0 src.text) t.text }
replaces t pos src e eq h = rw (← eq) (estr_replace_lem t pos src (rw (← eq) at h))

-- The buffer after an edit: the text with `new` in place of the `del` bytes behind point, point
-- behind it, and the rest.
pub record Replaced (bp bp' : Buffer) (del : ℕ) (new : List ℕ) : Type 0 where
  pub valid : IsValid bp'
  pub text : contents bp' ≡ take bp.pt (contents bp) ++ (new ++ drop (bp.pt + del) (contents bp))
  pub at_end : bp'.pt ≡ bp.pt + length new
  pub bounded : length (bytes bp') ≤ length (bytes bp) + length new + min_gap
  pub same_eol : buffer_eol bp' ≡ buffer_eol bp
  pub undo : Saved bp del (length new) bp'.last_undo
  pub same_next : bp'.next_undo ≡ bp.next_undo
  pub adjusted : bp'.markers ≡ map (adjust_marker bp.pt (length new) del) bp.markers
  pub is_modified : bp'.modified ≡ true
  pub counted : bp'.changes ≡ bp.changes + 1
  pub same_readonly : bp'.readonly ≡ bp.readonly
  pub same_noundo : bp'.noundo ≡ bp.noundo

module _ (d : Display) (bp : Buffer) (del : ℕ) (es : EstrView) where
  abbrev new_text : List ℕ
  new_text = convert es.eol (buffer_eol bp) 0 es.text

  -- The buffer with its new text, before the columns, the markers and the flags are set.
  abbrev with_new : LineIndex → SyntaxCache → List Undo → Estr → ℕ → Buffer
  with_new i s us t gap' = record bp {
    index = i;
    syntax = s;
    changes = bp.changes + 1;
    last_undo = us;
    text = record t { text = overwrite bp.pt new_text t.text };
    pt = bp.pt + length new_text;
    gap = gap';
  }

  abbrev finished : Buffer → Buffer
  finished bp4 = record bp4 {
    goalc = some (buffer_calculate_goalc d bp4 bp4.pt);
    markers = map (adjust_marker bp.pt (length new_text) del) bp4.markers;
    modified = true;
    need_resync = elim (ev_next_line es 0) [ none ↦ bp4.need_resync | some _ ↦ true ];
  }

  module _ (v : IsValid bp) (h : bp.pt + del ≤ length (contents bp))
      (small : length (bytes bp) + length (bytes bp) < size_mod)
      (fits : length (bytes bp) + length new_text + min_gap < size_mod) where
    replace_text-Replaced :
        (bp' : Buffer) × (replace_text d bp del es ≡ some bp') × Replaced bp bp' del new_text
    unfolding replace_text
    replace_text-Replaced =
        let (i, s, caches) = invalidate-Cached bp bp.pt in
        let within : bp.pt + bp.gap + del ≤ length (bytes bp) =
          omega (arith, v.within, length-without_gap (bytes bp) bp.pt bp.gap v.within) in
        let m = make_room bp.text bp.pt bp.gap del (length new_text) v within fits in
        let (us, saved, undo) =
          saves (with_caches i s (record bp { changes = bp.changes + 1 })) del (length new_text) v h
            small in
        (
          finished (with_new i s us m.text' m.gap'),
          simp (
            caches,
            ev_len_with_eol_lem es (buffer_eol bp) (omega arith),
            saved,
            m.adjusts,
            m.zeroes,
            replaces m.text' bp.pt es (buffer_eol bp) m.same_eol
                (omega (arith, m.room.len, within)),
          ),
          record {
            valid =
                overwrite-HasGap (bytes bp) m.text'.text new_text bp.pt bp.gap del m.gap' v within
                  m.room;
            text =
                without_gap-overwrite (bytes bp) m.text'.text new_text bp.pt bp.gap del m.gap' v
                  within m.room;
            at_end = refl;
            bounded =
                omega (arith, m.bounded, m.room.len, length-overwrite bp.pt new_text m.text'.text);
            same_eol = m.same_eol;
            undo = undo;
            same_next = refl;
            adjusted = refl;
            is_modified = refl;
            counted = refl;
            same_readonly = refl;
            same_noundo = refl;
          },
        )

    -- In a valid buffer, with `del` bytes behind point and all sums within `size_t`,
    -- `buffer_replace_estr` runs, its assertions included. It leaves a read-only buffer alone and
    -- says so. In any other the bytes are replaced by the new text in the buffer's kind of line
    -- ends, and `Replaced` holds: the buffer is valid, point is behind the new text, the markers
    -- are adjusted, and a delta with the old text is saved unless the buffer has no undo.
    pub buffer_replace_estr_lem :
        (bp.readonly ≡ true × buffer_replace_estr d bp del es ≡ some (bp, false))
        ⊎ (bp.readonly ≡ false
            × ((bp' : Buffer) × (buffer_replace_estr d bp del es ≡ some (bp', true))
                × Replaced bp bp' del new_text))
    unfolding buffer_replace_estr
    buffer_replace_estr_lem = elim (Bool-cases bp.readonly) [
      | inl r ↦ inl (r, if_true bp.readonly _ _ r)
      | inr r ↦
          let (bp', runs, replaced) = replace_text-Replaced in
          inr (r, (bp', simp (r, runs), replaced))
    ]
