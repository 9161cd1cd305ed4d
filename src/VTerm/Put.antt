-- ===== src/VTerm/Put.antt =====
-- `put_char` of src/vterm.c, stage by stage.
use xzile.Prelude.{
  ℕ, ◌+◌, ◌-◌, false, ◌&&◌, Option, none, some, [], ◌∷◌, ltb, leb, ◌==◌, if◌then◌else◌,
}
use xzile.VTerm.{
  VCell, VTerm, screen, with_screen, cell, write_cells, move_cells, blank_cells, width_at,
  index_line, dec_graphics,
}

-- The start of the next line, where the last character has left the cursor in the last column.
unfoldable pub wrap_line : VTerm → VTerm
wrap_line t =
    let wrapped = index_line (record t { cx = 0 }) in
    record (if t.wrap_pending && t.autowrap then wrapped else t) { wrap_pending = false }

-- A wide character in the last column, and the width it is given.
unfoldable pub fit_wide : VTerm → ℕ → VTerm × ℕ
fit_wide t w =
    let blanked = blank_cells t (cell t t.cy t.cx) 1 in
    if w == 2 && t.cx == t.cols - 1
    then (if t.autowrap then (index_line (record blanked { cx = 0 }), 2) else (t, 1))
    else (t, w)

unfoldable pub insert_room : VTerm → ℕ → VTerm
insert_room t w =
    let n = t.cols - t.cx - w in
    let cells = move_cells (screen t) (cell t t.cy (t.cx + w)) (cell t t.cy t.cx) n in
    if t.insert && ltb 0 n then with_screen t cells else t

unfoldable pub clear_left_half : VTerm → VTerm
clear_left_half t =
    let i = cell t t.cy t.cx in
    if width_at t i == 0 && ltb 0 t.cx then blank_cells t (i - 1) 1 else t

unfoldable pub clear_right_half : VTerm → ℕ → VTerm
clear_right_half t w =
    let i = cell t t.cy t.cx in
    if width_at t (i + w - 1) == 2 && ltb (t.cx + w) t.cols then blank_cells t (i + w) 1 else t

unfoldable pub write_char : VTerm → ℕ → ℕ → VTerm
write_char t c w =
    let left : VCell = record { cp = c; width = w; attr = t.attr } in
    let right : VCell = record { cp = 0; width = 0; attr = t.attr } in
    record (with_screen t
      (write_cells (screen t) (cell t t.cy t.cx) (left ∷ (if w == 2 then right ∷ [] else [])))) {
        last_char = c;
      }

unfoldable pub pass_char : VTerm → ℕ → VTerm
pass_char t w =
    if leb t.cols (t.cx + w)
    then record t { cx = t.cols - 1; wrap_pending = t.autowrap }
    else record t { cx = t.cx + w }

-- The rest of `put_char`, for a character of one or two columns.
unfoldable pub put_columns : VTerm → ℕ → ℕ → VTerm
put_columns t c columns =
    let (fitted, w0) = fit_wide (wrap_line t) columns in
    let w = if w0 == 2 && ltb t.cols 2 then 1 else w0 in
    let cleared = clear_right_half (clear_left_half (insert_room fitted w)) w in
    pass_char (write_char cleared c w) w

-- `wcwidth` is the C library's: the columns of a code point, or none (-1).
unfoldable pub put_char : (ℕ → Option ℕ) → VTerm → ℕ → VTerm
put_char wcwidth t ch =
    let graphics = if t.shift_out then t.g1_graphics else t.g0_graphics in
    let c = if graphics && ltb ch 0x80 then dec_graphics ch else ch in
    elim (wcwidth c) [
      | none ↦ put_columns t c 1
      | some w ↦ if w == 0 then t else put_columns t c (if ltb 1 w then 2 else 1)
    ]
