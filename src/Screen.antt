-- ===== src/Screen.antt =====
-- The grid of cells of src/screen.c, which both front ends show. `scr_rows`, `scr_cols`,
-- `scr_cells`, `scr_y`, `scr_x` and `cur_attr` are the record `Screen`; a cell's string is the list
-- of its bytes, and a colour is `none` where the source has TERM_COLOR_DEFAULT.
use xzile.Prelude.{
  ℕ, zero, suc, ◌+◌, ◌-◌, ◌*◌, ◌/◌, ◌%◌, ◌^◌, ◌≤◌, ◌<◌, min, max, ◌≡◌, refl, sym, ap, ap₂, ◌∙◌,
  fun_ext, ◌≢◌, ◌↔◌, ◌⊎◌, inl, inr, Bool, true, false, ◌&&◌, ◌||◌, not, Option, none, some, List,
  [], ◌∷◌, ◌++◌, map, append-nil, append_assoc, arith, ltb, leb, ◌==◌, if◌then◌else◌, ltb→lt,
  lt→ltb, leb→le, ==_iff, tests, Bool-cases, Option-cases, length, get_elem?, set, get_or, take,
  drop, replicate, length-append, length-set, length-take, length-drop, length-replicate,
  length-map, take-append-drop, ext_get, get-append, get-take, get-drop, get-replicate, get-ge,
  drop-nil, drop-drop, drop-cons_pos, drop-ge, take-ge, slices, lengths,
}
pub mod Cursor
pub mod Tabs
pub mod Cells
pub mod Draw
mod Tests
use Prim.Native.Nat.{bit_or}
use xzile.Utf8.{replacement, utf8_decode}

pub record Attr : Type 0 where
  pub fg : Option ℕ
  pub bg : Option ℕ
  pub flags : ℕ

pub record Cell : Type 0 where
  pub ch : List ℕ
  pub attr : Attr

pub record Screen : Type 0 where
  pub rows : ℕ
  pub cols : ℕ
  pub cells : List Cell
  pub y : ℕ
  pub x : ℕ
  pub cur_attr : Attr

-- n - 1 in `size_t`.
unfoldable pub less_one : ℕ → ℕ
less_one n = (n + (2 ^ 64 - 1)) % 2 ^ 64

abbrev pub default_attr : Attr
default_attr = record { fg = none; bg = none; flags = 0 }

abbrev pub screen_blank_cell : Cell
screen_blank_cell = record { ch = 0x20 ∷ []; attr = default_attr }

unfoldable pub screen_resize : Screen → ℕ → ℕ → Screen
screen_resize s rows cols = record s {
  rows = rows;
  cols = cols;
  cells = replicate (rows * cols) screen_blank_cell;
  y = min s.y (less_one rows);
  x = min s.x (less_one cols);
}

unfoldable pub term_move : Screen → ℕ → ℕ → Screen
term_move s y x = record s { y = min y (less_one s.rows); x = min x (less_one s.cols) }

-- The index of the cell under the cursor.
abbrev pub here : Screen → ℕ
here s = s.y * s.cols + s.x

-- The cursor after a character of `width` columns.
unfoldable pub advance : Screen → ℕ → Screen
advance s width =
    let x = s.x + width in
    if ltb x s.cols
    then record s { x = x }
    else if ltb (s.y + 1) s.rows
    then record s { x = 0; y = s.y + 1 }
    else record s { x = s.cols - 1 }

-- `put_cell` where the character fits.
unfoldable pub put_fitting : Screen → List ℕ → ℕ → Screen
put_fitting s bytes width =
    let c : Cell = record { ch = take 15 bytes; attr = s.cur_attr } in
    let one = set s.cells (here s) c in
    let right : Cell = record { ch = []; attr = s.cur_attr } in
    let cells = if width == 2 then set one (here s + 1) right else one in
    advance (record s { cells = cells }) width

-- The call of itself is for one column, so it is the part above.
unfoldable pub put_cell : Screen → List ℕ → ℕ → Screen
put_cell s bytes width =
    if width == 2 && leb s.cols (s.x + 1)
    then put_fitting s (0x20 ∷ []) 1
    else put_fitting s bytes width

abbrev pub cell_at : Screen → ℕ → Cell
cell_at s i = get_or s.cells i screen_blank_cell

unfoldable pub put_combining : Screen → List ℕ → Screen
put_combining s bytes =
    let before = here s - 1 in
    let i = if length (cell_at s before).ch == 0 && leb 2 s.x then before - 1 else before in
    let c = cell_at s i in
    if s.x == 0
    then s
    else if ltb (length c.ch + length bytes) 16
    then record s { cells = set s.cells i (record c { ch = c.ch ++ bytes }) }
    else s

-- `n` blank cells from index `i` on.
unfoldable pub clear_cells : List Cell → ℕ → ℕ → List Cell
clear_cells cells i zero = cells
clear_cells cells i (suc n) = clear_cells (set cells i screen_blank_cell) (i + 1) n

unfoldable pub term_clrtoeol : Screen → Screen
term_clrtoeol s = record s { cells = clear_cells s.cells (here s) (s.cols - s.x) }

unfoldable pub put_newline : Screen → Screen
put_newline s =
    let c = term_clrtoeol s in if ltb (s.y + 1) s.rows then record c { y = s.y + 1; x = 0 } else c

-- The loop over the spaces of a tab, in at most `fuel` rounds.
unfoldable pub put_tab : ℕ → Screen → Option Screen
put_tab zero s = none
put_tab (suc fuel) s =
    let s' = put_cell s (0x20 ∷ []) 1 in
    elim (not (s'.x % 8 == 0) && not (s'.x == 0)) [ true ↦ put_tab fuel s' | false ↦ some s' ]

-- The loop over the bytes of a short string that are drawn one by one.
unfoldable pub put_cells : Screen → List ℕ → Screen
put_cells s [] = s
put_cells s (b ∷ bs) = put_cells (put_cell s (b ∷ []) 1) bs

-- "\\%o", of a code point from 0x80 to 0x9F.
unfoldable pub octal : ℕ → List ℕ
octal cp = 92 ∷ (48 + cp / 64) ∷ (48 + cp / 8 % 8) ∷ (48 + cp % 8) ∷ []

module _ (wcwidth : ℕ → Option ℕ) where
  unfoldable pub put_wide : Screen → List ℕ → ℕ → Screen
  put_wide s bytes cp = elim (wcwidth cp) [
    | none ↦ put_cell s bytes 1
    | some w ↦ if w == 0 then put_combining s bytes else put_cell s bytes (if ltb 1 w then 2 else 1)
  ]

  -- A character from byte 0x80 on, at `i`.
  unfoldable pub put_utf8 : Screen → List ℕ → ℕ → Screen
  put_utf8 s bytes i =
      let (cp, char_len) = utf8_decode bytes i in
      if cp == replacement && char_len == 1
      then put_cell s (63 ∷ []) 1
      else if ltb cp 0xA0
      then put_cells s (octal cp)
      else put_wide s (take char_len (drop i bytes)) cp

  -- What is drawn for the byte at `i`, or for the character that it starts. More rounds than eight
  -- make no difference to a tab.
  unfoldable pub put_at : Screen → List ℕ → ℕ → Option Screen
  put_at s bytes i =
      let b = get_or bytes i 0 in
      if b == 10
      then some (put_newline s)
      else if b == 9
      then put_tab 8 s
      else if ltb b 0x20 || b == 0x7F
      then some (put_cells s (94 ∷ (if b == 0x7F then 63 else b + 64) ∷ []))
      else if ltb b 0x80
      then some (put_cell s (b ∷ []) 1)
      else some (put_utf8 s bytes i)

  -- By how much `i` grows.
  unfoldable pub step_at : List ℕ → ℕ → ℕ
  step_at bytes i = if ltb (get_or bytes i 0) 0x80 then 1 else (utf8_decode bytes i).1

  -- The loop of `term_addnstr`.
  unfoldable pub draw_from : ℕ → Screen → List ℕ → ℕ → Option Screen
  draw_from zero s bytes i = some s
  draw_from (suc fuel) s bytes i = elim (ltb i (length bytes)) [
    | false ↦ some s
    | true ↦ elim (put_at s bytes i) [
      | none ↦ none
      | some s' ↦ draw_from fuel s' bytes (i + step_at bytes i)
    ]
  ]

  -- Each round takes a byte at least.
  unfoldable pub term_addnstr : Screen → List ℕ → Option Screen
  term_addnstr s bytes = draw_from (length bytes) s bytes 0

unfoldable pub put_spaces : ℕ → Screen → Screen
put_spaces zero s = s
put_spaces (suc n) s = put_spaces n (put_cell s (0x20 ∷ []) 1)

unfoldable pub term_add_picture : Screen → ℕ → Screen
term_add_picture s n =
    let picture : Attr = record { fg = none; bg = none; flags = 64 } in
    record (put_spaces n (record s { cur_attr = picture })) { cur_attr = s.cur_attr }

unfoldable pub term_attrset : Screen → ℕ → Screen
term_attrset s attr =
    let reversed = if attr % 2 == 1 then 4 else 0 in
    let underlined = if attr / 2 % 2 == 1 then bit_or reversed 2 else reversed in
    record s { cur_attr = record { fg = none; bg = none; flags = underlined } }
