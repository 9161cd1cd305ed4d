-- ===== src/VTerm.antt =====
-- The terminal emulator of src/vterm.c: the cells of its two screens, the cursor, the scrolling
-- region and the scrollback. Its `int` fields are never negative, so they are natural numbers; a
-- colour is `none` for VCOLOR_DEFAULT. `screen` is the one of the two that `on_screen` says, which
-- is `on_alt` but while lines are deleted. The scrollback ring is the list of its lines, the oldest
-- first.
use xzile.Prelude.{
  ℕ, zero, suc, ◌+◌, ◌-◌, ◌*◌, ◌/◌, ◌%◌, ◌^◌, ◌≤◌, ◌<◌, min, max, ◌≡◌, refl, sym, ap, ap₂, ◌∙◌,
  fun_ext, ◌≢◌, ◌↔◌, ◌⊎◌, inl, inr, Bool, true, false, ◌&&◌, ◌||◌, not, Option, none, some, List,
  [], ◌∷◌, ◌++◌, map, append-nil, append_assoc, arith, ltb, leb, ◌==◌, if◌then◌else◌, ltb→lt,
  lt→ltb, leb→le, ==_iff, tests, Bool-cases, Option-cases, length, get_elem?, set, get_or, take,
  drop, replicate, length-append, length-set, length-take, length-drop, length-replicate,
  length-map, take-append-drop, ext_get, get-append, get-take, get-drop, get-replicate, get-ge,
  drop-nil, drop-drop, drop-cons_pos, drop-ge, take-ge, slices, lengths,
}
pub mod Bounds
pub mod Put
pub mod Reach
pub mod Dispatch
pub mod Cursor
pub mod Modes
pub mod Sgr
pub mod Feed
pub mod Resize
mod Tests

pub record VAttr : Type 0 where
  pub fg : Option ℕ
  pub bg : Option ℕ
  pub flags : ℕ

pub record VCell : Type 0 where
  pub cp : ℕ
  pub width : ℕ
  pub attr : VAttr

pub record SavedCursor : Type 0 where
  pub x : ℕ
  pub y : ℕ
  pub attr : VAttr
  pub origin : Bool
  pub wrap_pending : Bool
  pub graphics : Bool

pub record VTerm : Type 0 where
  pub rows : ℕ
  pub cols : ℕ
  pub main : List VCell
  pub alt : List VCell
  pub on_screen : Bool
  pub on_alt : Bool
  pub cx : ℕ
  pub cy : ℕ
  pub wrap_pending : Bool
  pub attr : VAttr
  pub top : ℕ
  pub bot : ℕ
  pub origin : Bool
  pub autowrap : Bool
  pub insert : Bool
  pub tabs : List Bool
  pub g0_graphics : Bool
  pub g1_graphics : Bool
  pub shift_out : Bool
  pub saved_main : SavedCursor
  pub saved_alt : SavedCursor
  pub last_char : ℕ
  pub sb : List (List VCell)
  pub scrolled : ℕ

abbrev pub default_vattr : VAttr
default_vattr = record { fg = none; bg = none; flags = 0 }

abbrev pub screen : VTerm → List VCell
screen t = if t.on_screen then t.alt else t.main

unfoldable pub with_screen : VTerm → List VCell → VTerm
with_screen t cells = if t.on_screen then record t { alt = cells } else record t { main = cells }

-- The index of a cell on the screen.
abbrev pub cell : VTerm → ℕ → ℕ → ℕ
cell t y x = y * t.cols + x

-- Cells written from index `i` on. Behind the end, where no call writes, nothing is written.
unfoldable pub write_cells : List VCell → ℕ → List VCell → List VCell
write_cells cells i [] = cells
write_cells cells i (c ∷ cs) = write_cells (set cells i c) (i + 1) cs

-- memmove of `n` cells.
unfoldable pub move_cells : List VCell → ℕ → ℕ → ℕ → List VCell
move_cells cells dest src n = write_cells cells dest (take n (drop src cells))

abbrev pub blank : Option ℕ → VCell
blank bg = record { cp = 32; width = 1; attr = record { fg = none; bg = bg; flags = 0 } }

unfoldable pub blank_cells : VTerm → ℕ → ℕ → VTerm
blank_cells t i n = with_screen t (write_cells (screen t) i (replicate n (blank t.attr.bg)))

abbrev pub width_at : VTerm → ℕ → ℕ
width_at t i = (get_or (screen t) i (blank none)).width

-- Half a wide character that an erasure leaves before or behind it.
unfoldable pub erase_left : VTerm → ℕ → ℕ → VTerm
erase_left t y x0 =
    if ltb 0 x0 && ltb x0 t.cols && width_at t (cell t y (x0 - 1)) == 2
    then blank_cells t (cell t y (x0 - 1)) 1
    else t

unfoldable pub erase_right : VTerm → ℕ → ℕ → VTerm
erase_right t y x1 =
    if ltb x1 t.cols && width_at t (cell t y x1) == 0 then blank_cells t (cell t y x1) 1 else t

unfoldable pub erase : VTerm → ℕ → ℕ → ℕ → VTerm
erase t y x0 x1 =
    let end = min x1 t.cols in
    let erased = if ltb x0 end then blank_cells t (cell t y x0) (end - x0) else t in
    if leb t.rows y then t else erase_right (erase_left erased y x0) y end

-- The loop of `push_scrollback`: the length of a line without blanks at its end. VATTR_REVERSE is
-- bit 4.
unfoldable pub used_len : List VCell → ℕ → ℕ
used_len line zero = 0
used_len line (suc n) =
    let c = get_or line n (blank none) in
    let fewer = used_len line n in
    if c.cp == 32
      && (elim c.attr.bg [ none ↦ true | some bg ↦ false ])
      && not (c.attr.flags / 16 % 2 == 1)
    then fewer
    else suc n

abbrev pub scrollback_lines : ℕ
scrollback_lines = 5000

unfoldable pub push_scrollback : VTerm → List VCell → VTerm
push_scrollback t line =
    let kept = if ltb (length t.sb) scrollback_lines then t.sb else drop 1 t.sb in
    let sl = take (used_len line t.cols) line in
    record t { sb = kept ++ sl ∷ []; scrolled = t.scrolled + 1 }

-- The first `n` lines of the screen, from `i` on.
unfoldable pub push_lines : VTerm → ℕ → ℕ → VTerm
push_lines t i zero = t
push_lines t i (suc n) =
    push_lines (push_scrollback t (take t.cols (drop (cell t i 0) (screen t)))) (i + 1) n

-- `n` blank lines from `y` on.
unfoldable pub blank_lines : VTerm → ℕ → ℕ → VTerm
blank_lines t y zero = t
blank_lines t y (suc n) = blank_lines (blank_cells t (cell t y 0) t.cols) (y + 1) n

unfoldable pub scroll_up : VTerm → ℕ → ℕ → ℕ → VTerm
scroll_up t top bot count =
    let n = min count (bot - top + 1) in
    let pushed = if top == 0 && not t.on_alt then push_lines t 0 n else t in
    let cells =
      move_cells (screen pushed) (cell t top 0) (cell t (top + n) 0)
        ((bot - top + 1 - n) * t.cols) in
    if count == 0 || ltb bot top then t else blank_lines (with_screen pushed cells) (bot + 1 - n) n

unfoldable pub scroll_down : VTerm → ℕ → ℕ → ℕ → VTerm
scroll_down t top bot count =
    let n = min count (bot - top + 1) in
    let cells =
      move_cells (screen t) (cell t (top + n) 0) (cell t top 0) ((bot - top + 1 - n) * t.cols) in
    if count == 0 || ltb bot top then t else blank_lines (with_screen t cells) top n

-- The tab stops of `reset_tabs`, from column `x` on.
unfoldable pub tabs_from : ℕ → ℕ → List Bool
tabs_from x zero = []
tabs_from x (suc n) = (ltb 0 x && x % 8 == 0) ∷ tabs_from (x + 1) n

unfoldable pub reset_tabs : VTerm → VTerm
reset_tabs t = record t { tabs = tabs_from 0 t.cols }

unfoldable pub index_line : VTerm → VTerm
index_line t =
    if t.cy == t.bot
    then scroll_up t t.top t.bot 1
    else if ltb (t.cy + 1) t.rows
    then record t { cy = t.cy + 1 }
    else t

unfoldable pub reverse_index : VTerm → VTerm
reverse_index t =
    if t.cy == t.top
    then scroll_down t t.top t.bot 1
    else if ltb 0 t.cy
    then record t { cy = t.cy - 1 }
    else t

-- `` ` `` to `~`
abbrev pub graphics_map : List ℕ
graphics_map =
    0x25C6 ∷ 0x2592 ∷ 0x2409 ∷ 0x240C ∷ 0x240D ∷ 0x240A ∷ 0x00B0 ∷ 0x00B1 ∷ 0x2424 ∷ 0x240B ∷ 0x2518
    ∷ 0x2510 ∷ 0x250C ∷ 0x2514 ∷ 0x253C ∷ 0x23BA ∷ 0x23BB ∷ 0x2500 ∷ 0x23BC ∷ 0x23BD ∷ 0x251C
    ∷ 0x2524 ∷ 0x2534 ∷ 0x252C ∷ 0x2502 ∷ 0x2264 ∷ 0x2265 ∷ 0x03C0 ∷ 0x2260 ∷ 0x00A3 ∷ 0x00B7 ∷ []

unfoldable pub dec_graphics : ℕ → ℕ
dec_graphics c = if leb 96 c && leb c 126 then get_or graphics_map (c - 96) 0 else c

unfoldable pub move_to : VTerm → ℕ → ℕ → VTerm
move_to t y x =
    let top = if t.origin then t.top else 0 in
    let bot = if t.origin then t.bot else t.rows - 1 in
    record t { cy = min (y + top) bot; cx = min x (t.cols - 1); wrap_pending = false }

unfoldable pub save_cursor : VTerm → VTerm
save_cursor t =
    let s : SavedCursor = record {
      x = t.cx;
      y = t.cy;
      attr = t.attr;
      origin = t.origin;
      wrap_pending = t.wrap_pending;
      graphics = t.g0_graphics;
    } in
    if t.on_alt then record t { saved_alt = s } else record t { saved_main = s }

unfoldable pub restore_cursor : VTerm → VTerm
restore_cursor t =
    let s = if t.on_alt then t.saved_alt else t.saved_main in
    record t {
      cx = min s.x (t.cols - 1);
      cy = min s.y (t.rows - 1);
      attr = s.attr;
      origin = s.origin;
      wrap_pending = s.wrap_pending;
      g0_graphics = s.graphics;
    }

unfoldable pub set_alt_screen : VTerm → Bool → Bool → VTerm
set_alt_screen t on clear =
    let t' = record t { on_alt = on; on_screen = on; wrap_pending = false } in
    let cells = write_cells t.alt 0 (replicate (t.rows * t.cols) (blank none)) in
    if (if on then t.on_alt else not t.on_alt)
    then t
    else if on && clear
    then record t' { alt = cells }
    else t'
