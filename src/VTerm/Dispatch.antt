-- ===== src/VTerm/Dispatch.antt =====
-- The control characters and sequences of src/vterm.c that move the cursor, scroll or change cells.
-- A switch is a table of its cases. Graphic renditions, modes and replies are in `VTerm/Sgr` and
-- `VTerm/Modes`.
use xzile.Prelude.{
  ℕ, zero, suc, ◌+◌, ◌-◌, ◌*◌, ◌/◌, ◌%◌, ◌^◌, ◌≤◌, ◌<◌, min, max, ◌≡◌, refl, sym, ap, ap₂, ◌∙◌,
  fun_ext, ◌≢◌, ◌↔◌, ◌⊎◌, inl, inr, Bool, true, false, ◌&&◌, ◌||◌, not, Option, none, some, List,
  [], ◌∷◌, ◌++◌, map, append-nil, append_assoc, arith, ltb, leb, ◌==◌, if◌then◌else◌, ltb→lt,
  lt→ltb, leb→le, ==_iff, tests, Bool-cases, Option-cases, length, get_elem?, set, get_or, take,
  drop, replicate, length-append, length-set, length-take, length-drop, length-replicate,
  length-map, take-append-drop, ext_get, get-append, get-take, get-drop, get-replicate, get-ge,
  drop-nil, drop-drop, drop-cons_pos, drop-ge, take-ge, slices, lengths,
}
use xzile.VTerm.{
  VTerm, VCell, SavedCursor, default_vattr, screen, with_screen, cell, move_cells, blank_cells,
  erase, scroll_up, scroll_down, reset_tabs, index_line, reverse_index, move_to, save_cursor,
  restore_cursor,
}
use xzile.VTerm.Put.{put_char}
pub mod Cases
pub mod Safe

-- `param`, with `param0` as its case for 0; only the parameters that there are are in the list.
unfoldable pub param : List ℕ → ℕ → ℕ → ℕ
param params i def = let p = get_or params i 0 in if ltb 0 p then p else def

abbrev pub cursor_at : VTerm → ℕ → ℕ → VTerm
cursor_at t y x = record t { cy = y; cx = x; wrap_pending = false }

-- The loop of CHT over the columns behind `x`.
unfoldable pub next_tab : ℕ → VTerm → ℕ → ℕ
next_tab zero t x = x
next_tab (suc fuel) t x =
    let further = next_tab fuel t (x + 1) in
    if ltb (x + 1) (t.cols - 1) && not (get_or t.tabs (x + 1) false) then further else x + 1

-- The loop of CBT over the columns before.
unfoldable pub prev_tab : VTerm → ℕ → ℕ
prev_tab t zero = 0
prev_tab t (suc x) =
    let further = prev_tab t x in if ltb 0 x && not (get_or t.tabs x false) then further else x

unfoldable pub tabs_right : ℕ → VTerm → VTerm
tabs_right zero t = t
tabs_right (suc n) t = tabs_right n (record t { cx = min (next_tab t.cols t t.cx) (t.cols - 1) })

unfoldable pub tabs_left : ℕ → VTerm → VTerm
tabs_left zero t = t
tabs_left (suc n) t = tabs_left n (record t { cx = prev_tab t t.cx })

-- `n` whole lines from `y` on.
unfoldable pub erase_lines : VTerm → ℕ → ℕ → VTerm
erase_lines t y zero = t
erase_lines t y (suc n) = erase_lines (erase t y 0 t.cols) (y + 1) n

unfoldable pub erase_display : VTerm → ℕ → VTerm
erase_display t how =
    if how == 0
    then erase_lines (erase t t.cy t.cx t.cols) (t.cy + 1) (t.rows - (t.cy + 1))
    else if how == 1
    then erase (erase_lines t 0 t.cy) t.cy 0 (t.cx + 1)
    else if how == 2
    then erase_lines t 0 t.rows
    else if how == 3
    then record t { sb = [] }
    else t

unfoldable pub erase_line : VTerm → ℕ → VTerm
erase_line t how =
    if how == 0
    then erase t t.cy t.cx t.cols
    else if how == 1
    then erase t t.cy 0 (t.cx + 1)
    else if how == 2
    then erase t t.cy 0 t.cols
    else t

abbrev pub in_region : VTerm → Bool
in_region t = leb t.top t.cy && leb t.cy t.bot

unfoldable pub insert_lines : VTerm → ℕ → VTerm
insert_lines t n = if in_region t then record (scroll_down t t.cy t.bot n) { cx = 0 } else t

-- Deleted lines do not go to the scrollback.
unfoldable pub delete_lines : VTerm → ℕ → VTerm
delete_lines t n =
    if in_region t
    then record (scroll_up (record t { on_alt = true }) t.cy t.bot n) { on_alt = t.on_alt; cx = 0 }
    else t

unfoldable pub insert_chars : VTerm → ℕ → VTerm
insert_chars t count =
    let n = min count (t.cols - t.cx) in
    let cells =
      move_cells (screen t) (cell t t.cy (t.cx + n)) (cell t t.cy t.cx) (t.cols - t.cx - n) in
    blank_cells (with_screen t cells) (cell t t.cy t.cx) n

unfoldable pub delete_chars : VTerm → ℕ → VTerm
delete_chars t count =
    let n = min count (t.cols - t.cx) in
    let cells =
      move_cells (screen t) (cell t t.cy t.cx) (cell t t.cy (t.cx + n)) (t.cols - t.cx - n) in
    blank_cells (with_screen t cells) (cell t t.cy (t.cols - n)) n

unfoldable pub clear_tabs : VTerm → ℕ → VTerm
clear_tabs t how =
    if how == 0
    then record t { tabs = set t.tabs t.cx false }
    else if how == 3
    then record t { tabs = replicate t.cols false }
    else t

unfoldable pub set_region : VTerm → ℕ → ℕ → VTerm
set_region t top bottom =
    let bot = min bottom (t.rows - 1) in
    if ltb top bot then move_to (record t { top = top; bot = bot }) 0 0 else t

-- `wrap_pending` cleared at the end of a case.
abbrev pub settled : VTerm → VTerm
settled t = record t { wrap_pending = false }

module _ (wcwidth : ℕ → Option ℕ) where
  unfoldable pub repeat_char : ℕ → VTerm → VTerm
  repeat_char zero t = t
  repeat_char (suc n) t = repeat_char n (put_char wcwidth t t.last_char)

  -- The cases of `csi_dispatch` that concern the screen, for the parameters `ps`. `plain` is whether
  -- there is no private mark; lines scroll only then.
  unfoldable pub csi_cases : Bool → List ℕ → VTerm → List (ℕ × VTerm)
  csi_cases plain ps t =
      let n = param ps 0 1 in
      (64, settled (insert_chars t n))
      ∷ (65, cursor_at t (max (t.cy - n) (if leb t.top t.cy then t.top else 0)) t.cx)
      ∷ (66, cursor_at t (min (t.cy + n) (if leb t.cy t.bot then t.bot else t.rows - 1)) t.cx)
      ∷ (101, cursor_at t (min (t.cy + n) (if leb t.cy t.bot then t.bot else t.rows - 1)) t.cx)
      ∷ (67, cursor_at t t.cy (min (t.cx + n) (t.cols - 1)))
      ∷ (97, cursor_at t t.cy (min (t.cx + n) (t.cols - 1)))
      ∷ (68, cursor_at t t.cy (t.cx - n))
      ∷ (69, cursor_at t (min (t.cy + n) t.bot) 0)
      ∷ (70, cursor_at t (max (t.cy - n) t.top) 0)
      ∷ (71, cursor_at t t.cy (min (n - 1) (t.cols - 1)))
      ∷ (96, cursor_at t t.cy (min (n - 1) (t.cols - 1)))
      ∷ (72, move_to t (n - 1) (param ps 1 1 - 1))
      ∷ (102, move_to t (n - 1) (param ps 1 1 - 1))
      ∷ (73, settled (tabs_right n t))
      ∷ (74, settled (erase_display t (param ps 0 0)))
      ∷ (75, settled (erase_line t (param ps 0 0)))
      ∷ (76, settled (insert_lines t n))
      ∷ (77, settled (delete_lines t n))
      ∷ (80, settled (delete_chars t n))
      ∷ (83, if plain then scroll_up t t.top t.bot n else t)
      ∷ (84, if plain && leb (length ps) 1 then scroll_down t t.top t.bot n else t)
      ∷ (88, settled (erase t t.cy t.cx (t.cx + n)))
      ∷ (90, settled (tabs_left n t))
      ∷ (98, if t.last_char == 0 then t else repeat_char (min n 65535) t)
      ∷ (100, move_to t (n - 1) t.cx)
      ∷ (103, clear_tabs t (param ps 0 0))
      ∷ (114, set_region t (n - 1) (param ps 1 t.rows - 1))
      ∷ (115, save_cursor t)
      ∷ (117, restore_cursor t)
      ∷ []

-- The case for `f`, or the state as it was.
unfoldable pub select : {A : Type 0} → List (ℕ × A) → ℕ → A → A
select [] f t = t
select ((c, t') ∷ cs) f t = let others = select cs f t in if c == f then t' else others

unfoldable pub csi_screen : (ℕ → Option ℕ) → Bool → List ℕ → ℕ → VTerm → VTerm
csi_screen wcwidth plain ps f t = select (csi_cases wcwidth plain ps t) f t

-- The loop of a tab, which stops at the last column.
unfoldable pub tab_stop : ℕ → VTerm → ℕ → ℕ
tab_stop zero t x = x
tab_stop (suc fuel) t x =
    let further = tab_stop fuel t (x + 1) in
    if ltb x (t.cols - 1) then (if get_or t.tabs (x + 1) false then x + 1 else further) else x

unfoldable pub control : ℕ → VTerm → VTerm
control c t =
    select
      ((8, settled (record t { cx = t.cx - 1 }))
        ∷ (9, settled (record t { cx = tab_stop t.cols t t.cx }))
        ∷ (10, settled (index_line t))
        ∷ (11, settled (index_line t))
        ∷ (12, settled (index_line t))
        ∷ (13, settled (record t { cx = 0 }))
        ∷ (14, record t { shift_out = true })
        ∷ (15, record t { shift_out = false })
        ∷ [])
      c t
