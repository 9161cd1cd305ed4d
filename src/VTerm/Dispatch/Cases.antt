-- ===== src/VTerm/Dispatch/Cases.antt =====
-- The cases of the control sequences of src/vterm.c keep the cursor on the screen.
use xzile.Prelude.{
  ℕ, zero, suc, ◌+◌, ◌-◌, ◌≤◌, ◌<◌, min, inl, inr, Bool, true, false, arith, ltb, ◌==◌, Bool-cases,
  List,
}
use xzile.VTerm.{VTerm, erase}
use xzile.VTerm.Bounds.{
  IsTerm, IsPainted-IsTerm, blank_cells-IsPainted, move_cells-IsPainted, erase-IsPainted,
  scroll_up-IsPainted, scroll_down-IsPainted,
}
use xzile.VTerm.Cursor.{moved-IsTerm, either-IsTerm, move_to-IsTerm}
use xzile.VTerm.Dispatch.{
  prev_tab, tabs_right, tabs_left, erase_lines, erase_display, erase_line, in_region, insert_lines,
  delete_lines, insert_chars, delete_chars, set_region, clear_tabs, settled, tab_stop,
}

pub settled-IsTerm : (t : VTerm) → IsTerm t → IsTerm (settled t)
settled-IsTerm t v = moved-IsTerm t t.cy t.cx false v v.cy_lt v.cx_lt

pub column-IsTerm : (t : VTerm) (x : ℕ) → IsTerm t → x < t.cols → IsTerm (record t { cx = x })
column-IsTerm t x v h = moved-IsTerm t t.cy x t.wrap_pending v v.cy_lt h

pub prev_tab_bound : (t : VTerm) (x : ℕ) → prev_tab t x ≤ x
unfolding prev_tab
prev_tab_bound t zero = omega arith
prev_tab_bound t (suc x) = ground (arith, prev_tab_bound t x)

pub tab_stop_bound : (fuel : ℕ) (t : VTerm) (x : ℕ) → x < t.cols → tab_stop fuel t x < t.cols
unfolding tab_stop
tab_stop_bound zero t x h = h
tab_stop_bound (suc fuel) t x h = elim (Bool-cases (ltb x (t.cols - 1))) [
  | inl e ↦
      let next : x + 1 < t.cols = ground (arith, e) in
      let further = tab_stop_bound fuel t (x + 1) next in
      rw (tab_stop, e) (ground (arith, next, further))
  | inr e ↦ rw (tab_stop, e) h
]

pub tabs_right-IsTerm : (n : ℕ) (t : VTerm) → IsTerm t → IsTerm (tabs_right n t)
unfolding tabs_right
tabs_right-IsTerm zero t v = v
tabs_right-IsTerm (suc n) t v = tabs_right-IsTerm n _ (column-IsTerm t _ v (omega (arith, v.cx_lt)))

pub tabs_left-IsTerm : (n : ℕ) (t : VTerm) → IsTerm t → IsTerm (tabs_left n t)
unfolding tabs_left
tabs_left-IsTerm zero t v = v
tabs_left-IsTerm (suc n) t v =
    tabs_left-IsTerm n _ (column-IsTerm t _ v (omega (arith, v.cx_lt, prev_tab_bound t t.cx)))

pub erase-IsTerm : (t : VTerm) (y x0 x1 : ℕ) → IsTerm t → IsTerm (erase t y x0 x1)
erase-IsTerm t y x0 x1 v = IsPainted-IsTerm t _ (erase-IsPainted t y x0 x1) v

pub erase_lines-IsTerm : (t : VTerm) (y n : ℕ) → IsTerm t → IsTerm (erase_lines t y n)
unfolding erase_lines
erase_lines-IsTerm t y zero v = v
erase_lines-IsTerm t y (suc n) v =
    erase_lines-IsTerm (erase t y 0 t.cols) (y + 1) n (erase-IsTerm t y 0 t.cols v)

pub erase_display-IsTerm : (t : VTerm) (how : ℕ) → IsTerm t → IsTerm (erase_display t how)
unfolding erase_display
erase_display-IsTerm t how v =
    either-IsTerm (how == 0) _ _ (erase_lines-IsTerm _ _ _ (erase-IsTerm t _ _ _ v)) (
      either-IsTerm (how == 1) _ _ (erase-IsTerm _ _ _ _ (erase_lines-IsTerm t 0 t.cy v)) (
        either-IsTerm (how == 2) _ _ (erase_lines-IsTerm t 0 t.rows v) (
          either-IsTerm (how == 3) _ _
            (record {
              main_len = v.main_len;
              alt_len = v.alt_len;
              cx_lt = v.cx_lt;
              cy_lt = v.cy_lt;
              region = v.region;
              bot_lt = v.bot_lt;
              sb_len = omega arith;
            })
            v)))

pub erase_line-IsTerm : (t : VTerm) (how : ℕ) → IsTerm t → IsTerm (erase_line t how)
unfolding erase_line
erase_line-IsTerm t how v = either-IsTerm (how == 0) _ _ (erase-IsTerm t _ _ _ v) (
    either-IsTerm (how == 1) _ _ (erase-IsTerm t _ _ _ v)
      (either-IsTerm (how == 2) _ _ (erase-IsTerm t _ _ _ v) v))

pub insert_lines-IsTerm : (t : VTerm) (n : ℕ) → IsTerm t → IsTerm (insert_lines t n)
unfolding insert_lines
insert_lines-IsTerm t n v =
    let u = IsPainted-IsTerm t _ (scroll_down-IsPainted t t.cy t.bot n) v in
    either-IsTerm (in_region t) _ t (column-IsTerm _ 0 u (omega (arith, u.cx_lt))) v

-- The flag of the alternate screen does not matter.
pub flagged : (t : VTerm) (on : Bool) → IsTerm t → IsTerm (record t { on_alt = on })
flagged t on v = record {
  main_len = v.main_len;
  alt_len = v.alt_len;
  cx_lt = v.cx_lt;
  cy_lt = v.cy_lt;
  region = v.region;
  bot_lt = v.bot_lt;
  sb_len = v.sb_len;
}

pub delete_lines-IsTerm : (t : VTerm) (n : ℕ) → IsTerm t → IsTerm (delete_lines t n)
unfolding delete_lines
delete_lines-IsTerm t n v =
    let marked = record t { on_alt = true } in
    let u =
      IsPainted-IsTerm marked _ (scroll_up-IsPainted marked t.cy t.bot n) (flagged t true v) in
    let w = flagged _ t.on_alt u in
    either-IsTerm (in_region t) _ t (column-IsTerm _ 0 w (omega (arith, w.cx_lt))) v

pub insert_chars-IsTerm : (t : VTerm) (n : ℕ) → IsTerm t → IsTerm (insert_chars t n)
unfolding insert_chars
insert_chars-IsTerm t n v =
    IsPainted-IsTerm _ _ (blank_cells-IsPainted _ _ _)
      (IsPainted-IsTerm t _ (move_cells-IsPainted t _ _ _) v)

pub delete_chars-IsTerm : (t : VTerm) (n : ℕ) → IsTerm t → IsTerm (delete_chars t n)
unfolding delete_chars
delete_chars-IsTerm t n v =
    IsPainted-IsTerm _ _ (blank_cells-IsPainted _ _ _)
      (IsPainted-IsTerm t _ (move_cells-IsPainted t _ _ _) v)

pub set_region-IsTerm : (t : VTerm) (top bottom : ℕ) → IsTerm t → IsTerm (set_region t top bottom)
unfolding set_region
set_region-IsTerm t top bottom v = elim (Bool-cases (ltb top (min bottom (t.rows - 1)))) [
  | inl e ↦
      rw (set_region, e)
        (move_to-IsTerm _ 0 0 (record {
          main_len = v.main_len;
          alt_len = v.alt_len;
          cx_lt = v.cx_lt;
          cy_lt = v.cy_lt;
          region = ground (arith, e);
          bot_lt = omega (arith, v.cy_lt);
          sb_len = v.sb_len;
        }))
  | inr e ↦ rw (set_region, e) v
]

pub shifted : (t : VTerm) (out : Bool) → IsTerm t → IsTerm (record t { shift_out = out })
shifted t out v = record {
  main_len = v.main_len;
  alt_len = v.alt_len;
  cx_lt = v.cx_lt;
  cy_lt = v.cy_lt;
  region = v.region;
  bot_lt = v.bot_lt;
  sb_len = v.sb_len;
}

pub tabbed : (t : VTerm) (tabs : List Bool) → IsTerm t → IsTerm (record t { tabs = tabs })
tabbed t tabs v = record {
  main_len = v.main_len;
  alt_len = v.alt_len;
  cx_lt = v.cx_lt;
  cy_lt = v.cy_lt;
  region = v.region;
  bot_lt = v.bot_lt;
  sb_len = v.sb_len;
}

pub clear_tabs-IsTerm : (t : VTerm) (how : ℕ) → IsTerm t → IsTerm (clear_tabs t how)
unfolding clear_tabs
clear_tabs-IsTerm t how v =
    either-IsTerm (how == 0) _ _ (tabbed t _ v) (either-IsTerm (how == 3) _ t (tabbed t _ v) v)
