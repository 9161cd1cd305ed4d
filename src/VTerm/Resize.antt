-- ===== src/VTerm/Resize.antt =====
-- `vterm_resize` of src/vterm.c, for sizes that are natural numbers.
use xzile.Prelude.{
  ℕ, zero, suc, ◌+◌, ◌-◌, ◌*◌, ◌/◌, ◌%◌, ◌^◌, ◌≤◌, ◌<◌, min, max, ◌≡◌, refl, sym, ap, ap₂, ◌∙◌,
  fun_ext, ◌≢◌, ◌↔◌, ◌⊎◌, inl, inr, Bool, true, false, ◌&&◌, ◌||◌, not, Option, none, some, List,
  [], ◌∷◌, ◌++◌, map, append-nil, append_assoc, arith, ltb, leb, ◌==◌, if◌then◌else◌, ltb→lt,
  lt→ltb, leb→le, ==_iff, tests, Bool-cases, Option-cases, length, get_elem?, set, get_or, take,
  drop, replicate, length-append, length-set, length-take, length-drop, length-replicate,
  length-map, take-append-drop, ext_get, get-append, get-take, get-drop, get-replicate, get-ge,
  drop-nil, drop-drop, drop-cons_pos, drop-ge, take-ge, slices, lengths,
}
use xzile.VTerm.{VTerm, VCell, blank, push_scrollback, reset_tabs}
pub mod Safe

unfoldable pub cells_from : (ℕ → VCell) → ℕ → ℕ → List VCell
cells_from f i zero = []
cells_from f i (suc n) = f i ∷ cells_from f (i + 1) n

-- The cell of the new screen in row `y` and column `x`.
unfoldable pub resized_cell : VTerm → List VCell → ℕ → ℕ → ℕ → ℕ → ℕ → VCell
resized_cell t old old_rows old_cols skip y x =
    let c =
      if ltb (y + skip) old_rows && ltb x old_cols
      then get_or old ((y + skip) * old_cols + x) (blank none)
      else blank none in
    if x == t.cols - 1 && c.width == 2 then record c { cp = 32; width = 1 } else c

-- `resized_copy`, one cell after the other: copied, and mended at the new right margin.
unfoldable pub resized_copy : VTerm → List VCell → ℕ → ℕ → ℕ → List VCell
resized_copy t old old_rows old_cols skip =
    cells_from (λ i. resized_cell t old old_rows old_cols skip (i / t.cols) (i % t.cols)) 0
      (t.rows * t.cols)

-- The first `n` lines of the main screen, from `i` on.
unfoldable pub push_main : VTerm → ℕ → ℕ → VTerm
push_main t i zero = t
push_main t i (suc n) =
    push_main (push_scrollback t (take t.cols (drop (i * t.cols) t.main))) (i + 1) n

unfoldable pub vterm_resize : VTerm → ℕ → ℕ → VTerm
vterm_resize t lines columns =
    let rows = max lines 1 in
    let cols = max columns 1 in
    let skip = if leb rows t.cy then t.cy - rows + 1 else 0 in
    let pushed = if t.on_alt then t else push_main t 0 skip in
    let sized = record pushed { rows = rows; cols = cols } in
    let main = resized_copy sized t.main t.rows t.cols (if t.on_alt then 0 else skip) in
    let alt = resized_copy sized t.alt t.rows t.cols (if t.on_alt then skip else 0) in
    if rows == t.rows && cols == t.cols
    then t
    else reset_tabs (record sized {
      main = main;
      alt = alt;
      on_screen = t.on_alt;
      cy = min (t.cy - skip) (rows - 1);
      cx = min t.cx (cols - 1);
      wrap_pending = false;
      top = 0;
      bot = rows - 1;
    })
