-- ===== src/VTerm/Resize/Safe.antt =====
-- A terminal of src/vterm.c stays well-formed when its size changes.
use xzile.Prelude.{
  ℕ, zero, suc, ◌+◌, ◌-◌, ◌*◌, max, ◌≡◌, refl, ap, ◌&&◌, List, arith, leb, ◌==◌, if◌then◌else◌,
  length, take, drop,
}
use xzile.VTerm.{VTerm, VCell, push_scrollback, reset_tabs}
use xzile.VTerm.Bounds.{
  IsTerm, IsPainted, same-IsPainted, IsPainted-trans, push_scrollback-IsPainted,
}
use xzile.VTerm.Cursor.{either-IsTerm}
use xzile.VTerm.Dispatch.Safe.{either_lem}
use xzile.VTerm.Resize.{cells_from, resized_copy, push_main, vterm_resize}

length-cells_from : (f : ℕ → VCell) (i n : ℕ) → length (cells_from f i n) ≡ n
unfolding cells_from
length-cells_from f i zero = refl
length-cells_from f i (suc n) = ap suc (length-cells_from f (i + 1) n)

length-resized_copy :
    (t : VTerm) (old : List VCell) (old_rows old_cols skip : ℕ)
    → length (resized_copy t old old_rows old_cols skip) ≡ t.rows * t.cols
unfolding resized_copy
length-resized_copy t old old_rows old_cols skip = length-cells_from _ 0 (t.rows * t.cols)

push_main-IsPainted : (t : VTerm) (i n : ℕ) → IsPainted t (push_main t i n)
unfolding push_main
push_main-IsPainted t i zero = same-IsPainted t
push_main-IsPainted t i (suc n) =
    let t' = push_scrollback t (take t.cols (drop (i * t.cols) t.main)) in
    IsPainted-trans t t' _ (push_scrollback-IsPainted t _) (push_main-IsPainted t' (i + 1) n)

-- t
pub vterm_resize-IsTerm :
    (t : VTerm) (lines columns : ℕ) → IsTerm t → IsTerm (vterm_resize t lines columns)
unfolding vterm_resize reset_tabs
vterm_resize-IsTerm t lines columns v =
    let rows = max lines 1 in
    let cols = max columns 1 in
    let skip = if leb rows t.cy then t.cy - rows + 1 else 0 in
    let pushed = if t.on_alt then t else push_main t 0 skip in
    let p : IsPainted t pushed =
      either_lem (IsPainted t) t.on_alt t _ (same-IsPainted t) (push_main-IsPainted t 0 skip) in
    either-IsTerm (rows == t.rows && cols == t.cols) t _ v (record {
      main_len = length-resized_copy _ t.main t.rows t.cols (if t.on_alt then 0 else skip);
      alt_len = length-resized_copy _ t.alt t.rows t.cols (if t.on_alt then skip else 0);
      cx_lt = omega arith;
      cy_lt = omega arith;
      region = omega arith;
      bot_lt = omega arith;
      sb_len = p.sb_lt v.sb_len;
    })
