-- ===== src/Screen/Cursor.antt =====
-- The cursor of src/screen.c and the size of its grid.
use xzile.Prelude.{
  ℕ, zero, suc, ◌+◌, ◌-◌, ◌*◌, ◌^◌, ◌<◌, ◌≡◌, refl, sym, ap₂, ◌∙◌, inl, inr, ◌&&◌, not, List, [],
  ◌∷◌, arith, ltb, leb, ◌==◌, if◌then◌else◌, Bool-cases, length, set, length-set, length-replicate,
}
use xzile.Screen.{
  Screen, Cell, less_one, here, advance, put_fitting, put_cell, put_combining, cell_at, clear_cells,
  term_clrtoeol, put_newline, screen_blank_cell, screen_resize, term_move, put_cells,
}

-- The cursor is on the grid, and the grid has all its cells.
pub record IsScreen (s : Screen) : Type 0 where
  pub rows_lt : s.rows < 2 ^ 64
  pub cols_lt : s.cols < 2 ^ 64
  pub y_lt : s.y < s.rows
  pub x_lt : s.x < s.cols
  pub count : length s.cells ≡ s.rows * s.cols

-- Other cells and attributes, as many of them, with the cursor moved on the grid.
moved :
    (s s' : Screen)
    → IsScreen s
    → s'.rows ≡ s.rows
    → s'.cols ≡ s.cols
    → s'.y < s.rows
    → s'.x < s.cols
    → length s'.cells ≡ length s.cells
    → IsScreen s'
moved s s' v r c y x n = record {
  rows_lt = omega (arith, v.rows_lt, r);
  cols_lt = omega (arith, v.cols_lt, c);
  y_lt = omega (arith, y, r);
  x_lt = omega (arith, x, c);
  count = n ∙ (v.count ∙ ap₂ (λ a b. a * b) (sym r) (sym c));
}

pub less_one_lem : (n : ℕ) → 0 < n → n < 2 ^ 64 → less_one n ≡ n - 1
unfolding less_one
less_one_lem n h w = omega arith

-- Where the cursor is after `width` columns.
pub record IsAdvanced (s : Screen) (width : ℕ) (s' : Screen) : Type 0 where
  pub rows_eq : s'.rows ≡ s.rows
  pub cols_eq : s'.cols ≡ s.cols
  pub x_eq : s'.x ≡ (
      if ltb (s.x + width) s.cols
      then s.x + width
      else if ltb (s.y + 1) s.rows
      then 0
      else s.cols - 1)
  pub y_eq :
      s'.y ≡ (if not (ltb (s.x + width) s.cols) && ltb (s.y + 1) s.rows then s.y + 1 else s.y)
  pub len : length s'.cells ≡ length s.cells

advance-IsAdvanced : (s : Screen) (w : ℕ) → IsAdvanced s w (advance s w)
unfolding advance
advance-IsAdvanced s w = elim (Bool-cases (ltb (s.x + w) s.cols)) [
  | inl e ↦
      rw (advance, e)
        (record { rows_eq = refl; cols_eq = refl; x_eq = rw e refl; y_eq = rw e refl; len = refl })
  | inr e ↦ elim (Bool-cases (ltb (s.y + 1) s.rows)) [
    | inl f ↦
        rw (advance, e, f)
          (record {
            rows_eq = refl;
            cols_eq = refl;
            x_eq = rw (e, f) refl;
            y_eq = rw (e, f) refl;
            len = refl;
          })
    | inr f ↦
        rw (advance, e, f)
          (record {
            rows_eq = refl;
            cols_eq = refl;
            x_eq = rw (e, f) refl;
            y_eq = rw (e, f) refl;
            len = refl;
          })
  ]
]

-- The cells do not matter for the cursor.
IsAdvanced-over :
    (s : Screen) (cells : List Cell) (w : ℕ)
    → length cells ≡ length s.cells
    → IsAdvanced s w (advance (record s { cells = cells }) w)
IsAdvanced-over s cells w e =
    let a = advance-IsAdvanced (record s { cells = cells }) w in
    record {
      rows_eq = a.rows_eq;
      cols_eq = a.cols_eq;
      x_eq = a.x_eq;
      y_eq = a.y_eq;
      len = a.len ∙ e;
    }

put_fitting-IsAdvanced :
    (s : Screen) (bytes : List ℕ) (w : ℕ) → IsAdvanced s w (put_fitting s bytes w)
unfolding put_fitting
put_fitting-IsAdvanced s bytes w =
    let once : (c : Cell) → _ = λ c. length-set s.cells (here s) c in
    elim (Bool-cases (w == 2)) [
      | inl e ↦ rw (put_fitting, e) (IsAdvanced-over s _ w (length-set _ _ _ ∙ once _))
      | inr e ↦ rw (put_fitting, e) (IsAdvanced-over s _ w (once _))
    ]

pub put_cell_one-IsAdvanced : (s : Screen) (bytes : List ℕ) → IsAdvanced s 1 (put_cell s bytes 1)
unfolding put_cell
put_cell_one-IsAdvanced s bytes = put_fitting-IsAdvanced s bytes 1

IsAdvanced-IsScreen : (s s' : Screen) (w : ℕ) → IsScreen s → IsAdvanced s w s' → IsScreen s'
IsAdvanced-IsScreen s s' w v a =
    let x = a.x_eq in
    let y = a.y_eq in
    moved s s' v a.rows_eq a.cols_eq (ground (arith, y, v.y_lt)) (ground (arith, x, v.x_lt)) a.len

pub put_cell-IsScreen :
    (s : Screen) (bytes : List ℕ) (w : ℕ) → IsScreen s → IsScreen (put_cell s bytes w)
unfolding put_cell
put_cell-IsScreen s bytes w v = elim (Bool-cases (w == 2 && leb s.cols (s.x + 1))) [
  | inl e ↦ rw (put_cell, e) (IsAdvanced-IsScreen s _ 1 v (put_fitting-IsAdvanced s _ 1))
  | inr e ↦ rw (put_cell, e) (IsAdvanced-IsScreen s _ w v (put_fitting-IsAdvanced s _ w))
]

recelled :
    (s : Screen) (cells : List Cell)
    → IsScreen s
    → length cells ≡ length s.cells
    → IsScreen (record s { cells = cells })
recelled s cells v e = moved s _ v refl refl v.y_lt v.x_lt e

pub put_combining-IsScreen :
    (s : Screen) (bytes : List ℕ) → IsScreen s → IsScreen (put_combining s bytes)
unfolding put_combining
put_combining-IsScreen s bytes v =
    let before = here s - 1 in
    let i = if length (cell_at s before).ch == 0 && leb 2 s.x then before - 1 else before in
    let c = cell_at s i in
    elim (Bool-cases (s.x == 0)) [
      | inl e ↦ rw (put_combining, e) v
      | inr e ↦ elim (Bool-cases (ltb (length c.ch + length bytes) 16)) [
        | inl f ↦ rw (put_combining, e, f) (recelled s _ v (length-set s.cells i _))
        | inr f ↦ rw (put_combining, e, f) v
      ]
    ]

length-clear_cells : (cells : List Cell) (i n : ℕ) → length (clear_cells cells i n) ≡ length cells
unfolding clear_cells
length-clear_cells cells i zero = refl
length-clear_cells cells i (suc n) =
    length-clear_cells (set cells i screen_blank_cell) (i + 1) n ∙ length-set cells i _

pub term_clrtoeol-IsScreen : (s : Screen) → IsScreen s → IsScreen (term_clrtoeol s)
unfolding term_clrtoeol
term_clrtoeol-IsScreen s v = recelled s _ v (length-clear_cells s.cells (here s) (s.cols - s.x))

pub put_newline-IsScreen : (s : Screen) → IsScreen s → IsScreen (put_newline s)
unfolding put_newline term_clrtoeol
put_newline-IsScreen s v =
    let cleared = term_clrtoeol-IsScreen s v in
    elim (Bool-cases (ltb (s.y + 1) s.rows)) [
      | inl e ↦
          rw (put_newline, e)
            (moved (term_clrtoeol s) _ cleared refl refl (ground (arith, e)) (omega (arith, v.x_lt))
              refl)
      | inr e ↦ rw (put_newline, e) cleared
    ]

pub put_cells-IsScreen : (s : Screen) (bs : List ℕ) → IsScreen s → IsScreen (put_cells s bs)
unfolding put_cells
put_cells-IsScreen s [] v = v
put_cells-IsScreen s (b ∷ bs) v =
    put_cells-IsScreen (put_cell s (b ∷ []) 1) bs (put_cell-IsScreen s (b ∷ []) 1 v)

pub screen_resize-IsScreen :
    (s : Screen) (rows cols : ℕ)
    → 0 < rows
    → rows < 2 ^ 64
    → 0 < cols
    → cols < 2 ^ 64
    → IsScreen (screen_resize s rows cols)
unfolding screen_resize
screen_resize-IsScreen s rows cols r r' c c' = record {
  rows_lt = r';
  cols_lt = c';
  y_lt = omega (arith, less_one_lem rows r r', r);
  x_lt = omega (arith, less_one_lem cols c c', c);
  count = length-replicate (rows * cols) screen_blank_cell;
}

pub term_move-IsScreen : (s : Screen) (y x : ℕ) → IsScreen s → IsScreen (term_move s y x)
unfolding term_move
term_move-IsScreen s y x v =
    moved s _ v refl refl
      (omega (arith, less_one_lem s.rows (omega (arith, v.y_lt)) v.rows_lt, v.y_lt))
      (omega (arith, less_one_lem s.cols (omega (arith, v.x_lt)) v.cols_lt, v.x_lt)) refl
