-- ===== src/Screen/Cells.antt =====
-- Which cells `put_cell` of src/screen.c writes.
use xzile.Prelude.{
  ℕ, zero, suc, ◌+◌, ◌*◌, ◌<◌, ◌≡◌, refl, ap, ◌∙◌, inl, inr, false, ◌&&◌, List, [], ◌∷◌, arith, ltb,
  leb, ◌==◌, if◌then◌else◌, Bool-cases, length, set, get_or, take, length-set,
}
use xzile.Prelude.{get_or-set}
use xzile.Screen.{Screen, Cell, here, advance, put_fitting, put_cell, cell_at, screen_blank_cell}
use xzile.Screen.Cursor.{IsScreen}

cells-advance : (s : Screen) (w : ℕ) → (advance s w).cells ≡ s.cells
unfolding advance
cells-advance s w = elim (Bool-cases (ltb (s.x + w) s.cols)) [
  | inl e ↦ rw (advance, e) refl
  | inr e ↦ elim (Bool-cases (ltb (s.y + 1) s.rows)) [
    | inl f ↦ rw (advance, e, f) refl
    | inr f ↦ rw (advance, e, f) refl
  ]
]

-- What `put_fitting` leaves at index `i`.
unfoldable pub written : Screen → List ℕ → ℕ → ℕ → Cell
written s bytes w i =
    if i == here s
    then record { ch = take 15 bytes; attr = s.cur_attr }
    else if w == 2 && i == here s + 1
    then record { ch = []; attr = s.cur_attr }
    else cell_at s i

in_grid : (rows cols y x : ℕ) → y < rows → x < cols → y * cols + x < rows * cols
in_grid zero cols y x h c = absurd (omega (arith, h))
in_grid (suc rows) cols zero x h c = omega (arith, c)
in_grid (suc rows) cols (suc y) x h c = omega (arith, in_grid rows cols y x (omega (arith, h)) c)

-- The cell under the cursor is one of the grid's, and so is the one to its right where there is a
-- column for it.
here_lt : (s : Screen) → IsScreen s → here s < length s.cells
here_lt s v = omega (arith, v.count, in_grid s.rows s.cols s.y s.x v.y_lt v.x_lt)

right_lt : (s : Screen) → IsScreen s → s.x + 1 < s.cols → here s + 1 < length s.cells
right_lt s v h = omega (arith, v.count, in_grid s.rows s.cols s.y (s.x + 1) v.y_lt h)

in_order :
    (i a : ℕ) (x y z : Cell)
    → (if i == a + 1 then y else if i == a then x else z)
      ≡ (if i == a then x else if i == a + 1 then y else z)
in_order i a x y z = elim (Bool-cases (i == a)) [
  | inl e ↦ let off : (i == a + 1) ≡ false = ground (arith, e) in rw (e, off) refl
  | inr e ↦ rw e refl
]

put_fitting-cells :
    (s : Screen) (bytes : List ℕ) (w i : ℕ)
    → IsScreen s
    → (w == 2 && leb s.cols (s.x + 1)) ≡ false
    → cell_at (put_fitting s bytes w) i ≡ written s bytes w i
unfolding put_fitting written
put_fitting-cells s bytes w i v fits =
    let c : Cell = record { ch = take 15 bytes; attr = s.cur_attr } in
    let right : Cell = record { ch = []; attr = s.cur_attr } in
    let one = set s.cells (here s) c in
    let first = get_or-set s.cells (here s) i c screen_blank_cell (here_lt s v) in
    elim (Bool-cases (w == 2)) [
      | inr e ↦
          rw (put_fitting, e) (ap (λ cs. get_or cs i screen_blank_cell) (cells-advance _ w) ∙ first)
      | inl e ↦
          let room : here s + 1 < length one =
            omega (arith, length-set s.cells (here s) c, right_lt s v (ground (arith, e, fits))) in
          let second = get_or-set one (here s + 1) i right screen_blank_cell room in
          rw (put_fitting, e)
            (ap (λ cs. get_or cs i screen_blank_cell) (cells-advance _ w)
              ∙ (second ∙ rw first (in_order i (here s) c right (cell_at s i))))
    ]

-- With the cursor on the grid, `put_cell` writes the cell under the cursor, for a wide character
-- also the one to its right, and no other; where a wide character does not fit, a space.
pub put_cell-written :
    (s : Screen) (bytes : List ℕ) (w i : ℕ)
    → IsScreen s
    → cell_at (put_cell s bytes w) i
      ≡ (if w == 2 && leb s.cols (s.x + 1) then written s (0x20 ∷ []) 1 i else written s bytes w i)
unfolding put_cell
put_cell-written s bytes w i v = elim (Bool-cases (w == 2 && leb s.cols (s.x + 1))) [
  | inl e ↦ rw (put_cell, e) (put_fitting-cells s (0x20 ∷ []) 1 i v (ground arith))
  | inr e ↦ rw (put_cell, e) (put_fitting-cells s bytes w i v e)
]
