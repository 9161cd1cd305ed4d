-- ===== src/Screen/Tests.antt =====
-- A screen of two rows and four columns.
use xzile.Prelude.{
  ℕ, ◌+◌, ◌<◌, ◌≡◌, refl, ◌&&◌, Option, none, some, [], ◌∷◌, arith, leb, ◌==◌, if◌then◌else◌,
  replicate,
}
use xzile.Screen.{
  Screen, default_attr, screen_blank_cell, put_cell, cell_at, term_addnstr, octal, put_fitting,
  advance,
}
use xzile.Screen.Cursor.{IsScreen}
use xzile.Screen.Tabs.{HasNoStop}
use xzile.Screen.Cells.{written, put_cell-written}
use xzile.Screen.Draw.{IsOutcome, term_addnstr-IsOutcome, term_addnstr-tab}

abbrev small : ℕ → ℕ → Screen
small y x = record {
  rows = 2;
  cols = 4;
  cells = replicate 8 screen_blank_cell;
  y = y;
  x = x;
  cur_attr = default_attr;
}

abbrev narrow : ℕ → Option ℕ
narrow cp = some 1

small-IsScreen : (y x : ℕ) → y < 2 → x < 4 → IsScreen (small y x)
small-IsScreen y x h k = record {
  rows_lt = omega arith;
  cols_lt = omega arith;
  y_lt = h;
  x_lt = k;
  count = refl;
}

wide_at_margin : (put_cell (small 0 3) (0xE4 ∷ 0xB8 ∷ 0xAD ∷ []) 2).y ≡ 1
unfolding put_cell put_fitting advance
wide_at_margin = refl

octal_of : octal 0x85 ≡ 92 ∷ 50 ∷ 48 ∷ 53 ∷ []
unfolding octal
octal_of = refl

term_addnstr-IsOutcome_example :
    IsOutcome (97 ∷ 9 ∷ 98 ∷ []) (term_addnstr narrow (small 0 2) (97 ∷ 9 ∷ 98 ∷ []))
term_addnstr-IsOutcome_example =
    term_addnstr-IsOutcome narrow (small 0 2) (97 ∷ 9 ∷ 98 ∷ [])
      (small-IsScreen 0 2 (omega arith) (omega arith))

last_row : HasNoStop (small 1 1)
unfolding HasNoStop
last_row = (refl, (λ e. omega (arith, e), omega arith))

term_addnstr-tab_example : term_addnstr narrow (small 1 1) (9 ∷ 97 ∷ []) ≡ none
term_addnstr-tab_example =
    term_addnstr-tab narrow (small 1 1) (97 ∷ []) (small-IsScreen 1 1 (omega arith) (omega arith))
      last_row

put_cell-written_example : cell_at (put_cell (small 0 3) (97 ∷ []) 2) 3 ≡ (
    if 2 == 2 && leb 4 (3 + 1)
    then written (small 0 3) (0x20 ∷ []) 1 3
    else written (small 0 3) (97 ∷ []) 2 3)
put_cell-written_example =
    put_cell-written (small 0 3) (97 ∷ []) 2 3 (small-IsScreen 0 3 (omega arith) (omega arith))
