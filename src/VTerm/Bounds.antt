-- ===== src/VTerm/Bounds.antt =====
-- The cursor of src/vterm.c stays on the screen, and the screens keep their size.
use xzile.Prelude.{
  ℕ, zero, suc, ◌+◌, ◌-◌, ◌*◌, ◌≤◌, ◌<◌, min, ◌≡◌, refl, sym, ap, ap₂, ◌∙◌, inl, inr, Bool, true,
  false, ◌&&◌, ◌||◌, not, List, [], ◌∷◌, arith, ltb, leb, ◌==◌, if◌then◌else◌, Bool-cases, length,
  set, take, drop, length-append, length-set, length-drop,
}
use xzile.Prelude.{if_true, if_false}
use xzile.VTerm.{
  VTerm, VCell, screen, with_screen, cell, write_cells, move_cells, blank_cells, erase_left,
  erase_right, erase, push_scrollback, push_lines, blank_lines, scroll_up, scroll_down, used_len,
  scrollback_lines,
}

-- Both screens have all cells, the cursor is on the screen, the scrolling region within it, and the
-- scrollback within its ring.
pub record IsTerm (t : VTerm) : Type 0 where
  pub main_len : length t.main ≡ t.rows * t.cols
  pub alt_len : length t.alt ≡ t.rows * t.cols
  pub cx_lt : t.cx < t.cols
  pub cy_lt : t.cy < t.rows
  pub region : t.top ≤ t.bot
  pub bot_lt : t.bot < t.rows
  pub sb_len : length t.sb ≤ scrollback_lines

pub length-write_cells :
    (cells : List VCell) (i : ℕ) (cs : List VCell) → length (write_cells cells i cs) ≡ length cells
unfolding write_cells
length-write_cells cells i [] = refl
length-write_cells cells i (c ∷ cs) =
    length-write_cells (set cells i c) (i + 1) cs ∙ length-set cells i c

-- Nothing but the cells of the screens has changed, and their number is the same.
pub record IsPainted (t t' : VTerm) : Type 0 where
  pub main_eq : length t'.main ≡ length t.main
  pub alt_eq : length t'.alt ≡ length t.alt
  pub rows_eq : t'.rows ≡ t.rows
  pub cols_eq : t'.cols ≡ t.cols
  pub cx_eq : t'.cx ≡ t.cx
  pub cy_eq : t'.cy ≡ t.cy
  pub top_eq : t'.top ≡ t.top
  pub bot_eq : t'.bot ≡ t.bot
  pub sb_lt : (length t.sb ≤ scrollback_lines) → length t'.sb ≤ scrollback_lines

pub same-IsPainted : (t : VTerm) → IsPainted t t
same-IsPainted t = record {
  main_eq = refl;
  alt_eq = refl;
  rows_eq = refl;
  cols_eq = refl;
  cx_eq = refl;
  cy_eq = refl;
  top_eq = refl;
  bot_eq = refl;
  sb_lt = λ h. h;
}

pub IsPainted-trans : (a b c : VTerm) → IsPainted a b → IsPainted b c → IsPainted a c
IsPainted-trans a b c p q = record {
  main_eq = q.main_eq ∙ p.main_eq;
  alt_eq = q.alt_eq ∙ p.alt_eq;
  rows_eq = q.rows_eq ∙ p.rows_eq;
  cols_eq = q.cols_eq ∙ p.cols_eq;
  cx_eq = q.cx_eq ∙ p.cx_eq;
  cy_eq = q.cy_eq ∙ p.cy_eq;
  top_eq = q.top_eq ∙ p.top_eq;
  bot_eq = q.bot_eq ∙ p.bot_eq;
  sb_lt = λ h. q.sb_lt (p.sb_lt h);
}

pub IsPainted-IsTerm : (t t' : VTerm) → IsPainted t t' → IsTerm t → IsTerm t'
IsPainted-IsTerm t t' p v =
    let size = ap₂ (λ a b. a * b) (sym p.rows_eq) (sym p.cols_eq) in
    record {
      main_len = p.main_eq ∙ (v.main_len ∙ size);
      alt_len = p.alt_eq ∙ (v.alt_len ∙ size);
      cx_lt = omega (arith, v.cx_lt, p.cx_eq, p.cols_eq);
      cy_lt = omega (arith, v.cy_lt, p.cy_eq, p.rows_eq);
      region = omega (arith, v.region, p.top_eq, p.bot_eq);
      bot_lt = omega (arith, v.bot_lt, p.bot_eq, p.rows_eq);
      sb_len = p.sb_lt v.sb_len;
    }

pub with_screen-IsPainted :
    (t : VTerm) (cells : List VCell)
    → length cells ≡ length (screen t)
    → IsPainted t (with_screen t cells)
unfolding with_screen
with_screen-IsPainted t cells e = elim (Bool-cases t.on_screen) [
  | inl f ↦
      rw (with_screen, f)
        (record {
          main_eq = refl;
          alt_eq = e ∙ ap length (if_true t.on_screen t.alt t.main f);
          rows_eq = refl;
          cols_eq = refl;
          cx_eq = refl;
          cy_eq = refl;
          top_eq = refl;
          bot_eq = refl;
          sb_lt = λ h. h;
        })
  | inr f ↦
      rw (with_screen, f)
        (record {
          main_eq = e ∙ ap length (if_false t.on_screen t.alt t.main f);
          alt_eq = refl;
          rows_eq = refl;
          cols_eq = refl;
          cx_eq = refl;
          cy_eq = refl;
          top_eq = refl;
          bot_eq = refl;
          sb_lt = λ h. h;
        })
]

pub blank_cells-IsPainted : (t : VTerm) (i n : ℕ) → IsPainted t (blank_cells t i n)
unfolding blank_cells
blank_cells-IsPainted t i n = with_screen-IsPainted t _ (length-write_cells (screen t) i _)

pub move_cells-IsPainted :
    (t : VTerm) (dest src n : ℕ) → IsPainted t (with_screen t (move_cells (screen t) dest src n))
unfolding move_cells
move_cells-IsPainted t dest src n = with_screen-IsPainted t _ (length-write_cells (screen t) dest _)

-- A call made or not.
pub either-IsPainted :
    (b : Bool) (t t1 t2 : VTerm)
    → IsPainted t t1
    → IsPainted t t2
    → IsPainted t (if b then t1 else t2)
either-IsPainted true t t1 t2 p q = p
either-IsPainted false t t1 t2 p q = q

pub erase-IsPainted : (t : VTerm) (y x0 x1 : ℕ) → IsPainted t (erase t y x0 x1)
unfolding erase erase_left erase_right
erase-IsPainted t y x0 x1 =
    let end = min x1 t.cols in
    let erased = if ltb x0 end then blank_cells t (cell t y x0) (end - x0) else t in
    let left = erase_left erased y x0 in
    let p1 : IsPainted t erased =
      either-IsPainted (ltb x0 end) t _ t (blank_cells-IsPainted t _ _) (same-IsPainted t) in
    let p2 : IsPainted erased left =
      either-IsPainted _ erased _ erased (blank_cells-IsPainted erased _ _)
        (same-IsPainted erased) in
    let p3 : IsPainted left (erase_right left y end) =
      either-IsPainted _ left _ left (blank_cells-IsPainted left _ _) (same-IsPainted left) in
    either-IsPainted (leb t.rows y) t t _ (same-IsPainted t)
      (IsPainted-trans t erased _ p1 (IsPainted-trans erased left _ p2 p3))

blank_lines-IsPainted : (t : VTerm) (y n : ℕ) → IsPainted t (blank_lines t y n)
unfolding blank_lines
blank_lines-IsPainted t y zero = same-IsPainted t
blank_lines-IsPainted t y (suc n) =
    let t' = blank_cells t (cell t y 0) t.cols in
    IsPainted-trans t t' _ (blank_cells-IsPainted t _ _) (blank_lines-IsPainted t' (y + 1) n)

pub push_scrollback-IsPainted :
    (t : VTerm) (line : List VCell) → IsPainted t (push_scrollback t line)
unfolding push_scrollback
push_scrollback-IsPainted t line =
    let sl = take (used_len line t.cols) line in
    record {
      main_eq = refl;
      alt_eq = refl;
      rows_eq = refl;
      cols_eq = refl;
      cx_eq = refl;
      cy_eq = refl;
      top_eq = refl;
      bot_eq = refl;
      sb_lt = λ h. elim (Bool-cases (ltb (length t.sb) scrollback_lines)) [
        | inl e ↦ rw e (ground (arith, e, length-append t.sb (sl ∷ [])))
        | inr e ↦
            rw e (ground (arith, e, h, length-append (drop 1 t.sb) (sl ∷ []), length-drop 1 t.sb))
      ];
    }

push_lines-IsPainted : (t : VTerm) (i n : ℕ) → IsPainted t (push_lines t i n)
unfolding push_lines
push_lines-IsPainted t i zero = same-IsPainted t
push_lines-IsPainted t i (suc n) =
    let t' = push_scrollback t (take t.cols (drop (cell t i 0) (screen t))) in
    IsPainted-trans t t' _ (push_scrollback-IsPainted t _) (push_lines-IsPainted t' (i + 1) n)

pub scroll_up-IsPainted : (t : VTerm) (top bot n : ℕ) → IsPainted t (scroll_up t top bot n)
unfolding scroll_up
scroll_up-IsPainted t top bot count =
    let n = min count (bot - top + 1) in
    let pushed = if top == 0 && not t.on_alt then push_lines t 0 n else t in
    let p1 : IsPainted t pushed =
      either-IsPainted (top == 0 && not t.on_alt) t _ t (push_lines-IsPainted t 0 n)
        (same-IsPainted t) in
    let p2 =
      move_cells-IsPainted pushed (cell t top 0) (cell t (top + n) 0)
        ((bot - top + 1 - n) * t.cols) in
    either-IsPainted (count == 0 || ltb bot top) t t _ (same-IsPainted t) (
      IsPainted-trans t pushed _ p1
        (IsPainted-trans pushed _ _ p2 (blank_lines-IsPainted _ (bot + 1 - n) n)))

pub scroll_down-IsPainted : (t : VTerm) (top bot n : ℕ) → IsPainted t (scroll_down t top bot n)
unfolding scroll_down
scroll_down-IsPainted t top bot count =
    let n = min count (bot - top + 1) in
    let p2 =
      move_cells-IsPainted t (cell t (top + n) 0) (cell t top 0) ((bot - top + 1 - n) * t.cols) in
    either-IsPainted (count == 0 || ltb bot top) t t _ (same-IsPainted t)
      (IsPainted-trans t _ _ p2 (blank_lines-IsPainted _ top n))
