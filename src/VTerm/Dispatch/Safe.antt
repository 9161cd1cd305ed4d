-- ===== src/VTerm/Dispatch/Safe.antt =====
-- The control characters and sequences of src/vterm.c keep the cursor on the screen.
use xzile.Prelude.{
  ◌≡◌, refl, ℕ, zero, suc, ◌+◌, ◌-◌, ◌<◌, min, max, Bool, true, false, ◌&&◌, Option, List, [], ◌∷◌,
  arith, leb, ◌==◌, if◌then◌else◌, length,
}
use xzile.VTerm.{VTerm}
use xzile.VTerm.Put.{put_char}
use xzile.VTerm.Bounds.{IsTerm, IsPainted-IsTerm, scroll_up-IsPainted, scroll_down-IsPainted}
use xzile.VTerm.Cursor.{
  moved-IsTerm, either-IsTerm, put_char-IsTerm, move_to-IsTerm, save_cursor-IsTerm,
  restore_cursor-IsTerm, index_line-IsTerm,
}
use xzile.VTerm.Dispatch.{param, repeat_char, csi_cases, select, csi_screen, tab_stop, control}
use xzile.VTerm.Dispatch.Cases.{
  settled-IsTerm, tab_stop_bound, tabs_right-IsTerm, tabs_left-IsTerm, erase-IsTerm,
  erase_display-IsTerm, erase_line-IsTerm, insert_lines-IsTerm, delete_lines-IsTerm,
  insert_chars-IsTerm, delete_chars-IsTerm, set_region-IsTerm, clear_tabs-IsTerm, shifted,
}

-- Every case of a switch.
unfoldable pub AllCases : {A : Type 0} → (A → Type 0) → List (ℕ × A) → Type 0
AllCases P [] = Unit
AllCases P ((c, t) ∷ cs) = P t × AllCases P cs

infixr 5 ◌▸◌
pub ◌▸◌ : {A B : Type 0} → A → B → A × B
v ▸ vs = (v, vs)

-- A property of both branches.
pub either_lem :
    {A : Type 0} → (P : A → Type 0) (b : Bool) (a a' : A) → P a → P a' → P (if b then a else a')
either_lem P true a a' p q = p
either_lem P false a a' p q = q

-- The same where the condition, or its negation, is needed.
pub either_checked :
    {A : Type 0}
    → (P : A → Type 0) (b : Bool) (a a' : A) → (b ≡ true → P a)
    → (b ≡ false → P a')
    → P (if b then a else a')
either_checked P true a a' p q = p refl
either_checked P false a a' p q = q refl

pub select_lem :
    {A : Type 0}
    → (P : A → Type 0) (cs : List (ℕ × A)) (f : ℕ) (t : A) → AllCases P cs
    → P t
    → P (select cs f t)
unfolding select AllCases
select_lem P [] f t all v = v
select_lem P ((c, t') ∷ cs) f t (v', all) v =
    either_lem P (c == f) t' _ v' (select_lem P cs f t all v)

module _ (wcwidth : ℕ → Option ℕ) where
  repeat_char-IsTerm : (n : ℕ) (t : VTerm) → IsTerm t → IsTerm (repeat_char wcwidth n t)
  unfolding repeat_char
  repeat_char-IsTerm zero t v = v
  repeat_char-IsTerm (suc n) t v =
      repeat_char-IsTerm n (put_char wcwidth t t.last_char)
        (put_char-IsTerm wcwidth t t.last_char v)

  csi_cases-IsTerm :
      (plain : Bool) (ps : List ℕ) (t : VTerm)
      → IsTerm t
      → AllCases IsTerm (csi_cases wcwidth plain ps t)
  unfolding csi_cases AllCases
  csi_cases-IsTerm plain ps t v =
      let n = param ps 0 1 in
      let up : max (t.cy - n) (if leb t.top t.cy then t.top else 0) < t.rows =
        ground (arith, v.cy_lt) in
      let down : min (t.cy + n) (if leb t.cy t.bot then t.bot else t.rows - 1) < t.rows =
        ground (arith, v.cy_lt, v.bot_lt) in
      let to = λ (y x : ℕ) (h : y < t.rows) (k : x < t.cols). moved-IsTerm t y x false v h k in
      let first : 0 < t.cols = omega (arith, v.cx_lt) in
      let right = to t.cy (min (t.cx + n) (t.cols - 1)) v.cy_lt (omega (arith, v.cx_lt)) in
      let column = to t.cy (min (n - 1) (t.cols - 1)) v.cy_lt (omega (arith, v.cx_lt)) in
      let scrolled_up = IsPainted-IsTerm t _ (scroll_up-IsPainted t t.top t.bot n) v in
      let scrolled_down = IsPainted-IsTerm t _ (scroll_down-IsPainted t t.top t.bot n) v in
      settled-IsTerm _ (insert_chars-IsTerm t n v)
      ▸ to _ t.cx up v.cx_lt
      ▸ to _ t.cx down v.cx_lt
      ▸ to _ t.cx down v.cx_lt
      ▸ right
      ▸ right
      ▸ to t.cy (t.cx - n) v.cy_lt (omega (arith, v.cx_lt))
      ▸ to (min (t.cy + n) t.bot) 0 (omega (arith, v.bot_lt)) first
      ▸ to (max (t.cy - n) t.top) 0 (omega (arith, v.cy_lt, v.region, v.bot_lt)) first
      ▸ column
      ▸ column
      ▸ move_to-IsTerm t _ _ v
      ▸ move_to-IsTerm t _ _ v
      ▸ settled-IsTerm _ (tabs_right-IsTerm n t v)
      ▸ settled-IsTerm _ (erase_display-IsTerm t _ v)
      ▸ settled-IsTerm _ (erase_line-IsTerm t _ v)
      ▸ settled-IsTerm _ (insert_lines-IsTerm t n v)
      ▸ settled-IsTerm _ (delete_lines-IsTerm t n v)
      ▸ settled-IsTerm _ (delete_chars-IsTerm t n v)
      ▸ either-IsTerm plain _ t scrolled_up v
      ▸ either-IsTerm (plain && leb (length ps) 1) _ t scrolled_down v
      ▸ settled-IsTerm _ (erase-IsTerm t _ _ _ v)
      ▸ settled-IsTerm _ (tabs_left-IsTerm n t v)
      ▸ either-IsTerm (t.last_char == 0) t _ v (repeat_char-IsTerm _ t v)
      ▸ move_to-IsTerm t _ _ v
      ▸ clear_tabs-IsTerm t _ v
      ▸ set_region-IsTerm t _ _ v
      ▸ save_cursor-IsTerm t v
      ▸ restore_cursor-IsTerm t v
      ▸ tt

  -- t
  pub csi_screen-IsTerm :
      (plain : Bool) (ps : List ℕ) (f : ℕ) (t : VTerm)
      → IsTerm t
      → IsTerm (csi_screen wcwidth plain ps f t)
  unfolding csi_screen
  csi_screen-IsTerm plain ps f t v =
      select_lem IsTerm (csi_cases wcwidth plain ps t) f t (csi_cases-IsTerm plain ps t v) v

pub control-IsTerm : (c : ℕ) (t : VTerm) → IsTerm t → IsTerm (control c t)
unfolding control AllCases
control-IsTerm c t v =
    let first : 0 < t.cols = omega (arith, v.cx_lt) in
    let line = settled-IsTerm _ (index_line-IsTerm t v) in
    select_lem IsTerm _ c t
      (moved-IsTerm t t.cy (t.cx - 1) false v v.cy_lt (omega (arith, v.cx_lt))
        ▸ moved-IsTerm t t.cy (tab_stop t.cols t t.cx) false v v.cy_lt
            (tab_stop_bound t.cols t t.cx v.cx_lt)
        ▸ line
        ▸ line
        ▸ line
        ▸ moved-IsTerm t t.cy 0 false v v.cy_lt first
        ▸ shifted t true v
        ▸ shifted t false v
        ▸ tt)
      v
