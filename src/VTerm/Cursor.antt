-- ===== src/VTerm/Cursor.antt =====
-- Every operation on the cursor of src/vterm.c, and `put_char`, keeps the cursor on the screen.
use xzile.Prelude.{
  ℕ, ◌+◌, ◌-◌, ◌*◌, ◌<◌, ◌≡◌, refl, ◌∙◌, inl, inr, Bool, true, false, ◌&&◌, not, Option, none, List,
  arith, ltb, leb, ◌==◌, if◌then◌else◌, Bool-cases, Option-cases, length, replicate,
}
use xzile.VTerm.{
  VTerm, VCell, screen, cell, write_cells, blank, index_line, reverse_index, move_to, save_cursor,
  restore_cursor, set_alt_screen, dec_graphics,
}
use xzile.VTerm.Put.{
  wrap_line, fit_wide, insert_room, clear_left_half, clear_right_half, write_char, pass_char,
  put_columns, put_char,
}
use xzile.VTerm.Bounds.{
  IsTerm, IsPainted-IsTerm, with_screen-IsPainted, length-write_cells, blank_cells-IsPainted,
  move_cells-IsPainted, scroll_up-IsPainted, scroll_down-IsPainted,
}

-- A call made or not.
pub either-IsTerm :
    (b : Bool) (t1 t2 : VTerm) → IsTerm t1 → IsTerm t2 → IsTerm (if b then t1 else t2)
either-IsTerm true t1 t2 v w = v
either-IsTerm false t1 t2 v w = w

-- The cursor moved on the screen.
pub moved-IsTerm :
    (t : VTerm) (y x : ℕ) (wrap : Bool)
    → IsTerm t
    → y < t.rows
    → x < t.cols
    → IsTerm (record t { cy = y; cx = x; wrap_pending = wrap })
moved-IsTerm t y x wrap v h k = record {
  main_len = v.main_len;
  alt_len = v.alt_len;
  cx_lt = k;
  cy_lt = h;
  region = v.region;
  bot_lt = v.bot_lt;
  sb_len = v.sb_len;
}

pub index_line-IsTerm : (t : VTerm) → IsTerm t → IsTerm (index_line t)
unfolding index_line
index_line-IsTerm t v = elim (Bool-cases (t.cy == t.bot)) [
  | inl e ↦ rw (index_line, e) (IsPainted-IsTerm t _ (scroll_up-IsPainted t t.top t.bot 1) v)
  | inr e ↦ elim (Bool-cases (ltb (t.cy + 1) t.rows)) [
    | inl f ↦
        rw (index_line, e, f)
          (moved-IsTerm t (t.cy + 1) t.cx t.wrap_pending v (ground (arith, f)) v.cx_lt)
    | inr f ↦ rw (index_line, e, f) v
  ]
]

pub reverse_index-IsTerm : (t : VTerm) → IsTerm t → IsTerm (reverse_index t)
unfolding reverse_index
reverse_index-IsTerm t v = elim (Bool-cases (t.cy == t.top)) [
  | inl e ↦ rw (reverse_index, e) (IsPainted-IsTerm t _ (scroll_down-IsPainted t t.top t.bot 1) v)
  | inr e ↦ elim (Bool-cases (ltb 0 t.cy)) [
    | inl f ↦
        rw (reverse_index, e, f)
          (moved-IsTerm t (t.cy - 1) t.cx t.wrap_pending v (omega (arith, v.cy_lt)) v.cx_lt)
    | inr f ↦ rw (reverse_index, e, f) v
  ]
]

wrap_line-IsTerm : (t : VTerm) → IsTerm t → IsTerm (wrap_line t)
unfolding wrap_line
wrap_line-IsTerm t v =
    let start = moved-IsTerm t t.cy 0 t.wrap_pending v v.cy_lt (omega (arith, v.cx_lt)) in
    let w = either-IsTerm (t.wrap_pending && t.autowrap) _ t (index_line-IsTerm _ start) v in
    moved-IsTerm _ _ _ false w w.cy_lt w.cx_lt

either_first :
    (b : Bool) (p q : VTerm × ℕ) → IsTerm p.0 → IsTerm q.0 → IsTerm (if b then p else q).0
either_first true p q v w = v
either_first false p q v w = w

fit_wide-IsTerm : (t : VTerm) (w : ℕ) → IsTerm t → IsTerm (fit_wide t w).0
unfolding fit_wide
fit_wide-IsTerm t w v =
    let b = IsPainted-IsTerm t _ (blank_cells-IsPainted t (cell t t.cy t.cx) 1) v in
    let next = index_line-IsTerm _ (moved-IsTerm _ _ 0 _ b b.cy_lt (omega (arith, b.cx_lt))) in
    either_first (w == 2 && t.cx == t.cols - 1) _ (t, w)
      (either_first t.autowrap (_, 2) (t, 1) next v) v

insert_room-IsTerm : (t : VTerm) (w : ℕ) → IsTerm t → IsTerm (insert_room t w)
unfolding insert_room
insert_room-IsTerm t w v =
    either-IsTerm (t.insert && ltb 0 (t.cols - t.cx - w)) _ t
      (IsPainted-IsTerm t _ (move_cells-IsPainted t _ _ _) v) v

clear_left_half-IsTerm : (t : VTerm) → IsTerm t → IsTerm (clear_left_half t)
unfolding clear_left_half
clear_left_half-IsTerm t v =
    either-IsTerm _ _ t (IsPainted-IsTerm t _ (blank_cells-IsPainted t _ 1) v) v

clear_right_half-IsTerm : (t : VTerm) (w : ℕ) → IsTerm t → IsTerm (clear_right_half t w)
unfolding clear_right_half
clear_right_half-IsTerm t w v =
    either-IsTerm _ _ t (IsPainted-IsTerm t _ (blank_cells-IsPainted t _ 1) v) v

write_char-IsTerm : (t : VTerm) (c w : ℕ) → IsTerm t → IsTerm (write_char t c w)
unfolding write_char
write_char-IsTerm t c w v =
    let p = with_screen-IsPainted t _ (length-write_cells (screen t) (cell t t.cy t.cx) _) in
    let u = IsPainted-IsTerm t _ p v in
    record {
      main_len = u.main_len;
      alt_len = u.alt_len;
      cx_lt = u.cx_lt;
      cy_lt = u.cy_lt;
      region = u.region;
      bot_lt = u.bot_lt;
      sb_len = u.sb_len;
    }

pass_char-IsTerm : (t : VTerm) (w : ℕ) → IsTerm t → IsTerm (pass_char t w)
unfolding pass_char
pass_char-IsTerm t w v = elim (Bool-cases (leb t.cols (t.cx + w))) [
  | inl e ↦
      rw (pass_char, e)
        (moved-IsTerm t t.cy (t.cols - 1) t.autowrap v v.cy_lt (omega (arith, v.cx_lt)))
  | inr e ↦
      rw (pass_char, e)
        (moved-IsTerm t t.cy (t.cx + w) t.wrap_pending v v.cy_lt (ground (arith, e)))
]

put_columns-IsTerm : (t : VTerm) (c columns : ℕ) → IsTerm t → IsTerm (put_columns t c columns)
unfolding put_columns
put_columns-IsTerm t c columns v =
    let (fitted, w0) = fit_wide (wrap_line t) columns in
    let w = if w0 == 2 && ltb t.cols 2 then 1 else w0 in
    let f = fit_wide-IsTerm (wrap_line t) columns (wrap_line-IsTerm t v) in
    let cleared =
      clear_right_half-IsTerm _ w (clear_left_half-IsTerm _ (insert_room-IsTerm fitted w f)) in
    pass_char-IsTerm _ w (write_char-IsTerm _ c w cleared)

-- t
pub put_char-IsTerm :
    (wcwidth : ℕ → Option ℕ) (t : VTerm) (ch : ℕ) → IsTerm t → IsTerm (put_char wcwidth t ch)
unfolding put_char
put_char-IsTerm wcwidth t ch v =
    let graphics = if t.shift_out then t.g1_graphics else t.g0_graphics in
    let c = if graphics && ltb ch 0x80 then dec_graphics ch else ch in
    elim (Option-cases (wcwidth c)) [
      | inl e ↦ rw (put_char, e) (put_columns-IsTerm t c 1 v)
      | inr (w, e) ↦ elim (Bool-cases (w == 0)) [
        | inl z ↦ rw (put_char, e, z) v
        | inr z ↦ rw (put_char, e, z) (put_columns-IsTerm t c _ v)
      ]
    ]

pub move_to-IsTerm : (t : VTerm) (y x : ℕ) → IsTerm t → IsTerm (move_to t y x)
unfolding move_to
move_to-IsTerm t y x v =
    let bot = if t.origin then t.bot else t.rows - 1 in
    let bot_lt : bot < t.rows = ground (arith, v.bot_lt, v.cy_lt) in
    moved-IsTerm t _ _ false v (omega (arith, bot_lt)) (omega (arith, v.cx_lt))

pub save_cursor-IsTerm : (t : VTerm) → IsTerm t → IsTerm (save_cursor t)
unfolding save_cursor
save_cursor-IsTerm t v =
    either-IsTerm t.on_alt _ _
      (record {
        main_len = v.main_len;
        alt_len = v.alt_len;
        cx_lt = v.cx_lt;
        cy_lt = v.cy_lt;
        region = v.region;
        bot_lt = v.bot_lt;
        sb_len = v.sb_len;
      })
      (record {
        main_len = v.main_len;
        alt_len = v.alt_len;
        cx_lt = v.cx_lt;
        cy_lt = v.cy_lt;
        region = v.region;
        bot_lt = v.bot_lt;
        sb_len = v.sb_len;
      })

pub restore_cursor-IsTerm : (t : VTerm) → IsTerm t → IsTerm (restore_cursor t)
unfolding restore_cursor
restore_cursor-IsTerm t v = record {
  main_len = v.main_len;
  alt_len = v.alt_len;
  cx_lt = omega (arith, v.cx_lt);
  cy_lt = omega (arith, v.cy_lt);
  region = v.region;
  bot_lt = v.bot_lt;
  sb_len = v.sb_len;
}

-- Another screen shown, of the same size.
switched :
    (t : VTerm) (alt : List VCell) (on : Bool)
    → length alt ≡ length t.alt
    → IsTerm t
    → IsTerm (record t { alt = alt; on_alt = on; on_screen = on; wrap_pending = false })
switched t alt on e v = record {
  main_len = v.main_len;
  alt_len = e ∙ v.alt_len;
  cx_lt = v.cx_lt;
  cy_lt = v.cy_lt;
  region = v.region;
  bot_lt = v.bot_lt;
  sb_len = v.sb_len;
}

pub set_alt_screen-IsTerm :
    (t : VTerm) (on clear : Bool) → IsTerm t → IsTerm (set_alt_screen t on clear)
unfolding set_alt_screen
set_alt_screen-IsTerm t on clear v =
    let cells = write_cells t.alt 0 (replicate (t.rows * t.cols) (blank none)) in
    either-IsTerm (if on then t.on_alt else not t.on_alt) t _ v (
      either-IsTerm (on && clear) _ _ (switched t cells on (length-write_cells t.alt 0 _) v)
        (switched t t.alt on refl v))
