-- ===== src/VTerm/Feed/Safe.antt =====
-- Whatever bytes a terminal of src/vterm.c is sent, it stays well-formed.
use xzile.Prelude.{
  ℕ, ◌*◌, ◌≤◌, ◌<◌, max, ◌≡◌, refl, Bool, true, false, ◌&&◌, none, List, [], ◌∷◌, arith, ◌==◌,
  if◌then◌else◌, length, get_or, length-replicate,
}
use xzile.VTerm.{VAttr, VTerm, blank, reset_tabs}
use xzile.VTerm.Bounds.{IsTerm}
use xzile.VTerm.Cursor.{
  save_cursor-IsTerm, restore_cursor-IsTerm, set_alt_screen-IsTerm, move_to-IsTerm,
}
use xzile.VTerm.Dispatch.Safe.{AllCases, ◌▸◌, either_lem, select_lem}
use xzile.VTerm.Sgr.{sgr}
use xzile.VTerm.Modes.{
  Parser, Emulator, max_params, max_osc, reset, reset_screen, new_term, vterm_new, reply, with_term,
  private_mode, mode_set, modes_set, set_mode,
}
use xzile.VTerm.Feed.{device_attributes, status_report, window_report, select_rendition}

-- The buffers of the parser are within their arrays: at most 32 parameters, and their flags, a
-- command with room for its NUL, and an unfinished character shorter than its sequence.
pub record IsParser (p : Parser) : Type 0 where
  pub params_len : length p.params ≤ max_params
  pub colon_len : length p.param_colon ≡ max_params
  pub osc_lt : length p.osc < max_osc
  pub need_le : p.utf8_need ≤ 4
  pub utf8_lt : length p.utf8 < max 1 p.utf8_need

pub record IsEmulator (e : Emulator) : Type 0 where
  pub term_ok : IsTerm e.term
  pub parser_ok : IsParser e.parser

pub term_lem : (e : Emulator) (t : VTerm) → IsTerm t → IsEmulator e → IsEmulator (with_term e t)
term_lem e t h v = record { term_ok = h; parser_ok = v.parser_ok }

reset_screen-IsTerm : (t : VTerm) → IsTerm t → IsTerm (reset_screen t)
unfolding reset_screen reset_tabs
reset_screen-IsTerm t v = record {
  main_len = v.main_len;
  alt_len = v.alt_len;
  cx_lt = omega (arith, v.cx_lt);
  cy_lt = omega (arith, v.cy_lt);
  region = omega arith;
  bot_lt = omega (arith, v.cy_lt);
  sb_len = v.sb_len;
}

pub reset-IsEmulator : (e : Emulator) → IsEmulator e → IsEmulator (reset e)
unfolding reset
reset-IsEmulator e v = record {
  term_ok = reset_screen-IsTerm e.term v.term_ok;
  parser_ok = v.parser_ok;
}

-- Fields of the screen that have no bounds.
pub free_fields :
    (t : VTerm) (attr : VAttr) (origin autowrap insert wrap g0 g1 : Bool)
    → IsTerm t
    → IsTerm (record t {
      attr = attr;
      origin = origin;
      autowrap = autowrap;
      insert = insert;
      wrap_pending = wrap;
      g0_graphics = g0;
      g1_graphics = g1;
    })
free_fields t attr origin autowrap insert wrap g0 g1 v = record {
  main_len = v.main_len;
  alt_len = v.alt_len;
  cx_lt = v.cx_lt;
  cy_lt = v.cy_lt;
  region = v.region;
  bot_lt = v.bot_lt;
  sb_len = v.sb_len;
}

private_mode-IsEmulator :
    (on : Bool) (m : ℕ) (e : Emulator) → IsEmulator e → IsEmulator (private_mode on m e)
unfolding private_mode AllCases
private_mode-IsEmulator on m e v =
    let t = e.term in
    let h = v.term_ok in
    let p = v.parser_ok in
    let alt = set_alt_screen-IsTerm t on on h in
    let origin =
      move_to-IsTerm _ 0 0 (
        free_fields t t.attr on t.autowrap t.insert t.wrap_pending t.g0_graphics t.g1_graphics h) in
    let wrap =
      free_fields t t.attr t.origin on t.insert (if on then t.wrap_pending else false) t.g0_graphics
        t.g1_graphics h in
    let saved = either_lem IsTerm on _ _ (save_cursor-IsTerm t h) (restore_cursor-IsTerm t h) in
    let both =
      either_lem IsTerm on _ _ (set_alt_screen-IsTerm _ true true (save_cursor-IsTerm t h))
        (restore_cursor-IsTerm _ (set_alt_screen-IsTerm t false false h)) in
    select_lem IsEmulator _ m e
      (record { term_ok = h; parser_ok = p }
        ▸ term_lem e _ origin v
        ▸ term_lem e _ wrap v
        ▸ record { term_ok = h; parser_ok = p }
        ▸ term_lem e _ alt v
        ▸ term_lem e _ alt v
        ▸ term_lem e _ saved v
        ▸ term_lem e _ both v
        ▸ record { term_ok = h; parser_ok = p }
        ▸ record { term_ok = h; parser_ok = p }
        ▸ record { term_ok = h; parser_ok = p }
        ▸ record { term_ok = h; parser_ok = p }
        ▸ record { term_ok = h; parser_ok = p }
        ▸ record { term_ok = h; parser_ok = p }
        ▸ record { term_ok = h; parser_ok = p }
        ▸ record { term_ok = h; parser_ok = p }
        ▸ tt)
      v

mode_set-IsEmulator :
    (on : Bool) (m : ℕ) (e : Emulator) → IsEmulator e → IsEmulator (mode_set on m e)
unfolding mode_set
mode_set-IsEmulator on m e v =
    let t = e.term in
    let inserted =
      free_fields t t.attr t.origin t.autowrap on t.wrap_pending t.g0_graphics t.g1_graphics
        v.term_ok in
    either_lem IsEmulator (e.parser.private_mark == 63) _ _ (private_mode-IsEmulator on m e v)
      (either_lem IsEmulator (e.parser.private_mark == 0 && m == 4) _ e (term_lem e _ inserted v) v)

modes_set-IsEmulator :
    (on : Bool) (ms : List ℕ) (e : Emulator) → IsEmulator e → IsEmulator (modes_set on ms e)
unfolding modes_set
modes_set-IsEmulator on [] e v = v
modes_set-IsEmulator on (m ∷ ms) e v =
    modes_set-IsEmulator on ms (mode_set on m e) (mode_set-IsEmulator on m e v)

pub set_mode-IsEmulator : (on : Bool) (e : Emulator) → IsEmulator e → IsEmulator (set_mode on e)
unfolding set_mode
set_mode-IsEmulator on e v = modes_set-IsEmulator on _ e v

-- A reply, or none.
reply-IsEmulator : (e : Emulator) (s : List ℕ) → IsEmulator e → IsEmulator (reply e s)
unfolding reply
reply-IsEmulator e s v = record { term_ok = v.term_ok; parser_ok = v.parser_ok }

pub device_attributes-IsEmulator : (e : Emulator) → IsEmulator e → IsEmulator (device_attributes e)
unfolding device_attributes
device_attributes-IsEmulator e v =
    either_lem IsEmulator (e.parser.private_mark == 62) _ _ (reply-IsEmulator e _ v)
      (either_lem IsEmulator (e.parser.private_mark == 0) _ e (reply-IsEmulator e _ v) v)

pub status_report-IsEmulator : (e : Emulator) → IsEmulator e → IsEmulator (status_report e)
unfolding status_report
status_report-IsEmulator e v =
    let how = get_or e.parser.params 0 0 in
    either_lem IsEmulator (how == 5) _ _ (reply-IsEmulator e _ v)
      (either_lem IsEmulator (how == 6) _ e (reply-IsEmulator e _ v) v)

pub window_report-IsEmulator : (e : Emulator) → IsEmulator e → IsEmulator (window_report e)
unfolding window_report
window_report-IsEmulator e v =
    either_lem IsEmulator (get_or e.parser.params 0 0 == 18) _ e (reply-IsEmulator e _ v) v

pub select_rendition-IsEmulator : (e : Emulator) → IsEmulator e → IsEmulator (select_rendition e)
unfolding select_rendition
select_rendition-IsEmulator e v =
    let t = e.term in
    let set =
      free_fields t (sgr e.parser.params e.parser.param_colon t.attr) t.origin t.autowrap t.insert
        t.wrap_pending t.g0_graphics t.g1_graphics v.term_ok in
    either_lem IsEmulator (e.parser.private_mark == 0) _ e (term_lem e _ set v) v

new_term-IsTerm : (rows cols : ℕ) → IsTerm (reset_screen (new_term rows cols))
unfolding reset_screen new_term reset_tabs
new_term-IsTerm rows cols = record {
  main_len = length-replicate (max rows 1 * max cols 1) (blank none);
  alt_len = length-replicate (max rows 1 * max cols 1) (blank none);
  cx_lt = omega arith;
  cy_lt = omega arith;
  region = omega arith;
  bot_lt = omega arith;
  sb_len = omega arith;
}

pub vterm_new-IsEmulator : (rows cols : ℕ) → IsEmulator (vterm_new rows cols)
unfolding vterm_new reset
vterm_new-IsEmulator rows cols = record {
  term_ok = new_term-IsTerm rows cols;
  parser_ok = record {
    params_len = omega arith;
    colon_len = refl;
    osc_lt = omega arith;
    need_le = omega arith;
    utf8_lt = omega arith;
  };
}
