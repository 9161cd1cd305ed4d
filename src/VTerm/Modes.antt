-- ===== src/VTerm/Modes.antt =====
-- The whole state of a terminal of src/vterm.c: its screen with the modes, the parser of its input,
-- the replies written to the program, and the operating system commands passed on. `param_colon` is
-- the array of 32 flags; of `params`, `osc` and `utf8` only the used part is in the lists.
use xzile.Prelude.{
  ℕ, ◌-◌, ◌*◌, max, Bool, true, false, ◌&&◌, none, some, List, [], ◌∷◌, ◌++◌, ◌==◌, if◌then◌else◌,
  length, replicate,
}
use xzile.VTerm.{
  VTerm, SavedCursor, default_vattr, blank, reset_tabs, move_to, save_cursor, restore_cursor,
  set_alt_screen,
}
use xzile.VTerm.Dispatch.{select}

pub record Modes : Type 0 where
  pub app_cursor : Bool
  pub app_keypad : Bool
  pub cursor_visible : Bool
  pub bracketed_paste : Bool
  pub mouse_mode : ℕ
  pub mouse_enc : ℕ

pub data ParseState : Type 0 where
  s_ground s_escape s_escape_inter s_csi s_osc s_osc_esc s_string s_string_esc : ParseState

pub record Parser : Type 0 where
  pub state : ParseState
  pub inter : ℕ
  pub private_mark : ℕ
  pub params : List ℕ
  pub param_colon : List Bool
  pub param_started : Bool
  pub osc : List ℕ
  pub utf8 : List ℕ
  pub utf8_need : ℕ

pub record Emulator : Type 0 where
  pub term : VTerm
  pub modes : Modes
  pub parser : Parser
  pub replies : List (List ℕ)
  pub commands : List (List ℕ × List ℕ)

abbrev pub max_params : ℕ
max_params = 32

abbrev pub max_osc : ℕ
max_osc = 4096

abbrev pub initial_modes : Modes
initial_modes = record {
  app_cursor = false;
  app_keypad = false;
  cursor_visible = true;
  bracketed_paste = false;
  mouse_mode = 0;
  mouse_enc = 0;
}

unfoldable pub reset_screen : VTerm → VTerm
reset_screen t =
    let s : SavedCursor = record t.saved_main { x = 0; y = 0; attr = default_vattr } in
    reset_tabs (record t {
      attr = default_vattr;
      cx = 0;
      cy = 0;
      wrap_pending = false;
      top = 0;
      bot = t.rows - 1;
      origin = false;
      insert = false;
      autowrap = true;
      g0_graphics = false;
      g1_graphics = false;
      shift_out = false;
      on_alt = false;
      on_screen = false;
      saved_main = s;
      saved_alt = s;
    })

unfoldable pub reset : Emulator → Emulator
reset e = record e { term = reset_screen e.term; modes = initial_modes }

abbrev pub zeroed_cursor : SavedCursor
zeroed_cursor = record {
  x = 0;
  y = 0;
  attr = record { fg = some 0; bg = some 0; flags = 0 };
  origin = false;
  wrap_pending = false;
  graphics = false;
}

-- The screen as it is when `vterm_new` calls `reset`.
unfoldable pub new_term : ℕ → ℕ → VTerm
new_term rows cols =
    let screen = replicate (max rows 1 * max cols 1) (blank none) in
    record {
      rows = max rows 1;
      cols = max cols 1;
      main = screen;
      alt = screen;
      on_screen = false;
      on_alt = false;
      cx = 0;
      cy = 0;
      wrap_pending = false;
      attr = default_vattr;
      top = 0;
      bot = 0;
      origin = false;
      autowrap = false;
      insert = false;
      tabs = [];
      g0_graphics = false;
      g1_graphics = false;
      shift_out = false;
      saved_main = zeroed_cursor;
      saved_alt = zeroed_cursor;
      last_char = 0;
      sb = [];
      scrolled = 0;
    }

abbrev pub new_parser : Parser
new_parser = record {
  state = s_ground;
  inter = 0;
  private_mark = 0;
  params = [];
  param_colon = replicate 32 false;
  param_started = false;
  osc = [];
  utf8 = [];
  utf8_need = 0;
}

unfoldable pub vterm_new : ℕ → ℕ → Emulator
vterm_new rows cols = reset (record {
  term = new_term rows cols;
  modes = initial_modes;
  parser = new_parser;
  replies = [];
  commands = [];
})

unfoldable pub reply : Emulator → List ℕ → Emulator
reply e s = record e { replies = e.replies ++ s ∷ [] }

abbrev pub with_term : Emulator → VTerm → Emulator
with_term e t = record e { term = t }

abbrev pub with_modes : Emulator → Modes → Emulator
with_modes e m = record e { modes = m }

-- A mode of DECSET and DECRST.
unfoldable pub private_mode : Bool → ℕ → Emulator → Emulator
private_mode on m e =
    let t = e.term in
    let k = e.modes in
    let mouse = with_modes e (record k { mouse_mode = if on then m else 0 }) in
    let encoding =
      with_modes e
        (record k { mouse_enc = if on then m else if k.mouse_enc == m then 0 else k.mouse_enc }) in
    select
      ((1, with_modes e (record k { app_cursor = on }))
        ∷ (6, with_term e (move_to (record t { origin = on }) 0 0))
        ∷ (
          7,
          with_term e
              (record t { autowrap = on; wrap_pending = if on then t.wrap_pending else false }),
        )
        ∷ (25, with_modes e (record k { cursor_visible = on }))
        ∷ (47, with_term e (set_alt_screen t on on))
        ∷ (1047, with_term e (set_alt_screen t on on))
        ∷ (1048, with_term e (if on then save_cursor t else restore_cursor t))
        ∷ (
          1049,
          with_term e (
              if on
              then set_alt_screen (save_cursor t) true true
              else restore_cursor (set_alt_screen t false false)),
        )
        ∷ (2004, with_modes e (record k { bracketed_paste = on }))
        ∷ (9, mouse)
        ∷ (1000, mouse)
        ∷ (1002, mouse)
        ∷ (1003, mouse)
        ∷ (1005, encoding)
        ∷ (1006, encoding)
        ∷ (1015, encoding)
        ∷ [])
      m e

unfoldable pub mode_set : Bool → ℕ → Emulator → Emulator
mode_set on m e =
    let mark = e.parser.private_mark in
    if mark == 63
    then private_mode on m e
    else if mark == 0 && m == 4
    then with_term e (record e.term { insert = on })
    else e

-- The loop of `set_mode` over the parameters.
unfoldable pub modes_set : Bool → List ℕ → Emulator → Emulator
modes_set on [] e = e
modes_set on (m ∷ ms) e = modes_set on ms (mode_set on m e)

-- With no parameter, the loop runs once, for 0.
unfoldable pub set_mode : Bool → Emulator → Emulator
set_mode on e = modes_set on (if length e.parser.params == 0 then 0 ∷ [] else e.parser.params) e
