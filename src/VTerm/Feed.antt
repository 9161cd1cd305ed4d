-- ===== src/VTerm/Feed.antt =====
-- The input of a terminal of src/vterm.c, byte by byte: escape and control sequences, operating
-- system commands, and characters in UTF-8. `strtol` gives where a number ends and whether it is
-- out of range.
use xzile.Prelude.{
  ℕ, zero, suc, ◌+◌, ◌-◌, ◌*◌, ◌/◌, ◌%◌, ◌^◌, ◌≤◌, ◌<◌, min, max, ◌≡◌, refl, sym, ap, ap₂, ◌∙◌,
  fun_ext, ◌≢◌, ◌↔◌, ◌⊎◌, inl, inr, Bool, true, false, ◌&&◌, ◌||◌, not, Option, none, some, List,
  [], ◌∷◌, ◌++◌, map, append-nil, append_assoc, arith, ltb, leb, ◌==◌, if◌then◌else◌, ltb→lt,
  lt→ltb, leb→le, ==_iff, tests, Bool-cases, Option-cases, length, get_elem?, set, get_or, take,
  drop, replicate, length-append, length-set, length-take, length-drop, length-replicate,
  length-map, take-append-drop, ext_get, get-append, get-take, get-drop, get-replicate, get-ge,
  drop-nil, drop-drop, drop-cons_pos, drop-ge, take-ge, slices, lengths,
}
use xzile.Utf8.{replacement, utf8_seq_len, utf8_decode}
use xzile.VTerm.{VTerm, index_line, reverse_index, save_cursor, restore_cursor}
use xzile.VTerm.Put.{put_char}
use xzile.VTerm.Dispatch.{csi_screen, select, control, settled, erase_lines}
use xzile.VTerm.Sgr.{sgr}
use xzile.VTerm.Modes.{
  Parser, Emulator, ParseState, s_ground, s_escape, s_escape_inter, s_csi, s_osc, s_osc_esc,
  s_string, s_string_esc, max_params, max_osc, reset, reply, with_term, with_modes, set_mode,
}
pub mod Safe
pub mod Sequence
pub mod Bytes
pub mod Total

-- `%d` of a number below 10 ^ 10.
unfoldable pub digits : ℕ → ℕ → List ℕ
digits zero n = []
digits (suc fuel) n =
    let high = digits fuel (n / 10) in if n == 0 then [] else high ++ (48 + n % 10) ∷ []

abbrev pub decimal : ℕ → List ℕ
decimal n = if n == 0 then 48 ∷ [] else digits 10 n

-- A control sequence introducer, which the replies start with.
abbrev pub csi : List ℕ → List ℕ
csi s = 27 ∷ 91 ∷ s

unfoldable pub device_attributes : Emulator → Emulator
device_attributes e =
    if e.parser.private_mark == 62
    then reply e (csi (62 ∷ 48 ∷ 59 ∷ 50 ∷ 55 ∷ 54 ∷ 59 ∷ 48 ∷ 99 ∷ []))
    else if e.parser.private_mark == 0
    then reply e (csi (63 ∷ 54 ∷ 50 ∷ 59 ∷ 50 ∷ 50 ∷ 99 ∷ []))
    else e

unfoldable pub status_report : Emulator → Emulator
status_report e =
    let how = get_or e.parser.params 0 0 in
    let t = e.term in
    let mark = if e.parser.private_mark == 63 then 63 ∷ [] else [] in
    let row = decimal (t.cy - (if t.origin then t.top else 0) + 1) in
    if how == 5
    then reply e (csi (48 ∷ 110 ∷ []))
    else if how == 6
    then reply e (csi (mark ++ row ++ (59 ∷ []) ++ decimal (t.cx + 1) ++ 82 ∷ []))
    else e

unfoldable pub window_report : Emulator → Emulator
window_report e =
    if get_or e.parser.params 0 0 == 18
    then reply e (
        csi ((56 ∷ 59 ∷ []) ++ decimal e.term.rows ++ (59 ∷ []) ++ decimal e.term.cols ++ 116 ∷ []))
    else e

unfoldable pub select_rendition : Emulator → Emulator
select_rendition e =
    if e.parser.private_mark == 0
    then with_term e (record e.term { attr = sgr e.parser.params e.parser.param_colon e.term.attr })
    else e

unfoldable pub start_sequence : Emulator → ParseState → Emulator
start_sequence e s = record e {
  parser = record e.parser {
    state = s;
    inter = 0;
    private_mark = 0;
    params = [];
    param_started = false;
    osc = [];
    param_colon = replicate 32 false;
  };
}

abbrev pub in_state : Emulator → ParseState → Emulator
in_state e s = record e { parser = record e.parser { state = s } }

abbrev pub with_utf8 : Emulator → List ℕ → Emulator
with_utf8 e bytes = record e { parser = record e.parser { utf8 = bytes } }

-- A C string ends at the first NUL.
unfoldable pub until_byte : ℕ → List ℕ → List ℕ
until_byte b [] = []
until_byte b (c ∷ s) = let more = until_byte b s in if c == b then [] else c ∷ more

unfoldable pub esc_dispatch : Emulator → ℕ → Emulator
esc_dispatch e f =
    let t = e.term in
    let cleared = reset e in
    let on = λ (k : Bool). with_modes e (record e.modes { app_keypad = k }) in
    if e.parser.inter == 40
    then with_term e (record t { g0_graphics = f == 48 })
    else if e.parser.inter == 41
    then with_term e (record t { g1_graphics = f == 48 })
    else if not (e.parser.inter == 0)
    then e
    else select
        ((55, with_term e (save_cursor t))
          ∷ (56, with_term e (restore_cursor t))
          ∷ (68, with_term e (settled (index_line t)))
          ∷ (69, with_term e (settled (index_line (record t { cx = 0 }))))
          ∷ (72, with_term e (record t { tabs = set t.tabs t.cx true }))
          ∷ (77, with_term e (settled (reverse_index t)))
          ∷ (99, with_term cleared (erase_lines cleared.term 0 t.rows))
          ∷ (61, on true)
          ∷ (62, on false)
          ∷ [])
        f e

unfoldable pub feed_escape : Emulator → ℕ → Emulator
feed_escape e c =
    if leb 0x20 c && leb c 0x2F
    then record e { parser = record e.parser { inter = c; state = s_escape_inter } }
    else if c == 91
    then start_sequence e s_csi
    else if c == 93
    then start_sequence e s_osc
    else if c == 80 || c == 88 || c == 94 || c == 95
    then in_state e s_string
    else in_state (esc_dispatch e c) s_ground

-- A digit of the last parameter, the first one if there is none; `nparams` never exceeds the 32.
unfoldable pub feed_digit : Parser → ℕ → Parser
feed_digit p c =
    let params = if length p.params == 0 then 0 ∷ [] else p.params in
    let last = length params - 1 in
    let n = if p.param_started then get_or params last 0 else 0 in
    record p {
      params = set params last (if ltb 100000 n then n else n * 10 + (c - 48));
      param_started = true;
    }

unfoldable pub feed_separator : Parser → ℕ → Parser
feed_separator p c =
    let params = if length p.params == 0 then 0 ∷ [] else p.params in
    record p {
      params = if ltb (length params) max_params then params ++ 0 ∷ [] else params;
      param_colon = if c == 58 then set p.param_colon (length params - 1) true else p.param_colon;
      param_started = false;
    }

module _ (wcwidth : ℕ → Option ℕ) (strtol : List ℕ → ℕ × Bool) where
  -- `parse_long` of the number of a command, and the call of `osc_fn`.
  unfoldable pub osc_dispatch : Emulator → Emulator
  osc_dispatch e =
      let s = until_byte 0 e.parser.osc in
      let number = until_byte 59 s in
      let parsed = strtol number in
      if length number == length s
      then e
      else if length number == 0 || parsed.1 || not (parsed.0 == length number)
      then e
      else record e { commands = e.commands ++ (number, drop (length number + 1) s) ∷ [] }

  -- The cases that concern the modes, the attributes and the replies; all others, the screen.
  unfoldable pub csi_dispatch : Emulator → ℕ → Emulator
  csi_dispatch e f =
      let p = e.parser in
      let plain = p.private_mark == 0 in
      let screen = with_term e (csi_screen wcwidth plain p.params f e.term) in
      if not (p.inter == 0)
      then (if p.inter == 33 && f == 112 then reset e else e)
      else if not plain && not (p.private_mark == 63) && not (f == 99)
      then e
      else select
          ((99, device_attributes e)
            ∷ (104, set_mode true e)
            ∷ (108, set_mode false e)
            ∷ (109, select_rendition e)
            ∷ (110, status_report e)
            ∷ (114, if plain then screen else e)
            ∷ (115, if plain then screen else e)
            ∷ (117, if plain then screen else e)
            ∷ (116, window_report e)
            ∷ [])
          f screen

  abbrev pub put : Emulator → ℕ → Emulator
  put e c = with_term e (put_char wcwidth e.term c)

  -- The cases of `feed_byte` for the bytes of a string, or none where it goes on. `again` is its
  -- own recursive call.
  unfoldable pub feed_string :
      (Emulator → ℕ → Emulator) → Emulator → ℕ → ParseState → Option Emulator
  feed_string again e c s_osc = some (
      if c == 7
      then in_state (osc_dispatch e) s_ground
      else if c == 27
      then in_state e s_osc_esc
      else if ltb (length e.parser.osc) (max_osc - 1)
      then record e { parser = record e.parser { osc = e.parser.osc ++ c ∷ [] } }
      else e)
  feed_string again e c s_osc_esc =
      some (
        if c == 92 then in_state (osc_dispatch e) s_ground else again (start_sequence e s_escape) c)
  feed_string again e c s_string =
      some (if c == 27 then in_state e s_string_esc else if c == 7 then in_state e s_ground else e)
  feed_string again e c s_string_esc =
      some (if c == 92 then in_state e s_ground else in_state e s_string)
  feed_string again e c s_ground = none
  feed_string again e c s_escape = none
  feed_string again e c s_escape_inter = none
  feed_string again e c s_csi = none

  -- A byte of a character.
  unfoldable pub feed_ground : (Emulator → ℕ → Emulator) → Emulator → ℕ → Emulator
  feed_ground again e c =
      let bytes = e.parser.utf8 ++ c ∷ [] in
      let need = utf8_seq_len c in
      if ltb c 0x80
      then put (with_utf8 e []) c
      else if length e.parser.utf8 == 0
      then (if leb need 1
          then put e replacement
          else record e { parser = record e.parser { utf8 = c ∷ []; utf8_need = need } })
      else if c / 64 == 2
      then (if length bytes == e.parser.utf8_need
          then put (with_utf8 e []) (utf8_decode bytes 0).0
          else with_utf8 e bytes)
      else again (put (with_utf8 e []) replacement) c

  unfoldable pub feed_csi : Emulator → ℕ → Emulator
  feed_csi e c =
      let p = e.parser in
      if leb 48 c && leb c 57
      then record e { parser = feed_digit p c }
      else if c == 59 || c == 58
      then record e { parser = feed_separator p c }
      else if leb 60 c && leb c 63
      then record e { parser = record p { private_mark = c } }
      else if leb 0x20 c && leb c 0x2F
      then record e { parser = record p { inter = c } }
      else if leb 0x40 c && leb c 0x7E
      then in_state (csi_dispatch e c) s_ground
      else in_state e s_ground

  unfoldable pub feed_state : (Emulator → ℕ → Emulator) → Emulator → ℕ → ParseState → Emulator
  feed_state again e c s_ground = feed_ground again e c
  feed_state again e c s_escape = feed_escape e c
  feed_state again e c s_escape_inter =
      if leb 0x20 c && leb c 0x2F then e else in_state (esc_dispatch e c) s_ground
  feed_state again e c s_csi = feed_csi e c
  feed_state again e c s_osc = in_state e s_ground
  feed_state again e c s_osc_esc = in_state e s_ground
  feed_state again e c s_string = in_state e s_ground
  feed_state again e c s_string_esc = in_state e s_ground

  unfoldable pub feed_plain : (Emulator → ℕ → Emulator) → Emulator → ℕ → Emulator
  feed_plain again e c =
      if c == 27
      then start_sequence (with_utf8 e []) s_escape
      else if c == 24 || c == 26
      then in_state e s_ground
      else if ltb c 0x20
      then with_term e (control c e.term)
      else if c == 127
      then e
      else feed_state again e c e.parser.state

  -- `fuel` is the depth of its own calls: two are enough.
  unfoldable pub feed_byte : ℕ → Emulator → ℕ → Emulator
  feed_byte zero e c = e
  feed_byte (suc fuel) e c = elim (feed_string (feed_byte fuel) e c e.parser.state) [
    | some e' ↦ e'
    | none ↦ feed_plain (feed_byte fuel) e c
  ]

  unfoldable pub vterm_write : Emulator → List ℕ → Emulator
  vterm_write e [] = e
  vterm_write e (c ∷ s) = vterm_write (feed_byte 2 e c) s
