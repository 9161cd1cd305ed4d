-- ===== src/Buffer.antt =====
-- src/buffer.c: a buffer's text with its gap, point, marks, undo list and caches.
-- One buffer is modelled: `struct Buffer` less its names, modes and file, which the operations here
-- only read for messages. `need_resync` is the flag FLAG_NEED_RESYNC of the global `thisflag`.
pub mod Index
pub mod Replace
pub mod Gap
pub mod Point
pub mod Room
pub mod Opening
pub mod Region
pub mod Edit
pub mod Marker
pub mod Read
pub mod Move
pub mod Tests
use xzile.Prelude.{
  ℕ, zero, suc, ◌+◌, ◌-◌, ◌*◌, ◌/◌, ◌%◌, ◌^◌, ◌≤◌, ◌<◌, min, max, ◌≡◌, refl, sym, ap, ap₂, ◌∙◌,
  fun_ext, ◌≢◌, ◌↔◌, ◌⊎◌, inl, inr, Bool, true, false, ◌&&◌, ◌||◌, not, Option, none, some, List,
  [], ◌∷◌, ◌++◌, map, append-nil, append_assoc, arith, ltb, leb, ◌==◌, if◌then◌else◌, ltb→lt,
  lt→ltb, leb→le, ==_iff, tests, Bool-cases, Option-cases, length, get_elem?, set, get_or, take,
  drop, replicate, length-append, length-set, length-take, length-drop, length-replicate,
  length-map, take-append-drop, ext_get, get-append, get-take, get-drop, get-replicate, get-ge,
  drop-nil, drop-drop, drop-cons_pos, drop-ge, take-ge, slices, lengths,
}
use xzile.Estr.{
  Eol, EstrView, Estr, view, estr_view, ev_substring, ev_start_of_line, ev_end_of_line,
  ev_prev_line, ev_next_line,
}
use xzile.Utf8.{utf8_decode, utf8_char_display_width}

-- What the redisplay's columns depend on: `buffer_tab_width`, which reads a variable and is at
-- least 1, and the C library's `wcwidth`.
pub record Display : Type 0 where
  pub tab_width : ℕ
  pub wcwidth : ℕ → Option ℕ

pub data UndoType : Type 0 where
  start_sequence end_sequence save_block : UndoType

-- `struct Undo` less `next`: the deltas are a list, most recent first. `text` is none for NULL.
pub record Undo : Type 0 where
  pub type : UndoType
  pub o : ℕ
  pub size : ℕ
  pub text : Option Estr
  pub unchanged : Bool

-- The line index: `checkpoints` are the `line_checkpoints_n` offsets in use.
pub record LineIndex : Type 0 where
  pub checkpoints : List ℕ
  pub upto_line : ℕ
  pub upto_offset : ℕ

-- The syntax cache; `cached` says that `highlighter` and `syntax_states` are not NULL.
pub record SyntaxCache : Type 0 where
  pub cached : Bool
  pub valid_upto : ℕ
  pub valid_offset : ℕ

-- `next_undo` is the pointer `next_undop` into the undo list, as the number of deltas from it to
-- the end (0 for NULL), which a delta pushed in front leaves as it is. `markers` are the offsets of
-- the markers chained to the buffer. `goalc` is none for NOPOS.
pub record Buffer : Type 0 where
  pub text : Estr
  pub pt : ℕ
  pub gap : ℕ
  pub goalc : Option ℕ
  pub modified : Bool
  pub readonly : Bool
  pub noundo : Bool
  pub changes : ℕ
  pub last_undo : List Undo
  pub next_undo : ℕ
  pub markers : List ℕ
  pub index : LineIndex
  pub syntax : SyntaxCache
  pub need_resync : Bool

abbrev pub bytes : Buffer → List ℕ
bytes bp = bp.text.text

-- `none` is NOPOS.
unfoldable pub realo_to_o : Buffer → ℕ → ℕ
realo_to_o bp o = if ltb o (bp.pt + bp.gap) then min o bp.pt else o - bp.gap

abbrev pub realo_to_o? : Buffer → Option ℕ → Option ℕ
realo_to_o? bp none = none
realo_to_o? bp (some o) = some (realo_to_o bp o)

unfoldable pub o_to_realo : Buffer → ℕ → ℕ
o_to_realo bp o = if ltb o bp.pt then o else o + bp.gap

unfoldable pub buffer_length : Buffer → ℕ
buffer_length bp = realo_to_o bp (length (bytes bp))

abbrev pub buffer_eol : Buffer → Eol
buffer_eol bp = bp.text.eol

unfoldable pub buffer_start_of_line : Buffer → ℕ → ℕ
buffer_start_of_line bp o = realo_to_o bp (ev_start_of_line (estr_view bp.text) (o_to_realo bp o))

unfoldable pub buffer_end_of_line : Buffer → ℕ → ℕ
buffer_end_of_line bp o = realo_to_o bp (ev_end_of_line (estr_view bp.text) (o_to_realo bp o))

unfoldable pub buffer_prev_line : Buffer → ℕ → Option ℕ
buffer_prev_line bp o = realo_to_o? bp (ev_prev_line (estr_view bp.text) (o_to_realo bp o))

unfoldable pub buffer_next_line : Buffer → ℕ → Option ℕ
buffer_next_line bp o = realo_to_o? bp (ev_next_line (estr_view bp.text) (o_to_realo bp o))

unfoldable pub buffer_line_len : Buffer → ℕ → ℕ
buffer_line_len bp o =
    let ev = estr_view bp.text in
    let ro = o_to_realo bp o in
    realo_to_o bp (ev_end_of_line ev ro) - realo_to_o bp (ev_start_of_line ev ro)

abbrev pub buffer_line_o : Buffer → ℕ
buffer_line_o bp = buffer_start_of_line bp bp.pt

unfoldable pub buffer_get_char : Buffer → ℕ → ℕ
buffer_get_char bp o = get_or (bytes bp) (o_to_realo bp o) 0

-- The loop that fills `buf`.
unfoldable pub copy_chars : Buffer → ℕ → ℕ → List ℕ
copy_chars bp o zero = []
copy_chars bp o (suc n) = buffer_get_char bp o ∷ copy_chars bp (o + 1) n

-- The code point at `o` and its length.
unfoldable pub buffer_get_utf8_char : Buffer → ℕ → ℕ × ℕ
buffer_get_utf8_char bp o =
    let len = buffer_length bp in
    if leb len o then (0, 0) else utf8_decode (copy_chars bp o (min (len - o) 4)) 0

unfoldable pub buffer_pre_point : Buffer → EstrView
buffer_pre_point bp = ev_substring (estr_view bp.text) 0 bp.pt

unfoldable pub buffer_post_point : Buffer → EstrView
buffer_post_point bp =
    let post_gap = bp.pt + bp.gap in
    ev_substring (estr_view bp.text) post_gap (length (bytes bp) - post_gap)

abbrev pub buffer_bobp : Buffer → Bool
buffer_bobp bp = bp.pt == 0

abbrev pub buffer_eobp : Buffer → Bool
buffer_eobp bp = bp.pt == buffer_length bp

abbrev pub buffer_bolp : Buffer → Bool
buffer_bolp bp = bp.pt == buffer_line_o bp

abbrev pub buffer_eolp : Buffer → Bool
buffer_eolp bp = bp.pt - buffer_line_o bp == buffer_line_len bp bp.pt

abbrev pub buffer_is_empty_line : Buffer → Bool
buffer_is_empty_line bp = buffer_line_len bp bp.pt == 0

-- The loop of `buffer_is_blank_line` over the `n` bytes from `o` on.
unfoldable pub blanks : Buffer → ℕ → ℕ → Bool
blanks bp o zero = true
blanks bp o (suc n) = let c = buffer_get_char bp o in (c == b' ' || c == 9) && blanks bp (o + 1) n

abbrev pub buffer_is_blank_line : Buffer → Bool
buffer_is_blank_line bp = blanks bp (buffer_line_o bp) (buffer_line_len bp bp.pt)

unfoldable pub buffer_following_char : Buffer → ℕ
buffer_following_char bp =
    if buffer_eobp bp then 0 else if buffer_eolp bp then 10 else buffer_get_char bp bp.pt

unfoldable pub buffer_preceding_char : Buffer → ℕ
buffer_preceding_char bp =
    if buffer_bobp bp then 0 else if buffer_bolp bp then 10 else buffer_get_char bp (bp.pt - 1)

-- The loop of `buffer_calculate_goalc`. A character takes a byte at least, so `o` is fuel enough.
unfoldable pub goalc_from : ℕ → Display → Buffer → ℕ → ℕ → ℕ → ℕ
goalc_from zero d bp o pos col = col
goalc_from (suc fuel) d bp o pos col = elim (ltb pos o) [
  | false ↦ col
  | true ↦
      let (ch, char_len) = buffer_get_utf8_char bp pos in
      let width =
        if ch == 9 then d.tab_width - col % d.tab_width else utf8_char_display_width d.wcwidth ch in
      elim (char_len == 0) [
        | true ↦ col + width
        | false ↦ goalc_from fuel d bp o (pos + char_len) (col + width)
      ]
]

unfoldable pub buffer_calculate_goalc : Display → Buffer → ℕ → ℕ
buffer_calculate_goalc d bp o = goalc_from (o + 1) d bp o (buffer_start_of_line bp o) 0
