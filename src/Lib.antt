-- ===== src/Lib.antt =====
-- xzile, a small Emacs in C: its text engine, the layout of its windows, its histories, keys and
-- macros, completion, the reader of its commands, and its screens.
--
-- An edit of a buffer goes through these parts, each with a file here and child modules for its
-- proofs.
--
-- - Bytes (src/util.c, src/estr.c): the searches `xmemmem` and `memrmem`, and memmove and memset as
--   `overwrite` and `memset` on lists of bytes.
-- - Estr (src/estr.c): strings and views with a kind of line ends. A view is its bytes; the strings
--   `eol_lf`, `eol_crlf` and `eol_cr`, compared as pointers by the program, are constructors.
--   `Estr/Convert` has the conversion of line ends that the program's loops are compared with.
-- - Utf8 (src/utf8.c): decoding, encoding, stepping and the assembly of typed bytes.
-- - Buffer (src/buffer.c, regions of src/marker.c): `struct Buffer` less names, modes and file. A
--   buffer's text is an `Estr` with a gap behind point; `Buffer/Gap.contents` is the text without the
--   gap. `Buffer/Replace` has point movement (`set_pt`, `buffer_goto_offset`), regions and
--   `buffer_replace_estr`, whose three stages are `adjust_gap`, `zero_gap` and `estr_replace`;
--   `Buffer/Index` the line index and the syntax cache that an edit invalidates, and `Buffer/Move`
--   the movement by characters and lines.
-- - Undo (src/undo.c): the deltas that edits save, sequences of them, and the undo command.
-- - Layout (src/layout.c): the tree of splits of the screen. A split's ratio is the scaling of sizes
--   that it makes, since the program computes it in floating point.
-- - History (src/history.c): the lines typed in a prompt.
-- - StrVec, Paths and HashMap (src/util.c): sorted vectors of strings, paths, and maps from strings.
-- - BufferList (src/buffer.c) and Basic (src/basic.c): the order of the buffers, and the commands
--   that move point.
-- - Completion (src/completion.c): completing a text; the matches are a sorted vector (StrVec).
-- - Lisp (src/lisp.c): the reader of expressions, and the calls that a file of them makes.
-- - Keycode (src/keycode.c): the names of keys. TermKeys (src/term.c): keys and the codes of a
--   terminal, the keys pushed back, and the end of pasted text.
-- - Macro (src/macro.c, src/getkey.c, `call_command` of src/bind.c): keyboard macros, recorded as
--   keys are read, on TermKeys.
-- - Screen (src/screen.c): the grid of cells that both front ends show, and drawing into it.
-- - VTerm (src/vterm.c): the terminal emulator of terminal buffers: its screens and its cursor, in
--   `VTerm/Dispatch` what control characters and sequences do to them, in `VTerm/Modes` the whole
--   state with its modes and its parser, in `VTerm/Sgr` the attributes, in `VTerm/Feed` the state
--   machine that reads bytes, and in `VTerm/Resize` a new size. Replies and commands are logged.
-- - Regex (src/regex.c): programs of regular expressions and sets of characters; `Regex/Parse` and
--   `Regex/Bracket` are the parser from patterns to programs, `Regex/Run` the matcher by
--   backtracking (`match_here`), `Regex/Pike` the one by lockstep threads (`pike_run`), and
--   `Regex/Search` is `regex_search`, which calls them, and its loops for plain patterns. A read
--   out of bounds is a result of its own, and so is running out of fuel in `pike_run`.
-- - Prelude: the shared names, Boolean tests on the native numbers, and the lemmas on lists.
--
-- Each operation is one function of the state, with the C function's name; a loop within it is a
-- function of its own. Sizes are native numbers. Where the C code computes in `size_t` and the sum
-- can wrap, the wrap-around is written out modulo `size_mod`, 2 ^ 64; elsewhere the theorems' bounds
-- on the sizes keep sums below it. The `int` jumps of a regular expression's program are not bounded
-- here, which differs only from 2 ^ 31 instructions on. An `assert` that fails makes the result `none`, so a theorem
-- that a result is `some` says that every assertion holds.
--
-- Fuel: `count_lines`, `replace_lines` and `detect` run on the length of the text, of which each
-- round takes a byte at least; `goalc_from`, `goalc_offset`, `index_lines` and `lines_to` on the
-- offset that they go up to, which each round comes nearer; `revert_action` and `revert_until` on the
-- number of deltas, of which each round takes one; `lower_bound` on the length of the vector, of
-- which each round searches a shorter part; `read_list`, `keys_from`, `chord_from`, `draw_from` and
-- `common_end` on the number of bytes, of which each round takes one; `meta_key` on the number of codes; `put_tab` on
-- the eight columns up to a tab stop; `feed_byte` on the two calls that one byte can take;
-- `match_here` on the steps that the program itself allows; `add_thread` on the size of the regular
-- expression's program, of which each call marks a place, and `run_from` on the positions of the
-- text; the loops of the regular expressions' parser on the length of the pattern, of which each round takes a byte, and `parse_alt` on the
-- depth of groups, which the pattern's length bounds. The theorems on these functions are
-- about the fuel that the code is given here.
--
-- `wcwidth`, `isgraph`, `strtol`, the character classes and the tab width are
-- parameters. Not modelled are allocation, messages, the window system, and most parts above the
-- text engine: most commands, the list of windows, the minibuffer, files, processes and the
-- languages' modes.
pub mod Prelude
pub mod Bytes
pub mod Estr
pub mod Utf8
pub mod Buffer
pub mod Undo
pub mod Layout
pub mod History
pub mod StrVec
pub mod Paths
pub mod HashMap
pub mod BufferList
pub mod Basic
pub mod Completion
pub mod Lisp
pub mod Keycode
pub mod TermKeys
pub mod Screen
pub mod VTerm
pub mod Regex
pub mod Macro
