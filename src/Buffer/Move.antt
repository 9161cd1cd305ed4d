-- ===== src/Buffer/Move.antt =====
-- Movement of point by characters and lines, and the insertion and deletion of characters, of
-- src/buffer.c. The flag of the active mark is left out.
use xzile.Prelude.{
  ℕ, zero, suc, ◌+◌, ◌-◌, ◌/◌, ◌%◌, ◌^◌, Bool, true, false, ◌&&◌, not, Option, none, some, [], ◌∷◌,
  ltb, leb, ◌==◌, if◌then◌else◌,
}
use xzile.Estr.{view, lf, ev_empty, eol_len, ◌>>=◌}
use xzile.Utf8.{utf8_char_display_width}
use xzile.Buffer.{
  Display, Buffer, buffer_eol, buffer_get_char, buffer_get_utf8_char, buffer_line_o,
  buffer_line_len, buffer_bobp, buffer_eobp, buffer_bolp, buffer_eolp, buffer_prev_line,
  buffer_next_line,
}
use xzile.Buffer.Replace.{set_pt, buffer_goto_offset, buffer_replace_estr, buffer_insert_estr}

abbrev resync : Buffer → Buffer
resync bp = record bp { need_resync = true }

-- The loop of `prev_char_o` from `p` down to `limit`.
unfoldable pub skip_back : ℕ → Buffer → ℕ → ℕ
skip_back zero bp limit = 0
skip_back (suc p) bp limit =
    let further = skip_back p bp limit in
    if ltb limit (suc p) && buffer_get_char bp (suc p) / 64 == 2 then further else suc p

unfoldable pub prev_char_o : Buffer → ℕ
prev_char_o bp =
    let p = skip_back (bp.pt - 1) bp (buffer_line_o bp) in
    let char_len = (buffer_get_utf8_char bp p).1 in if p + char_len == bp.pt then p else bp.pt - 1

-- Where an operation goes wrong it returns the buffer as it is then, and false.
abbrev pub Outcome : Type 0
Outcome = Option (Buffer × Bool)

module _ (d : Display) where
  unfoldable pub buffer_insert_char : Buffer → ℕ → Outcome
  buffer_insert_char bp c = buffer_insert_estr d bp (view (c ∷ []) lf)

  unfoldable pub goto_end_of_line : Buffer → Option Buffer
  goto_end_of_line bp =
      buffer_goto_offset d bp (buffer_line_o bp + buffer_line_len bp bp.pt)
      >>= (λ bp'. some (record bp' { goalc = none }))

  -- A step forward, and a step back, of `buffer_move_char`.
  unfoldable pub char_forward : Buffer → Outcome
  char_forward bp =
      if not (buffer_eolp bp)
      then set_pt d bp (bp.pt + (buffer_get_utf8_char bp bp.pt).1) >>= (λ bp'. some (bp', true))
      else if not (buffer_eobp bp)
      then set_pt d (resync bp) (bp.pt + eol_len (buffer_eol bp))
        >>= (λ bp'. buffer_goto_offset d bp' (buffer_line_o bp'))
        >>= (λ bp'. some (bp', true))
      else some (bp, false)

  unfoldable pub char_back : Buffer → Outcome
  char_back bp =
      if not (buffer_bolp bp)
      then set_pt d bp (prev_char_o bp) >>= (λ bp'. some (bp', true))
      else if not (buffer_bobp bp)
      then set_pt d (resync bp) (bp.pt - eol_len (buffer_eol bp))
        >>= goto_end_of_line
        >>= (λ bp'. some (bp', true))
      else some (bp, false)

  -- `n` steps, of which the first that fails ends the loop.
  unfoldable pub repeat_steps : ℕ → (Buffer → Outcome) → Buffer → Outcome
  repeat_steps zero step bp = some (bp, true)
  repeat_steps (suc n) step bp =
      step bp >>= λ r. elim r.1 [ true ↦ repeat_steps n step r.0 | false ↦ some (r.0, false) ]

  -- `forward` and `n` are the sign and the size of `offset`.
  abbrev pub buffer_move_char : Buffer → Bool → ℕ → Outcome
  buffer_move_char bp forward n = repeat_steps n (if forward then char_forward else char_back) bp

  unfoldable pub buffer_delete_char : Buffer → Outcome
  buffer_delete_char bp =
      if buffer_eobp bp
      then some (bp, false)
      else if bp.readonly
      then some (bp, false)
      else if buffer_eolp bp
      then buffer_replace_estr d bp (eol_len (buffer_eol bp)) ev_empty
        >>= (λ r. some (record r.0 { modified = true; need_resync = true }, true))
      else buffer_replace_estr d bp (buffer_get_utf8_char bp bp.pt).1 ev_empty
        >>= (λ r. some (record r.0 { modified = true }, true))

  unfoldable pub buffer_backward_delete_char : Buffer → Outcome
  buffer_backward_delete_char bp = buffer_move_char bp false 1 >>= (λ r. elim r.1 [
    | false ↦ some (r.0, false)
    | true ↦ buffer_delete_char r.0 >>= λ s. some (s.0, true)
  ])

  -- The loop of `buffer_goto_goalc`, from `i` in column `col` to `line_end`. `line_end` is fuel
  -- enough, since a character within the line has a byte at least.
  unfoldable pub goalc_offset : ℕ → Buffer → ℕ → ℕ → ℕ → ℕ → ℕ
  goalc_offset zero bp goal line_end i col = i
  goalc_offset (suc fuel) bp goal line_end i col =
      let (ch, char_len) = buffer_get_utf8_char bp i in
      let w =
        if ch == 9 then d.tab_width - col % d.tab_width else utf8_char_display_width d.wcwidth ch in
      elim (ltb i line_end && ltb col goal && leb (col + w) goal) [
        | false ↦ i
        | true ↦ goalc_offset fuel bp goal line_end (i + char_len) (col + w)
      ]

  -- The goal column is NOPOS, the largest `size_t`, where `goalc` is none.
  unfoldable pub buffer_goto_goalc : Buffer → Option Buffer
  buffer_goto_goalc bp =
      let i = buffer_line_o bp in
      let line_end = i + buffer_line_len bp bp.pt in
      let goal : ℕ = elim bp.goalc [ none ↦ 2 ^ 64 - 1 | some c ↦ c ] in
      set_pt d bp (goalc_offset (line_end + 1) bp goal line_end i 0)

  -- The loop of `buffer_move_line`: the buffer, and the lines left.
  unfoldable pub move_lines : ℕ → Bool → Buffer → Option (Buffer × ℕ)
  move_lines zero forward bp = some (bp, 0)
  move_lines (suc n) forward bp =
      elim (if forward then buffer_next_line bp bp.pt else buffer_prev_line bp bp.pt) [
        | none ↦ some (bp, suc n)
        | some o ↦ set_pt d bp o >>= λ bp'. move_lines n forward bp'
      ]

  unfoldable pub buffer_move_line : Buffer → Bool → ℕ → Outcome
  buffer_move_line bp forward n = move_lines n forward bp >>= (λ r.
      buffer_goto_goalc (record r.0 { goalc = bp.goalc })
      >>= (λ bp'. some (record bp' { goalc = bp.goalc; need_resync = true }, r.1 == 0)))
