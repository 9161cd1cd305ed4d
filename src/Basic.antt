-- ===== src/Basic.antt =====
-- Basic movement commands of src/basic.c on the current buffer; the messages are left out.
use xzile.Prelude.{
  ℕ, ◌+◌, ◌-◌, ◌^◌, min, max, Bool, true, false, ◌||◌, not, Option, none, some, leb, ◌==◌,
  if◌then◌else◌,
}
use xzile.Estr.{◌>>=◌}
use xzile.Buffer.{Display, Buffer, buffer_length, buffer_line_o, buffer_line_len}
use xzile.Buffer.Replace.{buffer_goto_offset}
use xzile.Buffer.Move.{Outcome, buffer_move_char}

module _ (d : Display) where
  -- A command that returns true.
  abbrev done : Option Buffer → Outcome
  done m = m >>= λ bp. some (bp, true)

  unfoldable pub beginning_of_line : Buffer → Outcome
  beginning_of_line bp = done (buffer_goto_offset d bp (buffer_line_o bp))

  unfoldable pub end_of_line : Buffer → Outcome
  end_of_line bp = done (
      buffer_goto_offset d bp (buffer_line_o bp + buffer_line_len bp bp.pt)
      >>= (λ bp'. some (record bp' { goalc = none })))

  -- `n` is the number given, 0 for a negative one, which `MAX (n, 1)` treats alike.
  unfoldable pub goto_char : Buffer → ℕ → Outcome
  goto_char bp n =
      if leb (2 ^ 63 - 2) n
      then some (bp, false)
      else done (buffer_goto_offset d bp (min (buffer_length bp) (max n 1 - 1)))

  unfoldable pub beginning_of_buffer : Buffer → Outcome
  beginning_of_buffer bp = done (buffer_goto_offset d bp 0)

  unfoldable pub end_of_buffer : Buffer → Outcome
  end_of_buffer bp = done (buffer_goto_offset d bp (buffer_length bp))

  -- `positive` and `n` are the sign and the size of `uniarg`; 0 counts as positive.
  unfoldable pub forward_char : Buffer → Bool → ℕ → Outcome
  forward_char bp positive n = buffer_move_char d bp positive n

  unfoldable pub backward_char : Buffer → Bool → ℕ → Outcome
  backward_char bp positive n = buffer_move_char d bp (not positive || n == 0) n
