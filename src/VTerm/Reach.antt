-- ===== src/VTerm/Reach.antt =====
-- Sequences of what is asked of a terminal of src/vterm.c, from its creation on.
use xzile.Prelude.{ℕ, Bool, Option, List, [], ◌∷◌}
use xzile.VTerm.Modes.{Emulator, vterm_new, with_term}
use xzile.VTerm.Feed.{vterm_write}
use xzile.VTerm.Resize.{vterm_resize}
use xzile.VTerm.Resize.Safe.{vterm_resize-IsTerm}
use xzile.VTerm.Feed.Safe.{IsEmulator, term_lem, vterm_new-IsEmulator}
use xzile.VTerm.Feed.Bytes.{vterm_write-IsEmulator}

-- The output of the program in the terminal, and a new size of its window.
pub data TermOp : Type 0 where
  op_write : (bytes : List ℕ) → TermOp
  op_resize : (rows cols : ℕ) → TermOp

module _ (wcwidth : ℕ → Option ℕ) (strtol : List ℕ → ℕ × Bool) where
  unfoldable pub run_op : TermOp → Emulator → Emulator
  run_op (op_write bytes) e = vterm_write wcwidth strtol e bytes
  run_op (op_resize rows cols) e = with_term e (vterm_resize e.term rows cols)

  unfoldable pub run_ops : List TermOp → Emulator → Emulator
  run_ops [] e = e
  run_ops (op ∷ ops) e = run_ops ops (run_op op e)

  run_op-IsEmulator : (op : TermOp) (e : Emulator) → IsEmulator e → IsEmulator (run_op op e)
  unfolding run_op
  run_op-IsEmulator (op_write bytes) e v = vterm_write-IsEmulator wcwidth strtol e bytes v
  run_op-IsEmulator (op_resize rows cols) e v =
      term_lem e _ (vterm_resize-IsTerm e.term rows cols v.term_ok) v

  run_ops_from : (ops : List TermOp) (e : Emulator) → IsEmulator e → IsEmulator (run_ops ops e)
  unfolding run_ops
  run_ops_from [] e v = v
  run_ops_from (op ∷ ops) e v = run_ops_from ops (run_op op e) (run_op-IsEmulator op e v)

  -- A new terminal of any size, sent any bytes and given any new sizes in any order, has its cursor
  -- on the screen, its scrolling region within it, all cells of both screens, at most 5000 lines of
  -- scrollback, and its parser within its arrays: at most 32 parameters and 4095 bytes of a
  -- command, and fewer bytes of an unfinished character than it has.
  pub run_ops-IsEmulator :
      (rows cols : ℕ) (ops : List TermOp) → IsEmulator (run_ops ops (vterm_new rows cols))
  run_ops-IsEmulator rows cols ops = run_ops_from ops _ (vterm_new-IsEmulator rows cols)
