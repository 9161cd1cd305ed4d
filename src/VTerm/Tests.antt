-- ===== src/VTerm/Tests.antt =====
-- A terminal of three rows and four columns, and what it is sent.
use xzile.Prelude.{ℕ, ◌≡◌, refl, Bool, true, false, Option, some, List, [], ◌∷◌}
use xzile.VTerm.{reset_tabs, default_vattr, dec_graphics, move_to}
use xzile.VTerm.Sgr.{set_bg, sgr, sgr_from, sgr_step, extended_color}
use xzile.VTerm.Sgr.Attrs.{default_vattr-IsAttr, IsAttr, sgr-IsAttr}
use xzile.VTerm.Dispatch.{csi_screen, csi_cases, select, param}
use xzile.VTerm.Modes.{vterm_new, new_term, reset_screen}
use xzile.VTerm.Feed.{feed_byte, digits}
use xzile.VTerm.Feed.Safe.{IsEmulator}
use xzile.VTerm.Feed.Total.{feed_byte-enough}
use xzile.VTerm.Reach.{TermOp, op_write, op_resize, run_ops, run_ops-IsEmulator}

abbrev one_column : ℕ → Option ℕ
one_column c = some 1

corner : dec_graphics 106 ≡ 0x2518
unfolding dec_graphics
corner = refl

cursor_position : (csi_screen one_column true (2 ∷ 9 ∷ []) 72 (reset_screen (new_term 3 4))).cx ≡ 3
unfolding csi_screen csi_cases select param move_to reset_screen new_term reset_tabs
cursor_position = refl

number : digits 10 2048 ≡ 50 ∷ 48 ∷ 52 ∷ 56 ∷ []
unfolding digits
number = refl

-- `48:2::10:20:30`
background :
    (sgr (48 ∷ 2 ∷ 0 ∷ 10 ∷ 20 ∷ 30 ∷ []) (true ∷ true ∷ true ∷ true ∷ true ∷ []) default_vattr).bg
    ≡ some 0x10A141E
unfolding sgr sgr_from sgr_step select extended_color set_bg
background = refl

-- A number that ends at the third byte.
abbrev three_digits : List ℕ → ℕ × Bool
three_digits s = (3, false)

-- A long control sequence, a colour, an open character, and a smaller window.
abbrev session : List TermOp
session =
    op_write (27 ∷ 91 ∷ 57 ∷ 57 ∷ 57 ∷ 66 ∷ 27 ∷ 91 ∷ 51 ∷ 49 ∷ 109 ∷ 0xE2 ∷ [])
    ∷ op_resize 2 2
    ∷ op_write (0x94 ∷ 97 ∷ [])
    ∷ []

run_ops-IsEmulator_example : IsEmulator (run_ops one_column three_digits session (vterm_new 3 4))
run_ops-IsEmulator_example = run_ops-IsEmulator one_column three_digits 3 4 session

feed_byte-enough_example :
    feed_byte one_column three_digits 7 (vterm_new 3 4) 97
    ≡ feed_byte one_column three_digits 2 (vterm_new 3 4) 97
feed_byte-enough_example = feed_byte-enough one_column three_digits 5 (vterm_new 3 4) 97

sgr-IsAttr_example : IsAttr (sgr (1 ∷ 38 ∷ 5 ∷ 999 ∷ []) [] default_vattr)
sgr-IsAttr_example = sgr-IsAttr (1 ∷ 38 ∷ 5 ∷ 999 ∷ []) [] default_vattr default_vattr-IsAttr
