-- ===== src/Undo/Tests.antt =====
-- Undo on the small buffer of Buffer/Tests.
use xzile.Prelude.{◌≡◌, refl, true, some, [], ◌∷◌, arith}
use xzile.Bytes.{is_prefix}
use xzile.Estr.{lf, Estr}
use xzile.Estr.Convert.{convert}
use xzile.Buffer.{Buffer, Undo}
use xzile.Buffer.Tests.{display, scratch, scratch-HasGap, inserted_text}
use xzile.Undo.{undo, revert_entry}
use xzile.Undo.Revert.{Reverted, saved_block, revert_entry-Reverted}
use xzile.Undo.Command.{edit, Undone, to_undo, undo-edit}

-- "Q"
abbrev saved : Estr
saved = record { text = 81 ∷ []; buf_size = 16; eol = lf }

revert_entry-Reverted_example :
    (bp' : Buffer) × (revert_entry display scratch (saved_block 3 1 saved true) ≡ some bp')
    × Reverted scratch bp' 3 1 (81 ∷ []) true
revert_entry-Reverted_example =
    revert_entry-Reverted display scratch 3 1 saved true scratch-HasGap refl (omega arith) refl
      (omega arith, omega arith)

undo-edit_example :
    (b2 : Buffer) × (edit display scratch 1 inserted_text ≡ some b2)
    × ((b3 : Buffer) × (undo display b2 ≡ some (b3, true))
        × Undone display scratch 1 inserted_text b3
        × ((l : Undo) × (b3.last_undo ≡ l ∷ b2.last_undo))
        × (to_undo b3 ≡ []))
unfolding convert is_prefix
undo-edit_example =
    undo-edit display scratch 1 inserted_text scratch-HasGap refl refl (omega arith) (omega arith)
