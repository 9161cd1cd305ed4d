-- ===== src/BufferList/Tests.antt =====
-- Three buffers.
use xzile.Prelude.{◌≡◌, refl, some, [], ◌∷◌}
use xzile.BufferList.{buffer_is_live, unlink, move_to_head, move_to_end}

recent : move_to_head (1 ∷ 2 ∷ 3 ∷ []) 2 ≡ some (2 ∷ 1 ∷ 3 ∷ [])
unfolding move_to_head unlink buffer_is_live
recent = refl

temporary : move_to_end (1 ∷ 2 ∷ 3 ∷ []) 1 ≡ 2 ∷ 3 ∷ 1 ∷ []
unfolding move_to_end unlink
temporary = refl
