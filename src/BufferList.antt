-- ===== src/BufferList.antt =====
-- The list of buffers of src/buffer.c, most recently used first. A buffer is named by a number, the
-- pointer to it; the pointers `next` from `head_bp` on are the list.
mod Tests
use xzile.Prelude.{
  ℕ, zero, suc, ◌+◌, ◌-◌, ◌*◌, ◌/◌, ◌%◌, ◌^◌, ◌≤◌, ◌<◌, min, max, ◌≡◌, refl, sym, ap, ap₂, ◌∙◌,
  fun_ext, ◌≢◌, ◌↔◌, ◌⊎◌, inl, inr, Bool, true, false, ◌&&◌, ◌||◌, not, Option, none, some, List,
  [], ◌∷◌, ◌++◌, map, append-nil, append_assoc, arith, ltb, leb, ◌==◌, if◌then◌else◌, ltb→lt,
  lt→ltb, leb→le, ==_iff, tests, Bool-cases, Option-cases, length, get_elem?, set, get_or, take,
  drop, replicate, length-append, length-set, length-take, length-drop, length-replicate,
  length-map, take-append-drop, ext_get, get-append, get-take, get-drop, get-replicate, get-ge,
  drop-nil, drop-drop, drop-cons_pos, drop-ge, take-ge, slices, lengths,
}
use xzile.StrVec.{same_bytes}

-- `name_of` is the field `name`, none for NULL.
unfoldable pub buffer_find : (ℕ → Option (List ℕ)) → List ℕ → List ℕ → Option ℕ
buffer_find name_of [] name = none
buffer_find name_of (bp ∷ next) name =
    let rest = buffer_find name_of next name in
    elim (name_of bp) [ none ↦ rest | some n ↦ if same_bytes n name then some bp else rest ]

unfoldable pub buffer_is_live : List ℕ → ℕ → Bool
buffer_is_live [] bp = false
buffer_is_live (it ∷ next) bp = it == bp || buffer_is_live next bp

-- The list without the first place of `bp`, which it is unlinked from.
unfoldable pub unlink : List ℕ → ℕ → List ℕ
unlink [] bp = []
unlink (it ∷ next) bp = let rest = unlink next bp in if it == bp then next else it ∷ rest

-- The loop runs past the end of the list if `bp` is not in it: `none`.
unfoldable pub move_to_head : List ℕ → ℕ → Option (List ℕ)
move_to_head head_bp bp = if buffer_is_live head_bp bp then some (bp ∷ unlink head_bp bp) else none

-- The part of `buffer_set_temporary` that moves the buffer to the end of the list.
unfoldable pub move_to_end : List ℕ → ℕ → List ℕ
move_to_end head_bp bp = unlink head_bp bp ++ bp ∷ []
