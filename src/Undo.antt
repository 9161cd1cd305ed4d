-- ===== src/Undo.antt =====
-- src/undo.c: the list of reverse deltas and the undo command.
-- The current buffer is passed on; the messages are left out. The pointer `l` into the list is what
-- the list holds from it on: reverting pushes deltas in front, and leaves the rest as it is.
pub mod Revert
pub mod Command
mod Tests
use xzile.Prelude.{
  ℕ, zero, suc, ◌+◌, ◌-◌, ◌*◌, ◌/◌, ◌%◌, ◌^◌, ◌≤◌, ◌<◌, min, max, ◌≡◌, refl, sym, ap, ap₂, ◌∙◌,
  fun_ext, ◌≢◌, ◌↔◌, ◌⊎◌, inl, inr, Bool, true, false, ◌&&◌, ◌||◌, not, Option, none, some, List,
  [], ◌∷◌, ◌++◌, map, append-nil, append_assoc, arith, ltb, leb, ◌==◌, if◌then◌else◌, ltb→lt,
  lt→ltb, leb→le, ==_iff, tests, Bool-cases, Option-cases, length, get_elem?, set, get_or, take,
  drop, replicate, length-append, length-set, length-take, length-drop, length-replicate,
  length-map, take-append-drop, ext_get, get-append, get-take, get-drop, get-replicate, get-ge,
  drop-nil, drop-drop, drop-cons_pos, drop-ge, take-ge, slices, lengths,
}
use xzile.Estr.{estr_view, ◌>>=◌}
use xzile.Buffer.{Display, Buffer, Undo, UndoType, start_sequence, end_sequence, save_block, bytes}
use xzile.Buffer.Replace.{buffer_goto_offset, buffer_replace_estr, undo_save}

unfoldable pub undo_start_sequence : Buffer → Option Buffer
undo_start_sequence bp = undo_save bp start_sequence bp.pt 0 0

-- The test on the last delta of `undo_end_sequence`; an empty sequence is dropped.
unfoldable pub close_sequence : Buffer → List Undo → Option Buffer
close_sequence bp [] = some bp
close_sequence bp (l ∷ next) = elim l.type [
  | start_sequence ↦ some (record bp {
    last_undo = next;
    next_undo = if bp.next_undo == length next + 1 then length next else bp.next_undo;
  })
  | other ↦ undo_save bp end_sequence 0 0 0
]

-- `undoing` says that the last command was `undo`.
unfoldable pub undo_end_sequence : Buffer → Bool → Option Buffer
undo_end_sequence bp undoing =
    close_sequence bp bp.last_undo
    >>= (λ bp'. some (if undoing then bp' else record bp' { next_undo = length bp'.last_undo }))

module _ (d : Display) where
  -- What `revert_action` does behind its loop, with an entry that is no UNDO_END_SEQUENCE.
  unfoldable pub revert_entry : Buffer → Undo → Option Buffer
  revert_entry bp l =
      buffer_goto_offset d bp l.o
      >>= (λ bp1. elim l.type [
        | save_block ↦
            l.text >>= λ text. buffer_replace_estr d bp1 l.size (estr_view text) >>= λ r. some r.0
        | other ↦ some bp1
      ])
      >>= (λ bp2. some (if l.unchanged then record bp2 { modified = false } else bp2))

  -- The loop of `revert_action`, whose body is a call of `step`, back to where a sequence starts.
  unfoldable pub revert_until :
      ℕ
      → (Buffer → List Undo → Option (Buffer × List Undo))
      → Buffer
      → List Undo
      → Option (Buffer × List Undo)
  revert_until zero step bp ls = none
  revert_until (suc fuel) step bp [] = some (bp, [])
  revert_until (suc fuel) step bp (l ∷ ls) = elim l.type [
    | start_sequence ↦ some (bp, l ∷ ls)
    | other ↦ step bp (l ∷ ls) >>= λ r. revert_until fuel step r.0 r.1
  ]

  -- The buffer and the entries left. Each call takes an entry, so their number is fuel enough.
  unfoldable pub revert_action : ℕ → Buffer → List Undo → Option (Buffer × List Undo)
  revert_action zero bp ls = none
  revert_action (suc fuel) bp [] = none
  revert_action (suc fuel) bp (l ∷ ls) = elim l.type [
    | end_sequence ↦ revert_until (suc (length ls)) (revert_action fuel) bp ls >>= λ r. elim r.1 [
      | [] ↦ some (r.0, [])
      | start ∷ rest ↦ revert_entry r.0 start >>= λ bp'. some (bp', rest)
    ]
    | other ↦ revert_entry bp l >>= λ bp'. some (bp', ls)
  ]

  -- `F_undo`: the buffer, and whether an action was reverted.
  unfoldable pub undo : Buffer → Option (Buffer × Bool)
  undo bp =
      if bp.noundo
      then some (bp, false)
      else if bp.readonly
      then some (bp, false)
      else if bp.next_undo == 0
      then some (record bp { next_undo = length bp.last_undo }, false)
      else revert_action (suc bp.next_undo) bp
          (drop (length bp.last_undo - bp.next_undo) bp.last_undo)
        >>= (λ r. some (record r.0 { next_undo = length r.1 }, true))

abbrev clear_unchanged : Undo → Undo
clear_unchanged l = record l { unchanged = false }

unfoldable pub undo_set_unchanged : List Undo → List Undo
undo_set_unchanged ls = map clear_unchanged ls

unfoldable pub undo_free_all : Buffer → Buffer
undo_free_all bp = record bp { last_undo = []; next_undo = 0 }
