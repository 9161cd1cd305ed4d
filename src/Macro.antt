-- ===== src/Macro.antt =====
-- Keyboard macros: src/macro.c, the reading of keys in src/getkey.c that records them, and what
-- `call_command` of src/bind.c does for macros. What the commands of a macro do is not modelled, and
-- `last_key` is left out.
use xzile.Prelude.{
  ℕ, zero, suc, ◌+◌, ◌-◌, ◌*◌, ◌/◌, ◌%◌, ◌^◌, ◌≤◌, ◌<◌, min, max, ◌≡◌, refl, sym, ap, ap₂, ◌∙◌,
  fun_ext, ◌≢◌, ◌↔◌, ◌⊎◌, inl, inr, Bool, true, false, ◌&&◌, ◌||◌, not, Option, none, some, List,
  [], ◌∷◌, ◌++◌, map, append-nil, append_assoc, arith, ltb, leb, ◌==◌, if◌then◌else◌, ltb→lt,
  lt→ltb, leb→le, ==_iff, tests, Bool-cases, Option-cases, length, get_elem?, set, get_or, take,
  drop, replicate, length-append, length-set, length-take, length-drop, length-replicate,
  length-map, take-append-drop, ext_get, get-append, get-take, get-drop, get-replicate, get-ge,
  drop-nil, drop-drop, drop-cons_pos, drop-ge, take-ge, slices, lengths,
}
use mathlib.Core.Option.{map as map_option}
use xzile.TermKeys.{TermKeys, term_getkey, term_ungetkey}
pub mod Record
mod Tests

-- `cur_mp`, `cmd_mp`, FLAG_DEFINING_MACRO, and the keys of the terminal.
pub record Macros : Type 0 where
  pub cur_mp : Option (List ℕ)
  pub cmd_mp : Option (List ℕ)
  pub defining : Bool
  pub keys : TermKeys

unfoldable pub add_cmd_to_macro : Macros → Macros
add_cmd_to_macro m = elim m.cmd_mp [
  | none ↦ m
  | some cmd ↦ record m { cur_mp = map_option (λ cur. cur ++ cmd) m.cur_mp; cmd_mp = none }
]

-- The keys of the command being read.
abbrev pub cmd_keys : Macros → List ℕ
cmd_keys m = elim m.cmd_mp [ none ↦ [] | some cmd ↦ cmd ]

unfoldable pub add_key_to_cmd : Macros → ℕ → Macros
add_key_to_cmd m key = record m { cmd_mp = some (cmd_keys m ++ key ∷ []) }

unfoldable pub remove_key_from_cmd : Macros → Macros
remove_key_from_cmd m = record m { cmd_mp = map_option (λ cmd. take (length cmd - 1) cmd) m.cmd_mp }

unfoldable pub cancel_kbd_macro : Macros → Macros
cancel_kbd_macro m = record m { cur_mp = none; cmd_mp = none; defining = false }

-- Whether the command succeeds, and the state.
unfoldable pub start_kbd_macro : Macros → Bool × Macros
start_kbd_macro m =
    let m' : Macros = elim m.cur_mp [ none ↦ m | some cur ↦ cancel_kbd_macro m ] in
    if m.defining then (false, m) else (true, record m' { cur_mp = some []; defining = true })

unfoldable pub end_kbd_macro : Macros → Bool × Macros
end_kbd_macro m =
    if m.defining then (true, record m { defining = false; cmd_mp = none }) else (false, m)

unfoldable pub getkeystroke : Bool → Macros → Option ℕ × Macros
getkeystroke alone m =
    let (key, keys) = term_getkey alone m.keys in
    let m' = record m { keys = keys } in
    elim key [
      | none ↦ (none, m')
      | some k ↦ (some k, if m.defining then add_key_to_cmd m' k else m')
    ]

unfoldable pub ungetkey : Macros → Option ℕ → Macros
ungetkey m key =
    let m' = record m { keys = term_ungetkey m.keys key } in
    if m.defining then remove_key_from_cmd m' else m'

-- What `call_command` of src/bind.c does for macros: the keys of a command `f` are added if a macro
-- was being defined before it and still is behind it.
unfoldable pub call_command : (Macros → Bool × Macros) → Macros → Bool × Macros
call_command f m =
    let (ok, m') = f m in (ok, if m.defining && m'.defining then add_cmd_to_macro m' else m')

-- The loop of `call_macro` that pushes the keys of the macro, the last one first.
unfoldable pub push_keys : List ℕ → TermKeys → TermKeys
push_keys [] t = t
push_keys (k ∷ ks) t = term_ungetkey (push_keys ks t) (some k)
