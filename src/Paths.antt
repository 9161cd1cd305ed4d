-- ===== src/Paths.antt =====
-- The functions on paths and the tests on strings of src/util.c. Strings are lists of bytes without
-- a NUL.
pub mod Join
mod Tests
use xzile.Prelude.{
  ℕ, zero, suc, ◌+◌, ◌-◌, ◌*◌, ◌/◌, ◌%◌, ◌^◌, ◌≤◌, ◌<◌, min, max, ◌≡◌, refl, sym, ap, ap₂, ◌∙◌,
  fun_ext, ◌≢◌, ◌↔◌, ◌⊎◌, inl, inr, Bool, true, false, ◌&&◌, ◌||◌, not, Option, none, some, List,
  [], ◌∷◌, ◌++◌, map, append-nil, append_assoc, arith, ltb, leb, ◌==◌, if◌then◌else◌, ltb→lt,
  lt→ltb, leb→le, ==_iff, tests, Bool-cases, Option-cases, length, get_elem?, set, get_or, take,
  drop, replicate, length-append, length-set, length-take, length-drop, length-replicate,
  length-map, take-append-drop, ext_get, get-append, get-take, get-drop, get-replicate, get-ge,
  drop-nil, drop-drop, drop-cons_pos, drop-ge, take-ge, slices, lengths,
}
use xzile.Bytes.{is_prefix}

abbrev pub slash : ℕ
slash = 47

-- `path[i - 1] == '/'` for a positive `i`
abbrev pub slash_before : List ℕ → ℕ → Bool
slash_before path i = get_or path (i - 1) 0 == slash

-- `while (len > 1 && path[len - 1] == '/') len--;`
unfoldable pub strip_slashes : List ℕ → ℕ → ℕ
strip_slashes path zero = 0
strip_slashes path (suc n) =
    let shorter = strip_slashes path n in
    if ltb 1 (suc n) && slash_before path (suc n) then shorter else suc n

-- `while (len > 0 && path[len - 1] != '/') len--;`
unfoldable pub strip_name : List ℕ → ℕ → ℕ
strip_name path zero = 0
strip_name path (suc n) =
    let shorter = strip_name path n in if slash_before path (suc n) then suc n else shorter

unfoldable pub path_basename : List ℕ → List ℕ
path_basename path =
    let len = strip_slashes path (length path) in
    let start = strip_name path len in
    if len == 0
    then b'.' ∷ []
    else if len == 1 && slash_before path 1
    then slash ∷ []
    else take (len - start) (drop start path)

unfoldable pub path_dirname : List ℕ → List ℕ
path_dirname path =
    let len = strip_name path (strip_slashes path (length path)) in
    if len == 0 then b'.' ∷ [] else take (strip_slashes path len) path

unfoldable pub path_join : List ℕ → List ℕ → List ℕ
path_join dir name =
    if ltb 0 (length dir) && slash_before dir (length dir)
    then dir ++ name
    else dir ++ (slash ∷ name)

abbrev pub str_has_prefix : List ℕ → List ℕ → Bool
str_has_prefix s prefix = is_prefix prefix s

unfoldable pub str_has_suffix : List ℕ → List ℕ → Bool
str_has_suffix s suffix =
    leb (length suffix) (length s) && is_prefix suffix (drop (length s - length suffix) s)
