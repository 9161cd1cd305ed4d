-- ===== src/Completion.antt =====
-- `completion_try` of src/completion.c, once the text to complete is known: for a file name,
-- `completion_readdir` gives it and the completions. Strings are lists of bytes without a NUL. The
-- window that shows the completions is not modelled; `shown` is which list was last put there.
use xzile.Prelude.{
  ℕ, zero, suc, ◌+◌, ◌-◌, ◌*◌, ◌/◌, ◌%◌, ◌^◌, ◌≤◌, ◌<◌, min, max, ◌≡◌, refl, sym, ap, ap₂, ◌∙◌,
  fun_ext, ◌≢◌, ◌↔◌, ◌⊎◌, inl, inr, Bool, true, false, ◌&&◌, ◌||◌, not, Option, none, some, List,
  [], ◌∷◌, ◌++◌, map, append-nil, append_assoc, arith, ltb, leb, ◌==◌, if◌then◌else◌, ltb→lt,
  lt→ltb, leb→le, ==_iff, tests, Bool-cases, Option-cases, length, get_elem?, set, get_or, take,
  drop, replicate, length-append, length-set, length-take, length-drop, length-replicate,
  length-map, take-append-drop, ext_get, get-append, get-take, get-drop, get-replicate, get-ge,
  drop-nil, drop-drop, drop-cons_pos, drop-ge, take-ge, slices, lengths,
}
use xzile.StrVec.{same_bytes, nth, sv_add_sorted}
pub mod Matches
pub mod Members
pub mod Once
pub mod Common
mod Tests

pub data CompletionCode : Type 0 where
  not_matched : CompletionCode
  matched : CompletionCode
  matched_nonunique : CompletionCode
  nonunique : CompletionCode

pub record Completion : Type 0 where
  pub completions : List (List ℕ)
  pub matches : List (List ℕ)
  pub match_bytes : List ℕ
  pub matchsize : ℕ
  pub shown : Option (List (List ℕ))

abbrev pub set_match : Completion → List ℕ → ℕ → Completion
set_match cp s size = record cp { match_bytes = s; matchsize = size }

abbrev pub popup_completion : Completion → Bool → Completion
popup_completion cp all = record cp { shown = some (if all then cp.completions else cp.matches) }

-- strncmp (s, search, slen) == 0
unfoldable pub starts_with : List ℕ → List ℕ → Bool
starts_with s [] = true
starts_with [] (c ∷ search) = false
starts_with (d ∷ s) (c ∷ search) = d == c && starts_with s search

-- The loop over the completions, with the matches and `fullmatches`.
unfoldable pub collect : List (List ℕ) → List ℕ → List (List ℕ) → ℕ → List (List ℕ) × ℕ
collect [] search ms full = (ms, full)
collect (s ∷ ss) search ms full = elim (starts_with s search) [
  | true ↦ collect ss search (sv_add_sorted ms s).0 (if same_bytes s search then full + 1 else full)
  | false ↦ collect ss search ms full
]

-- The loop over `k`: whether a match has another byte than `c` at `i`.
unfoldable pub differs : List (List ℕ) → ℕ → ℕ → Bool
differs [] i c = false
differs (m ∷ ms) i c = not (get_or m i 0 == c) || differs ms i c

-- The loop over `i`. A string's end is its NUL, so the length of the first is fuel enough.
unfoldable pub common_end : ℕ → List ℕ → List (List ℕ) → ℕ → ℕ
common_end zero first others i = i
common_end (suc fuel) first others i =
    let c = get_or first i 0 in
    elim (differs others i c || c == 0) [ true ↦ i | false ↦ common_end fuel first others (i + 1) ]

-- More than one match, of which one is all of the text or none is.
unfoldable pub several : Completion → List ℕ → ℕ → Bool → CompletionCode × Completion
several cp search full popup_when_complete =
    let first = nth cp.matches 0 in
    let whole = set_match cp first (length first) in
    let others = drop 1 cp.matches in
    let n = common_end (length first) first others (length search) in
    if full == 1
    then (matched_nonunique, if popup_when_complete then popup_completion whole false else whole)
    else (nonunique, popup_completion (set_match cp first n) false)

unfoldable pub try_empty : Completion → CompletionCode × Completion
try_empty cp =
    let first = nth cp.completions 0 in
    if length cp.completions == 0
    then (not_matched, cp)
    else if ltb 1 (length cp.completions)
    then (nonunique, popup_completion (set_match cp first 0) true)
    else (matched, set_match cp first (length first))

unfoldable pub try_search : Completion → List ℕ → Bool → CompletionCode × Completion
try_search cp search popup_when_complete =
    let (ms, full) = collect cp.completions search [] 0 in
    let found = record cp { matches = ms } in
    let first = nth ms 0 in
    if length ms == 0
    then (not_matched, found)
    else if length ms == 1
    then (matched, set_match found first (length first))
    else several found search full popup_when_complete

unfoldable pub completion_try : Completion → List ℕ → Bool → CompletionCode × Completion
completion_try cp search popup_when_complete =
    let cleared = record cp { matches = [] } in
    if length search == 0 then try_empty cleared else try_search cleared search popup_when_complete
