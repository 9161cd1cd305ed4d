-- ===== src/History.antt =====
-- src/history.c: the lines typed in a prompt, and the one selected.
-- `sel` is none for -1. Strings are lists of bytes.
pub mod Order
mod Tests
use xzile.Prelude.{
  ℕ, zero, suc, ◌+◌, ◌-◌, ◌*◌, ◌/◌, ◌%◌, ◌^◌, ◌≤◌, ◌<◌, min, max, ◌≡◌, refl, sym, ap, ap₂, ◌∙◌,
  fun_ext, ◌≢◌, ◌↔◌, ◌⊎◌, inl, inr, Bool, true, false, ◌&&◌, ◌||◌, not, Option, none, some, List,
  [], ◌∷◌, ◌++◌, map, append-nil, append_assoc, arith, ltb, leb, ◌==◌, if◌then◌else◌, ltb→lt,
  lt→ltb, leb→le, ==_iff, tests, Bool-cases, Option-cases, length, get_elem?, set, get_or, take,
  drop, replicate, length-append, length-set, length-take, length-drop, length-replicate,
  length-map, take-append-drop, ext_get, get-append, get-take, get-drop, get-replicate, get-ge,
  drop-nil, drop-drop, drop-cons_pos, drop-ge, take-ge, slices, lengths,
}

pub record History : Type 0 where
  pub elements : List (List ℕ)
  pub sel : Option ℕ

abbrev pub history_new : History
history_new = record { elements = []; sel = none }

-- strcmp (a, b) == 0
unfoldable pub same_string : List ℕ → List ℕ → Bool
same_string [] [] = true
same_string [] (d ∷ t) = false
same_string (c ∷ s) [] = false
same_string (c ∷ s) (d ∷ t) = c == d && same_string s t

-- `none` where there is no last element.
unfoldable pub last_differs : Option (List ℕ) → List ℕ → Bool
last_differs none s = true
last_differs (some last) s = not (same_string last s)

unfoldable pub history_add_element : History → List ℕ → History
history_add_element hp s =
    if last_differs (get_elem? hp.elements (length hp.elements - 1)) s
    then record hp { elements = hp.elements ++ s ∷ [] }
    else hp

abbrev pub history_prepare : History → History
history_prepare hp = record hp { sel = none }

abbrev pub selected : History → Option (List ℕ)
selected hp = elim hp.sel [ none ↦ none | some i ↦ get_elem? hp.elements i ]

abbrev previous_sel : ℕ → Option ℕ → Option ℕ
previous_sel n none = if ltb 0 n then some (n - 1) else none
previous_sel n (some i) = if ltb 0 i then some (i - 1) else some i

-- What is selected then, and the history.
unfoldable pub history_previous_element : History → Option (List ℕ) × History
history_previous_element hp =
    let hp' = record hp { sel = previous_sel (length hp.elements) hp.sel } in (selected hp', hp')

abbrev next_sel : ℕ → Option ℕ → Option ℕ
next_sel n none = none
next_sel n (some i) = if ltb 0 n then (if ltb (i + 1) n then some (i + 1) else none) else some i

unfoldable pub history_next_element : History → Option (List ℕ) × History
history_next_element hp =
    let hp' = record hp { sel = next_sel (length hp.elements) hp.sel } in (selected hp', hp')
