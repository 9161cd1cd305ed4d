-- ===== src/History/Tests.antt =====
-- A history of three lines.
use xzile.Prelude.{ℕ, ◌-◌, ◌≡◌, none, List, [], ◌∷◌, arith, length, get_elem?}
use xzile.History.{History, selected}
use xzile.History.Order.{back, history_previous_element-nth}

abbrev lines : List (List ℕ)
lines = (97 ∷ []) ∷ (98 ∷ 98 ∷ []) ∷ (99 ∷ []) ∷ []

history_previous_element-nth_example :
    selected (back 3 (record { elements = lines; sel = none }))
    ≡ get_elem? lines (length lines - 1 - 2)
history_previous_element-nth_example = history_previous_element-nth 2 lines (omega arith)

abbrev typed : History
typed = record { elements = lines; sel = none }
