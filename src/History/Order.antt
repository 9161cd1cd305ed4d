-- ===== src/History/Order.antt =====
-- Going back and forth in a history of src/history.c.
use xzile.Prelude.{
  ℕ, zero, suc, ◌+◌, ◌-◌, ◌<◌, ◌≡◌, refl, sym, ap, ◌∙◌, ◌⊎◌, inl, inr, true, false, not, Option,
  none, some, List, [], ◌∷◌, ◌++◌, arith, Bool-cases, Option-cases, length, get_elem?,
  length-append, get-append,
}
use xzile.Prelude.{if_true, if_false}
use xzile.History.{
  last_differs, History, same_string, history_add_element, history_previous_element,
  history_next_element, selected,
}

-- The selection is an element.
abbrev pub IsValid : History → Type 0
IsValid hp = (i : ℕ) → hp.sel ≡ some i → i < length hp.elements

-- `n` steps back.
unfoldable pub back : ℕ → History → History
back zero hp = hp
back (suc n) hp = (history_previous_element (back n hp)).1

unfoldable pub forth : ℕ → History → History
forth zero hp = hp
forth (suc n) hp = (history_next_element (forth n hp)).1

step_back :
    (es : List (List ℕ)) (k : ℕ)
    → 0 < k
    → (history_previous_element (record { elements = es; sel = some k })).1
      ≡ record { elements = es; sel = some (k - 1) }
unfolding history_previous_element
step_back es k h = ground arith

abbrev unselected : List (List ℕ) → History
unselected es = record { elements = es; sel = none }

abbrev at_sel : List (List ℕ) → ℕ → History
at_sel es i = record { elements = es; sel = some i }

-- The n-th step back from no selection selects the n-th element from the end.
back_lem :
    (n : ℕ) (es : List (List ℕ))
    → n < length es
    → back (suc n) (unselected es) ≡ at_sel es (length es - 1 - n)
unfolding back history_previous_element
back_lem zero es h = ground arith
back_lem (suc n) es h =
    let further : length es - 1 - n - 1 ≡ length es - 1 - suc n = omega arith in
    ap (λ hp. (history_previous_element hp).1) (back_lem n es (omega arith))
    ∙ (step_back es (length es - 1 - n) (omega arith) ∙ ap (at_sel es) further)

-- After the prompt is prepared, the n-th step back in a history of more than n elements selects the
-- n-th element from its end, counted from 0.
pub history_previous_element-nth :
    (n : ℕ) (es : List (List ℕ))
    → n < length es
    → selected (back (suc n) (record { elements = es; sel = none }))
      ≡ get_elem? es (length es - 1 - n)
history_previous_element-nth n es h = ap selected (back_lem n es h)

step_forth :
    (es : List (List ℕ)) (i : ℕ)
    → i + 1 < length es
    → history_next_element (at_sel es i) ≡ (get_elem? es (i + 1), at_sel es (i + 1))
unfolding history_next_element
step_forth es i h = ground arith

-- With an element selected that is not the first, a step forward after a step back selects it
-- again.
pub history_next_element-previous :
    (es : List (List ℕ)) (i : ℕ)
    → 0 < i
    → i < length es
    → history_next_element (history_previous_element (record { elements = es; sel = some i })).1
      ≡ (get_elem? es i, record { elements = es; sel = some i })
history_next_element-previous es i p h =
    let same : i - 1 + 1 ≡ i = omega arith in
    ap history_next_element (step_back es i p)
    ∙ (step_forth es (i - 1) (omega arith) ∙ ap (λ k. (get_elem? es k, at_sel es k)) same)

same_string_refl : (s : List ℕ) → same_string s s ≡ true
unfolding same_string
same_string_refl [] = refl
same_string_refl (c ∷ s) = ground (arith, same_string_refl s)

get-append_last : (es : List (List ℕ)) (s : List ℕ) → get_elem? (es ++ s ∷ []) (length es) ≡ some s
get-append_last es s = ground (arith, get-append es (s ∷ []) (length es))

abbrev pub last_element : History → Option (List ℕ)
last_element hp = get_elem? hp.elements (length hp.elements - 1)

same_string_eq : (s t : List ℕ) → same_string s t ≡ true → s ≡ t
unfolding same_string
same_string_eq [] [] h = refl
same_string_eq [] (d ∷ t) h = absurd (ground arith)
same_string_eq (c ∷ s) [] h = absurd (ground arith)
same_string_eq (c ∷ s) (d ∷ t) h = let e = same_string_eq s t in ground arith

module _ (hp : History) (s : List ℕ) where
  abbrev pushed : History
  pushed = record hp { elements = hp.elements ++ s ∷ [] }

  -- Adding what is last already changes nothing.
  add_last : last_element hp ≡ some s → history_add_element hp s ≡ hp
  unfolding history_add_element last_differs
  add_last h =
      if_false (last_differs (last_element hp) s) pushed hp
        (ap (λ last. last_differs last s) h ∙ ap not (same_string_refl s))

  is_last : last_differs (last_element hp) s ≡ false → last_element hp ≡ some s
  unfolding last_differs
  is_last h = elim (Option-cases (last_element hp)) [
    | inl e ↦ absurd (ground (arith, ap (λ last. last_differs last s) e))
    | inr (last, e) ↦
        e ∙ ap some (same_string_eq last s (ground (arith, ap (λ last. last_differs last s) e)))
  ]

  add_cases :
      (history_add_element hp s ≡ pushed)
      ⊎ ((history_add_element hp s ≡ hp) × (last_element hp ≡ some s))
  unfolding history_add_element
  add_cases = elim (Bool-cases (last_differs (last_element hp) s)) [
    | inl c ↦ inl (if_true (last_differs (last_element hp) s) pushed hp c)
    | inr c ↦ inr (if_false (last_differs (last_element hp) s) pushed hp c, is_last c)
  ]

module _ (hp : History) (s : List ℕ) where
  -- An added line is the last element, and adding it once more changes nothing.
  pub history_add_element-last :
      (last_element (history_add_element hp s) ≡ some s)
      × (history_add_element (history_add_element hp s) s ≡ history_add_element hp s)
  history_add_element-last = elim (add_cases hp s) [
    | inl e ↦
        let at_end = get-append_last hp.elements s in
        let n = length-append hp.elements (s ∷ []) in
        let index : length (hp.elements ++ s ∷ []) - 1 ≡ length hp.elements = omega (arith, n) in
        let last : last_element (pushed hp s) ≡ some s =
          ap (get_elem? (hp.elements ++ s ∷ [])) index ∙ at_end in
        (
          ap last_element e ∙ last,
          ap (λ h. history_add_element h s) e ∙ (add_last (pushed hp s) s last ∙ sym e),
        )
    | inr (e, last) ↦ (ap last_element e ∙ last, ap (λ h. history_add_element h s) e)
  ]
