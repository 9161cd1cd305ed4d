-- ===== src/Regex/Search/Plain.antt =====
-- `regex_search` of src/regex.c with a plain pattern finds the occurrence that comes first in its
-- direction.
use xzile.Prelude.{
  ℕ, zero, suc, ◌+◌, ◌-◌, ◌≤◌, ◌<◌, ◌≡◌, refl, sym, ap, ap₂, ◌∙◌, ◌⊎◌, inl, inr, Bool, true, false,
  List, [], ◌∷◌, map, arith, ltb, if◌then◌else◌, Bool-cases, length, get_or, take, drop,
}
use mathlib.Core.Path.{subst}
use xzile.VTerm.Dispatch.Safe.{either_checked}
use xzile.Regex.Run.{Ctype, Subject}
use xzile.Regex.Search.{
  PlainPattern, SearchResult, found_at, not_found, regex_too_complex, search_fault, literal_at,
  plain_forward, plain_backward, plain_search, compile_plain, regex_search,
}

lt_or_eq : (a b : ℕ) → a < b + 1 → (a < b) ⊎ (a ≡ b)
lt_or_eq a b h = grind arith

le_or_eq : (a b : ℕ) → a ≤ b → (suc a ≤ b) ⊎ (b ≡ a)
le_or_eq a b h = grind arith

module _ (ct : Ctype) where
  abbrev pub folded : Bool → ℕ → ℕ
  folded icase b = if icase then ct.tolower b else b

  drop-at :
      (text : List ℕ) (pos : ℕ)
      → pos < length text
      → drop pos text ≡ get_or text pos 0 ∷ drop (suc pos) text
  drop-at [] pos h = absurd (omega (arith, h))
  drop-at (c ∷ text) zero h = refl
  drop-at (c ∷ text) (suc pos) h = drop-at text pos (omega (arith, h))

  module _ (icase : Bool) (text : List ℕ) where
    -- The bytes at `pos` as they are compared: the first and the others.
    head-folded :
        (n pos : ℕ)
        → pos < length text
        → map (folded icase) (take (suc n) (drop pos text))
          ≡ folded icase (get_or text pos 0) ∷ map (folded icase) (take n (drop (pos + 1) text))
    head-folded n pos h =
        let next : suc pos ≡ pos + 1 = omega arith in
        ap (λ l. map (folded icase) (take (suc n) l))
          (drop-at text pos h ∙ ap (λ k. get_or text pos 0 ∷ drop k text) next)

    literal_at-same :
        (literal : List ℕ) (pos : ℕ)
        → pos + length literal ≤ length text
        → literal_at ct icase literal text pos ≡ true
        → map (folded icase) (take (length literal) (drop pos text)) ≡ literal
    unfolding literal_at
    literal_at-same [] pos h e = refl
    literal_at-same (c ∷ literal) pos h e =
        let rest = literal_at-same literal (pos + 1) (omega (arith, h)) (ground (arith, e)) in
        head-folded (length literal) pos (omega (arith, h)) ∙ ap₂ ◌∷◌ (ground (arith, e)) rest

    same-literal_at :
        (literal : List ℕ) (pos : ℕ)
        → pos + length literal ≤ length text
        → map (folded icase) (take (length literal) (drop pos text)) ≡ literal
        → literal_at ct icase literal text pos ≡ true
    unfolding literal_at
    same-literal_at [] pos h e = refl
    same-literal_at (c ∷ literal) pos h e =
        let both = sym (head-folded (length literal) pos (omega (arith, h))) ∙ e in
        let rest = same-literal_at literal (pos + 1) (omega (arith, h)) (ap (drop 1) both) in
        ground (arith, rest, ap (λ l. get_or l 0 0) both)

  module _ (re : PlainPattern) (text : List ℕ) where
    -- The bytes at `pos` are the literal's, up to case if it is ignored.
    pub record Occurs (pos : ℕ) : Type 0 where
      pub within : pos + length re.literal ≤ length text
      pub same_text : map (folded re.icase) (take (length re.literal) (drop pos text)) ≡ re.literal

    IsBefore : Bool → ℕ → ℕ → Type 0
    IsBefore true pos start = pos < start
    IsBefore false pos start = start < pos

    -- A result is an occurrence that none is before in the order of the search, or there is none.
    pub IsFirst : Bool → SearchResult → Type 0
    IsFirst forward (found_at start end) =
        Occurs start
        × (end ≡ start + length re.literal)
        × ((pos : ℕ) → IsBefore forward pos start → Occurs pos → ⊥)
    IsFirst forward not_found = (pos : ℕ) → Occurs pos → ⊥
    IsFirst forward regex_too_complex = ⊥
    IsFirst forward search_fault = ⊥

    not_at : (pos : ℕ) → literal_at ct re.icase re.literal text pos ≡ false → Occurs pos → ⊥
    not_at pos e o =
        let yes = same-literal_at re.icase text re.literal pos o.within o.same_text in
        absurd (ground (arith, sym e ∙ yes))

    at_place :
        (pos : ℕ)
        → pos + length re.literal ≤ length text
        → literal_at ct re.icase re.literal text pos ≡ true
        → Occurs pos
    at_place pos h e = record {
      within = h;
      same_text = literal_at-same re.icase text re.literal pos h e;
    }

    plain_forward-IsFirst :
        (rounds pos : ℕ)
        → rounds + pos + length re.literal ≡ length text + 1
        → ((before : ℕ) → before < pos → Occurs before → ⊥)
        → IsFirst true (plain_forward ct re text rounds pos)
    unfolding plain_forward IsFirst IsBefore
    plain_forward-IsFirst zero pos h empty = λ at o. empty at (omega (arith, h, o.within)) o
    plain_forward-IsFirst (suc rounds) pos h empty =
        elim (Bool-cases (literal_at ct re.icase re.literal text pos)) [
          | inl e ↦ rw (plain_forward, e) (at_place pos (omega (arith, h)) e, refl, empty)
          | inr e ↦
              rw (plain_forward, e)
                (plain_forward-IsFirst rounds (pos + 1) (omega (arith, h)) (λ at k o.
                  elim (lt_or_eq at pos k) [
                    | inl l ↦ empty at l o
                    | inr q ↦ not_at pos e (subst Occurs q o)
                  ]))
        ]

    plain_backward-IsFirst :
        (pos : ℕ)
        → pos + length re.literal ≤ length text + 1
        → ((after : ℕ) → pos ≤ after → Occurs after → ⊥)
        → IsFirst false (plain_backward ct re text pos)
    unfolding plain_backward IsFirst IsBefore
    plain_backward-IsFirst zero h empty = λ at o. empty at (omega arith) o
    plain_backward-IsFirst (suc pos) h empty =
        elim (Bool-cases (literal_at ct re.icase re.literal text pos)) [
          | inl e ↦
              rw (plain_backward, e)
                (at_place pos (omega (arith, h)) e, refl, λ at k o. empty at (omega (arith, k)) o)
          | inr e ↦
              rw (plain_backward, e)
                (plain_backward-IsFirst pos (omega (arith, h)) (λ at k o. elim (le_or_eq pos at k) [
                  | inl l ↦ empty at l o
                  | inr q ↦ not_at pos e (subst Occurs q o)
                ]))
        ]

    directed-IsFirst :
        (forward : Bool)
        → length re.literal ≤ length text
        → IsFirst forward (
            if forward
            then plain_forward ct re text (length text - length re.literal + 1) 0
            else plain_backward ct re text (length text - length re.literal + 1))
    directed-IsFirst true h =
        plain_forward-IsFirst _ 0 (omega (arith, h)) (λ at k o. absurd (omega (arith, k)))
    directed-IsFirst false h =
        plain_backward-IsFirst _ (omega (arith, h))
          (λ at k o. absurd (omega (arith, h, k, o.within)))

    plain_search-IsFirst : (forward : Bool) → IsFirst forward (plain_search ct re text forward)
    unfolding plain_search IsFirst
    plain_search-IsFirst forward =
        either_checked (IsFirst forward) (ltb (length text) (length re.literal)) _ _
          (λ e at o. absurd (ground (arith, e, o.within)))
          (λ e. directed-IsFirst forward (ground (arith, e)))

-- With a plain pattern, `regex_search` finds an occurrence, or none only if there is none: forward,
-- the first one of the text, backward, the one that starts last. An occurrence is as many bytes as
-- the pattern has, the same as its bytes, with `tolower` applied to both if case is ignored.
pub regex_search-IsFirst :
    (ct : Ctype) (icase : Bool) (pattern : List ℕ) (s : Subject) (forward : Bool)
    → IsFirst ct
        (compile_plain ct icase pattern)
        s.text
        forward
        (regex_search ct (inl (compile_plain ct icase pattern)) s forward)
unfolding regex_search
regex_search-IsFirst ct icase pattern s forward =
    plain_search-IsFirst ct (compile_plain ct icase pattern) s.text forward
