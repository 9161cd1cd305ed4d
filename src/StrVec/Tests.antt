-- ===== src/StrVec/Tests.antt =====
-- A sorted vector of three strings.
use xzile.Prelude.{ℕ, zero, suc, ◌≤◌, ◌<◌, ◌≡◌, ◌≢◌, ◌⊎◌, refl, true, false, List, [], ◌∷◌, arith}
use xzile.StrVec.Insert.{inserted, sv_add_sorted-IsSorted}
use xzile.StrVec.{nth, sv_add_sorted, str_less}
use xzile.StrVec.Search.{IsSorted}

-- "a", "ab", "c"
abbrev names : List (List ℕ)
names = (97 ∷ []) ∷ (97 ∷ 98 ∷ []) ∷ (99 ∷ []) ∷ []

names-IsSorted : IsSorted names
unfolding str_less
names-IsSorted i zero h b = absurd (omega arith)
names-IsSorted zero (suc zero) h b = refl
names-IsSorted zero (suc (suc zero)) h b = refl
names-IsSorted (suc zero) (suc (suc zero)) h b = refl
names-IsSorted (suc zero) (suc zero) h b = absurd (omega arith)
names-IsSorted (suc (suc i)) (suc zero) h b = absurd (omega arith)
names-IsSorted (suc (suc i)) (suc (suc zero)) h b = absurd (omega arith)
names-IsSorted i (suc (suc (suc j))) h b = absurd (omega arith)

sv_add_sorted-IsSorted_example :
    IsSorted (sv_add_sorted names (98 ∷ [])).0
    × (((j : ℕ) × (j < 3)
          × (nth names j ≡ 98 ∷ [])
          × (sv_add_sorted names (98 ∷ []) ≡ (names, false)))
        ⊎ (((j : ℕ) → j < 3 → nth names j ≢ 98 ∷ [])
            × ((i : ℕ) × (i ≤ 3)
                × (sv_add_sorted names (98 ∷ []) ≡ (inserted names i (98 ∷ []), true)))))
sv_add_sorted-IsSorted_example = sv_add_sorted-IsSorted names (98 ∷ []) names-IsSorted
