-- ===== src/Completion/Once.antt =====
-- How often the text to complete stands among the completions of `completion_try` in
-- src/completion.c.
use xzile.Prelude.{
  ℕ, zero, suc, ◌+◌, ◌<◌, ◌≡◌, refl, sym, ap, ◌∙◌, inl, inr, true, false, List, [], ◌∷◌, append-nil,
  arith, ◌==◌, if◌then◌else◌, Bool-cases, length,
}
use xzile.StrVec.{same_bytes, str_less, nth, sv_add_sorted}
use xzile.StrVec.Search.{same_bytes_eq, same_bytes_refl}
use xzile.Completion.{starts_with, collect}
use xzile.Completion.Members.{Among, Among-cons, Among-behind, HasStart-starts_with, AreMatches}

-- How often a string stands in a vector.
unfoldable pub times : List ℕ → List (List ℕ) → ℕ
times s [] = 0
times s (x ∷ xs) = let rest = times s xs in if same_bytes x s then suc rest else rest

starts_with_refl : (s : List ℕ) → starts_with s s ≡ true
unfolding starts_with
starts_with_refl [] = refl
starts_with_refl (c ∷ s) = ground (arith, starts_with_refl s)

same_bytes-starts_with : (x s : List ℕ) → same_bytes x s ≡ true → starts_with x s ≡ true
same_bytes-starts_with x s e = ap (λ y. starts_with y s) (same_bytes_eq x s e) ∙ starts_with_refl s

-- `fullmatches` counts the completions that are all of the text.
pub collect-times :
    (search : List ℕ) (cps ms : List (List ℕ)) (full : ℕ)
    → (collect cps search ms full).1 ≡ full + times search cps
unfolding collect times
collect-times search [] ms full = omega arith
collect-times search (s ∷ ss) ms full = elim (Bool-cases (starts_with s search)) [
  | inl e ↦ elim (Bool-cases (same_bytes s search)) [
    | inl f ↦
        rw (collect, times, e, f)
          (omega (arith, collect-times search ss (sv_add_sorted ms s).0 (full + 1)))
    | inr f ↦ rw (collect, times, e, f) (collect-times search ss (sv_add_sorted ms s).0 full)
  ]
  | inr e ↦ elim (Bool-cases (same_bytes s search)) [
    | inl f ↦ absurd (ground (arith, same_bytes-starts_with s search f))
    | inr f ↦ rw (collect, times, e, f) (collect-times search ss ms full)
  ]
]

times-Among : (s : List ℕ) (xs : List (List ℕ)) → 0 < times s xs → Among s xs
unfolding times
times-Among s [] h = absurd (omega (arith, h))
times-Among s (x ∷ xs) h = elim (Bool-cases (same_bytes x s)) [
  | inl e ↦ (0, omega arith, same_bytes_eq x s e)
  | inr e ↦ Among-behind s x xs (times-Among s xs (rw (times, e) at h))
]

Among-times : (s : List ℕ) (xs : List (List ℕ)) → Among s xs → 0 < times s xs
unfolding times
Among-times s [] (k, c, e) = absurd (omega (arith, c))
Among-times s (x ∷ xs) a = elim (Bool-cases (same_bytes x s)) [
  | inl e ↦ rw (times, e) (omega arith)
  | inr e ↦ elim (Among-cons s x xs a) [
    | inl here ↦
        absurd (ground (arith, sym e ∙ (ap (λ y. same_bytes y s) here ∙ same_bytes_refl s)))
    | inr b ↦ rw (times, e) (Among-times s xs b)
  ]
]

-- The string stands at one index of the vector only.
abbrev pub IsOnce : List ℕ → List (List ℕ) → Type 0
IsOnce s v =
    (k : ℕ) × (k < length v) × (nth v k ≡ s) × ((j : ℕ) → j < length v → nth v j ≡ s → j ≡ k)

only_first :
    (s x : List ℕ) (xs : List (List ℕ))
    → times s xs ≡ 0
    → (j : ℕ) → j < length (x ∷ xs)
    → nth (x ∷ xs) j ≡ s
    → j ≡ 0
only_first s x xs t zero c e = refl
only_first s x xs t (suc j) c e =
    absurd (omega (arith, t, Among-times s xs (j, omega (arith, c), e)))

only_behind :
    (s x : List ℕ) (xs : List (List ℕ)) (k : ℕ)
    → same_bytes x s ≡ false
    → ((j : ℕ) → j < length xs → nth xs j ≡ s → j ≡ k)
    → (j : ℕ) → j < length (x ∷ xs)
    → nth (x ∷ xs) j ≡ s
    → j ≡ suc k
only_behind s x xs k f only zero c e =
    absurd (ground (arith, sym f ∙ (ap (λ y. same_bytes y s) e ∙ same_bytes_refl s)))
only_behind s x xs k f only (suc j) c e = ap suc (only j (omega (arith, c)) e)

pub times-IsOnce : (s : List ℕ) (v : List (List ℕ)) → times s v ≡ 1 → IsOnce s v
unfolding times
times-IsOnce s [] t = absurd (omega (arith, t))
times-IsOnce s (x ∷ xs) t = elim (Bool-cases (same_bytes x s)) [
  | inl e ↦
      let none_left : times s xs ≡ 0 = omega (arith, rw (times, e) at t) in
      (0, omega arith, same_bytes_eq x s e, only_first s x xs none_left)
  | inr e ↦
      let (k, c, f, only) = times-IsOnce s xs (rw (times, e) at t) in
      (suc k, omega (arith, c), f, only_behind s x xs k e only)
]

pub IsOnce-times : (s : List ℕ) (v : List (List ℕ)) → IsOnce s v → times s v ≡ 1
unfolding times
IsOnce-times s [] (k, c, e, only) = absurd (omega (arith, c))
IsOnce-times s (x ∷ xs) (zero, c, e, only) =
    let same : same_bytes x s ≡ true = ap (λ y. same_bytes y s) e ∙ same_bytes_refl s in
    rw (times, same)
      (elim (Bool-cases (times s xs == 0)) [
        | inl z ↦ ground (arith, z)
        | inr z ↦
            let (j, d, f) = times-Among s xs (ground (arith, z)) in
            absurd (omega (arith, only (suc j) (omega (arith, d)) f))
      ])
IsOnce-times s (x ∷ xs) (suc k, c, e, only) = elim (Bool-cases (same_bytes x s)) [
  | inl f ↦ absurd (omega (arith, only 0 (omega arith) (same_bytes_eq x s f)))
  | inr f ↦
      rw (times, f)
        (IsOnce-times s xs
          (k, omega (arith, c), e, λ j d g. omega (arith, only (suc j) (omega (arith, d)) g)))
]

starts_with-less : (s t : List ℕ) → starts_with s t ≡ true → str_less s t ≡ false
unfolding starts_with str_less
starts_with-less [] [] e = refl
starts_with-less (c ∷ s) [] e = refl
starts_with-less [] (d ∷ t) e = absurd (ground arith)
starts_with-less (c ∷ s) (d ∷ t) e = ground (arith, starts_with-less s t)

-- A match that is all of the text is the first one.
pub whole_first :
    (search : List ℕ) (cps ms : List (List ℕ))
    → AreMatches search cps ms
    → 0 < length ms
    → 0 < times search cps
    → nth ms 0 ≡ search
whole_first search cps ms m n h =
    let (k, c, e) = m.all search (times-Among search cps h) ([], sym (append-nil search)) in
    let first = (m.found (nth ms 0) (0, n, refl)).1 in
    let start = HasStart-starts_with (nth ms 0) search first in
    elim (Bool-cases (k == 0)) [
      | inl z ↦ let here : 0 ≡ k = ground (arith, z) in ap (nth ms) here ∙ e
      | inr z ↦
          let less = m.sorted 0 k (ground (arith, z)) c in
          absurd (
            ground (
              arith,
              starts_with-less (nth ms 0) search start,
              ap (λ y. str_less (nth ms 0) y) (sym e) ∙ less,
            ))
    ]
