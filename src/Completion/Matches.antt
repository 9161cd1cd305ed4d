-- ===== src/Completion/Matches.antt =====
-- Which completions are matches of `completion_try` in src/completion.c.
use xzile.Prelude.{
  ℕ, zero, suc, ◌+◌, ◌<◌, ◌≡◌, inl, inr, true, false, ◌&&◌, List, [], ◌∷◌, ◌++◌, arith, ltb,
  if◌then◌else◌, Bool-cases, length, get_or, take, drop, length-append,
}
use xzile.StrVec.{same_bytes, nth, sv_add_sorted, sv_lower_bound}
use xzile.Completion.{starts_with, collect}

-- Every string of a vector starts with `search`.
unfoldable pub AllStart : List ℕ → List (List ℕ) → Type 0
AllStart search [] = Unit
AllStart search (m ∷ ms) = (starts_with m search ≡ true) × AllStart search ms

AllStart-append :
    (search : List ℕ) (xs ys : List (List ℕ))
    → AllStart search xs
    → AllStart search ys
    → AllStart search (xs ++ ys)
unfolding AllStart
AllStart-append search [] ys h k = k
AllStart-append search (x ∷ xs) ys (e, h) k = (e, AllStart-append search xs ys h k)

AllStart-take :
    (search : List ℕ) (i : ℕ) (xs : List (List ℕ))
    → AllStart search xs
    → AllStart search (take i xs)
unfolding AllStart
AllStart-take search zero [] h = tt
AllStart-take search zero (x ∷ xs) h = tt
AllStart-take search (suc i) [] h = tt
AllStart-take search (suc i) (x ∷ xs) (e, h) = (e, AllStart-take search i xs h)

AllStart-drop :
    (search : List ℕ) (i : ℕ) (xs : List (List ℕ))
    → AllStart search xs
    → AllStart search (drop i xs)
unfolding AllStart
AllStart-drop search zero [] h = tt
AllStart-drop search zero (x ∷ xs) h = h
AllStart-drop search (suc i) [] h = tt
AllStart-drop search (suc i) (x ∷ xs) (e, h) = AllStart-drop search i xs h

AllStart-sv_add_sorted :
    (search : List ℕ) (v : List (List ℕ)) (s : List ℕ)
    → AllStart search v
    → starts_with s search ≡ true
    → AllStart search (sv_add_sorted v s).0
unfolding sv_add_sorted AllStart
AllStart-sv_add_sorted search v s h e =
    let i = sv_lower_bound v s in
    elim (Bool-cases (ltb i (length v) && same_bytes (nth v i) s)) [
      | inl f ↦ rw f h
      | inr f ↦ rw f (
          AllStart-append search (take i v) (s ∷ drop i v) (AllStart-take search i v h)
            (e, AllStart-drop search i v h))
    ]

pub collect-AllStart :
    (ss : List (List ℕ)) (search : List ℕ) (ms : List (List ℕ)) (full : ℕ)
    → AllStart search ms
    → AllStart search (collect ss search ms full).0
unfolding collect
collect-AllStart [] search ms full h = h
collect-AllStart (s ∷ ss) search ms full h = elim (Bool-cases (starts_with s search)) [
  | inl e ↦
      rw (collect, e) (collect-AllStart ss search _ _ (AllStart-sv_add_sorted search ms s h e))
  | inr e ↦ rw (collect, e) (collect-AllStart ss search ms full h)
]

pub starts_with-get :
    (s search : List ℕ) (j : ℕ)
    → starts_with s search ≡ true
    → j < length search
    → get_or s j 0 ≡ get_or search j 0
unfolding starts_with
starts_with-get s [] j e h = absurd (omega (arith, h))
starts_with-get [] (c ∷ search) j e h = absurd (ground (arith, e))
starts_with-get (d ∷ s) (c ∷ search) zero e h = ground (arith, e)
starts_with-get (d ∷ s) (c ∷ search) (suc j) e h =
    starts_with-get s search j (ground (arith, e)) (omega (arith, h))

pub AllStart-nth :
    (search : List ℕ) (ms : List (List ℕ)) (k : ℕ)
    → AllStart search ms
    → k < length ms
    → starts_with (nth ms k) search ≡ true
unfolding AllStart
AllStart-nth search [] k h c = absurd (omega (arith, c))
AllStart-nth search (m ∷ ms) zero (e, h) c = e
AllStart-nth search (m ∷ ms) (suc k) (e, h) c = AllStart-nth search ms k h (omega (arith, c))

-- No completion starts with `search`.
unfoldable pub NoneStart : List ℕ → List (List ℕ) → Type 0
NoneStart search [] = Unit
NoneStart search (s ∷ ss) = (starts_with s search ≡ false) × NoneStart search ss

length-sv_add_sorted : (v : List (List ℕ)) (s : List ℕ) → 0 < length (sv_add_sorted v s).0
unfolding sv_add_sorted
length-sv_add_sorted v s =
    let i = sv_lower_bound v s in
    elim (Bool-cases (ltb i (length v) && same_bytes (nth v i) s)) [
      | inl f ↦ rw f (ground (arith, f))
      | inr f ↦ rw f (omega (arith, length-append (take i v) (s ∷ drop i v)))
    ]

length-collect :
    (ss : List (List ℕ)) (search : List ℕ) (ms : List (List ℕ)) (full : ℕ)
    → 0 < length ms
    → 0 < length (collect ss search ms full).0
unfolding collect
length-collect [] search ms full h = h
length-collect (s ∷ ss) search ms full h = elim (Bool-cases (starts_with s search)) [
  | inl e ↦ rw (collect, e) (length-collect ss search _ _ (length-sv_add_sorted ms s))
  | inr e ↦ rw (collect, e) (length-collect ss search ms full h)
]

pub collect-NoneStart :
    (ss : List (List ℕ)) (search : List ℕ) (full : ℕ)
    → length (collect ss search [] full).0 ≡ 0
    → NoneStart search ss
unfolding collect NoneStart
collect-NoneStart [] search full h = tt
collect-NoneStart (s ∷ ss) search full h = elim (Bool-cases (starts_with s search)) [
  | inl e ↦
      let more =
        length-collect ss search (sv_add_sorted [] s).0
          (if same_bytes s search then full + 1 else full) (length-sv_add_sorted [] s) in
      absurd (omega (arith, more, rw (collect, e) at h))
  | inr e ↦ (e, collect-NoneStart ss search full (rw (collect, e) at h))
]
