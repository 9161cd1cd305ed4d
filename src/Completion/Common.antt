-- ===== src/Completion/Common.antt =====
-- What the matches of `completion_try` in src/completion.c have in common.
use xzile.Prelude.{
  ℕ, zero, suc, ◌+◌, ◌≤◌, ◌<◌, ◌≡◌, refl, sym, ap, ◌∙◌, ◌≢◌, ◌⊎◌, inl, inr, Bool, true, false, ◌||◌,
  List, [], ◌∷◌, arith, ltb, ◌==◌, Bool-cases, length, get_or, drop,
}
use mathlib.Core.Path.{subst}
use xzile.StrVec.{nth}
use xzile.Completion.{
  starts_with, Completion, CompletionCode, not_matched, matched, matched_nonunique, nonunique,
  collect, differs, common_end, several, try_search, completion_try,
}
use xzile.Completion.Members.{Among, HasStart, HasStart-starts_with, AreMatches, collect-AreMatches}
use xzile.Completion.Once.{IsOnce, times, collect-times, times-IsOnce, IsOnce-times, whole_first}
use xzile.Completion.Matches.{
  AllStart, collect-AllStart, starts_with-get, AllStart-nth, NoneStart, collect-NoneStart,
}

-- Byte `j`, or the end, is the same in all.
abbrev SameAt : List (List ℕ) → ℕ → Type 0
SameAt ms j = (k : ℕ) → k < length ms → get_or (nth ms k) j 0 ≡ get_or (nth ms 0) j 0

-- The first `n` bytes are common to all, and not one more: the first ends there, or one differs.
pub record IsLongest (ms : List (List ℕ)) (n : ℕ) : Type 0 where
  pub shared : (k j : ℕ) → k < length ms → j < n → get_or (nth ms k) j 0 ≡ get_or (nth ms 0) j 0
  pub stops :
      (get_or (nth ms 0) n 0 ≡ 0)
      ⊎ ((k : ℕ) × ((k < length ms) × (get_or (nth ms k) n 0 ≢ get_or (nth ms 0) n 0)))

differs-same :
    (others : List (List ℕ)) (i c k : ℕ)
    → differs others i c ≡ false
    → k < length others
    → get_or (nth others k) i 0 ≡ c
unfolding differs
differs-same [] i c k e h = absurd (omega (arith, h))
differs-same (m ∷ ms) i c zero e h = ground (arith, e)
differs-same (m ∷ ms) i c (suc k) e h = differs-same ms i c k (ground (arith, e)) (omega (arith, h))

differs-other :
    (others : List (List ℕ)) (i c : ℕ)
    → differs others i c ≡ true
    → (k : ℕ) × ((k < length others) × (get_or (nth others k) i 0 ≢ c))
unfolding differs
differs-other [] i c e = absurd (ground (arith, e))
differs-other (m ∷ ms) i c e = elim (Bool-cases (get_or m i 0 == c)) [
  | inl f ↦
      let (k, (h, d)) = differs-other ms i c (ground (arith, e, f)) in
      (suc k, (omega (arith, h), d))
  | inr f ↦ (0, (omega arith, λ z. ground (arith, f, z)))
]

ends_at : (s : List ℕ) (i : ℕ) → length s ≤ i → get_or s i 0 ≡ 0
ends_at [] i h = refl
ends_at (c ∷ s) zero h = absurd (omega (arith, h))
ends_at (c ∷ s) (suc i) h = ends_at s i (omega (arith, h))

stops_there :
    (first : List ℕ) (others : List (List ℕ)) (i : ℕ)
    → (differs others i (get_or first i 0) || get_or first i 0 == 0) ≡ true
    → (get_or first i 0 ≡ 0)
      ⊎ ((k : ℕ) × ((k < length (first ∷ others))
            × (get_or (nth (first ∷ others) k) i 0 ≢ get_or first i 0)))
stops_there first others i e = elim (Bool-cases (get_or first i 0 == 0)) [
  | inl z ↦ inl (ground (arith, z))
  | inr z ↦
      let (k, (h, d)) = differs-other others i (get_or first i 0) (ground (arith, e, z)) in
      inr (suc k, (omega (arith, h), d))
]

one_more :
    (first : List ℕ) (others : List (List ℕ)) (i : ℕ)
    → differs others i (get_or first i 0) ≡ false
    → ((j : ℕ) → j < i → SameAt (first ∷ others) j)
    → (j : ℕ) → j < i + 1
    → SameAt (first ∷ others) j
one_more first others i e below j h zero c = refl
one_more first others i e below j h (suc k) c = elim (Bool-cases (ltb j i)) [
  | inl b ↦ below j (ground (arith, b)) (suc k) c
  | inr b ↦
      let at : j ≡ i = ground (arith, b, h) in
      rw at (differs-same others i (get_or first i 0) k e (omega (arith, c)))
]

common_end-IsLongest :
    (fuel : ℕ) (first : List ℕ) (others : List (List ℕ)) (i : ℕ)
    → length first ≤ i + fuel
    → ((j : ℕ) → j < i → SameAt (first ∷ others) j)
    → IsLongest (first ∷ others) (common_end fuel first others i)
      × (i ≤ common_end fuel first others i)
unfolding common_end
common_end-IsLongest zero first others i f below = (
  record { shared = λ k j h b. below j b k h; stops = inl (ends_at first i (omega (arith, f))) },
  omega arith,
)
common_end-IsLongest (suc fuel) first others i f below =
    let c = get_or first i 0 in
    elim (Bool-cases (differs others i c || c == 0)) [
      | inl e ↦
          rw (common_end, e)
            (
              record { shared = λ k j h b. below j b k h; stops = stops_there first others i e },
              omega arith,
            )
      | inr e ↦
          let rest =
            common_end-IsLongest fuel first others (i + 1) (omega (arith, f))
              (one_more first others i (ground (arith, e)) below) in
          rw (common_end, e) (rest.0, omega (arith, rest.1))
    ]

AllStart-SameAt :
    (search : List ℕ) (ms : List (List ℕ)) (j : ℕ)
    → AllStart search ms
    → j < length search
    → SameAt ms j
AllStart-SameAt search ms j h c k b =
    let one : (i : ℕ) → i < length ms → get_or (nth ms i) j 0 ≡ get_or search j 0 =
      λ i l. starts_with-get (nth ms i) search j (AllStart-nth search ms i h l) c in
    one k b ∙ sym (one 0 (omega (arith, b)))

-- What `completion_try` promises for each of its codes.
unfoldable pub IsAnswer : Completion → List ℕ → CompletionCode × Completion → Type 0
IsAnswer cp search (not_matched, r) = (x : List ℕ) → Among x cp.completions → HasStart search x → ⊥
IsAnswer cp search (matched, r) =
    AreMatches search cp.completions r.matches
    × (length r.matches ≡ 1)
    × (r.match_bytes ≡ nth r.matches 0)
    × (r.matchsize ≡ length r.match_bytes)
IsAnswer cp search (matched_nonunique, r) =
    AreMatches search cp.completions r.matches
    × (1 < length r.matches)
    × IsOnce search cp.completions
    × (r.match_bytes ≡ search)
    × (r.matchsize ≡ length search)
IsAnswer cp search (nonunique, r) =
    AreMatches search cp.completions r.matches
    × (1 < length r.matches)
    × (IsOnce search cp.completions → ⊥)
    × (r.match_bytes ≡ nth r.matches 0)
    × (IsLongest r.matches r.matchsize × (length search ≤ r.matchsize))

first-IsLongest :
    (search : List ℕ) (ms : List (List ℕ))
    → AllStart search ms
    → 1 < length ms
    → let n = common_end (length (nth ms 0)) (nth ms 0) (drop 1 ms) (length search) in
      IsLongest ms n × (length search ≤ n)
first-IsLongest search [] h n = absurd (omega (arith, n))
first-IsLongest search (m ∷ ms) h n =
    common_end-IsLongest (length m) m ms (length search) (omega arith)
      (λ j c. AllStart-SameAt search (m ∷ ms) j h c)

AllStart-none : (search : List ℕ) → AllStart search []
unfolding AllStart
AllStart-none search = tt

several-IsAnswer :
    (cps : List (List ℕ)) (cp0 cp : Completion) (search : List ℕ) (full : ℕ) (popup : Bool)
    → cp0.completions ≡ cps
    → AreMatches search cps cp.matches
    → full ≡ times search cps
    → AllStart search cp.matches
    → 1 < length cp.matches
    → IsAnswer cp0 search (several cp search full popup)
unfolding several IsAnswer
several-IsAnswer cps cp0 cp search full popup same m t h n =
    let are : AreMatches search cp0.completions cp.matches =
      subst (λ l. AreMatches search l cp.matches) (sym same) m in
    let count : full ≡ times search cp0.completions = t ∙ ap (times search) (sym same) in
    elim (Bool-cases (full == 1)) [
      | inl e ↦
          let once : times search cp0.completions ≡ 1 = ground (arith, e, count) in
          let whole =
            whole_first search cp0.completions cp.matches are (omega (arith, n))
              (omega (arith, once)) in
          elim (Bool-cases popup) [
            | inl p ↦
                rw (several, e, p)
                  (are, n, times-IsOnce search cp0.completions once, whole, ap length whole)
            | inr p ↦
                rw (several, e, p)
                  (are, n, times-IsOnce search cp0.completions once, whole, ap length whole)
          ]
      | inr e ↦
          let longest = first-IsLongest search cp.matches h n in
          rw (several, e)
            (
              are,
              n,
              λ z. ground (arith, e, IsOnce-times search cp0.completions z, count),
              refl,
              longest,
            )
    ]

none_starts :
    (search : List ℕ) (ss : List (List ℕ))
    → NoneStart search ss
    → (x : List ℕ) → Among x ss
    → HasStart search x
    → ⊥
unfolding NoneStart
none_starts search [] fs x (k, c, e) h = absurd (omega (arith, c))
none_starts search (s ∷ ss) (f, fs) x (zero, c, e) h =
    absurd
      (ground (arith, sym f ∙ (ap (λ y. starts_with y search) e ∙ HasStart-starts_with x search h)))
none_starts search (s ∷ ss) (f, fs) x (suc k, c, e) h =
    none_starts search ss fs x (k, omega (arith, c), e) h

try_search-IsAnswer :
    (cp : Completion) (search : List ℕ) (popup : Bool)
    → IsAnswer cp search (try_search cp search popup)
unfolding try_search IsAnswer
try_search-IsAnswer cp search popup =
    let (ms, full) = collect cp.completions search [] 0 in
    let h = collect-AllStart cp.completions search [] 0 (AllStart-none search) in
    let are = collect-AreMatches search cp.completions 0 in
    let count : full ≡ times search cp.completions =
      omega (arith, collect-times search cp.completions [] 0) in
    elim (Bool-cases (length ms == 0)) [
      | inl e ↦
          rw (try_search, e)
            (none_starts search cp.completions
              (collect-NoneStart cp.completions search 0 (ground (arith, e))))
      | inr e ↦ elim (Bool-cases (length ms == 1)) [
        | inl f ↦
            let one : length ms ≡ 1 = ground (arith, f) in
            rw (try_search, e, f) (are, one, refl, refl)
        | inr f ↦
            rw (try_search, e, f)
              (several-IsAnswer cp.completions cp (record cp { matches = ms }) search full popup
                refl are count h (ground (arith, e, f)))
      ]
    ]

-- For a text that is not empty, `completion_try` answers COMPLETION_NOTMATCHED only if no
-- completion starts with it; COMPLETION_MATCHED with the one match, whole;
-- COMPLETION_MATCHEDNONUNIQUE with the text itself, which is one of several matches and stands once
-- among the completions; and COMPLETION_NONUNIQUE, where it does not stand there just once, with
-- the longest part that all of several matches have in common, which the text is a part of. Except
-- after COMPLETION_NOTMATCHED, of which it says nothing more, the matches are just the completions
-- that start with the text, sorted, each once.
pub completion_try-IsAnswer :
    (cp : Completion) (search : List ℕ) (popup : Bool)
    → 0 < length search
    → IsAnswer cp search (completion_try cp search popup)
unfolding completion_try IsAnswer
completion_try-IsAnswer cp search popup h =
    let some_text : (length search == 0) ≡ false = ground (arith, h) in
    rw (completion_try, some_text) (try_search-IsAnswer (record cp { matches = [] }) search popup)
