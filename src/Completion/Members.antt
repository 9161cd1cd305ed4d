-- ===== src/Completion/Members.antt =====
-- What `completion_try` of src/completion.c collects, against the completions that start with the
-- text.
use xzile.Prelude.{
  ℕ, zero, suc, ◌+◌, ◌-◌, ◌≤◌, ◌<◌, ◌≡◌, refl, sym, ap, ap₂, ◌∙◌, ◌⊎◌, inl, inr, true, List, [],
  ◌∷◌, ◌++◌, arith, ltb, if◌then◌else◌, Bool-cases, length,
}
use mathlib.Core.Path.{subst}
use xzile.StrVec.{same_bytes, nth, sv_add_sorted}
use xzile.StrVec.Search.{IsSorted}
use xzile.StrVec.Insert.{inserted, nth-inserted, length-inserted, sv_add_sorted-IsSorted}
use xzile.Completion.{starts_with, collect}

-- The string stands at an index of the vector.
abbrev pub Among : List ℕ → List (List ℕ) → Type 0
Among s v = (k : ℕ) × (k < length v) × (nth v k ≡ s)

pub Among-cons : (x s : List ℕ) (ss : List (List ℕ)) → Among x (s ∷ ss) → (s ≡ x) ⊎ Among x ss
Among-cons x s ss (zero, c, e) = inl e
Among-cons x s ss (suc k, c, e) = inr (k, omega (arith, c), e)

pub Among-behind : (x s : List ℕ) (ss : List (List ℕ)) → Among x ss → Among x (s ∷ ss)
Among-behind x s ss (k, c, e) = (suc k, omega (arith, c), e)

module _ (v : List (List ℕ)) (s : List ℕ) (i : ℕ) (h : i ≤ length v) where
  Among-inserted : (x : List ℕ) → Among x (inserted v i s) → Among x v ⊎ (s ≡ x)
  Among-inserted x (k, c, e) =
      let at = nth-inserted v s i k h in
      let n = length-inserted v s i h in
      elim (Bool-cases (ltb k i)) [
        | inl b ↦ inl (k, ground (arith, b), ground (arith, b, at))
        | inr b ↦ elim (Bool-cases (ltb i k)) [
          | inl d ↦ inl (k - 1, ground (arith, d, n, c), ground (arith, b, d, at))
          | inr d ↦ inr (ground (arith, b, d, at))
        ]
      ]

  inserted-Among : (x : List ℕ) → Among x v → Among x (inserted v i s)
  inserted-Among x (k, c, e) =
      let n = length-inserted v s i h in
      elim (Bool-cases (ltb k i)) [
        | inl b ↦ (k, omega (arith, n, c), ground (arith, b, nth-inserted v s i k h))
        | inr b ↦ (k + 1, omega (arith, n, c), ground (arith, b, nth-inserted v s i (k + 1) h))
      ]

  inserted-here : Among s (inserted v i s)
  inserted-here =
      (i, omega (arith, length-inserted v s i h), ground (arith, nth-inserted v s i i h))

-- Among the strings of a vector to which one was added are that one and those of before.
module _ (v : List (List ℕ)) (s : List ℕ) (sorted : IsSorted v) where
  Among-sv_add_sorted : (x : List ℕ) → Among x (sv_add_sorted v s).0 → Among x v ⊎ (s ≡ x)
  Among-sv_add_sorted x a = elim (sv_add_sorted-IsSorted v s sorted).1 [
    | inl (_, _, _, e) ↦ inl (subst (λ r. Among x r.0) e a)
    | inr (_, (i, h, e)) ↦ Among-inserted v s i h x (subst (λ r. Among x r.0) e a)
  ]

  sv_add_sorted-Among : (x : List ℕ) → Among x v → Among x (sv_add_sorted v s).0
  sv_add_sorted-Among x a = elim (sv_add_sorted-IsSorted v s sorted).1 [
    | inl (_, _, _, e) ↦ subst (λ r. Among x r.0) (sym e) a
    | inr (_, (i, h, e)) ↦ subst (λ r. Among x r.0) (sym e) (inserted-Among v s i h x a)
  ]

  sv_add_sorted-here : Among s (sv_add_sorted v s).0
  sv_add_sorted-here = elim (sv_add_sorted-IsSorted v s sorted).1 [
    | inl (j, c, k, e) ↦ subst (λ r. Among s r.0) (sym e) (j, c, k)
    | inr (_, (i, h, e)) ↦ subst (λ r. Among s r.0) (sym e) (inserted-here v s i h)
  ]

-- What the loop has collected from `ss`, behind `ms`.
record Collected (search : List ℕ) (ss ms ms' : List (List ℕ)) : Type 0 where
  sorted : IsSorted ms'
  found : (x : List ℕ) → Among x ms' → Among x ms ⊎ (Among x ss × (starts_with x search ≡ true))
  kept : (x : List ℕ) → Among x ms → Among x ms'
  all : (x : List ℕ) → Among x ss → starts_with x search ≡ true → Among x ms'

collect-Collected :
    (search : List ℕ) (ss ms : List (List ℕ)) (full : ℕ)
    → IsSorted ms
    → Collected search ss ms (collect ss search ms full).0
unfolding collect
collect-Collected search [] ms full v = record {
  sorted = v;
  found = λ x a. inl a;
  kept = λ x a. a;
  all = λ x a e. absurd (omega (arith, a.1));
}
collect-Collected search (s ∷ ss) ms full v = elim (Bool-cases (starts_with s search)) [
  | inl e ↦
      let next = if same_bytes s search then full + 1 else full in
      let more = (sv_add_sorted ms s).0 in
      let r = collect-Collected search ss more next (sv_add_sorted-IsSorted ms s v).0 in
      rw (collect, e)
        (record {
          sorted = r.sorted;
          found = λ x a. elim (r.found x a) [
            | inr (b, f) ↦ inr (Among-behind x s ss b, f)
            | inl b ↦ elim (Among-sv_add_sorted ms s v x b) [
              | inl c ↦ inl c
              | inr here ↦
                  inr ((0, omega arith, here), ap (λ y. starts_with y search) (sym here) ∙ e)
            ]
          ];
          kept = λ x a. r.kept x (sv_add_sorted-Among ms s v x a);
          all = λ x a f. elim (Among-cons x s ss a) [
            | inl here ↦ r.kept x (subst (λ y. Among y more) here (sv_add_sorted-here ms s v))
            | inr b ↦ r.all x b f
          ];
        })
  | inr e ↦
      let r = collect-Collected search ss ms full v in
      rw (collect, e)
        (record {
          sorted = r.sorted;
          found = λ x a. elim (r.found x a) [
            | inr (b, f) ↦ inr (Among-behind x s ss b, f)
            | inl c ↦ inl c
          ];
          kept = r.kept;
          all = λ x a f. elim (Among-cons x s ss a) [
            | inl here ↦ absurd (ground (arith, sym e ∙ (ap (λ y. starts_with y search) here ∙ f)))
            | inr b ↦ r.all x b f
          ];
        })
]

-- `x` is `text` and more bytes, or none.
abbrev pub HasStart : List ℕ → List ℕ → Type 0
HasStart text x = (rest : List ℕ) × (x ≡ text ++ rest)

starts_with-HasStart : (x text : List ℕ) → starts_with x text ≡ true → HasStart text x
unfolding starts_with
starts_with-HasStart x [] e = (x, refl)
starts_with-HasStart [] (c ∷ text) e = absurd (ground arith)
starts_with-HasStart (d ∷ x) (c ∷ text) e =
    let (rest, f) = starts_with-HasStart x text (ground (arith, e)) in
    let same : d ≡ c = ground (arith, e) in (rest, ap₂ (λ b l. b ∷ l) same f)

starts_with-append : (text rest : List ℕ) → starts_with (text ++ rest) text ≡ true
unfolding starts_with
starts_with-append [] rest = refl
starts_with-append (c ∷ text) rest = ground (arith, starts_with-append text rest)

pub HasStart-starts_with : (x text : List ℕ) → HasStart text x → starts_with x text ≡ true
HasStart-starts_with x text (rest, e) =
    ap (λ y. starts_with y text) e ∙ starts_with-append text rest

-- The matches are sorted, each once, and are the completions that start with the text.
pub record AreMatches (search : List ℕ) (cps ms : List (List ℕ)) : Type 0 where
  pub sorted : IsSorted ms
  pub found : (x : List ℕ) → Among x ms → Among x cps × HasStart search x
  pub all : (x : List ℕ) → Among x cps → HasStart search x → Among x ms

pub collect-AreMatches :
    (search : List ℕ) (cps : List (List ℕ)) (full : ℕ)
    → AreMatches search cps (collect cps search [] full).0
collect-AreMatches search cps full =
    let r = collect-Collected search cps [] full (λ i j h b. absurd (omega (arith, b))) in
    record {
      sorted = r.sorted;
      found = λ x a. elim (r.found x a) [
        | inl (_, c, _) ↦ absurd (omega (arith, c))
        | inr (b, f) ↦ (b, starts_with-HasStart x search f)
      ];
      all = λ x a h. r.all x a (HasStart-starts_with x search h);
    }
