-- ===== src/Regex/Pike/Lists.antt =====
-- The lists and the marks of `pike_run` in src/regex.c: what is in a list, and what is found where a
-- mark has been set.
use xzile.Prelude.{
  ℕ, zero, suc, ◌≡◌, refl, sym, ap, ◌⊎◌, inl, inr, true, some, List, [], ◌∷◌, ◌++◌, arith, ◌==◌,
  get_elem?, set,
}
use mathlib.Core.Option.{some-injective}
use xzile.Regex.Pike.{Thread}

pub ==_eq : (a b : ℕ) → (a == b) ≡ true → a ≡ b
==_eq a b e = ground (arith, e)

-- The list has a thread that is to be at `pc` after `wait` more bytes.
unfoldable pub Has : List Thread → ℕ → ℕ → Type 0
Has [] pc wait = ⊥
Has (t ∷ ts) pc wait = ((t.pc ≡ pc) × (t.wait ≡ wait)) ⊎ Has ts pc wait

pub Has-append : (ts us : List Thread) (pc wait : ℕ) → Has ts pc wait → Has (ts ++ us) pc wait
unfolding Has
Has-append [] us pc wait h = absurd h
Has-append (t ∷ ts) us pc wait (inl h) = inl h
Has-append (t ∷ ts) us pc wait (inr h) = inr (Has-append ts us pc wait h)

pub append-Has :
    (ts : List Thread) (t : Thread) (pc wait : ℕ)
    → Has (ts ++ t ∷ []) pc wait
    → Has ts pc wait ⊎ ((t.pc ≡ pc) × (t.wait ≡ wait))
unfolding Has
append-Has [] t pc wait (inl h) = inr h
append-Has [] t pc wait (inr h) = absurd h
append-Has (u ∷ ts) t pc wait (inl h) = inl (inl h)
append-Has (u ∷ ts) t pc wait (inr h) = elim (append-Has ts t pc wait h) [
  | inl k ↦ inl (inr k)
  | inr k ↦ inr k
]

pub Has-last :
    (ts : List Thread) (pc start wait : ℕ)
    → Has (ts ++ record { pc = pc; start = start; wait = wait } ∷ []) pc wait
unfolding Has
Has-last [] pc start wait = inl (refl, refl)
Has-last (t ∷ ts) pc start wait = inr (Has-last ts pc start wait)

pub set-here :
    (ms : List ℕ) (i v m : ℕ) → get_elem? ms i ≡ some m → get_elem? (set ms i v) i ≡ some v
set-here [] i v m e = absurd (ground (arith, e))
set-here (x ∷ ms) zero v m e = refl
set-here (x ∷ ms) (suc i) v m e = set-here ms i v m e

pub set-kept :
    (ms : List ℕ) (i x v : ℕ) → get_elem? ms x ≡ some v → get_elem? (set ms i v) x ≡ some v
set-kept [] i x v e = absurd (ground (arith, e))
set-kept (m ∷ ms) zero zero v e = refl
set-kept (m ∷ ms) zero (suc x) v e = e
set-kept (m ∷ ms) (suc i) zero v e = e
set-kept (m ∷ ms) (suc i) (suc x) v e = set-kept ms i x v e

pub set-new :
    (ms : List ℕ) (i x v : ℕ)
    → get_elem? (set ms i v) x ≡ some v
    → (x ≡ i) ⊎ (get_elem? ms x ≡ some v)
set-new [] i x v e = absurd (ground (arith, e))
set-new (m ∷ ms) zero zero v e = inl refl
set-new (m ∷ ms) zero (suc x) v e = inr e
set-new (m ∷ ms) (suc i) zero v e = inr e
set-new (m ∷ ms) (suc i) (suc x) v e = elim (set-new ms i x v e) [
  | inl q ↦ inl (ap suc q)
  | inr q ↦ inr q
]

pub set-value :
    (ms : List ℕ) (i x v m : ℕ)
    → get_elem? (set ms i v) x ≡ some m
    → (m ≡ v) ⊎ (get_elem? ms x ≡ some m)
set-value [] i x v m e = inr e
set-value (y ∷ ms) zero zero v m e = inl (sym (some-injective v m e))
set-value (y ∷ ms) zero (suc x) v m e = inr e
set-value (y ∷ ms) (suc i) zero v m e = inr e
set-value (y ∷ ms) (suc i) (suc x) v m e = set-value ms i x v m e
