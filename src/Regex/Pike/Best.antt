-- ===== src/Regex/Pike/Best.antt =====
-- A match that `pike_run` of src/regex.c has found is kept, or replaced by another.
use xzile.Prelude.{
  ℕ, zero, suc, ◌+◌, ◌≡◌, refl, inl, inr, Bool, Option, none, some, List, [], ◌∷◌, leb, Bool-cases,
  Option-cases, length, get_elem?,
}
use xzile.Estr.{◌>>=◌}
use xzile.VTerm.Dispatch.Safe.{either_lem}
use xzile.Regex.{Regex}
use xzile.Regex.Run.{Ctype, Subject}
use xzile.Regex.Pike.{
  Thread, PikeState, Found, inst_bytes, moves_on, is_match, scan, is_found, run_from,
}

-- A match once found is kept.
unfoldable pub HasFound : Option Found → Type 0
HasFound none = Unit
HasFound (some none) = ⊥
HasFound (some (some m)) = Unit

module _ (ct : Ctype) (re : Regex) (s : Subject) (anchored : Bool) where
  unfoldable pub ScanHasFound : Option (PikeState × Found) → Type 0
  ScanHasFound none = Unit
  ScanHasFound (some (ps, none)) = ⊥
  ScanHasFound (some (ps, some m)) = Unit

  bind-ScanHasFound :
      {A : Type 0} (o : Option A) (f : A → Option (PikeState × Found))
      → ((a : A) → ScanHasFound (f a))
      → ScanHasFound (o >>= f)
  unfolding ScanHasFound
  bind-ScanHasFound none f h = tt
  bind-ScanHasFound (some a) f h = h a

  module _ (sp : ℕ) (m : ℕ × ℕ) (t : Thread) (ts : List Thread) (ps : PikeState)
      (rest : (ps2 : PikeState) → ScanHasFound (scan ct re s sp (some m) ts ps2)) where
    thread-ScanHasFound : (w : ℕ) → t.wait ≡ w → ScanHasFound (scan ct re s sp (some m) (t ∷ ts) ps)
    unfolding scan ScanHasFound
    thread-ScanHasFound (suc w) e = rw (scan, e) (bind-ScanHasFound _ _ rest)
    thread-ScanHasFound zero e = elim (Option-cases (get_elem? re.prog t.pc)) [
      | inl f ↦ rw (scan, e, f) tt
      | inr (i, f) ↦ elim (Bool-cases (is_match ct re s i)) [
        | inl q ↦ rw (scan, e, f, q) tt
        | inr q ↦
            rw (scan, e, f, q)
              (bind-ScanHasFound {A = ℕ} (inst_bytes ct re s i sp) _ (λ n.
                bind-ScanHasFound {A = PikeState} (moves_on ct re s n (t.pc + 1) t.start sp ps) _
                  rest))
      ]
    ]

  scan-ScanHasFound :
      (sp : ℕ) (m : ℕ × ℕ) (ts : List Thread) (ps : PikeState)
      → ScanHasFound (scan ct re s sp (some m) ts ps)
  unfolding scan ScanHasFound
  scan-ScanHasFound sp m [] ps = tt
  scan-ScanHasFound sp m (t ∷ ts) ps =
      thread-ScanHasFound sp m t ts ps (λ ps2. scan-ScanHasFound sp m ts ps2) t.wait refl

  scanned-HasFound :
      (o : Option (PikeState × Found)) (f : PikeState × Found → Option Found)
      → ScanHasFound o
      → ((ps : PikeState) (m : ℕ × ℕ) → HasFound (f (ps, some m)))
      → HasFound (o >>= f)
  unfolding ScanHasFound HasFound
  scanned-HasFound none f h g = tt
  scanned-HasFound (some (ps, none)) f h g = absurd h
  scanned-HasFound (some (ps, some m)) f h g = g ps m

  pub run_from-HasFound :
      (fuel sp : ℕ) (m : ℕ × ℕ) (ps : PikeState)
      → HasFound (run_from ct re s fuel anchored sp (some m) ps)
  unfolding run_from HasFound is_found
  run_from-HasFound zero sp m ps = tt
  run_from-HasFound (suc fuel) sp m ps = either_lem HasFound _ (some (some m)) _ tt (
      scanned-HasFound _ _ (scan-ScanHasFound sp m ps.list _) (λ ps2 m2.
        either_lem HasFound (leb (length s.text) sp) _ _ tt
          (run_from-HasFound fuel (sp + 1) m2 ps2)))
