-- ===== src/Regex/Pike/Rounds.antt =====
-- The loops of `pike_run` in src/regex.c, over the threads of a list and over the text.
use xzile.Prelude.{
  ℕ, zero, suc, ◌+◌, ◌*◌, ◌%◌, ◌^◌, ◌≤◌, ◌<◌, ◌≡◌, refl, inl, inr, Bool, true, false, ◌&&◌, not,
  Option, none, some, List, [], ◌∷◌, arith, leb, Bool-cases, Option-cases, length, get_elem?,
  length-replicate,
}
use mathlib.Core.Path.{subst}
use xzile.Estr.{◌>>=◌}
use xzile.VTerm.Dispatch.Safe.{either_lem, either_checked}
use xzile.Regex.Run.Safe.{get-within}
use xzile.Regex.{Inst, op_match, Regex}
use xzile.Regex.Run.{Ctype, Subject}
use xzile.Regex.Pike.{
  Thread, PikeState, max_wait, Found, add_thread, moves_on, is_match, scan, is_found, run_from,
  pike_run,
}
use xzile.Regex.Pike.Marks.{IsGood, AllGood, IsBuilding, IsBuilt, push_waiting-IsBuilt}
use xzile.Regex.Pike.Kept.{IsRead, IsKept, add_thread-IsBuilt}

module _ (ct : Ctype) (re : Regex) (s : Subject) (G : ℕ → ℕ → ℕ → Type 0) where
  -- A match is where a thread is at OP_MATCH.
  unfoldable pub IsBest : Found → Type 0
  IsBest none = Unit
  IsBest (some (start, end)) = (pc : ℕ) × G start pc end × (get_elem? re.prog pc ≡ some op_match)

  unfoldable pub IsRun : Option Found → Type 0
  IsRun none = ⊥
  IsRun (some best) = IsBest best

  unfoldable pub IsScanned : ℕ → ℕ → Option (PikeState × Found) → Type 0
  IsScanned v sp none = ⊥
  IsScanned v sp (some (ps, best)) = IsBuilding ct re s G v sp ps × IsBest best

module _ (ct : Ctype) (re : Regex) (s : Subject) (G : ℕ → ℕ → ℕ → Type 0) (anchored : Bool)
    (kept : IsKept ct re s G anchored) where
  abbrev Building : ℕ → ℕ → PikeState → Type 0
  Building = IsBuilding ct re s G

  is_match-eq : (i : Inst) → is_match ct re s i ≡ true → i ≡ op_match
  unfolding is_match
  is_match-eq op_match e = refl
  is_match-eq _ e = absurd (ground (arith, e))

  entered :
      (v start sp pc : ℕ) (ps : PikeState)
      → G start pc sp
      → Building v sp ps
      → IsBuilt ct re s G v sp 0 (add_thread ct re s (length re.prog + 1) start sp pc ps)
  entered v start sp pc ps g b =
      add_thread-IsBuilt ct re s G anchored kept (length re.prog + 1) v start sp pc 0 ps g b
        (omega arith) (omega arith)

  moves_on-IsBuilt :
      (v n pc start sp : ℕ) (ps : PikeState)
      → Building v (sp + 1) ps
      → n ≤ max_wait + 1
      → (0 < n → G start pc (sp + n))
      → IsBuilt ct re s G v (sp + 1) 0 (moves_on ct re s n pc start sp ps)
  unfolding moves_on IsBuilt IsGood
  moves_on-IsBuilt v zero pc start sp ps b h g = (b, omega arith)
  moves_on-IsBuilt v (suc zero) pc start sp ps b h g =
      entered v start (sp + 1) pc ps (g (omega arith)) b
  moves_on-IsBuilt v (suc (suc n)) pc start sp ps b h g =
      let good = g (omega arith) in
      push_waiting-IsBuilt ct re s G v (sp + 1) 0 pc start (suc n) ps b (omega arith)
        (kept.in_prog start pc _ good) (omega arith)
        (omega (arith, h), subst (G start pc) (omega arith) good)

  bind-IsScanned :
      (v sp n : ℕ) (o : Option PikeState) (f : PikeState → Option (PikeState × Found))
      → IsBuilt ct re s G v sp n o
      → ((ps : PikeState) → Building v sp ps → IsScanned ct re s G v sp (f ps))
      → IsScanned ct re s G v sp (o >>= f)
  unfolding IsBuilt
  bind-IsScanned v sp n none f h g = absurd h
  bind-IsScanned v sp n (some ps) f (b, h) g = g ps b

  read-IsScanned :
      (v pc start sp : ℕ) (ps : PikeState) (f : PikeState → Option (PikeState × Found))
      → Building v (sp + 1) ps
      → ((ps2 : PikeState) → Building v (sp + 1) ps2 → IsScanned ct re s G v (sp + 1) (f ps2))
      → (o : Option ℕ) → IsRead G start pc sp o
      → IsScanned ct re s G v (sp + 1) (o >>= (λ n. moves_on ct re s n (pc + 1) start sp ps >>= f))
  unfolding IsRead
  read-IsScanned v pc start sp ps f b g none r = absurd r
  read-IsScanned v pc start sp ps f b g (some zero) r =
      bind-IsScanned v (sp + 1) 0 _ f
        (moves_on-IsBuilt v 0 (pc + 1) start sp ps b (omega arith) (λ k. absurd (omega (arith, k))))
        g
  read-IsScanned v pc start sp ps f b g (some (suc n)) (h, k) =
      bind-IsScanned v (sp + 1) 0 _ f
        (moves_on-IsBuilt v (suc n) (pc + 1) start sp ps b (omega (arith, h)) (λ _. k)) g

  module _ (v sp : ℕ) (best : Found) (t : Thread) (ts : List Thread) (ps : PikeState)
      (b : Building v (sp + 1) ps)
      (rest : (ps2 : PikeState)
        → Building v (sp + 1) ps2
        → IsScanned ct re s G v (sp + 1) (scan ct re s sp best ts ps2)) where
    thread-IsScanned :
        (w : ℕ)
        → t.wait ≡ w
        → w ≤ max_wait
        → G t.start t.pc (sp + w)
        → IsScanned ct re s G v (sp + 1) (scan ct re s sp best (t ∷ ts) ps)
    unfolding scan IsScanned IsBest
    thread-IsScanned (suc w) e h g =
        rw (scan, e)
          (bind-IsScanned v (sp + 1) 0 _ _
            (moves_on-IsBuilt v (suc w) t.pc t.start sp ps b (omega (arith, h)) (λ _. g)) rest)
    thread-IsScanned zero e h g =
        let good : G t.start t.pc sp = subst (G t.start t.pc) (omega arith) g in
        elim (Option-cases (get_elem? re.prog t.pc)) [
          | inl f ↦ absurd (get-within re.prog t.pc (kept.in_prog t.start t.pc sp good) f)
          | inr (i, f) ↦ elim (Bool-cases (is_match ct re s i)) [
            | inl q ↦
                rw (scan, e, f, q)
                  (
                    b,
                    (t.pc, good, subst (λ x. get_elem? re.prog t.pc ≡ some x) (is_match-eq i q) f),
                  )
            | inr q ↦
                rw (scan, e, f, q)
                  (read-IsScanned v t.pc t.start sp ps _ b rest _
                    (kept.reads t.start t.pc sp i good f))
          ]
        ]

  -- The threads at `sp` make the list for the next position.
  scan-IsScanned :
      (v sp : ℕ) (best : Found) (ts : List Thread) (ps : PikeState)
      → AllGood ct re s G sp ts
      → IsBest ct re s G best
      → Building v (sp + 1) ps
      → IsScanned ct re s G v (sp + 1) (scan ct re s sp best ts ps)
  unfolding scan AllGood IsGood IsScanned IsBest
  scan-IsScanned v sp best [] ps a m b = (b, m)
  scan-IsScanned v sp best (t ∷ ts) ps ((w, g), a) m b =
      thread-IsScanned v sp best t ts ps b (λ ps2 b2. scan-IsScanned v sp best ts ps2 a m b2) t.wait
        refl w g

  bind-IsRun :
      (v sp n : ℕ) (o : Option PikeState) (f : PikeState → Option Found)
      → IsBuilt ct re s G v sp n o
      → ((ps : PikeState) → Building v sp ps → IsRun ct re s G (f ps))
      → IsRun ct re s G (o >>= f)
  unfolding IsBuilt
  bind-IsRun v sp n none f h g = absurd h
  bind-IsRun v sp n (some ps) f (b, h) g = g ps b

  scanned-IsRun :
      (v sp : ℕ) (o : Option (PikeState × Found)) (f : PikeState × Found → Option Found)
      → IsScanned ct re s G v sp o
      → ((ps : PikeState) (best : Found)
          → Building v sp ps
          → IsBest ct re s G best
          → IsRun ct re s G (f (ps, best)))
      → IsRun ct re s G (o >>= f)
  unfolding IsScanned
  scanned-IsRun v sp none f h g = absurd h
  scanned-IsRun v sp (some (ps, best)) f (b, m) g = g ps best b m

  not_anchored : (a b : Bool) → (not a && not b) ≡ true → b ≡ false
  not_anchored a b e = ground (arith, e)

  run_from-IsRun :
      (fuel v sp : ℕ) (best : Found) (ps : PikeState)
      → length s.text < fuel + sp
      → sp ≤ length s.text
      → IsBest ct re s G best
      → Building v sp ps
      → IsRun ct re s G (run_from ct re s fuel anchored sp best ps)
  unfolding run_from IsRun AllGood
  run_from-IsRun zero v sp best ps h k m b = absurd (omega (arith, h, k))
  run_from-IsRun (suc fuel) v sp best ps h k m b = either_lem (IsRun ct re s G) _ (some best) _ m (
      scanned-IsRun ((ps.stamp + 1) % 2 ^ 32) (sp + 1) _ _
        (scan-IsScanned ((ps.stamp + 1) % 2 ^ 32) sp best ps.list _ b.threads m (record {
          stamp_eq = refl;
          marks_len = b.marks_len;
          waits_len = b.waits_len;
          list_le = omega arith;
          threads = tt;
        }))
        (λ ps2 best2 b2 m2.
          either_checked (IsRun ct re s G) (leb (length s.text) sp) (some best2) _ (λ _. m2)
            (λ q.
              let l : sp + 1 ≤ length s.text = ground (arith, q) in
              either_checked (IsRun ct re s G) (not (is_found ct re s best2) && not anchored) _ _
                (λ c.
                  bind-IsRun _ (sp + 1) 0 _ _
                    (entered _ (sp + 1) (sp + 1) 0 ps2
                      (kept.fresh (sp + 1) (not_anchored _ anchored c) l) b2)
                    (λ ps3 b3. run_from-IsRun fuel _ (sp + 1) best2 ps3 (omega (arith, h)) l m2 b3))
                (λ c. run_from-IsRun fuel _ (sp + 1) best2 ps2 (omega (arith, h)) l m2 b2))))

  pub pike_run-IsRun :
      (from : ℕ)
      → from ≤ length s.text
      → G from 0 from
      → IsRun ct re s G (pike_run ct re s from anchored)
  unfolding pike_run IsBest AllGood
  pike_run-IsRun from h g =
      bind-IsRun 1 from 0 _ _
        (entered 1 from from 0 _ g (record {
          stamp_eq = refl;
          marks_len = length-replicate (length re.prog) 0;
          waits_len = length-replicate (length re.prog * max_wait) 0;
          list_le = omega arith;
          threads = tt;
        }))
        (λ ps b. run_from-IsRun _ 1 from none ps (omega (arith, h)) h tt b)
