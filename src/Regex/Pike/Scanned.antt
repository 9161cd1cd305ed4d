-- ===== src/Regex/Pike/Scanned.antt =====
-- What a round of `pike_run` in src/regex.c makes of the threads at a position: each of them is
-- moved on, to the next position or nearer to the end of its character.
use xzile.Prelude.{
  ℕ, zero, suc, ◌+◌, ◌≤◌, ◌≡◌, refl, sym, ap, ◌∙◌, inl, inr, false, Option, none, some, List, [],
  ◌∷◌, arith, Bool-cases, Option-cases, get_elem?,
}
use mathlib.Core.Path.{subst}
use mathlib.Core.Option.{some-injective}
use xzile.Estr.{◌>>=◌}
use xzile.Regex.{Inst, op_match, Regex}
use xzile.Regex.Run.{Ctype, Subject}
use xzile.Regex.Pike.{Thread, PikeState, Found, max_wait, inst_bytes, moves_on, is_match, scan}
use xzile.Regex.Pike.Lists.{Has}
use xzile.Regex.Pike.Moves.{
  Moved, Extends, same-Extends, both-Extends, Moved-Extends, IsComplete, IsMoved, moves_on-IsMoved,
  IsShort, inst_bytes-IsShort,
}

module _ (ct : Ctype) (re : Regex) (s : Subject) where
  no_match_inst : (i : Inst) → is_match ct re s i ≡ false → i ≡ op_match → ⊥
  unfolding is_match
  no_match_inst i e q = ground (arith, sym (ap (is_match ct re s) q) ∙ e)

  -- What becomes of a thread of the list at `sp`.
  unfoldable pub Handled : ℕ → ℕ → ℕ → PikeState → Type 0
  Handled sp pc zero ps =
      (i : Inst)
      → get_elem? re.prog pc ≡ some i
      → (i ≡ op_match → ⊥) × ((n : ℕ) → inst_bytes ct re s i sp ≡ some n → Moved n (pc + 1) ps)
  Handled sp pc (suc w) ps = Moved (suc w) pc ps

  pub Handled-Extends :
      (sp pc w : ℕ) (ps ps2 : PikeState) → Extends ps ps2 → Handled sp pc w ps → Handled sp pc w ps2
  unfolding Handled
  Handled-Extends sp pc zero ps ps2 g h =
      λ i e. ((h i e).0, λ n q. Moved-Extends n (pc + 1) ps ps2 g ((h i e).1 n q))
  Handled-Extends sp pc (suc w) ps ps2 g h = Moved-Extends (suc w) pc ps ps2 g h

  -- When the threads have been gone through with no match, each of them has been handled.
  unfoldable pub IsScan : ℕ → List Thread → PikeState → Option (PikeState × Found) → Type 0
  IsScan sp ts ps none = Unit
  IsScan sp ts ps (some (ps2, some m)) = Unit
  IsScan sp ts ps (some (ps2, none)) =
      Extends ps ps2
      × IsComplete ct re s (sp + 1) ps2
      × ((pc w : ℕ) → Has ts pc w → Handled sp pc w ps2)

  module _ (sp : ℕ) (t : Thread) (ts : List Thread) (ps : PikeState) where
    cons-IsScan :
        (ps2 : PikeState) (w : ℕ)
        → t.wait ≡ w
        → Extends ps ps2
        → Handled sp t.pc w ps2
        → (o : Option (PikeState × Found)) → IsScan sp ts ps2 o
        → IsScan sp (t ∷ ts) ps o
    unfolding IsScan Has
    cons-IsScan ps2 w e g h none r = tt
    cons-IsScan ps2 w e g h (some (ps3, some m)) r = tt
    cons-IsScan ps2 w e g h (some (ps3, none)) (k, c, f) = (
      both-Extends ps ps2 ps3 g k,
      c,
      λ pc v has. elim has [
        | inr l ↦ f pc v l
        | inl l ↦
            let here = Handled-Extends sp t.pc w ps2 ps3 k h in
            subst (λ x. Handled sp x v ps3) l.0
              (subst (λ x. Handled sp t.pc x ps3) (sym e ∙ l.1) here)
      ],
    )

    module _
        (rest : (ps2 : PikeState)
          → IsComplete ct re s (sp + 1) ps2
          → IsScan sp ts ps2 (scan ct re s sp none ts ps2)) where
      move-IsScan :
          (n pc w : ℕ)
          → t.wait ≡ w
          → ((ps2 : PikeState) → Moved n pc ps2 → Handled sp t.pc w ps2)
          → (o : Option PikeState) → IsMoved ct re s (sp + 1) n pc ps o
          → IsScan sp (t ∷ ts) ps (o >>= scan ct re s sp none ts)
      unfolding IsMoved IsScan
      move-IsScan n pc w e f none m = tt
      move-IsScan n pc w e f (some ps2) (g, c, m) = cons-IsScan ps2 w e g (f ps2 m) _ (rest ps2 c)

      read-IsScan :
          (i : Inst)
          → t.wait ≡ zero
          → get_elem? re.prog t.pc ≡ some i
          → (i ≡ op_match → ⊥)
          → IsComplete ct re s (sp + 1) ps
          → (o : Option ℕ) → inst_bytes ct re s i sp ≡ o
          → IsShort o
          → IsScan sp
              (t ∷ ts)
              ps
              (o >>= (λ n. moves_on ct re s n (t.pc + 1) t.start sp ps >>= scan ct re s sp none ts))
      unfolding IsScan IsShort Handled
      read-IsScan i e at other c none q h = tt
      read-IsScan i e at other c (some n) q h =
          move-IsScan n (t.pc + 1) zero e
            (λ ps2 m j f.
              let same : j ≡ i = some-injective j i (sym f ∙ at) in
              (
                λ k. other (sym same ∙ k),
                λ n2 g.
                    let equal : n ≡ n2 =
                      some-injective n n2
                        (sym q ∙ ap (λ x. inst_bytes ct re s x sp) (sym same) ∙ g) in
                    subst (λ x. Moved x (t.pc + 1) ps2) equal m,
              ))
            _ (moves_on-IsMoved ct re s sp (t.pc + 1) t.start n ps h c)

      thread-IsScan :
          (w : ℕ)
          → t.wait ≡ w
          → w ≤ max_wait
          → IsComplete ct re s (sp + 1) ps
          → IsScan sp (t ∷ ts) ps (scan ct re s sp none (t ∷ ts) ps)
      unfolding scan IsScan Handled
      thread-IsScan (suc w) e h c =
          let moved : scan ct re s sp none (t ∷ ts) ps
              ≡ moves_on ct re s (suc w) t.pc t.start sp ps >>= scan ct re s sp none ts =
            rw (scan, e) refl in
          subst (IsScan sp (t ∷ ts) ps) (sym moved) (
            move-IsScan (suc w) t.pc (suc w) e (λ ps2 m. m) _
              (moves_on-IsMoved ct re s sp t.pc t.start (suc w) ps (omega (arith, h)) c))
      thread-IsScan zero e h c = elim (Option-cases (get_elem? re.prog t.pc)) [
        | inl f ↦
            let stops : scan ct re s sp none (t ∷ ts) ps ≡ none = rw (scan, e, f) refl in
            subst (IsScan sp (t ∷ ts) ps) (sym stops) tt
        | inr (i, f) ↦ elim (Bool-cases (is_match ct re s i)) [
          | inl q ↦
              let found : scan ct re s sp none (t ∷ ts) ps ≡ some (ps, some (t.start, sp)) =
                rw (scan, e, f, q) refl in
              subst (IsScan sp (t ∷ ts) ps) (sym found) tt
          | inr q ↦
              let read : scan ct re s sp none (t ∷ ts) ps ≡ (
                  inst_bytes ct re s i sp >>= (λ n.
                    moves_on ct re s n (t.pc + 1) t.start sp ps >>= scan ct re s sp none ts)) =
                rw (scan, e, f, q) refl in
              subst (IsScan sp (t ∷ ts) ps) (sym read)
                (read-IsScan i e f (no_match_inst i q) c _ refl (inst_bytes-IsShort ct re s i sp))
        ]
      ]

  pub scan-IsScan :
      (sp : ℕ) (ts : List Thread) (ps : PikeState)
      → ((pc w : ℕ) → Has ts pc w → w ≤ max_wait)
      → IsComplete ct re s (sp + 1) ps
      → IsScan sp ts ps (scan ct re s sp none ts ps)
  unfolding scan IsScan Has
  scan-IsScan sp [] ps h c = (same-Extends ps, c, λ pc w k. absurd k)
  scan-IsScan sp (t ∷ ts) ps h c =
      thread-IsScan sp t ts ps (λ ps2 c2. scan-IsScan sp ts ps2 (λ pc w k. h pc w (inr k)) c2)
        t.wait refl (h t.pc t.wait (inl (refl, refl))) c
