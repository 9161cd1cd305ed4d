-- ===== src/Regex/Pike/Control.antt =====
-- Where the threads of `pike_run` in src/regex.c can be, whatever the registers, and how a round
-- takes the list for one position to the list for the next.
use xzile.Prelude.{
  ℕ, zero, suc, ◌+◌, ◌-◌, ◌≤◌, ◌<◌, ◌≡◌, refl, sym, ap, ◌∙◌, ◌⊎◌, inl, inr, Bool, true, false,
  Option, none, some, arith, Bool-cases, Option-cases, length, get_elem?,
}
use mathlib.Core.Path.{subst}
use mathlib.Core.Option.{some-injective}
use xzile.Regex.{
  Inst, op_char, op_any, op_set, op_wordchar, op_nwordchar, op_space, op_nspace, Regex,
}
use xzile.Regex.Run.{Ctype, Subject}
use xzile.Regex.Run.Safe.{IsProgram}
use xzile.Regex.Pike.{PikeState, char_bytes, inst_bytes}
use xzile.Regex.Pike.Kept.{Target, IsRead}
use xzile.Regex.Pike.Safe.{IsPlace, IsPlace-IsKept}
use xzile.Regex.Pike.Grown.{Stays, IsMarked}
use xzile.Regex.Pike.Lists.{Has}
use xzile.Regex.Pike.Scanned.{Handled, Handled-Extends}
use xzile.Regex.Pike.Moves.{Moved, Extends, IsComplete}

-- The places and positions that a thread from `start` goes through.
pub data Control (ct : Ctype) (re : Regex) (s : Subject) (start : ℕ) : ℕ → ℕ → Type 0 where
  starts : Control ct re s start 0 start
  moves :
      {pc p to : ℕ} (i : Inst)
      → Control ct re s start pc p
      → get_elem? re.prog pc ≡ some i
      → Target ct s i pc p to
      → Control ct re s start to p
  reads :
      {pc p : ℕ} (i : Inst) (n : ℕ)
      → Control ct re s start pc p
      → get_elem? re.prog pc ≡ some i
      → inst_bytes ct re s i p ≡ some (suc n)
      → Control ct re s start (pc + 1) (p + suc n)

module _ (ct : Ctype) (re : Regex) (s : Subject) where
  char_bytes-Stays : (i : Inst) (c p n : ℕ) → char_bytes ct re s i c p ≡ some (suc n) → Stays i
  unfolding char_bytes Stays
  char_bytes-Stays (op_char a) c p n e = tt
  char_bytes-Stays op_any c p n e = tt
  char_bytes-Stays (op_set index) c p n e = tt
  char_bytes-Stays op_wordchar c p n e = tt
  char_bytes-Stays op_nwordchar c p n e = tt
  char_bytes-Stays op_space c p n e = tt
  char_bytes-Stays op_nspace c p n e = tt
  char_bytes-Stays _ c p n e = absurd (ground (arith, e))

  pub inst_bytes-Stays : (i : Inst) (p n : ℕ) → inst_bytes ct re s i p ≡ some (suc n) → Stays i
  unfolding inst_bytes
  inst_bytes-Stays i p n e = elim (Option-cases (get_elem? s.text p)) [
    | inl q ↦ absurd (ground (arith, q, e))
    | inr (c, q) ↦
        let read : inst_bytes ct re s i p ≡ char_bytes ct re s i c p = rw (inst_bytes, q) refl in
        char_bytes-Stays i c p n (sym read ∙ e)
  ]

  read-IsPlace :
      (p : IsProgram re) (start pc sp n : ℕ) (o : Option ℕ)
      → IsRead (IsPlace ct re s p) start pc sp o
      → o ≡ some (suc n)
      → IsPlace ct re s p start (pc + 1) (sp + suc n)
  unfolding IsRead
  read-IsPlace p start pc sp n none r e = absurd r
  read-IsPlace p start pc sp n (some zero) r e = absurd (ground (arith, e))
  read-IsPlace p start pc sp n (some (suc m)) (h, r) e =
      subst (λ x. IsPlace ct re s p start (pc + 1) (sp + x)) (some-injective (suc m) (suc n) e) r

  pub Control-IsPlace :
      (p : IsProgram re) (start pc sp : ℕ)
      → start ≤ length s.text
      → Control ct re s start pc sp
      → IsPlace ct re s p start pc sp
  Control-IsPlace p start pc sp h starts = (IsPlace-IsKept ct re s p false).fresh start refl h
  Control-IsPlace p start pc sp h (moves {pc = pc2} i c e t) =
      (IsPlace-IsKept ct re s p false).moves start pc2 sp pc i (Control-IsPlace p start pc2 sp h c)
        e t
  Control-IsPlace p start _ _ h (reads {pc = pc2} {p = sp2} i n c e b) =
      let kept = IsPlace-IsKept ct re s p false in
      read-IsPlace p start pc2 sp2 n _
        (kept.reads start pc2 sp2 i (Control-IsPlace p start pc2 sp2 h c) e) b

  module _ (anchored : Bool) (from : ℕ) where
    -- The starts of a run.
    pub record IsStart (start : ℕ) : Type 0 where
      pub from_le : from ≤ start
      pub start_le : start ≤ length s.text
      pub anchor : anchored ≡ true → start ≡ from

    -- The list at `sp` has all places of threads at `sp`, and all threads within a character.
    pub record IsRound (sp : ℕ) (ps : PikeState) : Type 0 where
      pub complete : IsComplete ct re s sp ps
      pub here :
          (start pc p : ℕ) → IsStart start → Control ct re s start pc p → p ≡ sp → IsMarked ps pc
      pub passing :
          (start pc p n : ℕ) (i : Inst)
          → IsStart start
          → Control ct re s start pc p
          → get_elem? re.prog pc ≡ some i
          → inst_bytes ct re s i p ≡ some (suc n)
          → p < sp
          → sp < p + suc n
          → Has ps.list (pc + 1) (p + suc n - sp)

    module _ (sp : ℕ) (ps ps2 ps3 : PikeState) (round : IsRound sp ps) (past : from ≤ sp)
        (handled : (pc w : ℕ) → Has ps.list pc w → Handled ct re s sp pc w ps2)
        (more : Extends ps2 ps3) (done : IsComplete ct re s (sp + 1) ps3)
        (fresh : anchored ≡ false → IsMarked ps3 0) where
      -- A thread that reads over `sp` has come one byte nearer to its place.
      waited : (pc w : ℕ) → 0 < w → Has ps.list pc w → Moved w pc ps3
      unfolding Handled
      waited pc zero h k = absurd (omega (arith, h))
      waited pc (suc w) h k =
          Handled-Extends ct re s sp pc (suc w) ps2 ps3 more (handled pc (suc w) k)

      arrives :
          (start pc p n : ℕ) (i : Inst)
          → IsStart start
          → Control ct re s start pc p
          → get_elem? re.prog pc ≡ some i
          → inst_bytes ct re s i p ≡ some (suc n)
          → (p ≡ sp) ⊎ (p < sp)
          → sp < p + suc n
          → Moved (p + suc n - sp) (pc + 1) ps3
      unfolding Handled
      arrives start pc p n i a c e b (inr l) k =
          waited (pc + 1) _ (omega (arith, k)) (round.passing start pc p n i a c e b l k)
      arrives start pc p n i a c e b (inl q) k =
          let active =
            (round.complete.settled pc (round.here start pc p a c q)).listed i e
              (inst_bytes-Stays i p n b) in
          let read = ap (λ x. inst_bytes ct re s i x) (sym q) ∙ b in
          let whole =
            (Handled-Extends ct re s sp pc zero ps2 ps3 more (handled pc zero active) i e).1 (suc n)
              read in
          subst (λ x. Moved x (pc + 1) ps3) (omega (arith, q)) whole

      same_or_before : (p q : ℕ) → p < q + 1 → (p ≡ q) ⊎ (p < q)
      same_or_before p q h = grind arith

      next-here :
          (start pc p : ℕ)
          → IsStart start
          → Control ct re s start pc p
          → p ≡ sp + 1
          → IsMarked ps3 pc
      unfolding Moved
      next-here start pc p a starts q = elim (Bool-cases anchored) [
        | inl e ↦ absurd (omega (arith, a.anchor e, q, past))
        | inr e ↦ fresh e
      ]
      next-here start pc p a (moves {pc = pc2} i c e t) q =
          (done.settled pc2 (next-here start pc2 p a c q)).targets i pc e
            (subst (λ x. Target ct s i pc2 x pc) q t)
      next-here start _ _ a (reads {pc = pc2} {p = p2} i n c e b) q =
          let one : p2 + suc n - sp ≡ 1 = omega (arith, q) in
          subst (λ x. Moved x (pc2 + 1) ps3) one
            (arrives start pc2 p2 n i a c e b (same_or_before p2 sp (omega (arith, q)))
              (omega (arith, q)))

      Moved-Has : (w v pc : ℕ) → Moved w pc ps3 → w ≡ v + 1 → 0 < v → Has ps3.list pc v
      unfolding Moved
      Moved-Has zero v pc m e h = absurd (omega (arith, e))
      Moved-Has (suc zero) v pc m e h = absurd (omega (arith, e, h))
      Moved-Has (suc (suc w)) v pc m e h = subst (λ x. Has ps3.list pc x) (omega (arith, e)) m

      pub next-IsRound : IsRound (sp + 1) ps3
      next-IsRound = record {
        complete = done;
        here = next-here;
        passing = λ start pc p n i a c e b h k.
            Moved-Has (p + suc n - sp) (p + suc n - (sp + 1)) (pc + 1)
              (arrives start pc p n i a c e b (same_or_before p sp (omega (arith, h)))
                (omega (arith, k)))
              (omega (arith, h, k)) (omega (arith, k));
      }
