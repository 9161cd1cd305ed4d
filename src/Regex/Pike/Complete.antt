-- ===== src/Regex/Pike/Complete.antt =====
-- When `pike_run` of src/regex.c finds nothing, no thread can reach OP_MATCH.
use xzile.Prelude.{
  ℕ, zero, suc, ◌+◌, ◌-◌, ◌*◌, ◌%◌, ◌^◌, ◌≤◌, ◌<◌, ◌≡◌, refl, sym, ◌⊎◌, inl, inr, Bool, true, false,
  ◌&&◌, ◌||◌, not, Option, none, some, List, [], ◌∷◌, arith, ltb, leb, length, get_elem?, replicate,
}
use mathlib.Core.Path.{subst}
use mathlib.Core.Option.{some-injective}
use xzile.Estr.{◌>>=◌}
use xzile.VTerm.Dispatch.Safe.{either_lem, either_checked}
use xzile.Regex.{op_match, Regex}
use xzile.Regex.Run.{Ctype, Subject}
use xzile.Regex.Run.Safe.{IsProgram}
use xzile.Regex.Pike.{
  Thread, PikeState, Found, max_wait, scan, is_found, no_threads, run_from, pike_run,
}
use xzile.Regex.Pike.Kept.{Target}
use xzile.Regex.Pike.Grown.{Stays, IsMarked, add_thread-IsAdded}
use xzile.Regex.Pike.Lists.{Has}
use xzile.Regex.Pike.Scanned.{Handled, IsScan, scan-IsScan}
use xzile.Regex.Pike.Moves.{
  Moved, Extends, same-Extends, both-Extends, IsComplete, IsMoved, added-IsMoved,
}
use xzile.Regex.Pike.Control.{
  Control, starts, moves, reads, inst_bytes-Stays, Control-IsPlace, IsStart, IsRound, next-IsRound,
}
use xzile.Regex.Pike.Best.{HasFound, run_from-HasFound}

three_ways : (a b : ℕ) → (a < b) ⊎ ((a ≡ b) ⊎ (b < a))
three_ways a b = grind arith

-- No mark is from a later list.
record IsBelow (ps : PikeState) : Type 0 where
  marks_le : (x m : ℕ) → get_elem? ps.marks x ≡ some m → m ≤ ps.stamp
  waits_le : (x m : ℕ) → get_elem? ps.wait_marks x ≡ some m → m ≤ ps.stamp

IsBelow-Extends : (ps ps2 : PikeState) → Extends ps ps2 → IsBelow ps → IsBelow ps2
IsBelow-Extends ps ps2 g b = record {
  marks_le = λ x m e. elim (g.values x m e) [
    | inl q ↦ omega (arith, q, g.stamp_eq)
    | inr q ↦ omega (arith, b.marks_le x m q, g.stamp_eq)
  ];
  waits_le = λ x m e. elim (g.wait_values x m e) [
    | inl q ↦ omega (arith, q, g.stamp_eq)
    | inr q ↦ omega (arith, b.waits_le x m q, g.stamp_eq)
  ];
}

module _ (ct : Ctype) (re : Regex) (s : Subject) (anchored : Bool) where
  module _ (p : IsProgram re) (from : ℕ) where
    -- From `sp` on, no thread of the run reaches OP_MATCH.
    unfoldable pub NoMatch : ℕ → Type 0
    NoMatch sp =
        (start pc q : ℕ)
        → IsStart ct re s anchored from start
        → Control ct re s start pc q
        → sp ≤ q
        → get_elem? re.prog pc ≡ some op_match
        → ⊥

    unfoldable pub IsSilent : ℕ → Option Found → Type 0
    IsSilent sp none = Unit
    IsSilent sp (some none) = NoMatch sp
    IsSilent sp (some (some m)) = Unit

    found-IsSilent : (sp : ℕ) (o : Option Found) → HasFound o → IsSilent sp o
    unfolding IsSilent HasFound
    found-IsSilent sp none h = tt
    found-IsSilent sp (some none) h = absurd h
    found-IsSilent sp (some (some m)) h = tt

    module _ (sp : ℕ) (ps : PikeState) (round : IsRound ct re s anchored from sp ps) where
      match-Stays : Stays op_match
      unfolding Stays
      match-Stays = tt

      -- A thread at OP_MATCH is in the list.
      matching :
          (start pc q : ℕ)
          → IsStart ct re s anchored from start
          → Control ct re s start pc q
          → q ≡ sp
          → get_elem? re.prog pc ≡ some op_match
          → Has ps.list pc 0
      matching start pc q a c e f =
          (round.complete.settled pc (round.here start pc q a c e)).listed op_match f match-Stays

      -- An anchored run without threads is over.
      over :
          ((pc w : ℕ) → Has ps.list pc w → ⊥)
          → anchored ≡ true
          → from ≤ sp
          → (start pc q : ℕ) → IsStart ct re s anchored from start
          → Control ct re s start pc q
          → sp < q
          → ⊥
      over f e h start pc q a starts l = absurd (omega (arith, a.anchor e, h, l))
      over f e h start pc q a (moves {pc = pc2} i c d t) l = over f e h start pc2 q a c l
      over f e h start _ _ a (reads {pc = pc2} {p = q2} i n c d b) l = elim (three_ways q2 sp) [
        | inl k ↦ f (pc2 + 1) _ (round.passing start pc2 q2 n i a c d b k l)
        | inr (inl k) ↦ f pc2 0 (
            (round.complete.settled pc2 (round.here start pc2 q2 a c k)).listed i d
              (inst_bytes-Stays ct re s i q2 n b))
        | inr (inr k) ↦ over f e h start pc2 q2 a c k
      ]

      over-NoMatch : ((pc w : ℕ) → Has ps.list pc w → ⊥) → anchored ≡ true → from ≤ sp → NoMatch sp
      unfolding NoMatch
      over-NoMatch f e h start pc q a c k m = elim (three_ways q sp) [
        | inl l ↦ absurd (omega (arith, k, l))
        | inr (inl l) ↦ f pc 0 (matching start pc q a c l m)
        | inr (inr l) ↦ over f e h start pc q a c l
      ]

      module _ (ps2 : PikeState)
          (handled : (pc w : ℕ) → Has ps.list pc w → Handled ct re s sp pc w ps2) where
        -- No thread at `sp` was at OP_MATCH.
        not_here :
            (start pc q : ℕ)
            → IsStart ct re s anchored from start
            → Control ct re s start pc q
            → q ≡ sp
            → get_elem? re.prog pc ≡ some op_match
            → ⊥
        unfolding Handled
        not_here start pc q a c e f = (handled pc 0 (matching start pc q a c e f) op_match f).0 refl

        last-NoMatch : length s.text ≤ sp → NoMatch sp
        unfolding NoMatch
        last-NoMatch h start pc q a c k m =
            let place = Control-IsPlace ct re s p start pc q a.start_le c in
            not_here start pc q a c (omega (arith, h, k, place.sp_le)) m

        widen-IsSilent : (o : Option Found) → IsSilent (sp + 1) o → IsSilent sp o
        unfolding IsSilent NoMatch
        widen-IsSilent none h = tt
        widen-IsSilent (some none) h = λ start pc q a c k m. elim (three_ways q sp) [
          | inl l ↦ absurd (omega (arith, k, l))
          | inr (inl l) ↦ not_here start pc q a c l m
          | inr (inr l) ↦ h start pc q a c (omega (arith, l)) m
        ]
        widen-IsSilent (some (some m)) h = tt

    scanned-IsSilent :
        (sp : ℕ) (ts : List Thread) (ps0 : PikeState) (o : Option (PikeState × Found))
        → IsScan ct re s sp ts ps0 o
        → (f : PikeState × Found → Option Found)
        → ((ps2 : PikeState) (m : ℕ × ℕ) → HasFound (f (ps2, some m)))
        → ((ps2 : PikeState)
            → Extends ps0 ps2
            → IsComplete ct re s (sp + 1) ps2
            → ((pc w : ℕ) → Has ts pc w → Handled ct re s sp pc w ps2)
            → IsSilent sp (f (ps2, none)))
        → IsSilent sp (o >>= f)
    unfolding IsScan IsSilent
    scanned-IsSilent sp ts ps0 none h f g k = tt
    scanned-IsSilent sp ts ps0 (some (ps2, none)) (e, c, d) f g k = k ps2 e c d
    scanned-IsSilent sp ts ps0 (some (ps2, some m)) h f g k = found-IsSilent sp _ (g ps2 m)

    move-IsSilent :
        (sp at : ℕ) (ps2 : PikeState) (o : Option PikeState)
        → IsMoved ct re s at 1 0 ps2 o
        → (f : PikeState → Option Found)
        → ((ps3 : PikeState)
            → Extends ps2 ps3
            → IsComplete ct re s at ps3
            → IsMarked ps3 0
            → IsSilent sp (f ps3))
        → IsSilent sp (o >>= f)
    unfolding IsMoved IsSilent Moved
    move-IsSilent sp at ps2 none h f g = tt
    move-IsSilent sp at ps2 (some ps3) (e, c, m) f g = g ps3 e c m

    new-IsComplete :
        (sp : ℕ) (ps : PikeState)
        → IsBelow ps
        → ps.stamp + 1 < 2 ^ 32
        → IsComplete ct re s sp (record ps { stamp = (ps.stamp + 1) % 2 ^ 32; list = [] })
    unfolding Has
    new-IsComplete sp ps b h = record {
      settled = λ x m. absurd (omega (arith, b.marks_le x _ m, h));
      waiting = λ pc w k e. absurd (omega (arith, b.waits_le _ _ e, h));
      short = λ pc w k. absurd k;
    }

    new-IsBelow :
        (ps : PikeState)
        → IsBelow ps
        → ps.stamp + 1 < 2 ^ 32
        → IsBelow (record ps { stamp = (ps.stamp + 1) % 2 ^ 32; list = [] })
    new-IsBelow ps b h = record {
      marks_le = λ x m e. omega (arith, b.marks_le x m e, h);
      waits_le = λ x m e. omega (arith, b.waits_le x m e, h);
    }

    no_threads-Has :
        (ts : List Thread) → no_threads ct re s ts ≡ true → (pc w : ℕ) → Has ts pc w → ⊥
    unfolding no_threads Has
    no_threads-Has [] e pc w h = h
    no_threads-Has (t ∷ ts) e pc w h = absurd (ground (arith, e))

    stops : (a b c : Bool) → (a && (false || b || c)) ≡ true → c ≡ false → (a ≡ true) × (b ≡ true)
    stops a b c e f = ground (arith, e, f)

    run_from-IsSilent :
        (fuel sp : ℕ) (ps : PikeState)
        → sp ≤ length s.text
        → from ≤ sp
        → ps.stamp + fuel < 2 ^ 32
        → IsBelow ps
        → IsRound ct re s anchored from sp ps
        → IsSilent sp (run_from ct re s fuel anchored sp none ps)
    unfolding run_from IsSilent is_found HasFound
    run_from-IsSilent zero sp ps h k l b r = tt
    run_from-IsSilent (suc fuel) sp ps h k l b r =
        let ps0 : PikeState = record ps { stamp = (ps.stamp + 1) % 2 ^ 32; list = [] } in
        let empty = new-IsComplete (sp + 1) ps b (omega (arith, l)) in
        let below = new-IsBelow ps b (omega (arith, l)) in
        either_checked (IsSilent sp)
          (no_threads ct re s ps.list && (false || anchored || ltb (length s.text) sp)) (some none)
          _
          (λ e.
            let (a, c) = stops _ anchored (ltb (length s.text) sp) e (ground (arith, h)) in
            over-NoMatch sp ps r (no_threads-Has ps.list a) c k)
          (λ e.
            scanned-IsSilent sp ps.list ps0 (scan ct re s sp none ps.list ps0)
              (scan-IsScan ct re s sp ps.list ps0 r.complete.short empty) _
              (λ ps2 m.
                either_lem HasFound (leb (length s.text) sp) (some (some m)) _ tt
                  (run_from-HasFound ct re s anchored fuel (sp + 1) m ps2))
              (λ ps2 g c handled.
                either_checked (IsSilent sp) (leb (length s.text) sp) (some none) _
                  (λ q. last-NoMatch sp ps r ps2 handled (ground (arith, q)))
                  (λ q.
                    let left : sp + 1 ≤ length s.text = ground (arith, q) in
                    let next =
                      λ (ps3 : PikeState) (g3 : Extends ps2 ps3)
                          (c3 : IsComplete ct re s (sp + 1) ps3)
                          (f : anchored ≡ false → IsMarked ps3 0).
                        let whole = both-Extends ps0 ps2 ps3 g g3 in
                        widen-IsSilent sp ps r ps2 handled _ (
                          run_from-IsSilent fuel (sp + 1) ps3 left (omega (arith, k))
                            (omega (arith, l, whole.stamp_eq)) (IsBelow-Extends ps0 ps3 whole below)
                            (next-IsRound ct re s anchored from sp ps ps2 ps3 r k handled g3 c3
                              f)) in
                    either_checked (IsSilent sp) (not anchored) _ _
                      (λ a.
                        move-IsSilent sp (sp + 1) ps2 _
                          (added-IsMoved ct re s (sp + 1) 0 ps2 _ c
                            (add_thread-IsAdded ct re s (sp + 1) _ (sp + 1) 0 ps2))
                          _ (λ ps3 g3 c3 m. next ps3 g3 c3 (λ _. m)))
                      (λ a. next ps2 (same-Extends ps2) c (λ f. absurd (ground (arith, a, f)))))))

    get-zeros : (n x m : ℕ) → get_elem? (replicate n 0) x ≡ some m → m ≡ 0
    get-zeros zero x m e = absurd (ground (arith, e))
    get-zeros (suc n) zero m e = sym (some-injective 0 m e)
    get-zeros (suc n) (suc x) m e = get-zeros n x m e

    first-here :
        (ps : PikeState) (start pc q : ℕ)
        → IsComplete ct re s from ps
        → IsMarked ps 0
        → IsStart ct re s anchored from start
        → Control ct re s start pc q
        → q ≡ from
        → IsMarked ps pc
    first-here ps start pc q c m a starts e = m
    first-here ps start pc q c m a (moves {pc = pc2} i k d t) e =
        (c.settled pc2 (first-here ps start pc2 q c m a k e)).targets i pc d
          (subst (λ x. Target ct s i pc2 x pc) e t)
    first-here ps start _ _ c m a (reads {pc = pc2} {p = q2} i n k d b) e =
        let place = Control-IsPlace ct re s p start pc2 q2 a.start_le k in
        absurd (omega (arith, e, place.start_le, a.from_le))

    -- When `pike_run` finds nothing, no thread reaches OP_MATCH.
    pub pike_run-IsSilent :
        from ≤ length s.text
        → length s.text + 2 < 2 ^ 32
        → IsSilent from (pike_run ct re s from anchored)
    unfolding pike_run IsSilent Has
    pike_run-IsSilent h l =
        let ps0 : PikeState = record {
          marks = replicate (length re.prog) 0;
          wait_marks = replicate (length re.prog * max_wait) 0;
          stamp = 1;
          list = [];
        } in
        let below : IsBelow ps0 = record {
          marks_le = λ x m e. omega (arith, get-zeros _ x m e);
          waits_le = λ x m e. omega (arith, get-zeros (length re.prog * max_wait) x m e);
        } in
        let empty : IsComplete ct re s from ps0 = record {
          settled = λ x m. absurd (omega (arith, get-zeros _ x 1 m));
          waiting = λ pc w k e. absurd (
              omega (arith, get-zeros (length re.prog * max_wait) (pc * max_wait + suc w - 1) 1 e));
          short = λ pc w k. absurd k;
        } in
        move-IsSilent from from ps0 _
          (added-IsMoved ct re s from 0 ps0 _ empty
            (add_thread-IsAdded ct re s from (length re.prog + 1) from 0 ps0))
          _
          (λ ps3 g c m.
            run_from-IsSilent _ from ps3 h (omega arith) (omega (arith, l, g.stamp_eq))
              (IsBelow-Extends ps0 ps3 g below)
              (record {
                complete = c;
                here = λ start pc q a k e. first-here ps3 start pc q c m a k e;
                passing = λ start pc q n i a k d e f l2.
                    let place = Control-IsPlace ct re s p start pc q a.start_le k in
                    absurd (omega (arith, f, place.start_le, a.from_le));
              }))
