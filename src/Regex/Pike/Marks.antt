-- ===== src/Regex/Pike/Marks.antt =====
-- The marks of `pike_run` in src/regex.c: how many places have the stamp of the list that is being
-- built, and what is kept of such a list.
use xzile.Prelude.{
  ℕ, zero, suc, ◌+◌, ◌-◌, ◌*◌, ◌≤◌, ◌<◌, ◌≡◌, ◌∙◌, inl, inr, false, Option, none, some, List, [],
  ◌∷◌, ◌++◌, arith, ◌==◌, if◌then◌else◌, lt→ltb, Option-cases, length, get_elem?, set,
  length-append, length-set,
}
use mathlib.Core.Option.{some-injective}
use xzile.VTerm.Dispatch.Safe.{either_checked}
use xzile.Regex.Run.Safe.{get-within}
use xzile.Regex.{Regex}
use xzile.Regex.Run.{Ctype, Subject}
use xzile.Regex.Pike.{Thread, PikeState, max_wait, push, push_waiting, capacity}

-- The places marked with `v`.
pub count : ℕ → List ℕ → ℕ
count v [] = 0
count v (m ∷ ms) = (if m == v then 1 else 0) + count v ms

pub count-le : (v : ℕ) (ms : List ℕ) → count v ms ≤ length ms
unfolding count
count-le v [] = omega arith
count-le v (m ∷ ms) = ground (arith, count-le v ms)

pub count-set :
    (v x : ℕ) (ms : List ℕ) (i m : ℕ)
    → x ≡ v
    → get_elem? ms i ≡ some m
    → (m == x) ≡ false
    → count v (set ms i x) ≡ count v ms + 1
unfolding count
count-set v x [] i m q e n = absurd (ground arith)
count-set v x (y ∷ ms) zero m q e n = ground (arith, some-injective y m e, n, q)
count-set v x (y ∷ ms) (suc i) m q e n = ground (arith, count-set v x ms i m q e n)

-- A thread that starts at `start` is at `pc` and the position `p`: `G start pc p`.
module _ (ct : Ctype) (re : Regex) (s : Subject) (G : ℕ → ℕ → ℕ → Type 0) where
  unfoldable pub IsGood : ℕ → Thread → Type 0
  IsGood sp t = (t.wait ≤ max_wait) × G t.start t.pc (sp + t.wait)

  unfoldable pub AllGood : ℕ → List Thread → Type 0
  AllGood sp [] = Unit
  AllGood sp (t ∷ ts) = IsGood sp t × AllGood sp ts

  pub record IsBuilding (v sp : ℕ) (ps : PikeState) : Type 0 where
    pub stamp_eq : ps.stamp ≡ v
    pub marks_len : length ps.marks ≡ length re.prog
    pub waits_len : length ps.wait_marks ≡ length re.prog * max_wait
    pub list_le : length ps.list ≤ count v ps.marks + count v ps.wait_marks
    pub threads : AllGood sp ps.list

  unfoldable pub IsBuilt : ℕ → ℕ → ℕ → Option PikeState → Type 0
  IsBuilt v sp n none = ⊥
  IsBuilt v sp n (some ps) = IsBuilding v sp ps × (n ≤ count v ps.marks)

  append-AllGood :
      (sp : ℕ) (ts : List Thread) (t : Thread)
      → AllGood sp ts
      → IsGood sp t
      → AllGood sp (ts ++ t ∷ [])
  unfolding AllGood
  append-AllGood sp [] t a g = (g, tt)
  append-AllGood sp (u ∷ ts) t (h, a) g = (h, append-AllGood sp ts t a g)

  -- There is room for one more thread where more places are marked than are in the list.
  pub push-IsBuilt :
      (v sp n : ℕ) (t : Thread) (ps : PikeState)
      → IsBuilding v sp ps
      → length ps.list < count v ps.marks + count v ps.wait_marks
      → n ≤ count v ps.marks
      → IsGood sp t
      → IsBuilt v sp n (push ct re s t ps)
  unfolding push IsBuilt
  push-IsBuilt v sp n t ps b room h g =
      let m = count-le v ps.marks in
      let w = count-le v ps.wait_marks in
      rw
        (lt→ltb (length ps.list) (capacity ct re s)
          (omega (arith, room, m, w, b.marks_len, b.waits_len)))
        (
          record {
            stamp_eq = b.stamp_eq;
            marks_len = b.marks_len;
            waits_len = b.waits_len;
            list_le = omega (arith, room, length-append ps.list (t ∷ []));
            threads = append-AllGood sp ps.list t b.threads g;
          },
          h,
        )

  pub push_waiting-IsBuilt :
      (v sp n pc start w : ℕ) (ps : PikeState)
      → IsBuilding v sp ps
      → n ≤ count v ps.marks
      → pc < length re.prog
      → 0 < w
      → IsGood sp (record { pc = pc; start = start; wait = w })
      → IsBuilt v sp n (push_waiting ct re s pc start w ps)
  unfolding push_waiting IsBuilt IsGood
  push_waiting-IsBuilt v sp n pc start w ps b h k pos g =
      let at = pc * max_wait + w - 1 in
      elim (Option-cases (get_elem? ps.wait_marks at)) [
        | inl e ↦ absurd (get-within ps.wait_marks at (omega (arith, k, pos, g.0, b.waits_len)) e)
        | inr (m, e) ↦
            rw (push_waiting, e)
              (either_checked (IsBuilt v sp n) (m == ps.stamp) _ _ (λ q. (b, h))
                (λ q.
                  let more = count-set v ps.stamp ps.wait_marks at m b.stamp_eq e q in
                  push-IsBuilt v sp n _ _
                    (record {
                      stamp_eq = b.stamp_eq;
                      marks_len = b.marks_len;
                      waits_len = length-set ps.wait_marks at ps.stamp ∙ b.waits_len;
                      list_le = omega (arith, b.list_le, more);
                      threads = b.threads;
                    })
                    (omega (arith, b.list_le, more)) h g))
      ]
