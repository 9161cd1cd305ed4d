-- ===== src/Regex/Closed.antt =====
-- The fragments of src/regex.c: every jump of an instruction stays within the fragment or goes to
-- its end, wherever the fragment is put, and its registers, groups and sets are within bounds.
use xzile.Prelude.{
  ℕ, zero, suc, ◌+◌, ◌-◌, ◌*◌, ◌≤◌, ◌<◌, min, max, ◌≡◌, Bool, true, false, Option, none, some, List,
  [], ◌∷◌, ◌++◌, arith, if◌then◌else◌, length, length-append,
}
use xzile.Regex.{
  pos, negsuc, Inst, op_set, op_split, op_jmp, op_save, op_mark, op_check, op_backref, op_match,
  Frag, split, frag_alt, frag_star, frag_opt, copies, opt_copies, frag_repeat, frag_group,
}
use mathlib.Core.Path.{subst}
use xzile.VTerm.Dispatch.Safe.{either_checked}

-- The numbers of groups, of loop registers and of sets.
pub record Limits : Type 0 where
  pub groups : ℕ
  pub loops : ℕ
  pub sets : ℕ

-- An instruction at index `i` of a program of length `n`.
unfoldable pub FitsAt : Limits → ℕ → ℕ → Inst → Type 0
FitsAt l n i (op_set index) = index < l.sets
FitsAt l n i (op_split a b) = (i + a ≤ n) × (i + b ≤ n)
FitsAt l n i (op_jmp (pos a)) = i + a ≤ n
FitsAt l n i (op_jmp (negsuc a)) = a < i
FitsAt l n i (op_save r) = r < 2 * (l.groups + 1)
FitsAt l n i (op_mark r) = r < l.loops
FitsAt l n i (op_check r) = r < l.loops
FitsAt l n i (op_backref g) = g ≤ l.groups
FitsAt l n i op_match = Unit
FitsAt l n i _ = Unit

-- Instructions from index `i` on.
unfoldable pub FitsFrom : Limits → ℕ → ℕ → List Inst → Type 0
FitsFrom l n i [] = Unit
FitsFrom l n i (c ∷ v) = FitsAt l n i c × FitsFrom l n (i + 1) v

-- Put behind `d` instructions in a longer program.
FitsAt-moved :
    (l : Limits) (n m i d : ℕ) (c : Inst) → d + n ≤ m → FitsAt l n i c → FitsAt l m (d + i) c
unfolding FitsAt
FitsAt-moved l n m i d (op_set index) h f = f
FitsAt-moved l n m i d (op_split a b) h (f, g) = (omega (arith, h, f), omega (arith, h, g))
FitsAt-moved l n m i d (op_jmp (pos a)) h f = omega (arith, h, f)
FitsAt-moved l n m i d (op_jmp (negsuc a)) h f = omega (arith, f)
FitsAt-moved l n m i d (op_save r) h f = f
FitsAt-moved l n m i d (op_mark r) h f = f
FitsAt-moved l n m i d (op_check r) h f = f
FitsAt-moved l n m i d (op_backref g) h f = f
FitsAt-moved l n m i d op_match h f = tt
FitsAt-moved l n m i d _ h f = tt

pub FitsFrom-moved :
    (l : Limits) (n m i d : ℕ) (v : List Inst)
    → d + n ≤ m
    → FitsFrom l n i v
    → FitsFrom l m (d + i) v
unfolding FitsFrom
FitsFrom-moved l n m i d [] h f = tt
FitsFrom-moved l n m i d (c ∷ v) h (f, fs) =
    let next : d + (i + 1) ≡ d + i + 1 = omega arith in
    (
      FitsAt-moved l n m i d c h f,
      subst (λ j. FitsFrom l m j v) next (FitsFrom-moved l n m (i + 1) d v h fs),
    )

pub FitsFrom-append :
    (l : Limits) (n i : ℕ) (v w : List Inst)
    → FitsFrom l n i v
    → FitsFrom l n (i + length v) w
    → FitsFrom l n i (v ++ w)
unfolding FitsFrom
FitsFrom-append l n i [] w f g = subst (λ j. FitsFrom l n j w) (omega arith) g
FitsFrom-append l n i (c ∷ v) w (f, fs) g =
    (f, FitsFrom-append l n (i + 1) v w fs (subst (λ j. FitsFrom l n j w) (omega arith) g))

-- More groups, loop registers or sets.
pub record IsWithin (l m : Limits) : Type 0 where
  pub groups_le : l.groups ≤ m.groups
  pub loops_le : l.loops ≤ m.loops
  pub sets_le : l.sets ≤ m.sets

FitsAt-within : (l m : Limits) (n i : ℕ) (c : Inst) → IsWithin l m → FitsAt l n i c → FitsAt m n i c
unfolding FitsAt
FitsAt-within l m n i (op_set index) h f = omega (arith, h.sets_le, f)
FitsAt-within l m n i (op_split a b) h f = f
FitsAt-within l m n i (op_jmp (pos a)) h f = f
FitsAt-within l m n i (op_jmp (negsuc a)) h f = f
FitsAt-within l m n i (op_save r) h f = omega (arith, h.groups_le, f)
FitsAt-within l m n i (op_mark r) h f = omega (arith, h.loops_le, f)
FitsAt-within l m n i (op_check r) h f = omega (arith, h.loops_le, f)
FitsAt-within l m n i (op_backref g) h f = omega (arith, h.groups_le, f)
FitsAt-within l m n i op_match h f = tt
FitsAt-within l m n i _ h f = tt

pub FitsFrom-within :
    (l m : Limits) (n i : ℕ) (v : List Inst) → IsWithin l m → FitsFrom l n i v → FitsFrom m n i v
unfolding FitsFrom
FitsFrom-within l m n i [] h f = tt
FitsFrom-within l m n i (c ∷ v) h (f, fs) =
    (FitsAt-within l m n i c h f, FitsFrom-within l m n (i + 1) v h fs)

-- A whole fragment.
abbrev pub IsClosed : Limits → List Inst → Type 0
IsClosed l v = FitsFrom l (length v) 0 v

-- A closed fragment at index `d` of a program.
pub placed :
    (l : Limits) (m d : ℕ) (v : List Inst) → d + length v ≤ m → IsClosed l v → FitsFrom l m d v
placed l m d v h f =
    subst (λ j. FitsFrom l m j v) (omega arith) (FitsFrom-moved l (length v) m 0 d v h f)

pub append-IsClosed :
    (l : Limits) (v w : List Inst) → IsClosed l v → IsClosed l w → IsClosed l (v ++ w)
append-IsClosed l v w f g =
    let n = length-append v w in
    FitsFrom-append l _ 0 v w (placed l _ 0 v (omega (arith, n)) f)
      (placed l _ (0 + length v) w (omega (arith, n)) g)

pub frag_alt-IsClosed :
    (l : Limits) (f1 f2 : Frag) → IsClosed l f1.v → IsClosed l f2.v → IsClosed l (frag_alt f1 f2).v
unfolding frag_alt FitsFrom FitsAt
frag_alt-IsClosed l f1 f2 f g =
    let tail = op_jmp (pos (length f2.v + 1)) ∷ f2.v in
    let n = length-append f1.v tail in
    (
      (omega (arith, n), omega (arith, n)),
      FitsFrom-append l _ 1 f1.v tail (placed l _ 1 f1.v (omega (arith, n)) f)
          (omega (arith, n), placed l _ _ f2.v (omega (arith, n)) g),
    )

split-FitsAt :
    (l : Limits) (n i a : ℕ) (greedy : Bool) → i + 1 ≤ n → i + a ≤ n → FitsAt l n i (split greedy a)
unfolding split FitsAt
split-FitsAt l n i a true h k = (h, k)
split-FitsAt l n i a false h k = (k, h)

-- The frame of a loop around a closed body.
loop-IsClosed :
    (l : Limits) (loop : List Inst) (greedy : Bool)
    → IsClosed l loop
    → IsClosed l
        (split greedy (length loop + 1 + 1) ∷ loop ++ op_jmp (negsuc (length loop + 1 - 1)) ∷ [])
unfolding FitsFrom FitsAt
loop-IsClosed l loop greedy f =
    let n = length-append loop (op_jmp (negsuc (length loop + 1 - 1)) ∷ []) in
    (
      split-FitsAt l _ 0 _ greedy (omega (arith, n)) (omega (arith, n)),
      FitsFrom-append l _ 1 loop _ (placed l _ 1 loop (omega (arith, n)) f) (omega arith, tt),
    )

pub frag_opt-IsClosed :
    (l : Limits) (body : Frag) (greedy : Bool)
    → IsClosed l body.v
    → IsClosed l (frag_opt body greedy).v
unfolding frag_opt FitsFrom
frag_opt-IsClosed l body greedy f =
    (split-FitsAt l _ 0 _ greedy (omega arith) (omega arith), placed l _ 1 body.v (omega arith) f)

pub frag_group-IsClosed :
    (l : Limits) (group : ℕ) (inner : Frag)
    → group ≤ l.groups
    → IsClosed l inner.v
    → IsClosed l (frag_group group inner).v
unfolding frag_group FitsFrom FitsAt
frag_group-IsClosed l group inner h f =
    let n = length-append inner.v (op_save (2 * group + 1) ∷ []) in
    (
      omega (arith, h),
      FitsFrom-append l _ 1 inner.v _ (placed l _ 1 inner.v (omega (arith, n)) f)
          (omega (arith, h), tt),
    )

copies-IsClosed : (l : Limits) (n : ℕ) (v : List Inst) → IsClosed l v → IsClosed l (copies n v)
unfolding copies FitsFrom
copies-IsClosed l zero v f = tt
copies-IsClosed l (suc n) v f = append-IsClosed l v (copies n v) f (copies-IsClosed l n v f)

opt_copies-IsClosed :
    (l : Limits) (n : ℕ) (body : Frag) (greedy : Bool) (tail : List Inst)
    → IsClosed l body.v
    → IsClosed l tail
    → IsClosed l (opt_copies n body greedy tail)
unfolding opt_copies
opt_copies-IsClosed l zero body greedy tail f g = g
opt_copies-IsClosed l (suc n) body greedy tail f g =
    let inner : Frag = record { v = body.v ++ tail; nullable = body.nullable } in
    opt_copies-IsClosed l n body greedy (frag_opt inner greedy).v f
      (frag_opt-IsClosed l inner greedy (append-IsClosed l body.v tail f g))

marked-IsClosed :
    (l : Limits) (r : ℕ) (v : List Inst)
    → r < l.loops
    → IsClosed l v
    → IsClosed l (op_mark r ∷ v ++ op_check r ∷ [])
unfolding FitsFrom FitsAt
marked-IsClosed l r v h f =
    let n = length-append v (op_check r ∷ []) in
    (h, FitsFrom-append l _ 1 v _ (placed l _ 1 v (omega (arith, n)) f) (h, tt))

pub frag_star-IsClosed :
    (l : Limits) (nloops : ℕ) (body : Frag) (greedy : Bool)
    → (frag_star nloops body greedy).1 ≤ l.loops
    → IsClosed l body.v
    → IsClosed l (frag_star nloops body greedy).0.v
unfolding frag_star
frag_star-IsClosed l nloops body greedy h f =
    let marked = op_mark nloops ∷ body.v ++ op_check nloops ∷ [] in
    let loop = if body.nullable then marked else body.v in
    let closed : IsClosed l loop =
      either_checked (IsClosed l) body.nullable marked body.v
        (λ e. marked-IsClosed l nloops body.v (ground (arith, e, h)) f) (λ e. f) in
    loop-IsClosed l loop greedy closed

pub frag_repeat-IsClosed :
    (l : Limits) (nloops : ℕ) (body : Frag) (min : ℕ) (max : Option ℕ) (greedy : Bool)
    → (frag_repeat nloops body min max greedy).1 ≤ l.loops
    → IsClosed l body.v
    → IsClosed l (frag_repeat nloops body min max greedy).0.v
unfolding frag_repeat FitsFrom
frag_repeat-IsClosed l nloops body min none greedy h f =
    append-IsClosed l (copies min body.v) _ (copies-IsClosed l min body.v f)
      (frag_star-IsClosed l nloops body greedy h f)
frag_repeat-IsClosed l nloops body min (some max) greedy h f =
    append-IsClosed l (copies min body.v) _ (copies-IsClosed l min body.v f)
      (opt_copies-IsClosed l (max - min) body greedy [] f tt)
