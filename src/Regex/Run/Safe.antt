-- ===== src/Regex/Run/Safe.antt =====
-- The backtracking matcher of src/regex.c reads nothing outside a program whose jumps, sets,
-- registers and groups are within bounds.
use xzile.Prelude.{
  ℕ, zero, suc, ◌+◌, ◌-◌, ◌*◌, ◌/◌, ◌%◌, ◌^◌, ◌≤◌, ◌<◌, min, max, ◌≡◌, refl, sym, ap, ap₂, ◌∙◌,
  fun_ext, ◌≢◌, ◌↔◌, ◌⊎◌, inl, inr, Bool, true, false, ◌&&◌, ◌||◌, not, Option, none, some, List,
  [], ◌∷◌, ◌++◌, map, append-nil, append_assoc, arith, ltb, leb, ◌==◌, if◌then◌else◌, ltb→lt,
  lt→ltb, leb→le, ==_iff, tests, Bool-cases, Option-cases, length, get_elem?, set, get_or, take,
  drop, replicate, length-append, length-set, length-take, length-drop, length-replicate,
  length-map, take-append-drop, ext_get, get-append, get-take, get-drop, get-replicate, get-ge,
  drop-nil, drop-drop, drop-cons_pos, drop-ge, take-ge, slices, lengths,
}
pub mod Steps
use xzile.Utf8.{utf8_decode}
use xzile.Utf8.Roundtrip.{utf8_decode-IsDecoded}
use xzile.Regex.{
  ℤ, pos, negsuc, Inst, op_char, op_any, op_set, op_bol, op_eol, op_bob, op_eob, op_wordb,
  op_nwordb, op_wstart, op_wend, op_wordchar, op_nwordchar, op_space, op_nspace, op_split, op_jmp,
  op_save, op_mark, op_check, op_backref, op_match, CharSet, Regex,
}
use xzile.Regex.Closed.{Limits, FitsAt, FitsFrom}
use xzile.Regex.Run.{
  Ctype, Subject, BtEntry, bt_thread, bt_restore, StepOutcome, goes, fails, matches, faults,
  MatchResult, match_end, no_match, too_complex, fault, Resumed, resumes, exhausted, no_register,
  next_thread, char_len_at, saves_reg, jump, checks, backref, alike, step_char, on_char, step_inst,
  run_thread, match_here, consumes, asserts,
}
use mathlib.Core.Path.{subst}
use xzile.VTerm.Dispatch.Safe.{either_lem, either_checked}
use mathlib.Core.Option.{some-injective}

-- A program as `regex_compile` leaves it: a closed fragment and OP_MATCH.
pub record IsProgram (re : Regex) : Type 0 where
  pub body : List Inst
  pub nloops : ℕ
  pub prog_eq : re.prog ≡ body ++ op_match ∷ []
  pub regs_eq : re.nregs ≡ 2 * (re.ngroups + 1) + nloops
  pub loops_eq : re.has_empty_loop ≡ ltb 0 nloops
  pub closed :
      FitsFrom
        (record { groups = re.ngroups; loops = nloops; sets = length re.sets })
        (length body)
        0
        body

-- A position in the text, or none.
pub IsPos : ℕ → Option ℕ → Type 0
IsPos len none = Unit
IsPos len (some p) = p ≤ len

pub AllPos : ℕ → List (Option ℕ) → Type 0
AllPos len [] = Unit
AllPos len (r ∷ regs) = IsPos len r × AllPos len regs

-- The stack's threads are in the program and the text, its registers are registers.
pub IsEntry : Regex → ℕ → BtEntry → Type 0
IsEntry re len (bt_thread pc sp) = (pc < length re.prog) × (sp ≤ len)
IsEntry re len (bt_restore reg val) = (reg < re.nregs) × IsPos len val

pub AllEntries : Regex → ℕ → List BtEntry → Type 0
AllEntries re len [] = Unit
AllEntries re len (e ∷ st) = IsEntry re len e × AllEntries re len st

pub record IsThread (re : Regex) (len pc sp : ℕ) (st : List BtEntry) (regs : List (Option ℕ))
    : Type 0 where
  pub pc_lt : pc < length re.prog
  pub sp_le : sp ≤ len
  pub stack : AllEntries re len st
  pub regs_len : length regs ≡ re.nregs
  pub positions : AllPos len regs

-- What is promised of an instruction, of the stack, and of the whole matcher.
IsOutcome : Regex → ℕ → StepOutcome → Type 0
IsOutcome re len (goes pc sp st regs) = IsThread re len pc sp st regs
IsOutcome re len fails = Unit
IsOutcome re len matches = Unit
IsOutcome re len faults = ⊥

IsResumed : Regex → ℕ → Resumed → Type 0
IsResumed re len (resumes pc sp st regs) = IsThread re len pc sp st regs
IsResumed re len (exhausted regs) = Unit
IsResumed re len no_register = ⊥

unfoldable pub IsResult : ℕ → MatchResult → Type 0
IsResult len (match_end end regs) = (end ≤ len) × AllPos len regs
IsResult len (no_match regs steps) = Unit
IsResult len too_complex = Unit
IsResult len fault = ⊥

set-AllPos :
    (len : ℕ) (regs : List (Option ℕ)) (r : ℕ) (v : Option ℕ)
    → IsPos len v
    → AllPos len regs
    → AllPos len (set regs r v)
unfolding AllPos
set-AllPos len [] r v h a = tt
set-AllPos len (x ∷ regs) zero v h (p, a) = (h, a)
set-AllPos len (x ∷ regs) (suc r) v h (p, a) = (p, set-AllPos len regs r v h a)

get-IsPos :
    (len : ℕ) (regs : List (Option ℕ)) (r : ℕ) (v : Option ℕ)
    → AllPos len regs
    → get_elem? regs r ≡ some v
    → IsPos len v
unfolding AllPos
get-IsPos len [] r v a e = absurd (ground arith)
get-IsPos len (x ∷ regs) zero v (p, a) e = subst (IsPos len) (some-injective x v e) p
get-IsPos len (x ∷ regs) (suc r) v (p, a) e = get-IsPos len regs r v a e

next_thread-IsResumed :
    (re : Regex) (len : ℕ) (st : List BtEntry) (regs : List (Option ℕ))
    → AllEntries re len st
    → length regs ≡ re.nregs
    → AllPos len regs
    → IsResumed re len (next_thread st regs)
unfolding next_thread AllEntries IsEntry IsResumed
next_thread-IsResumed re len [] regs a n p = tt
next_thread-IsResumed re len (bt_thread pc sp ∷ st) regs ((h, k), a) n p = record {
  pc_lt = h;
  sp_le = k;
  stack = a;
  regs_len = n;
  positions = p;
}
next_thread-IsResumed re len (bt_restore r val ∷ st) regs ((h, k), a) n p =
    let rest =
      next_thread-IsResumed re len st (set regs r val) a (length-set regs r val ∙ n)
        (set-AllPos len regs r val k p) in
    rw (lt→ltb r (length regs) (omega (arith, h, n))) rest

-- A read within a list finds something, and what it finds is within.
pub get-within : {A : Type 0} → (xs : List A) (i : ℕ) → i < length xs → get_elem? xs i ≢ none
get-within [] i h e = absurd (omega arith)
get-within (x ∷ xs) zero h e = absurd (ground arith)
get-within (x ∷ xs) (suc i) h e = get-within xs i (omega arith) e

pub within-get :
    {A : Type 0} → (xs : List A) (i : ℕ) (x : A) → get_elem? xs i ≡ some x → i < length xs
within-get [] i x e = absurd (ground arith)
within-get (y ∷ xs) zero x e = omega arith
within-get (y ∷ xs) (suc i) x e = ground (arith, within-get xs i x e)

char_len_at_bound :
    (s : Subject) (sp : ℕ) → sp < length s.text → sp + (char_len_at s sp).0 ≤ length s.text
unfolding char_len_at
char_len_at_bound s sp h = ground (arith, h, utf8_decode-IsDecoded s.text sp)

and_first : (a b : Bool) → (a && b) ≡ true → a ≡ true
and_first true b e = refl
and_first false b e = e

-- An instruction of a program is its last one, or fits.
pub program_at :
    (l : Limits) (n j : ℕ) (v : List Inst) (k : ℕ) (i : Inst)
    → FitsFrom l n j v
    → get_elem? (v ++ op_match ∷ []) k ≡ some i
    → (i ≡ op_match) ⊎ ((k < length v) × FitsAt l n (j + k) i)
unfolding FitsFrom
program_at l n j [] zero i f e = inl (sym (some-injective _ _ e))
program_at l n j [] (suc k) i f e = absurd (ground arith)
program_at l n j (c ∷ v) zero i (f, fs) e = inr (
  omega arith,
  subst (λ x. FitsAt l n (j + 0) x) (some-injective c i e)
      (subst (λ x. FitsAt l n x c) (omega arith) f),
)
program_at l n j (c ∷ v) (suc k) i (f, fs) e = elim (program_at l n (j + 1) v k i fs e) [
  | inl q ↦ inl q
  | inr (h, g) ↦ inr (omega (arith, h), subst (λ x. FitsAt l n x i) (omega arith) g)
]

-- The length of a character that is one byte in some cases.
one_or_more :
    (s : Subject) (sp : ℕ) (b : Bool)
    → sp < length s.text
    → sp + (if b then 1 else (char_len_at s sp).0) ≤ length s.text
one_or_more s sp true k = omega (arith, k)
one_or_more s sp false k = char_len_at_bound s sp k

more_or_one :
    (s : Subject) (sp : ℕ) (b : Bool)
    → sp < length s.text
    → sp + (if b then (char_len_at s sp).0 else 1) ≤ length s.text
more_or_one s sp true k = char_len_at_bound s sp k
more_or_one s sp false k = omega (arith, k)
