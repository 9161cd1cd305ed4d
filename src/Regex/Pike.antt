-- ===== src/Regex/Pike.antt =====
-- The lockstep matcher of src/regex.c, `pike_run`: threads of the program that go through the text
-- together. `PikeState` holds the list that is being built, `l`, with the marks of the program's
-- places that are in it. A read or a write outside an array is `none`.
use xzile.Prelude.{
  ℕ, zero, suc, ◌+◌, ◌-◌, ◌*◌, ◌/◌, ◌%◌, ◌^◌, ◌≤◌, ◌<◌, min, max, ◌≡◌, refl, sym, ap, ap₂, ◌∙◌,
  fun_ext, ◌≢◌, ◌↔◌, ◌⊎◌, inl, inr, Bool, true, false, ◌&&◌, ◌||◌, not, Option, none, some, List,
  [], ◌∷◌, ◌++◌, map, append-nil, append_assoc, arith, ltb, leb, ◌==◌, if◌then◌else◌, ltb→lt,
  lt→ltb, leb→le, ==_iff, tests, Bool-cases, Option-cases, length, get_elem?, set, get_or, take,
  drop, replicate, length-append, length-set, length-take, length-drop, length-replicate,
  length-map, take-append-drop, ext_get, get-append, get-take, get-drop, get-replicate, get-ge,
  drop-nil, drop-drop, drop-cons_pos, drop-ge, take-ge, slices, lengths,
}
use xzile.Estr.{◌>>=◌}
use xzile.Regex.{
  ℤ, pos, negsuc, Inst, op_char, op_any, op_set, op_bol, op_eol, op_bob, op_eob, op_wordb,
  op_nwordb, op_wstart, op_wend, op_wordchar, op_nwordchar, op_space, op_nspace, op_split, op_jmp,
  op_save, op_mark, op_check, op_match, Regex,
}
use xzile.Regex.Run.{
  Ctype, Subject, byte_at, byte_before, is_word_byte, is_line_end, is_outside, same, char_len_at,
  in_charset,
}
pub mod Marks
pub mod Kept
pub mod Rounds
pub mod Safe
pub mod Paths
pub mod Lists
pub mod Grown
pub mod Moves
pub mod Scanned
pub mod Control
pub mod Best
pub mod Complete
pub mod Next
pub mod Answer

-- `wait` is the number of bytes to skip before reaching `pc`.
pub record Thread : Type 0 where
  pub pc : ℕ
  pub start : ℕ
  pub wait : ℕ

abbrev pub max_wait : ℕ
max_wait = 3

pub record PikeState : Type 0 where
  pub marks : List ℕ
  pub wait_marks : List ℕ
  pub stamp : ℕ
  pub list : List Thread

-- A match: its start, and `*end`.
abbrev pub Found : Type 0
Found = Option (ℕ × ℕ)

unfoldable pub check_assertion : Ctype → Subject → Inst → ℕ → Bool
check_assertion ct s op_bol sp = is_line_end (byte_before s sp)
check_assertion ct s op_eol sp = is_line_end (byte_at s sp)
check_assertion ct s op_bob sp = sp == 0 && is_outside s.before
check_assertion ct s op_eob sp = sp == length s.text && is_outside s.after
check_assertion ct s op_wordb sp =
    not (same (is_word_byte ct (byte_before s sp)) (is_word_byte ct (byte_at s sp)))
check_assertion ct s op_nwordb sp =
    same (is_word_byte ct (byte_before s sp)) (is_word_byte ct (byte_at s sp))
check_assertion ct s op_wstart sp =
    not (is_word_byte ct (byte_before s sp)) && is_word_byte ct (byte_at s sp)
check_assertion ct s op_wend sp =
    is_word_byte ct (byte_before s sp) && not (is_word_byte ct (byte_at s sp))
check_assertion ct s _ sp = true

abbrev pub bytes_if : Bool → ℕ → Option ℕ
bytes_if ok n = some (if ok then n else 0)

module _ (ct : Ctype) (re : Regex) (s : Subject) where
  abbrev pub capacity : ℕ
  capacity = length re.prog * (max_wait + 1) + 1

  unfoldable pub push : Thread → PikeState → Option PikeState
  push t ps =
      if ltb (length ps.list) capacity then some (record ps { list = ps.list ++ t ∷ [] }) else none

  unfoldable pub push_waiting : ℕ → ℕ → ℕ → PikeState → Option PikeState
  push_waiting pc start wait ps = elim (get_elem? ps.wait_marks (pc * max_wait + wait - 1)) [
    | none ↦ none
    | some m ↦
        if m == ps.stamp
        then some ps
        else push (record { pc = pc; start = start; wait = wait })
            (record ps { wait_marks = set ps.wait_marks (pc * max_wait + wait - 1) ps.stamp })
  ]

  -- The switch of `add_thread`, which calls itself as `add`.
  unfoldable pub follow :
      (ℕ → PikeState → Option PikeState) → Inst → ℕ → ℕ → ℕ → PikeState → Option PikeState
  follow add (op_jmp (pos a)) pc start sp ps = add (pc + a) ps
  follow add (op_jmp (negsuc a)) pc start sp ps = if ltb a pc then add (pc - suc a) ps else none
  follow add (op_split a b) pc start sp ps = add (pc + a) ps >>= (λ ps2. add (pc + b) ps2)
  follow add (op_save r) pc start sp ps = add (pc + 1) ps
  follow add (op_mark r) pc start sp ps = add (pc + 1) ps
  follow add (op_check r) pc start sp ps = add (pc + 1) ps
  follow add op_bol pc start sp ps =
      if check_assertion ct s op_bol sp then add (pc + 1) ps else some ps
  follow add op_eol pc start sp ps =
      if check_assertion ct s op_eol sp then add (pc + 1) ps else some ps
  follow add op_bob pc start sp ps =
      if check_assertion ct s op_bob sp then add (pc + 1) ps else some ps
  follow add op_eob pc start sp ps =
      if check_assertion ct s op_eob sp then add (pc + 1) ps else some ps
  follow add op_wordb pc start sp ps =
      if check_assertion ct s op_wordb sp then add (pc + 1) ps else some ps
  follow add op_nwordb pc start sp ps =
      if check_assertion ct s op_nwordb sp then add (pc + 1) ps else some ps
  follow add op_wstart pc start sp ps =
      if check_assertion ct s op_wstart sp then add (pc + 1) ps else some ps
  follow add op_wend pc start sp ps =
      if check_assertion ct s op_wend sp then add (pc + 1) ps else some ps
  follow add _ pc start sp ps = push (record { pc = pc; start = start; wait = 0 }) ps

  unfoldable pub add_thread : ℕ → ℕ → ℕ → ℕ → PikeState → Option PikeState
  add_thread zero start sp pc ps = none
  add_thread (suc fuel) start sp pc ps = elim (get_elem? ps.marks pc) [
    | none ↦ none
    | some m ↦ elim (m == ps.stamp) [
      | true ↦ some ps
      | false ↦ elim (get_elem? re.prog pc) [
        | none ↦ none
        | some i ↦
            follow (add_thread fuel start sp) i pc start sp
              (record ps { marks = set ps.marks pc ps.stamp })
      ]
    ]
  ]

  -- The bytes that an instruction consumes of the character `c`, as `step_inst` returns them.
  unfoldable pub char_bytes : Inst → ℕ → ℕ → Option ℕ
  char_bytes (op_char a) c sp = bytes_if ((if re.icase then ct.tolower c else c) == a) 1
  char_bytes op_any c sp = bytes_if (not (c == 10)) (char_len_at s sp).0
  char_bytes (op_set index) c sp = elim (get_elem? re.sets index) [
    | none ↦ none
    | some cs ↦
        bytes_if (not (same (in_charset s cs c sp) cs.negate))
          (if ltb c 0x80 then 1 else (char_len_at s sp).0)
  ]
  char_bytes op_wordchar c sp =
      bytes_if (is_word_byte ct (some c)) (if leb 0x80 c then (char_len_at s sp).0 else 1)
  char_bytes op_nwordchar c sp =
      bytes_if (not (is_word_byte ct (some c))) (if leb 0x80 c then (char_len_at s sp).0 else 1)
  char_bytes op_space c sp = bytes_if (ct.isspace c) 1
  char_bytes op_nspace c sp = bytes_if (not (ct.isspace c)) 1
  char_bytes _ c sp = some 0

  unfoldable pub inst_bytes : Inst → ℕ → Option ℕ
  inst_bytes i sp = elim (get_elem? s.text sp) [ none ↦ some 0 | some c ↦ char_bytes i c sp ]

  -- A thread that is to reach `pc` after `n` more bytes, of which the byte at `sp` is the first.
  unfoldable pub moves_on : ℕ → ℕ → ℕ → ℕ → PikeState → Option PikeState
  moves_on zero pc start sp ps = some ps
  moves_on (suc zero) pc start sp ps = add_thread (length re.prog + 1) start (sp + 1) pc ps
  moves_on (suc (suc n)) pc start sp ps = push_waiting pc start (suc n) ps

  unfoldable pub is_match : Inst → Bool
  is_match op_match = true
  is_match _ = false

  -- The inner loop of `pike_run`, over `clist`.
  unfoldable pub scan : ℕ → Found → List Thread → PikeState → Option (PikeState × Found)
  scan sp best [] ps = some (ps, best)
  scan sp best (t ∷ ts) ps = elim t.wait [
    | suc w ↦ moves_on (suc w) t.pc t.start sp ps >>= scan sp best ts
    | zero ↦ elim (get_elem? re.prog t.pc) [
      | none ↦ none
      | some i ↦ elim (is_match i) [
        | true ↦ some (ps, some (t.start, sp))
        | false ↦ inst_bytes i sp >>= (λ n. moves_on n (t.pc + 1) t.start sp ps >>= scan sp best ts)
      ]
    ]
  ]

  unfoldable pub is_found : Found → Bool
  is_found none = false
  is_found (some m) = true

  unfoldable pub no_threads : List Thread → Bool
  no_threads [] = true
  no_threads (t ∷ ts) = false

  -- The outer loop, over the positions from `sp` on; `ps.list` is `clist`.
  unfoldable pub run_from : ℕ → Bool → ℕ → Found → PikeState → Option Found
  run_from zero anchored sp best ps = none
  run_from (suc fuel) anchored sp best ps =
      let again = run_from fuel anchored (sp + 1) in
      if no_threads ps.list && (is_found best || anchored || ltb (length s.text) sp)
      then some best
      else scan sp best ps.list (record ps { stamp = (ps.stamp + 1) % 2 ^ 32; list = [] }) >>= (λ r.
        if leb (length s.text) sp
        then some r.1
        else if not (is_found r.1) && not anchored
        then add_thread (length re.prog + 1) (sp + 1) (sp + 1) 0 r.0 >>= again r.1
        else again r.1 r.0)

  unfoldable pub pike_run : ℕ → Bool → Option Found
  pike_run from anchored =
      add_thread (length re.prog + 1) from from 0 (record {
        marks = replicate (length re.prog) 0;
        wait_marks = replicate (length re.prog * max_wait) 0;
        stamp = 1;
        list = [];
      })
      >>= run_from (length s.text - from + 1) anchored from none
