-- ===== src/Regex/Run.antt =====
-- The backtracking matcher of src/regex.c: `match_here`. A read outside the program, the sets, the
-- registers or the text is a `fault`; NOPOS is `none`. The C library's functions on bytes are
-- a parameter, its character classes by their names.
use xzile.Prelude.{
  ℕ, zero, suc, ◌+◌, ◌-◌, ◌*◌, ◌/◌, ◌%◌, ◌^◌, ◌≤◌, ◌<◌, min, max, ◌≡◌, refl, sym, ap, ap₂, ◌∙◌,
  fun_ext, ◌≢◌, ◌↔◌, ◌⊎◌, inl, inr, Bool, true, false, ◌&&◌, ◌||◌, not, Option, none, some, List,
  [], ◌∷◌, ◌++◌, map, append-nil, append_assoc, arith, ltb, leb, ◌==◌, if◌then◌else◌, ltb→lt,
  lt→ltb, leb→le, ==_iff, tests, Bool-cases, Option-cases, length, get_elem?, set, get_or, take,
  drop, replicate, length-append, length-set, length-take, length-drop, length-replicate,
  length-map, take-append-drop, ext_get, get-append, get-take, get-drop, get-replicate, get-ge,
  drop-nil, drop-drop, drop-cons_pos, drop-ge, take-ge, slices, lengths,
}
use xzile.Utf8.{replacement, utf8_decode}
use xzile.Regex.{
  ℤ, pos, negsuc, Inst, op_char, op_any, op_set, op_bol, op_eol, op_bob, op_eob, op_wordb,
  op_nwordb, op_wstart, op_wend, op_wordchar, op_nwordchar, op_space, op_nspace, op_split, op_jmp,
  op_save, op_mark, op_check, op_backref, op_match, CharSet, Regex, set_has_byte, set_has_cp,
}
pub mod Safe
pub mod Paths

pub record Ctype : Type 0 where
  pub tolower : ℕ → ℕ
  pub toupper : ℕ → ℕ
  pub is_class : List ℕ → ℕ → Bool
  pub isalnum : ℕ → Bool
  pub isspace : ℕ → Bool

pub record Subject : Type 0 where
  pub text : List ℕ
  pub before : Option ℕ
  pub after : Option ℕ

abbrev pub max_backtrack_steps : ℕ
max_backtrack_steps = 20000000

unfoldable pub byte_at : Subject → ℕ → Option ℕ
byte_at s i = elim (get_elem? s.text i) [ none ↦ s.after | some c ↦ some c ]

-- `byte_at (s, sp - 1)`
unfoldable pub byte_before : Subject → ℕ → Option ℕ
byte_before s zero = s.before
byte_before s (suc sp) = byte_at s sp

unfoldable pub is_word_byte : Ctype → Option ℕ → Bool
is_word_byte ct none = false
is_word_byte ct (some c) = ct.isalnum c || c == 95 || leb 0x80 c

-- The end of the text, or a newline.
unfoldable pub is_line_end : Option ℕ → Bool
is_line_end none = true
is_line_end (some c) = c == 10

unfoldable pub is_outside : Option ℕ → Bool
is_outside none = true
is_outside (some c) = false

unfoldable pub same : Bool → Bool → Bool
same a b = if a then b else not b

-- The length and the code point of the character at `sp`.
unfoldable pub char_len_at : Subject → ℕ → ℕ × ℕ
char_len_at s sp =
    let decoded = utf8_decode s.text sp in (if decoded.1 == 0 then 1 else decoded.1, decoded.0)

pub data BtEntry : Type 0 where
  bt_thread : (pc sp : ℕ) → BtEntry
  bt_restore : (reg : ℕ) → (val : Option ℕ) → BtEntry

-- What an instruction does: the thread goes on at `pc` and `sp`, or fails, or has matched.
pub data StepOutcome : Type 0 where
  goes : (pc sp : ℕ) → (st : List BtEntry) → (regs : List (Option ℕ)) → StepOutcome
  fails : StepOutcome
  matches : StepOutcome
  faults : StepOutcome

pub data MatchResult : Type 0 where
  match_end : (end : ℕ) → (regs : List (Option ℕ)) → MatchResult
  no_match : (regs : List (Option ℕ)) → (steps : ℕ) → MatchResult
  too_complex : MatchResult
  fault : MatchResult

-- An instruction that tests the character at `sp`, and steps `n` bytes on if `ok`.
abbrev pub consumes : Bool → ℕ → ℕ → ℕ → List BtEntry → List (Option ℕ) → StepOutcome
consumes ok n pc sp st regs = if ok then goes (pc + 1) (sp + n) st regs else fails

-- Of two parts of the text, from `i` and from `j` on, the first `n` bytes are alike.
unfoldable pub alike : Ctype → Bool → List ℕ → ℕ → ℕ → ℕ → Bool
alike ct icase text i j zero = true
alike ct icase text i j (suc n) =
    let a = get_or text i 0 in
    let b = get_or text j 0 in
    let rest = alike ct icase text (i + 1) (j + 1) n in
    (if icase then ct.tolower a == ct.tolower b else a == b) && rest

unfoldable pub in_charset : Subject → CharSet → ℕ → ℕ → Bool
in_charset s cs c sp =
    let ch = char_len_at s sp in
    if ltb c 0x80
    then set_has_byte cs c
    else set_has_cp cs (if ch.1 == replacement && ch.0 == 1 then c else ch.1)

abbrev pub asserts : Bool → ℕ → ℕ → List BtEntry → List (Option ℕ) → StepOutcome
asserts ok pc sp st regs = if ok then goes (pc + 1) sp st regs else fails

-- A register gets the position, and its old value is put back by backtracking.
unfoldable pub saves_reg : ℕ → ℕ → ℕ → List BtEntry → List (Option ℕ) → StepOutcome
saves_reg r pc sp st regs = elim (get_elem? regs r) [
  | none ↦ faults
  | some old ↦ goes (pc + 1) sp (bt_restore r old ∷ st) (set regs r (some sp))
]

unfoldable pub jump : ℕ → ℤ → List BtEntry → ℕ → List (Option ℕ) → StepOutcome
jump pc (pos a) st sp regs = goes (pc + a) sp st regs
jump pc (negsuc a) st sp regs = if ltb a pc then goes (pc - suc a) sp st regs else faults

-- The register holds another position.
unfoldable pub moved_on : Option ℕ → ℕ → Bool
moved_on none sp = true
moved_on (some p) sp = not (p == sp)

unfoldable pub checks : ℕ → ℕ → ℕ → List BtEntry → List (Option ℕ) → StepOutcome
checks r pc sp st regs = elim (get_elem? regs r) [
  | none ↦ faults
  | some p ↦ asserts (moved_on p sp) pc sp st regs
]

-- The outer loop of `match_here`, which takes entries from the stack until one is a thread.
pub data Resumed : Type 0 where
  resumes : (pc sp : ℕ) → (st : List BtEntry) → (regs : List (Option ℕ)) → Resumed
  exhausted : (regs : List (Option ℕ)) → Resumed
  no_register : Resumed

unfoldable pub next_thread : List BtEntry → List (Option ℕ) → Resumed
next_thread [] regs = exhausted regs
next_thread (bt_thread pc sp ∷ st) regs = resumes pc sp st regs
next_thread (bt_restore r val ∷ st) regs =
    let rest = next_thread st (set regs r val) in if ltb r (length regs) then rest else no_register

module _ (ct : Ctype) (re : Regex) (s : Subject) where
  unfoldable pub backref :
      Option ℕ → Option ℕ → ℕ → ℕ → List BtEntry → List (Option ℕ) → StepOutcome
  backref none ge pc sp st regs = fails
  backref (some gs) none pc sp st regs = fails
  backref (some gs) (some ge) pc sp st regs =
      let n = ge - gs in
      let here = leb (sp + n) (length s.text) in
      let ok = alike ct re.icase s.text gs sp n in
      if ltb ge gs
      then fails
      else if ltb (length s.text) ge
      then faults
      else consumes (here && ok) n pc sp st regs

  -- The instructions that need a character, `c`.
  unfoldable pub step_char : Inst → ℕ → ℕ → ℕ → List BtEntry → List (Option ℕ) → StepOutcome
  step_char (op_char a) c pc sp st regs =
      consumes ((if re.icase then ct.tolower c else c) == a) 1 pc sp st regs
  step_char op_any c pc sp st regs = consumes (not (c == 10)) (char_len_at s sp).0 pc sp st regs
  step_char (op_set index) c pc sp st regs = elim (get_elem? re.sets index) [
    | none ↦ faults
    | some cs ↦
        consumes (not (same (in_charset s cs c sp) cs.negate))
          (if ltb c 0x80 then 1 else (char_len_at s sp).0) pc sp st regs
  ]
  step_char op_wordchar c pc sp st regs =
      consumes (is_word_byte ct (some c)) (if leb 0x80 c then (char_len_at s sp).0 else 1) pc sp st
        regs
  step_char op_nwordchar c pc sp st regs =
      consumes (not (is_word_byte ct (some c))) (if leb 0x80 c then (char_len_at s sp).0 else 1) pc
        sp st regs
  step_char op_space c pc sp st regs = consumes (ct.isspace c) 1 pc sp st regs
  step_char op_nspace c pc sp st regs = consumes (not (ct.isspace c)) 1 pc sp st regs
  step_char _ c pc sp st regs = fails

  abbrev pub on_char : Inst → ℕ → ℕ → List BtEntry → List (Option ℕ) → StepOutcome
  on_char i pc sp st regs = elim (get_elem? s.text sp) [
    | none ↦ fails
    | some c ↦ step_char i c pc sp st regs
  ]

  unfoldable pub step_inst : Inst → ℕ → ℕ → List BtEntry → List (Option ℕ) → StepOutcome
  step_inst op_bol pc sp st regs = asserts (is_line_end (byte_before s sp)) pc sp st regs
  step_inst op_eol pc sp st regs = asserts (is_line_end (byte_at s sp)) pc sp st regs
  step_inst op_bob pc sp st regs = asserts (sp == 0 && is_outside s.before) pc sp st regs
  step_inst op_eob pc sp st regs = asserts (sp == length s.text && is_outside s.after) pc sp st regs
  step_inst op_wordb pc sp st regs =
      asserts (not (same (is_word_byte ct (byte_before s sp)) (is_word_byte ct (byte_at s sp)))) pc
        sp st regs
  step_inst op_nwordb pc sp st regs =
      asserts (same (is_word_byte ct (byte_before s sp)) (is_word_byte ct (byte_at s sp))) pc sp st
        regs
  step_inst op_wstart pc sp st regs =
      asserts (not (is_word_byte ct (byte_before s sp)) && is_word_byte ct (byte_at s sp)) pc sp st
        regs
  step_inst op_wend pc sp st regs =
      asserts (is_word_byte ct (byte_before s sp) && not (is_word_byte ct (byte_at s sp))) pc sp st
        regs
  step_inst (op_split a b) pc sp st regs = goes (pc + a) sp (bt_thread (pc + b) sp ∷ st) regs
  step_inst (op_jmp a) pc sp st regs = jump pc a st sp regs
  step_inst (op_save r) pc sp st regs = saves_reg r pc sp st regs
  step_inst (op_mark r) pc sp st regs = saves_reg (2 * (re.ngroups + 1) + r) pc sp st regs
  step_inst (op_check r) pc sp st regs = checks (2 * (re.ngroups + 1) + r) pc sp st regs
  step_inst (op_backref g) pc sp st regs = elim (get_elem? regs (2 * g)) [
    | none ↦ faults
    | some gs ↦ elim (get_elem? regs (2 * g + 1)) [
      | none ↦ faults
      | some ge ↦ backref gs ge pc sp st regs
    ]
  ]
  step_inst op_match pc sp st regs = matches
  step_inst i pc sp st regs = on_char i pc sp st regs

  -- The inner loop of `match_here`, with the steps that are left.
  unfoldable pub run_thread : ℕ → ℕ → ℕ → List BtEntry → List (Option ℕ) → MatchResult
  run_thread zero pc sp st regs = too_complex
  run_thread (suc steps) pc sp st regs = elim (get_elem? re.prog pc) [
    | none ↦ fault
    | some i ↦ elim (step_inst i pc sp st regs) [
      | goes pc' sp' st' regs' ↦ run_thread steps pc' sp' st' regs'
      | matches ↦ match_end sp regs
      | faults ↦ fault
      | fails ↦ elim (next_thread st regs) [
        | resumes pc' sp' st' regs' ↦ run_thread steps pc' sp' st' regs'
        | exhausted regs' ↦ no_match regs' steps
        | no_register ↦ fault
      ]
    ]
  ]

  unfoldable pub match_here : ℕ → ℕ → MatchResult
  match_here steps start = run_thread steps 0 start [] (replicate re.nregs none)
