-- ===== src/Regex/Search.antt =====
-- `regex_search` of src/regex.c, forward and backward, for plain patterns, and for programs by the
-- matcher that they need. A `Regex` with `plain` set is a `PlainPattern`. Skipping by memchr to the
-- next byte that a match can start with is a test at each position.
use xzile.Prelude.{
  ℕ, zero, suc, ◌+◌, ◌-◌, ◌*◌, ◌/◌, ◌%◌, ◌^◌, ◌≤◌, ◌<◌, min, max, ◌≡◌, refl, sym, ap, ap₂, ◌∙◌,
  fun_ext, ◌≢◌, ◌↔◌, ◌⊎◌, inl, inr, Bool, true, false, ◌&&◌, ◌||◌, not, Option, none, some, List,
  [], ◌∷◌, ◌++◌, map, append-nil, append_assoc, arith, ltb, leb, ◌==◌, if◌then◌else◌, ltb→lt,
  lt→ltb, leb→le, ==_iff, tests, Bool-cases, Option-cases, length, get_elem?, set, get_or, take,
  drop, replicate, length-append, length-set, length-take, length-drop, length-replicate,
  length-map, take-append-drop, ext_get, get-append, get-take, get-drop, get-replicate, get-ge,
  drop-nil, drop-drop, drop-cons_pos, drop-ge, take-ge, slices, lengths,
}
use xzile.Regex.{Inst, op_char, Regex}
use xzile.Regex.Run.{
  Ctype, Subject, MatchResult, match_end, no_match, too_complex, fault, match_here,
  max_backtrack_steps,
}
use xzile.Regex.Pike.{Found, pike_run}
pub mod Safe
pub mod Plain
pub mod Complete
mod Tests

pub record PlainPattern : Type 0 where
  pub icase : Bool
  pub literal : List ℕ

-- REGEX_TOO_COMPLEX is a result of its own, and so is a read outside an array.
pub data SearchResult : Type 0 where
  found_at : (start end : ℕ) → SearchResult
  not_found : SearchResult
  regex_too_complex : SearchResult
  search_fault : SearchResult

module _ (ct : Ctype) where
  -- `regex_compile` with `plain` set.
  unfoldable pub compile_plain : Bool → List ℕ → PlainPattern
  compile_plain icase pattern = record {
    icase = icase;
    literal = if icase then map ct.tolower pattern else pattern;
  }

  -- The bytes at `pos` are those of the literal.
  unfoldable pub literal_at : Bool → List ℕ → List ℕ → ℕ → Bool
  literal_at icase [] text pos = true
  literal_at icase (c ∷ literal) text pos =
      let b = get_or text pos 0 in
      let rest = literal_at icase literal text (pos + 1) in
      ((if icase then ct.tolower b else b) == c) && rest

  module _ (re : PlainPattern) (text : List ℕ) where
    abbrev pub plain_found : ℕ → SearchResult
    plain_found pos = found_at pos (pos + length re.literal)

    unfoldable pub plain_forward : ℕ → ℕ → SearchResult
    plain_forward zero pos = not_found
    plain_forward (suc rounds) pos = elim (literal_at re.icase re.literal text pos) [
      | true ↦ plain_found pos
      | false ↦ plain_forward rounds (pos + 1)
    ]

    unfoldable pub plain_backward : ℕ → SearchResult
    plain_backward zero = not_found
    plain_backward (suc pos) = elim (literal_at re.icase re.literal text pos) [
      | true ↦ plain_found pos
      | false ↦ plain_backward pos
    ]

    unfoldable pub plain_search : Bool → SearchResult
    plain_search forward =
        let rounds = length text - length re.literal + 1 in
        if ltb (length text) (length re.literal)
        then not_found
        else if forward
        then plain_forward rounds 0
        else plain_backward rounds

  module _ (re : Regex) (s : Subject) where
    -- The byte that a match starts with, where the program says so.
    unfoldable pub first_byte : Inst → Option ℕ
    first_byte (op_char a) = if re.icase then none else some a
    first_byte _ = none

    unfoldable pub may_start : Option ℕ → ℕ → Bool
    may_start none pos = true
    may_start (some a) pos = elim (get_elem? s.text pos) [ none ↦ false | some c ↦ c == a ]

    -- What `pike_run` returns.
    abbrev pub found_by_pike : Option Found → SearchResult
    found_by_pike none = search_fault
    found_by_pike (some none) = not_found
    found_by_pike (some (some (start, end))) = found_at start end

    unfoldable pub pike_backward : Option ℕ → ℕ → SearchResult
    pike_backward first zero = not_found
    pike_backward first (suc pos) = elim (may_start first pos) [
      | false ↦ pike_backward first pos
      | true ↦ elim (pike_run ct re s pos true) [
        | none ↦ search_fault
        | some best ↦ elim best [ none ↦ pike_backward first pos | some m ↦ found_at m.0 m.1 ]
      ]
    ]

    -- Both directions of the backtracking search share the count of steps.
    unfoldable pub backtrack_forward : Option ℕ → ℕ → ℕ → ℕ → SearchResult
    backtrack_forward first zero pos steps = not_found
    backtrack_forward first (suc rounds) pos steps = elim (may_start first pos) [
      | false ↦ backtrack_forward first rounds (pos + 1) steps
      | true ↦ elim (match_here ct re s steps pos) [
        | match_end end regs ↦ found_at pos end
        | no_match regs left ↦ backtrack_forward first rounds (pos + 1) left
        | too_complex ↦ regex_too_complex
        | fault ↦ search_fault
      ]
    ]

    unfoldable pub backtrack_backward : Option ℕ → ℕ → ℕ → SearchResult
    backtrack_backward first zero steps = not_found
    backtrack_backward first (suc pos) steps = elim (may_start first pos) [
      | false ↦ backtrack_backward first pos steps
      | true ↦ elim (match_here ct re s steps pos) [
        | match_end end regs ↦ found_at pos end
        | no_match regs left ↦ backtrack_backward first pos left
        | too_complex ↦ regex_too_complex
        | fault ↦ search_fault
      ]
    ]

    unfoldable pub program_search : Bool → SearchResult
    program_search forward = elim (get_elem? re.prog 0) [
      | none ↦ search_fault
      | some i ↦
          let first = first_byte i in
          let rounds = length s.text + 1 in
          if not re.has_backref && not re.has_empty_loop
          then (if forward
              then found_by_pike (pike_run ct re s 0 false)
              else pike_backward first rounds)
          else if forward
          then backtrack_forward first rounds 0 max_backtrack_steps
          else backtrack_backward first rounds max_backtrack_steps
    ]

  unfoldable pub regex_search : PlainPattern ⊎ Regex → Subject → Bool → SearchResult
  regex_search (inl re) s forward = plain_search re s.text forward
  regex_search (inr re) s forward = program_search re s forward
