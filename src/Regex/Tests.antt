-- ===== src/Regex/Tests.antt =====
-- Patterns, what they compile to, and what they match.
use xzile.Prelude.{
  ℕ, ◌+◌, ◌-◌, ◌≡◌, refl, inr, false, ◌&&◌, ◌||◌, none, some, List, [], ◌∷◌, arith, leb, ◌==◌,
  if◌then◌else◌,
}
use xzile.Utf8.{utf8_decode}
use xzile.Regex.{
  op_char, op_save, op_split, op_jmp, op_match, pos, negsuc, Regex, empty_set, set_add_range,
  frag_alt, frag_star, frag_repeat, frag_group, split, copies,
}
use xzile.Regex.Sets.{has_char, has_char-set_add_range}
use xzile.Regex.Run.{
  Ctype, Subject, match_end, match_here, run_thread, step_inst, step_char, next_thread, saves_reg,
  jump,
}
use xzile.Regex.Run.Paths.Complete.{IsAnswer, match_here-IsAnswer}
use xzile.Regex.Parse.{
  regex_compile, parse_alt, alt_from, branch_from, next_atom, with_quantifiers, quantified,
  read_quantifier, repeat_atom, parse_atom, parse_escape, parse_open, close_group, literal, lowered,
  starts_at, peek_is, join, parse_bounds,
}
use xzile.Regex.Parse.Plain.{ordinary, all_ordinary, regex_compile-ordinary}

-- ASCII letters are the only alphanumeric characters, and space the only white space.
abbrev pub ascii : Ctype
ascii = record {
  tolower = λ c. if leb 65 c && leb c 90 then c + 32 else c;
  toupper = λ c. if leb 97 c && leb c 122 then c - 32 else c;
  is_class = λ name c. leb 97 c && leb c 122;
  isalnum = λ c. leb 97 c && leb c 122;
  isspace = λ c. c == 32;
}

-- `\(a\|b\)*`
abbrev pub pattern : List ℕ
pattern = 92 ∷ 40 ∷ 97 ∷ 92 ∷ 124 ∷ 98 ∷ 92 ∷ 41 ∷ 42 ∷ []

-- "ab."
abbrev pub line : Subject
line = record { text = 97 ∷ 98 ∷ 46 ∷ []; before = none; after = none }

abbrev pub program : Regex
program = record {
  icase = false;
  prog =
      op_split 1 8
      ∷ op_save 2
      ∷ op_split 1 3
      ∷ op_char 97
      ∷ op_jmp (pos 2)
      ∷ op_char 98
      ∷ op_save 3
      ∷ op_jmp (negsuc 6)
      ∷ op_match
      ∷ [];
  sets = [];
  ngroups = 1;
  nregs = 4;
  has_backref = false;
  has_empty_loop = false;
}

pub compiled : regex_compile ascii false pattern ≡ inr program
unfolding regex_compile parse_alt alt_from branch_from next_atom with_quantifiers quantified
    read_quantifier repeat_atom parse_atom parse_escape parse_open close_group literal lowered
    starts_at peek_is join parse_bounds frag_alt frag_star frag_repeat frag_group split copies
    utf8_decode
compiled = refl

longest_match :
    match_here ascii program line 50 0 ≡ match_end 2 (none ∷ none ∷ some 1 ∷ some 2 ∷ [])
unfolding match_here run_thread step_inst step_char next_thread saves_reg jump
longest_match = refl

match_here-IsAnswer_example : IsAnswer ascii program line 3 (match_here ascii program line 50 3)
match_here-IsAnswer_example = match_here-IsAnswer ascii program line 50 3

has_char-set_add_range_example :
    has_char (set_add_range empty_set 97 200) 98
    ≡ (has_char empty_set 98 || (leb 97 98 && leb 98 200))
has_char-set_add_range_example = has_char-set_add_range empty_set 97 200 98 (omega arith)

-- "ab]"
abbrev word : List ℕ
word = 97 ∷ 98 ∷ 93 ∷ []

regex_compile-ordinary_example :
    regex_compile ascii false word
    ≡ inr (record {
      icase = false;
      prog = op_char 97 ∷ op_char 98 ∷ op_char 93 ∷ op_match ∷ [];
      sets = [];
      ngroups = 0;
      nregs = 2;
      has_backref = false;
      has_empty_loop = false;
    })
unfolding all_ordinary ordinary
regex_compile-ordinary_example = regex_compile-ordinary ascii word refl
