-- ===== src/Regex/Parse.antt =====
-- The parser of src/regex.c, from patterns to programs. The functions are recursive through groups
-- only: `parse_atom` and what calls it take the parser of a group as an argument, and `parse_alt`
-- ties the knot on fuel, the depth of groups. Loops run on the length of the pattern. An error ends
-- every loop; the fragment is then thrown away.
use xzile.Prelude.{
  ℕ, zero, suc, ◌+◌, ◌-◌, ◌*◌, ◌/◌, ◌%◌, ◌^◌, ◌≤◌, ◌<◌, min, max, ◌≡◌, refl, sym, ap, ap₂, ◌∙◌,
  fun_ext, ◌≢◌, ◌↔◌, ◌⊎◌, inl, inr, Bool, true, false, ◌&&◌, ◌||◌, not, Option, none, some, List,
  [], ◌∷◌, ◌++◌, map, append-nil, append_assoc, arith, ltb, leb, ◌==◌, if◌then◌else◌, ltb→lt,
  lt→ltb, leb→le, ==_iff, tests, Bool-cases, Option-cases, length, get_elem?, set, get_or, take,
  drop, replicate, length-append, length-set, length-take, length-drop, length-replicate,
  length-map, take-append-drop, ext_get, get-append, get-take, get-drop, get-replicate, get-ge,
  drop-nil, drop-drop, drop-cons_pos, drop-ge, take-ge, slices, lengths,
}
use xzile.Utf8.{replacement, utf8_decode}
use xzile.Regex.{
  ℤ, pos, negsuc, Inst, op_char, op_any, op_set, op_bol, op_eol, op_bob, op_eob, op_wordb,
  op_nwordb, op_wstart, op_wend, op_wordchar, op_nwordchar, op_space, op_nspace, op_split, op_jmp,
  op_save, op_mark, op_check, op_backref, op_match, CharSet, Frag, Regex, frag_empty, frag_alt,
  frag_repeat, frag_group, empty_set, set_add_byte, set_has_byte, set_add_range,
}
use xzile.Regex.Run.{Ctype}
use xzile.Regex.Bracket.{
  RegexError, trailing_backslash, unmatched_open, unmatched_close, invalid_syntax, invalid_backref,
  invalid_content, unmatched_bracket, invalid_class, invalid_range, Item, adds, refuses,
  bracket_from, fold_case,
}
use xzile.VTerm.Dispatch.{select}
pub mod Safe
pub mod Compile
pub mod Plain

pub record Parser : Type 0 where
  pub offset : ℕ
  pub sets : List CharSet
  pub ngroups_open : ℕ
  pub nloops : ℕ
  pub has_backref : Bool
  pub err : Option RegexError

abbrev pub start_parser : Parser
start_parser = record {
  offset = 0;
  sets = [];
  ngroups_open = 0;
  nloops = 0;
  has_backref = false;
  err = none;
}

abbrev pub with_err : Parser → RegexError → Parser
with_err ps e = record ps { err = some e }

abbrev pub skip : Parser → ℕ → Parser
skip ps n = record ps { offset = ps.offset + n }

abbrev pub single : Inst → Bool → Frag
single i nullable = record { v = i ∷ []; nullable = nullable }

abbrev pub dup_max : ℕ
dup_max = 255

-- The byte at the parser, if there is one.
abbrev pub peek : List ℕ → Parser → Option ℕ
peek p ps = get_elem? p ps.offset

unfoldable pub peek_is : List ℕ → Parser → ℕ → Bool
peek_is p ps c = elim (peek p ps) [ none ↦ false | some d ↦ d == c ]

unfoldable pub starts_at : List ℕ → List ℕ → Bool
starts_at s [] = true
starts_at [] (c ∷ t) = false
starts_at (d ∷ s) (c ∷ t) = d == c && starts_at s t

abbrev pub at : List ℕ → Parser → List ℕ → Bool
at p ps s = starts_at (drop ps.offset p) s

-- `\\|` or `\\)`, or the end
abbrev pub at_branch_end : List ℕ → Parser → Bool
at_branch_end p ps = leb (length p) ps.offset || at p ps (92 ∷ 124 ∷ []) || at p ps (92 ∷ 41 ∷ [])

abbrev pub is_digit : ℕ → Bool
is_digit c = leb 48 c && leb c 57

-- The number, and where it ends; `none` if there is no digit.
unfoldable pub parse_int : ℕ → List ℕ → ℕ → Option ℕ → Option ℕ × ℕ
parse_int zero p i n = (n, i)
parse_int (suc fuel) p i n =
    let c = get_or p i 0 in
    let so_far = (elim n [ none ↦ 0 | some k ↦ k ]) * 10 + (c - 48) in
    let rest = parse_int fuel p (i + 1) (some (min so_far (dup_max * 10))) in
    if ltb i (length p) && is_digit c then rest else (n, i)

pub record Quantifier : Type 0 where
  pub low : ℕ
  pub high : Option ℕ
  pub greedy : Bool
  pub after : Parser

unfoldable pub join : Frag → Frag → Frag
join f g = record { v = f.v ++ g.v; nullable = f.nullable && g.nullable }

module _ (ct : Ctype) (icase : Bool) (p : List ℕ) where
  unfoldable pub lowered : ℕ → ℕ
  lowered c = if icase then ct.tolower c else c

  unfoldable pub literal : ℕ → ℕ → List Inst
  literal i zero = []
  literal i (suc n) = op_char (lowered (get_or p i 0)) ∷ literal (i + 1) n

  -- Behind `[`: the set gets the next index.
  unfoldable pub parse_bracket : Parser → Frag × Parser
  parse_bracket ps =
      let negate = peek_is p ps 94 in
      let start = if negate then ps.offset + 1 else ps.offset in
      elim (bracket_from ct p (length p + 1) true start (record empty_set { negate = negate })) [
        | refuses e ↦ (frag_empty, record ps { sets = ps.sets ++ empty_set ∷ []; err = some e })
        | adds cs next ↦
            let set = if icase then fold_case ct p 0x80 cs else cs in
            (
              single (op_set (length ps.sets)) false,
              record ps { sets = ps.sets ++ set ∷ []; offset = next },
            )
      ]

  -- `\\s` and `\\S`, behind them.
  unfoldable pub parse_syntax : Bool → Parser → Option Frag × Parser
  parse_syntax positive ps =
      if peek_is p ps 45 || peek_is p ps 32
      then (some (single (if positive then op_space else op_nspace) false), skip ps 1)
      else if peek_is p ps 119
      then (some (single (if positive then op_wordchar else op_nwordchar) false), skip ps 1)
      else (none, with_err ps invalid_syntax)

  -- The end of a group.
  unfoldable pub close_group : Bool → ℕ → Frag → Parser → Option Frag × Parser
  close_group shy group inner ps =
      let closed = some (if shy then inner else frag_group group inner) in
      elim ps.err [
        | some e ↦ (none, ps)
        | none ↦
            if at p ps (92 ∷ 41 ∷ [])
            then (closed, skip ps 2)
            else (none, with_err ps unmatched_open)
      ]

  -- A group, behind `\\(`; `parse_group` is `parse_alt` for its inside.
  unfoldable pub parse_open : (Parser → Frag × Parser) → Parser → Option Frag × Parser
  parse_open parse_group ps =
      let shy = at p ps (63 ∷ 58 ∷ []) in
      let group = ps.ngroups_open + 1 in
      let inside = parse_group (if shy then skip ps 2 else record ps { ngroups_open = group }) in
      close_group shy group inside.0 inside.1

  -- The `switch` on the byte behind a backslash.
  unfoldable pub parse_escape : (Parser → Frag × Parser) → ℕ → Parser → Option Frag × Parser
  parse_escape parse_group e ps =
      let one : Inst → Bool → Option Frag × Parser = λ i nullable. (some (single i nullable), ps) in
      if e == 40
      then parse_open parse_group ps
      else if e == 41
      then (none, with_err ps unmatched_close)
      else if e == 115
      then parse_syntax true ps
      else if e == 83
      then parse_syntax false ps
      else if leb 49 e && leb e 57
      then (if ltb ps.ngroups_open (e - 48)
          then (none, with_err ps invalid_backref)
          else (some (single (op_backref (e - 48)) true), record ps { has_backref = true }))
      else select
          ((96, one op_bob true)
            ∷ (39, one op_eob true)
            ∷ (119, one op_wordchar false)
            ∷ (87, one op_nwordchar false)
            ∷ (98, one op_wordb true)
            ∷ (66, one op_nwordb true)
            ∷ (60, one op_wstart true)
            ∷ (62, one op_wend true)
            ∷ [])
          e (one (op_char (lowered e)) false)

  unfoldable pub parse_atom : (Parser → Frag × Parser) → Bool → Parser → Option Frag × Parser
  parse_atom parse_group branch_start ps =
      let c = get_or p ps.offset 0 in
      let next = skip ps 1 in
      let bracket = parse_bracket next in
      let len = (utf8_decode p ps.offset).1 in
      if c == 94 && branch_start
      then (some (single op_bol true), next)
      else if c == 36
      then (
        some (if at_branch_end p next then single op_eol true else single (op_char 36) false),
        next,
      )
      else if c == 46
      then (some (single op_any false), next)
      else if c == 91
      then (some bracket.0, bracket.1)
      else if c == 92
      then (if leb (length p) (ps.offset + 1)
          then (none, with_err ps trailing_backslash)
          else parse_escape parse_group (get_or p (ps.offset + 1) 0) (skip ps 2))
      else (some (record { v = literal ps.offset len; nullable = false }), skip ps len)

  -- The bounds in braces, behind `\\{`.
  unfoldable pub parse_bounds : Parser → (ℕ × Option ℕ) × Parser
  parse_bounds ps =
      let low = parse_int (length p) p ps.offset none in
      let comma = peek_is p (record ps { offset = low.1 }) 44 in
      let high = if comma then parse_int (length p) p (low.1 + 1) none else (low.0, low.1) in
      let after = record ps { offset = high.1 } in
      let lo : ℕ = elim low.0 [ none ↦ 0 | some n ↦ n ] in
      let bad : Bool = elim high.0 [ none ↦ false | some n ↦ ltb dup_max n || ltb n lo ] in
      if not (at p after (92 ∷ 125 ∷ [])) || ltb dup_max lo || bad
      then ((lo, high.0), with_err after invalid_content)
      else ((lo, high.0), skip after 2)

  -- `*`, `+` or `?`, each with `?` behind it or not, or bounds in braces, behind an atom.
  unfoldable pub read_quantifier : Parser → Option Quantifier
  read_quantifier ps =
      let q = get_or p ps.offset 0 in
      let lazy = peek_is p (skip ps 1) 63 in
      let braces = parse_bounds (skip ps 2) in
      if q == 42 || q == 43 || q == 63
      then some (record {
        low = if q == 43 then 1 else 0;
        high = if q == 63 then some 1 else none;
        greedy = not lazy;
        after = if lazy then skip ps 2 else skip ps 1;
      })
      else if at p ps (92 ∷ 123 ∷ [])
      then some (record { low = braces.0.0; high = braces.0.1; greedy = true; after = braces.1 })
      else none

  unfoldable pub repeat_atom : Frag → Quantifier → Frag × Parser
  repeat_atom atom q =
      let repeated = frag_repeat q.after.nloops atom q.low q.high q.greedy in
      (repeated.0, record q.after { nloops = repeated.1 })

  -- The loop over the quantifiers behind an atom.
  unfoldable pub quantified : ℕ → Frag → Parser → Frag × Parser
  quantified zero atom ps = (atom, ps)
  quantified (suc fuel) atom ps =
      if leb (length p) ps.offset then (atom, ps) else elim (read_quantifier ps) [
        | none ↦ (atom, ps)
        | some q ↦ elim q.after.err [
          | some e ↦ (atom, q.after)
          | none ↦ quantified fuel (repeat_atom atom q).0 (repeat_atom atom q).1
        ]
      ]

  unfoldable pub next_atom : (Parser → Frag × Parser) → Bool → Bool → Parser → Option Frag × Parser
  next_atom parse_group branch_start bare ps =
      if bare
      then (some (single (op_char (get_or p ps.offset 0)) false), skip ps 1)
      else parse_atom parse_group branch_start ps

  -- An atom with its quantifiers; an anchor has none.
  unfoldable pub with_quantifiers : Bool → Frag → Parser → Frag × Parser
  with_quantifiers is_anchor atom ps = elim ps.err [
    | some e ↦ (atom, ps)
    | none ↦ if is_anchor then (atom, ps) else quantified (length p) atom ps
  ]

  -- The loop of `parse_branch`, with the fragment so far.
  unfoldable pub branch_from : ℕ → (Parser → Frag × Parser) → Bool → Frag → Parser → Frag × Parser
  branch_from zero parse_group branch_start f ps = (f, ps)
  branch_from (suc fuel) parse_group branch_start f ps =
      let c = get_or p ps.offset 0 in
      let bare = branch_start && (c == 42 || c == 43 || c == 63) in
      let is_anchor = not bare && c == 94 && branch_start in
      let parsed = next_atom parse_group branch_start bare ps in
      if at_branch_end p ps then (f, ps) else elim parsed.0 [
        | none ↦ (f, parsed.1)
        | some atom ↦
            let quant = with_quantifiers is_anchor atom parsed.1 in
            elim quant.1.err [
              | some e ↦ (join f quant.0, quant.1)
              | none ↦ branch_from fuel parse_group is_anchor (join f quant.0) quant.1
            ]
      ]

  abbrev pub parse_branch : (Parser → Frag × Parser) → Parser → Frag × Parser
  parse_branch parse_group ps = branch_from (length p + 1) parse_group true frag_empty ps

  -- The loop of `parse_alt` over further alternatives.
  unfoldable pub alt_from : ℕ → (Parser → Frag × Parser) → Frag → Parser → Frag × Parser
  alt_from zero parse_group f ps = (f, ps)
  alt_from (suc fuel) parse_group f ps =
      let g = parse_branch parse_group (skip ps 2) in
      elim ps.err [
        | some e ↦ (f, ps)
        | none ↦ elim (at p ps (92 ∷ 124 ∷ [])) [
          | false ↦ (f, ps)
          | true ↦ alt_from fuel parse_group (frag_alt f g.0) g.1
        ]
      ]

  unfoldable pub parse_alt : ℕ → Parser → Frag × Parser
  parse_alt zero ps = (frag_empty, with_err ps unmatched_open)
  parse_alt (suc depth) ps =
      let f = parse_branch (parse_alt depth) ps in alt_from (length p) (parse_alt depth) f.0 f.1

  -- Groups are not deeper than the pattern is long.
  unfoldable pub regex_compile : RegexError ⊎ Regex
  regex_compile =
      let parsed = parse_alt (length p + 1) start_parser in
      let ps = parsed.1 in
      elim ps.err [
        | some e ↦ inl e
        | none ↦
            if at p ps (92 ∷ 41 ∷ [])
            then inl unmatched_close
            else inr (record {
              icase = icase;
              prog = parsed.0.v ++ op_match ∷ [];
              sets = ps.sets;
              ngroups = ps.ngroups_open;
              nregs = 2 * (ps.ngroups_open + 1) + ps.nloops;
              has_backref = ps.has_backref;
              has_empty_loop = ltb 0 ps.nloops;
            })
      ]
