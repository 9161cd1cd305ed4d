-- ===== src/Regex/Parse/Safe.antt =====
-- What the parser of src/regex.c makes of any pattern is closed.
use xzile.Prelude.{
  ℕ, zero, suc, ◌+◌, ◌-◌, ◌≤◌, ◌<◌, min, max, ◌≡◌, refl, inl, inr, Bool, true, false, ◌&&◌, ◌||◌,
  Option, none, some, List, [], ◌∷◌, ◌++◌, arith, ltb, leb, ◌==◌, if◌then◌else◌, Option-cases,
  length, get_or, length-append,
}
use xzile.VTerm.Dispatch.Safe.{AllCases, ◌▸◌, either_lem, either_checked, select_lem}
use xzile.Regex.{
  Inst, op_char, op_any, op_bol, op_eol, op_bob, op_eob, op_wordb, op_nwordb, op_wstart, op_wend,
  op_wordchar, op_nwordchar, op_space, op_nspace, op_backref, CharSet, Frag, frag_star, frag_repeat,
  frag_group, empty_set,
}
use xzile.Regex.Closed.{Limits, FitsAt, FitsFrom, IsWithin, IsClosed, frag_group-IsClosed}
use xzile.Regex.Run.{Ctype}
use xzile.Utf8.{utf8_decode}
use xzile.Regex.Bracket.{
  RegexError, invalid_syntax, invalid_backref, unmatched_close, trailing_backslash, Item, adds,
  refuses, bracket_from,
}
use xzile.Regex.Parse.{
  Parser, single, skip, with_err, at, at_branch_end, peek_is, literal, parse_bracket, parse_syntax,
  parse_open, close_group, parse_escape, parse_atom, lowered,
}

abbrev pub limits_of : Parser → Limits
limits_of ps = record { groups = ps.ngroups_open; loops = ps.nloops; sets = length ps.sets }

-- The parser has only added groups, loops and sets, and its fragment is closed.
pub record IsParsed (ps : Parser) (r : Frag × Parser) : Type 0 where
  pub grown : IsWithin (limits_of ps) (limits_of r.1)
  pub closed : IsClosed (limits_of r.1) r.0.v

unfoldable pub OptClosed : Limits → Option Frag → Type 0
OptClosed l none = Unit
OptClosed l (some f) = IsClosed l f.v

pub record IsAtom (ps : Parser) (r : Option Frag × Parser) : Type 0 where
  pub grown : IsWithin (limits_of ps) (limits_of r.1)
  pub closed : OptClosed (limits_of r.1) r.0

pub same-IsWithin : (l : Limits) → IsWithin l l
same-IsWithin l = record { groups_le = omega arith; loops_le = omega arith; sets_le = omega arith }

pub IsWithin-trans : (a b c : Limits) → IsWithin a b → IsWithin b c → IsWithin a c
IsWithin-trans a b c p q = record {
  groups_le = omega (arith, p.groups_le, q.groups_le);
  loops_le = omega (arith, p.loops_le, q.loops_le);
  sets_le = omega (arith, p.sets_le, q.sets_le);
}

one-IsClosed : (l : Limits) (i : Inst) → FitsAt l 1 0 i → IsClosed l (i ∷ [])
unfolding FitsFrom
one-IsClosed l i f = (f, tt)

some-IsAtom :
    (ps ps' : Parser) (f : Frag)
    → IsWithin (limits_of ps) (limits_of ps')
    → IsClosed (limits_of ps') f.v
    → IsAtom ps (some f, ps')
unfolding OptClosed
some-IsAtom ps ps' f g c = record { grown = g; closed = c }

none-IsAtom : (ps ps' : Parser) → IsWithin (limits_of ps) (limits_of ps') → IsAtom ps (none, ps')
unfolding OptClosed
none-IsAtom ps ps' g = record { grown = g; closed = tt }

pub frag_repeat-grows :
    (nloops : ℕ) (body : Frag) (min : ℕ) (max : Option ℕ) (greedy : Bool)
    → nloops ≤ (frag_repeat nloops body min max greedy).1
unfolding frag_repeat frag_star
frag_repeat-grows nloops body min none greedy =
    either_lem (λ k. nloops ≤ k) body.nullable _ _ (omega arith) (omega arith)
frag_repeat-grows nloops body min (some max) greedy = omega arith

module _ (ct : Ctype) (icase : Bool) (p : List ℕ) where
  literal-IsClosed : (l : Limits) (m j i n : ℕ) → FitsFrom l m j (literal ct icase p i n)
  unfolding literal FitsFrom FitsAt
  literal-IsClosed l m j i zero = tt
  literal-IsClosed l m j i (suc n) = (tt, literal-IsClosed l m (j + 1) (i + 1) n)

  -- A set added.
  more_sets : (ps : Parser) (cs : CharSet) → length ps.sets < length (ps.sets ++ cs ∷ [])
  more_sets ps cs = omega (arith, length-append ps.sets (cs ∷ []))

  added-IsWithin :
      (ps : Parser) (cs : CharSet) (i : ℕ) (e : Option RegexError)
      → IsWithin
          (limits_of ps)
          (limits_of (record ps { sets = ps.sets ++ cs ∷ []; offset = i; err = e }))
  added-IsWithin ps cs i e = record {
    groups_le = omega arith;
    loops_le = omega arith;
    sets_le = omega (arith, more_sets ps cs);
  }

  item-IsParsed :
      (ps : Parser) (start : ℕ) (it : Item)
      → bracket_from ct p (length p + 1) true start (record empty_set { negate = peek_is p ps 94 })
        ≡ it
      → (if peek_is p ps 94 then ps.offset + 1 else ps.offset) ≡ start
      → IsParsed ps (parse_bracket ct icase p ps)
  unfolding parse_bracket FitsFrom FitsAt
  item-IsParsed ps start (adds cs next) e q =
      rw (parse_bracket, q, e)
        (record { grown = added-IsWithin ps _ next ps.err; closed = (more_sets ps _, tt) })
  item-IsParsed ps start (refuses x) e q =
      rw (parse_bracket, q, e)
        (record { grown = added-IsWithin ps empty_set ps.offset (some x); closed = tt })

  parse_bracket-IsParsed : (ps : Parser) → IsParsed ps (parse_bracket ct icase p ps)
  parse_bracket-IsParsed ps = item-IsParsed ps _ _ refl refl

  pub single-IsAtom :
      (ps ps' : Parser) (i : Inst) (nullable : Bool)
      → IsWithin (limits_of ps) (limits_of ps')
      → FitsAt (limits_of ps') 1 0 i
      → IsAtom ps (some (single i nullable), ps')
  single-IsAtom ps ps' i nullable g f =
      some-IsAtom ps ps' (single i nullable) g (one-IsClosed (limits_of ps') i f)

  parse_syntax-IsAtom :
      (positive : Bool) (ps : Parser) → IsAtom ps (parse_syntax ct icase p positive ps)
  unfolding parse_syntax FitsAt
  parse_syntax-IsAtom positive ps =
      let w = same-IsWithin (limits_of ps) in
      let fits = FitsAt (limits_of ps) 1 0 in
      either_lem (IsAtom ps) (peek_is p ps 45 || peek_is p ps 32) _ _
        (single-IsAtom ps (skip ps 1) _ false w (either_lem fits positive op_space op_nspace tt tt))
        (either_lem (IsAtom ps) (peek_is p ps 119) _ _
          (single-IsAtom ps (skip ps 1) _ false w
            (either_lem fits positive op_wordchar op_nwordchar tt tt))
          (none-IsAtom ps (with_err ps invalid_syntax) w))

  dollar :
      (ps : Parser) (b : Bool)
      → IsAtom ps (some (if b then single op_eol true else single (op_char 36) false), skip ps 1)
  unfolding FitsAt
  dollar ps true = single-IsAtom ps (skip ps 1) op_eol true (same-IsWithin (limits_of ps)) tt
  dollar ps false =
      single-IsAtom ps (skip ps 1) (op_char 36) false (same-IsWithin (limits_of ps)) tt

  close_group-IsAtom :
      (ps after : Parser) (shy : Bool) (group : ℕ) (frag : Frag)
      → IsWithin (limits_of ps) (limits_of after)
      → IsClosed (limits_of after) (if shy then frag else frag_group group frag).v
      → IsAtom ps (close_group ct icase p shy group frag after)
  unfolding close_group
  close_group-IsAtom ps after shy group frag g c = elim (Option-cases after.err) [
    | inr (e, q) ↦ rw (close_group, q) (none-IsAtom ps after g)
    | inl q ↦
        rw (close_group, q)
          (either_lem (IsAtom ps) (at p after (92 ∷ 41 ∷ [])) _ _ (some-IsAtom ps _ _ g c)
            (none-IsAtom ps _ g))
  ]

  module _ (parse_group : Parser → Frag × Parser)
      (inner : (ps : Parser) → IsParsed ps (parse_group ps)) where
    open_at :
        (ps : Parser) (shy : Bool)
        → let inside =
            parse_group
              (if shy then skip ps 2 else record ps { ngroups_open = ps.ngroups_open + 1 }) in
          IsAtom ps (close_group ct icase p shy (ps.ngroups_open + 1) inside.0 inside.1)
    open_at ps true = let q = inner (skip ps 2) in close_group-IsAtom ps _ true _ _ q.grown q.closed
    open_at ps false =
        let q = inner (record ps { ngroups_open = ps.ngroups_open + 1 }) in
        let grown : IsWithin (limits_of ps)
            (limits_of (parse_group (record ps { ngroups_open = ps.ngroups_open + 1 })).1) =
          record {
            groups_le = omega (arith, q.grown.groups_le);
            loops_le = q.grown.loops_le;
            sets_le = q.grown.sets_le;
          } in
        close_group-IsAtom ps _ false _ _ grown
          (frag_group-IsClosed _ _ _ q.grown.groups_le q.closed)

    parse_open-IsAtom : (ps : Parser) → IsAtom ps (parse_open ct icase p parse_group ps)
    unfolding parse_open
    parse_open-IsAtom ps = open_at ps (at p ps (63 ∷ 58 ∷ []))

    parse_escape-IsAtom :
        (e : ℕ) (ps : Parser) → IsAtom ps (parse_escape ct icase p parse_group e ps)
    unfolding parse_escape FitsAt AllCases
    parse_escape-IsAtom e ps =
        let w = same-IsWithin (limits_of ps) in
        let one = λ (i : Inst) (nullable : Bool) (f : FitsAt (limits_of ps) 1 0 i).
          single-IsAtom ps ps i nullable w f in
        either_lem (IsAtom ps) (e == 40) _ _ (parse_open-IsAtom ps) (
          either_lem (IsAtom ps) (e == 41) _ _ (none-IsAtom ps (with_err ps unmatched_close) w) (
            either_lem (IsAtom ps) (e == 115) _ _ (parse_syntax-IsAtom true ps) (
              either_lem (IsAtom ps) (e == 83) _ _ (parse_syntax-IsAtom false ps) (
                either_lem (IsAtom ps) (leb 49 e && leb e 57) _ _
                  (either_checked (IsAtom ps) (ltb ps.ngroups_open (e - 48)) _ _
                    (λ b. none-IsAtom ps (with_err ps invalid_backref) w)
                    (λ b.
                      single-IsAtom ps (record ps { has_backref = true }) (op_backref (e - 48)) true
                        w (ground (arith, b))))
                  (select_lem (IsAtom ps) _ e _
                    (one op_bob true tt
                      ▸ one op_eob true tt
                      ▸ one op_wordchar false tt
                      ▸ one op_nwordchar false tt
                      ▸ one op_wordb true tt
                      ▸ one op_nwordb true tt
                      ▸ one op_wstart true tt
                      ▸ one op_wend true tt
                      ▸ tt)
                    (one (op_char (lowered ct icase p e)) false tt))))))

    pub parse_atom-IsAtom :
        (branch_start : Bool) (ps : Parser)
        → IsAtom ps (parse_atom ct icase p parse_group branch_start ps)
    unfolding parse_atom FitsAt
    parse_atom-IsAtom branch_start ps =
        let c = get_or p ps.offset 0 in
        let next = skip ps 1 in
        let w = same-IsWithin (limits_of ps) in
        let one = λ (i : Inst) (nullable : Bool) (f : FitsAt (limits_of ps) 1 0 i).
          single-IsAtom ps next i nullable w f in
        let b = parse_bracket-IsParsed next in
        let escape = parse_escape-IsAtom (get_or p (ps.offset + 1) 0) (skip ps 2) in
        let len = (utf8_decode p ps.offset).1 in
        either_lem (IsAtom ps) (c == 94 && branch_start) _ _ (one op_bol true tt) (
          either_lem (IsAtom ps) (c == 36) _ _ (dollar ps (at_branch_end p next)) (
            either_lem (IsAtom ps) (c == 46) _ _ (one op_any false tt) (
              either_lem (IsAtom ps) (c == 91) _ _
                (some-IsAtom ps (parse_bracket ct icase p next).1 _ b.grown b.closed)
                (either_lem (IsAtom ps) (c == 92) _ _
                  (either_lem (IsAtom ps) (leb (length p) (ps.offset + 1)) _ _
                    (none-IsAtom ps (with_err ps trailing_backslash) w)
                    (record { grown = escape.grown; closed = escape.closed }))
                  (some-IsAtom ps (skip ps len) _ w
                    (literal-IsClosed (limits_of ps) _ 0 ps.offset len))))))
