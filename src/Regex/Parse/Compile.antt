-- ===== src/Regex/Parse/Compile.antt =====
-- The loops of the parser of src/regex.c keep what they make closed, and so what it compiles is a
-- program that the matcher can run.
use xzile.Prelude.{
  ℕ, zero, suc, ◌+◌, refl, ◌⊎◌, inl, inr, Bool, true, false, ◌&&◌, ◌||◌, not, Option, none, some,
  List, [], ◌∷◌, arith, leb, ◌==◌, if◌then◌else◌, Bool-cases, Option-cases, length, get_or,
}
use mathlib.Core.Path.{subst}
use xzile.VTerm.Dispatch.Safe.{either_lem}
use xzile.Regex.{Frag, Regex, frag_empty, frag_alt}
use xzile.Regex.Closed.{
  Limits, FitsAt, FitsFrom, IsWithin, FitsFrom-within, IsClosed, append-IsClosed, frag_alt-IsClosed,
  frag_repeat-IsClosed,
}
use xzile.Regex.Run.{Ctype}
use xzile.Regex.Bracket.{RegexError}
use xzile.Regex.Run.Safe.{IsProgram}
use xzile.Regex.Parse.Safe.{
  limits_of, IsParsed, OptClosed, IsAtom, same-IsWithin, IsWithin-trans, frag_repeat-grows,
  single-IsAtom, parse_atom-IsAtom,
}
use xzile.Regex.Parse.{
  Quantifier, join, read_quantifier, repeat_atom, next_atom, with_quantifiers, parse_branch, Parser,
  skip, at, at_branch_end, parse_bounds, quantified, branch_from, alt_from, parse_alt, start_parser,
  regex_compile,
}

IsQuantified : Parser → Option Quantifier → Type 0
IsQuantified ps none = Unit
IsQuantified ps (some q) = IsWithin (limits_of ps) (limits_of q.after)

-- A pattern is refused, or its program fits.
unfoldable pub IsCompiled : RegexError ⊎ Regex → Type 0
IsCompiled (inl e) = Unit
IsCompiled (inr re) = IsProgram re

-- What is done with an error, or without.
err_lem :
    {A : Type 0}
    → (P : A → Type 0) (o : Option RegexError) (a a' : A) → P a
    → P a'
    → P (elim o [ none ↦ a | some e ↦ a' ])
err_lem P none a a' h h' = h
err_lem P (some e) a a' h h' = h'

err_case :
    {A : Type 0}
    → (P : A → Type 0) (o : Option RegexError) (a : A) (f : RegexError → A) → P a
    → ((e : RegexError) → P (f e))
    → P (elim o [ none ↦ a | some e ↦ f e ])
err_case P none a f h g = h
err_case P (some e) a f h g = g e

true_lem :
    {A : Type 0}
    → (P : A → Type 0) (b : Bool) (a a' : A) → P a
    → P a'
    → P (elim b [ true ↦ a | false ↦ a' ])
true_lem P true a a' h h' = h
true_lem P false a a' h h' = h'

module _ (ct : Ctype) (icase : Bool) (p : List ℕ) where
  parse_bounds-IsWithin :
      (ps : Parser) → IsWithin (limits_of ps) (limits_of (parse_bounds ct icase p ps).1)
  unfolding parse_bounds
  parse_bounds-IsWithin ps =
      either_lem {A = (ℕ × Option ℕ) × Parser} (λ r. IsWithin (limits_of ps) (limits_of r.1)) _ _ _
        (same-IsWithin (limits_of ps)) (same-IsWithin (limits_of ps))

  read_quantifier-IsQuantified : (ps : Parser) → IsQuantified ps (read_quantifier ct icase p ps)
  unfolding read_quantifier IsQuantified
  read_quantifier-IsQuantified ps =
      let q = get_or p ps.offset 0 in
      let w = same-IsWithin (limits_of ps) in
      either_lem (IsQuantified ps) (q == 42 || q == 43 || q == 63) _ _
        (either_lem (λ r. IsWithin (limits_of ps) (limits_of r)) _ (skip ps 2) (skip ps 1) w w)
        (either_lem (IsQuantified ps) (at p ps (92 ∷ 123 ∷ [])) _ _
          (parse_bounds-IsWithin (skip ps 2)) tt)

  repeat_atom-IsParsed :
      (ps : Parser) (atom : Frag) (q : Quantifier)
      → IsWithin (limits_of ps) (limits_of q.after)
      → IsClosed (limits_of ps) atom.v
      → IsParsed ps (repeat_atom ct icase p atom q)
  unfolding repeat_atom
  repeat_atom-IsParsed ps atom q w c =
      let grown : IsWithin (limits_of ps) (limits_of (repeat_atom ct icase p atom q).1) = record {
        groups_le = w.groups_le;
        loops_le =
            omega (arith, w.loops_le, frag_repeat-grows q.after.nloops atom q.low q.high q.greedy);
        sets_le = w.sets_le;
      } in
      record {
        grown = grown;
        closed =
            frag_repeat-IsClosed _ q.after.nloops atom q.low q.high q.greedy (omega arith)
              (FitsFrom-within _ _ _ 0 atom.v grown c);
      }

  then-IsParsed :
      (ps ps' : Parser) (r : Frag × Parser)
      → IsWithin (limits_of ps) (limits_of ps')
      → IsParsed ps' r
      → IsParsed ps r
  then-IsParsed ps ps' r w q = record { grown = IsWithin-trans _ _ _ w q.grown; closed = q.closed }

  -- A fragment kept while the parser has gone on.
  kept-IsParsed :
      (ps ps' : Parser) (f : Frag)
      → IsWithin (limits_of ps) (limits_of ps')
      → IsClosed (limits_of ps) f.v
      → IsParsed ps (f, ps')
  kept-IsParsed ps ps' f w c = record { grown = w; closed = FitsFrom-within _ _ _ 0 f.v w c }

  quantified-IsParsed :
      (fuel : ℕ) (atom : Frag) (ps : Parser)
      → IsClosed (limits_of ps) atom.v
      → IsParsed ps (quantified ct icase p fuel atom ps)
  unfolding quantified IsQuantified
  quantified-IsParsed zero atom ps c = record { grown = same-IsWithin (limits_of ps); closed = c }
  quantified-IsParsed (suc fuel) atom ps c =
      let stop = kept-IsParsed ps ps atom (same-IsWithin (limits_of ps)) c in
      elim (Bool-cases (leb (length p) ps.offset)) [
        | inl b ↦ rw (quantified, b) stop
        | inr b ↦ elim (Option-cases (read_quantifier ct icase p ps)) [
          | inl e ↦ rw (quantified, b, e) stop
          | inr (q, e) ↦
              let w = subst (IsQuantified ps) e (read_quantifier-IsQuantified ps) in
              let r = repeat_atom-IsParsed ps atom q w c in
              elim (Option-cases q.after.err) [
                | inr (x, d) ↦ rw (quantified, b, e, d) (kept-IsParsed ps _ atom w c)
                | inl d ↦
                    let rest = quantified-IsParsed fuel _ _ r.closed in
                    rw (quantified, b, e, d) (then-IsParsed ps _ _ r.grown rest)
              ]
        ]
      ]

  module _ (parse_group : Parser → Frag × Parser)
      (inner : (ps : Parser) → IsParsed ps (parse_group ps)) where
    next_atom-IsAtom :
        (branch_start bare : Bool) (ps : Parser)
        → IsAtom ps (next_atom ct icase p parse_group branch_start bare ps)
    unfolding next_atom FitsAt
    next_atom-IsAtom branch_start true ps =
        single-IsAtom ct icase p ps (skip ps 1) _ false (same-IsWithin (limits_of ps)) tt
    next_atom-IsAtom branch_start false ps =
        parse_atom-IsAtom ct icase p parse_group inner branch_start ps

    with_quantifiers-IsParsed :
        (is_anchor : Bool) (atom : Frag) (ps : Parser)
        → IsClosed (limits_of ps) atom.v
        → IsParsed ps (with_quantifiers ct icase p is_anchor atom ps)
    unfolding with_quantifiers
    with_quantifiers-IsParsed is_anchor atom ps c =
        let stop = kept-IsParsed ps ps atom (same-IsWithin (limits_of ps)) c in
        err_lem (IsParsed ps) ps.err (if is_anchor then (atom, ps) else _) (atom, ps)
          (either_lem (IsParsed ps) is_anchor (atom, ps) _ stop
            (quantified-IsParsed (length p) atom ps c))
          stop

    join-IsClosed :
        (l : Limits) (f g : Frag) → IsClosed l f.v → IsClosed l g.v → IsClosed l (join f g).v
    unfolding join
    join-IsClosed l f g c d = append-IsClosed l f.v g.v c d

    -- The rest of a branch behind an atom.
    joined-IsParsed :
        (fuel : ℕ) (is_anchor : Bool) (f atom : Frag) (ps ps' : Parser)
        → ((f' : Frag) (ps'' : Parser)
            → IsClosed (limits_of ps'') f'.v
            → IsParsed ps'' (branch_from ct icase p fuel parse_group is_anchor f' ps''))
        → IsClosed (limits_of ps) f.v
        → IsWithin (limits_of ps) (limits_of ps')
        → IsClosed (limits_of ps') atom.v
        → let quant = with_quantifiers ct icase p is_anchor atom ps' in
          IsParsed ps (elim quant.1.err [
            | some e ↦ (join f quant.0, quant.1)
            | none ↦ branch_from ct icase p fuel parse_group is_anchor (join f quant.0) quant.1
          ])
    joined-IsParsed fuel is_anchor f atom ps ps' rest c w d =
        let quant = with_quantifiers ct icase p is_anchor atom ps' in
        let q = with_quantifiers-IsParsed is_anchor atom ps' d in
        let grown = IsWithin-trans (limits_of ps) (limits_of ps') (limits_of quant.1) w q.grown in
        let closed =
          join-IsClosed (limits_of quant.1) f quant.0
            (FitsFrom-within (limits_of ps) (limits_of quant.1) _ 0 f.v grown c) q.closed in
        err_lem (IsParsed ps) quant.1.err _ (join f quant.0, quant.1)
          (then-IsParsed ps quant.1 _ grown (rest (join f quant.0) quant.1 closed))
          (record { grown = grown; closed = closed })

    branch_from-IsParsed :
        (fuel : ℕ) (branch_start : Bool) (f : Frag) (ps : Parser)
        → IsClosed (limits_of ps) f.v
        → IsParsed ps (branch_from ct icase p fuel parse_group branch_start f ps)
    unfolding branch_from OptClosed
    branch_from-IsParsed zero branch_start f ps c =
        kept-IsParsed ps ps f (same-IsWithin (limits_of ps)) c
    branch_from-IsParsed (suc fuel) branch_start f ps c =
        let ch = get_or p ps.offset 0 in
        let bare = branch_start && (ch == 42 || ch == 43 || ch == 63) in
        let is_anchor = not bare && ch == 94 && branch_start in
        let parsed = next_atom ct icase p parse_group branch_start bare ps in
        let a = next_atom-IsAtom branch_start bare ps in
        elim (Bool-cases (at_branch_end p ps)) [
          | inl b ↦ rw (branch_from, b) (kept-IsParsed ps ps f (same-IsWithin (limits_of ps)) c)
          | inr b ↦ elim (Option-cases parsed.0) [
            | inl e ↦ rw (branch_from, b, e) (kept-IsParsed ps parsed.1 f a.grown c)
            | inr (atom, e) ↦
                let closed = subst (OptClosed (limits_of parsed.1)) e a.closed in
                rw (branch_from, b, e)
                  (joined-IsParsed fuel is_anchor f atom ps parsed.1
                    (λ f' ps''. branch_from-IsParsed fuel is_anchor f' ps'') c a.grown closed)
          ]
        ]

    alt_from-IsParsed :
        (fuel : ℕ) (f : Frag) (ps : Parser)
        → IsClosed (limits_of ps) f.v
        → IsParsed ps (alt_from ct icase p fuel parse_group f ps)
    unfolding alt_from FitsFrom
    alt_from-IsParsed zero f ps c = kept-IsParsed ps ps f (same-IsWithin (limits_of ps)) c
    alt_from-IsParsed (suc fuel) f ps c =
        let stop = kept-IsParsed ps ps f (same-IsWithin (limits_of ps)) c in
        let start = skip ps 2 in
        let g = parse_branch ct icase p parse_group start in
        let q = branch_from-IsParsed (length p + 1) true frag_empty start tt in
        let closed =
          frag_alt-IsClosed (limits_of g.1) f g.0
            (FitsFrom-within (limits_of ps) (limits_of g.1) _ 0 f.v q.grown c) q.closed in
        let rest = alt_from-IsParsed fuel (frag_alt f g.0) g.1 closed in
        let whole = then-IsParsed ps g.1 _ q.grown rest in
        err_lem (IsParsed ps) ps.err _ (f, ps)
          (true_lem (IsParsed ps) (at p ps (92 ∷ 124 ∷ [])) _ (f, ps) whole stop) stop

  parse_alt-IsParsed : (depth : ℕ) (ps : Parser) → IsParsed ps (parse_alt ct icase p depth ps)
  unfolding parse_alt FitsFrom
  parse_alt-IsParsed zero ps = record { grown = same-IsWithin (limits_of ps); closed = tt }
  parse_alt-IsParsed (suc depth) ps =
      let inner = parse_alt-IsParsed depth in
      let group = parse_alt ct icase p depth in
      let f = parse_branch ct icase p group ps in
      let q = branch_from-IsParsed group inner (length p + 1) true frag_empty ps tt in
      then-IsParsed ps f.1 _ q.grown (alt_from-IsParsed group inner (length p) f.0 f.1 q.closed)

  pub regex_compile-IsCompiled : IsCompiled (regex_compile ct icase p)
  unfolding regex_compile IsCompiled
  regex_compile-IsCompiled =
      let parsed = parse_alt ct icase p (length p + 1) start_parser in
      let q = parse_alt-IsParsed (length p + 1) start_parser in
      err_case IsCompiled parsed.1.err _ (λ e. inl e)
        (either_lem IsCompiled (at p parsed.1 (92 ∷ 41 ∷ [])) _ _ tt (record {
          body = parsed.0.v;
          nloops = parsed.1.nloops;
          prog_eq = refl;
          regs_eq = refl;
          loops_eq = refl;
          closed = q.closed;
        }))
        (λ e. tt)
