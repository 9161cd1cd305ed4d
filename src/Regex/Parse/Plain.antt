-- ===== src/Regex/Parse/Plain.antt =====
-- A pattern without special characters is compiled by src/regex.c to its bytes.
use xzile.Prelude.{
  ℕ, zero, suc, ◌+◌, ◌≤◌, ◌<◌, ◌≡◌, refl, sym, ap, ◌∙◌, inl, inr, Bool, true, false, ◌&&◌, ◌||◌,
  not, none, some, List, [], ◌∷◌, ◌++◌, map, append-nil, append_assoc, arith, ltb, leb, ◌==◌,
  if◌then◌else◌, Bool-cases, length, get_or, drop, length-drop, drop-nil, drop-drop, drop-ge,
}
use mathlib.Core.Path.{subst}
use xzile.Utf8.{utf8_decode}
use xzile.Regex.{op_char, op_match, Frag, frag_empty}
use xzile.Regex.Run.{Ctype}
use xzile.Regex.Parse.{
  Parser, start_parser, at, at_branch_end, starts_at, literal, lowered, parse_atom, join,
  read_quantifier, quantified, next_atom, with_quantifiers, branch_from, alt_from, parse_alt,
  regex_compile,
}

-- An ASCII character that is not special anywhere: none of `$*+.?[\^`, and no NUL.
unfoldable pub ordinary : ℕ → Bool
ordinary c =
    ltb 0 c
    && ltb c 0x80
    && not (c == 36)
    && not (c == 42)
    && not (c == 43)
    && not (c == 46)
    && not (c == 63)
    && not (c == 91)
    && not (c == 92)
    && not (c == 94)

unfoldable pub all_ordinary : List ℕ → Bool
all_ordinary [] = true
all_ordinary (c ∷ s) = ordinary c && all_ordinary s

module _ {A : Type 0} where
  drop-lt : (p : List A) (i : ℕ) (c : A) (r : List A) → drop i p ≡ c ∷ r → i < length p
  drop-lt [] i c r e = absurd (omega (arith, ap length (sym (drop-nil i) ∙ e)))
  drop-lt (x ∷ p) zero c r e = omega arith
  drop-lt (x ∷ p) (suc i) c r e = omega (arith, drop-lt p i c r e)

  drop_next : (p : List A) (i : ℕ) (c : A) (r : List A) → drop i p ≡ c ∷ r → drop (i + 1) p ≡ r
  drop_next p i c r e = sym (drop-drop 1 i p) ∙ ap (drop 1) e

get_or-drop : (p : List ℕ) (i c : ℕ) (r : List ℕ) → drop i p ≡ c ∷ r → get_or p i 0 ≡ c
get_or-drop [] i c r e = absurd (omega (arith, ap length (sym (drop-nil i) ∙ e)))
get_or-drop (x ∷ p) zero c r e = ap (λ l. get_or l 0 0) e
get_or-drop (x ∷ p) (suc i) c r e = get_or-drop p i c r e

abbrev lit : ℕ → Frag
lit c = record { v = op_char c ∷ []; nullable = false }

abbrev at_offset : ℕ → Parser
at_offset i = record start_parser { offset = i }

two_false :
    {A : Type 0}
    → (a b : Bool) (x y z : A) → a ≡ false
    → b ≡ false
    → (if a then x else if b then y else z) ≡ z
two_false true b x y z h k = absurd (ground arith)
two_false false true x y z h k = absurd (ground arith)
two_false false false x y z h k = refl

module _ (ct : Ctype) (p : List ℕ) where
  next_atom_plain :
      (g : Parser → Frag × Parser) (bs : Bool) (i c : ℕ)
      → get_or p i 0 ≡ c
      → i < length p
      → ordinary c ≡ true
      → next_atom ct false p g bs false (at_offset i) ≡ (some (lit c), at_offset (i + 1))
  unfolding next_atom parse_atom ordinary literal lowered utf8_decode
  next_atom_plain g bs i c e h o =
      let n36 : (c == 36) ≡ false = ground (arith, o) in
      let n46 : (c == 46) ≡ false = ground (arith, o) in
      let n91 : (c == 91) ≡ false = ground (arith, o) in
      let n92 : (c == 92) ≡ false = ground (arith, o) in
      let n94 : (c == 94) ≡ false = ground (arith, o) in
      let low : ltb c 0x80 ≡ true = ground (arith, o) in
      let inside : leb (length p) i ≡ false = ground (arith, h) in
      rw (parse_atom, e, n36, n46, n91, n92, n94, inside, low)
        (ap (λ k. (some (lit k), at_offset (i + 1))) e)

  read_quantifier_plain :
      (i : ℕ) (r : List ℕ)
      → drop i p ≡ r
      → all_ordinary r ≡ true
      → i < length p
      → read_quantifier ct false p (at_offset i) ≡ none
  unfolding read_quantifier ordinary all_ordinary starts_at
  read_quantifier_plain i [] e o h = absurd (omega (arith, h, length-drop i p, ap length e))
  read_quantifier_plain i (c ∷ r) e o h =
      let q = get_or-drop p i c r e in
      let n92 : (c == 92) ≡ false = ground (arith, o) in
      two_false _ _ _ _ _
        (subst (λ d. (d == 42 || d == 43 || d == 63) ≡ false) (sym q) (ground (arith, o)))
        (subst (λ l. starts_at l (92 ∷ 123 ∷ []) ≡ false) (sym e) (rw n92 refl))

  quantified_plain :
      (fuel i : ℕ) (r : List ℕ) (atom : Frag)
      → drop i p ≡ r
      → all_ordinary r ≡ true
      → quantified ct false p fuel atom (at_offset i) ≡ (atom, at_offset i)
  unfolding quantified
  quantified_plain zero i r atom e o = refl
  quantified_plain (suc fuel) i r atom e o = elim (Bool-cases (leb (length p) i)) [
    | inl b ↦ rw (quantified, b) refl
    | inr b ↦ rw (quantified, b, read_quantifier_plain i r e o (ground (arith, b))) refl
  ]

  -- Behind an ordinary character there is no quantifier.
  with_quantifiers_plain :
      (i : ℕ) (r : List ℕ) (atom : Frag)
      → drop i p ≡ r
      → all_ordinary r ≡ true
      → with_quantifiers ct false p false atom (at_offset i) ≡ (atom, at_offset i)
  unfolding with_quantifiers
  with_quantifiers_plain i r atom e o = quantified_plain (length p) i r atom e o

  -- The fragment of further ordinary characters.
  joined : Frag → List ℕ → Frag
  joined f [] = f
  joined f (c ∷ r) = joined (join f (lit c)) r

  branch_open :
      (i c : ℕ) (r : List ℕ)
      → drop i p ≡ c ∷ r
      → leb (length p) i ≡ false
      → (c == 92) ≡ false
      → at_branch_end p (at_offset i) ≡ false
  unfolding starts_at
  branch_open i c r e h n =
      let start = λ (d : ℕ). subst (λ l. starts_at l (92 ∷ d ∷ []) ≡ false) (sym e) (rw n refl) in
      rw (h, start 124, start 41) refl

  branch_step :
      (fuel : ℕ) (g : Parser → Frag × Parser) (bs : Bool) (f atom : Frag) (i : ℕ)
      → at_branch_end p (at_offset i) ≡ false
      → (get_or p i 0 == 42 || get_or p i 0 == 43 || get_or p i 0 == 63) ≡ false
      → (get_or p i 0 == 94) ≡ false
      → next_atom ct false p g bs false (at_offset i) ≡ (some atom, at_offset (i + 1))
      → with_quantifiers ct false p false atom (at_offset (i + 1)) ≡ (atom, at_offset (i + 1))
      → branch_from ct false p (suc fuel) g bs f (at_offset i)
        ≡ branch_from ct false p fuel g false (join f atom) (at_offset (i + 1))
  unfolding branch_from
  branch_step fuel g true f atom i h k l m n =
      rw (branch_from, h, k, m, k, m, l, n, k, l, m, n) refl
  branch_step fuel g false f atom i h k l m n = rw (branch_from, h, m, m, l, n, l, m, n) refl

  branch_from_plain :
      (fuel : ℕ) (g : Parser → Frag × Parser) (bs : Bool) (f : Frag) (i : ℕ) (r : List ℕ)
      → drop i p ≡ r
      → all_ordinary r ≡ true
      → length r < fuel
      → branch_from ct false p fuel g bs f (at_offset i) ≡ (joined f r, at_offset (i + length r))
  unfolding branch_from joined all_ordinary ordinary starts_at
  branch_from_plain zero g bs f i r e o h = absurd (omega (arith, h))
  branch_from_plain (suc fuel) g bs f i [] e o h =
      let behind : leb (length p) i ≡ true = ground (arith, length-drop i p, ap length e) in
      let same : i ≡ i + 0 = omega arith in
      rw (branch_from, behind) (ap (λ k. (f, at_offset k)) same)
  branch_from_plain (suc fuel) g bs f i (c ∷ r) e o h =
      let q = get_or-drop p i c r e in
      let inside = drop-lt p i c r e in
      let next = drop_next p i c r e in
      let this : ordinary c ≡ true = ground (arith, o) in
      let more : all_ordinary r ≡ true = ground (arith, o) in
      let n92 : (c == 92) ≡ false = ground (arith, this) in
      let none_of : (c == 42 || c == 43 || c == 63) ≡ false = ground (arith, this) in
      let n94 : (c == 94) ≡ false = ground (arith, this) in
      let going_on : at_branch_end p (at_offset i) ≡ false =
        branch_open i c r e (ground (arith, inside)) n92 in
      let rest =
        branch_from_plain fuel g false (join f (lit c)) (i + 1) r next more (omega (arith, h)) in
      let same : i + 1 + length r ≡ i + suc (length r) = omega arith in
      branch_step fuel g bs f (lit c) i going_on
        (subst (λ d. (d == 42 || d == 43 || d == 63) ≡ false) (sym q) none_of)
        (subst (λ d. (d == 94) ≡ false) (sym q) n94) (next_atom_plain g bs i c q inside this)
        (with_quantifiers_plain (i + 1) r (lit c) next more)
      ∙ rest
      ∙ ap (λ k. (joined (join f (lit c)) r, at_offset k)) same

  joined_code : (f : Frag) (r : List ℕ) → (joined f r).v ≡ f.v ++ map op_char r
  unfolding joined join
  joined_code f [] = sym (append-nil f.v)
  joined_code f (c ∷ r) =
      joined_code (join f (lit c)) r ∙ append_assoc f.v (op_char c ∷ []) (map op_char r)

  alt_from_plain :
      (fuel : ℕ) (g : Parser → Frag × Parser) (f : Frag) (i : ℕ)
      → length p ≤ i
      → alt_from ct false p fuel g f (at_offset i) ≡ (f, at_offset i)
  unfolding alt_from starts_at
  alt_from_plain zero g f i h = refl
  alt_from_plain (suc fuel) g f i h = rw (alt_from, drop-ge i p h) refl

  parse_alt_plain :
      (depth : ℕ)
      → all_ordinary p ≡ true
      → parse_alt ct false p (suc depth) start_parser
        ≡ (joined frag_empty p, at_offset (0 + length p))
  unfolding parse_alt
  parse_alt_plain depth o =
      let g = parse_alt ct false p depth in
      let f = branch_from_plain (length p + 1) g true frag_empty 0 p refl o (omega arith) in
      rw (parse_alt, f) (alt_from_plain (length p) g (joined frag_empty p) _ (omega arith))

  -- A pattern of ASCII characters other than NUL, `$`, `*`, `+`, `.`, `?`, `[`, the backslash and
  -- `^` is compiled, with case significant: to one OP_CHAR for each of its bytes, and OP_MATCH,
  -- with no groups and no sets.
  pub regex_compile-ordinary :
      all_ordinary p ≡ true
      → regex_compile ct false p
        ≡ inr (record {
          icase = false;
          prog = map op_char p ++ op_match ∷ [];
          sets = [];
          ngroups = 0;
          nregs = 2;
          has_backref = false;
          has_empty_loop = false;
        })
  unfolding regex_compile starts_at
  regex_compile-ordinary o =
      let more : length p + 1 ≡ suc (length p) = omega arith in
      let parsed =
        ap (λ d. parse_alt ct false p d start_parser) more ∙ parse_alt_plain (length p) o in
      let at_end = drop-ge (0 + length p) p (omega arith) in
      let unclosed : at p (at_offset (0 + length p)) (92 ∷ 41 ∷ []) ≡ false =
        subst (λ l. starts_at l (92 ∷ 41 ∷ []) ≡ false) (sym at_end) refl in
      rw (regex_compile, parsed, parsed, unclosed, joined_code frag_empty p) refl
