-- ===== src/Lisp/Printed.antt =====
-- What is printed with its strings in quotes is read back by src/lisp.c.
use xzile.Prelude.{
  ℕ, zero, suc, ◌≤◌, ◌<◌, ◌≡◌, refl, sym, ap, ◌∙◌, Bool, true, false, ◌&&◌, ◌||◌, not, some, List,
  [], ◌∷◌, ◌++◌, append-nil, append_assoc, arith, ◌==◌, length, length-append,
}
use xzile.Lisp.{
  chew, word, token, read_word, snag, read_token, Lexp, Lexps, atom, list, bare, no_lexps, lexps,
  parse_ok, sexp, build_sexp, after_quote, from_token, read_sexp, add_sexp, read_list,
}

-- No line end and no double quote: no other byte ends a string.
unfoldable pub is_plain : List ℕ → Bool
is_plain [] = true
is_plain (c ∷ s) = not (c == 10 || c == 13 || c == 34) && is_plain s

abbrev pub tick : Bool → List ℕ
tick true = 39 ∷ []
tick false = []

unfoldable mutual
  pub print_lexp : Lexp → List ℕ
  print_lexp (atom quoted text) = tick quoted ++ (34 ∷ (text ++ (34 ∷ [])))
  print_lexp (list quoted es) = tick quoted ++ (b'(' ∷ print_lexps es)
  print_lexp (bare quoted) = []

  pub print_lexps : Lexps → List ℕ
  print_lexps no_lexps = b')' ∷ []
  print_lexps (lexps e es) = print_lexp e ++ print_lexps es

-- Every atom is plain, and no expression is without an atom and a list.
unfoldable mutual
  pub IsPrintable : Lexp → Type 0
  IsPrintable (atom quoted text) = is_plain text ≡ true
  IsPrintable (list quoted es) = ArePrintable es
  IsPrintable (bare quoted) = ⊥

  pub ArePrintable : Lexps → Type 0
  ArePrintable no_lexps = Unit
  ArePrintable (lexps e es) = IsPrintable e × ArePrintable es

read_word-plain :
    (acc text rest : List ℕ)
    → is_plain text ≡ true
    → read_word true acc (text ++ (34 ∷ rest)) ≡ token (word (acc ++ text)) rest
unfolding read_word is_plain
read_word-plain acc [] rest h = ap (λ t. token (word t) rest) (sym (append-nil acc))
read_word-plain acc (c ∷ text) rest h =
    let plain : (not (c == 10 || c == 13 || c == 34)) ≡ true = ground arith in
    let line : (c == 10 || c == 13) ≡ false = ground arith in
    let dq : (c == 34) ≡ false = ground arith in
    let more = read_word-plain (acc ++ c ∷ []) text rest (ground arith) in
    rw (line, dq) (more ∙ ap (λ t. token (word t) rest) (append_assoc acc (c ∷ []) text))

read_token-string :
    (text rest : List ℕ)
    → is_plain text ≡ true
    → read_token (34 ∷ (text ++ (34 ∷ rest))) ≡ token (word text) rest
unfolding read_token chew snag
read_token-string text rest h = read_word-plain [] text rest h

abbrev ReadsLexp : Lexp → Type 0
ReadsLexp e =
    IsPrintable e
    → (fuel : ℕ) (rest : List ℕ) → length (print_lexp e) ≤ fuel
    → read_sexp (read_list fuel) (print_lexp e ++ rest) ≡ some (sexp e false rest)

abbrev ReadsLexps : Lexps → Type 0
ReadsLexps es =
    ArePrintable es
    → (fuel : ℕ) (rest : List ℕ) → length (print_lexps es) ≤ fuel
    → read_list fuel (print_lexps es ++ rest)
      ≡ some (record { es = some es; status = parse_ok; rest = rest })

reads-atom : (quoted : Bool) (text : List ℕ) → ReadsLexp (atom quoted text)
unfolding print_lexp IsPrintable read_sexp from_token after_quote build_sexp read_token chew snag
reads-atom true text p fuel rest h =
    rw (append_assoc text (34 ∷ []) rest, read_word-plain [] text rest p) refl
reads-atom false text p fuel rest h =
    rw (append_assoc text (34 ∷ []) rest, read_word-plain [] text rest p) refl

reads-list : (quoted : Bool) (es : Lexps) → ReadsLexps es → ReadsLexp (list quoted es)
unfolding print_lexp IsPrintable read_sexp from_token after_quote build_sexp read_token chew snag
reads-list true es ih p fuel rest h = rw (ih p fuel rest (omega arith), build_sexp) refl
reads-list false es ih p fuel rest h = rw (ih p fuel rest (omega arith), build_sexp) refl

print_lexp-pos : (e : Lexp) → IsPrintable e → 0 < length (print_lexp e)
unfolding print_lexp IsPrintable
print_lexp-pos (atom quoted text) p =
    ground (arith, length-append (tick quoted) (34 ∷ (text ++ (34 ∷ []))))
print_lexp-pos (list quoted es) p =
    ground (arith, length-append (tick quoted) (b'(' ∷ print_lexps es))
print_lexp-pos (bare quoted) p = absurd p

print_lexps-pos : (es : Lexps) → 0 < length (print_lexps es)
unfolding print_lexps
print_lexps-pos no_lexps = omega arith
print_lexps-pos (lexps e es) =
    omega (arith, print_lexps-pos es, length-append (print_lexp e) (print_lexps es))

reads-none : ReadsLexps no_lexps
unfolding print_lexps read_list add_sexp read_sexp from_token build_sexp read_token chew snag
reads-none p zero rest h = absurd (omega arith)
reads-none p (suc fuel) rest h = refl

reads-more : (e : Lexp) (es : Lexps) → ReadsLexp e → ReadsLexps es → ReadsLexps (lexps e es)
unfolding print_lexps ArePrintable read_list add_sexp
reads-more e es ih ihs p zero rest h =
    absurd (omega (arith, print_lexp-pos e p.0, length-append (print_lexp e) (print_lexps es)))
reads-more e es ih ihs (pe, ps) (suc fuel) rest h =
    let n = length-append (print_lexp e) (print_lexps es) in
    let first = ih pe fuel (print_lexps es ++ rest) (omega (arith, n, print_lexps-pos es)) in
    let others = ihs ps fuel rest (omega (arith, n, print_lexp-pos e pe)) in
    rw (append_assoc (print_lexp e) (print_lexps es) rest, first, others) refl

reads : (es : Lexps) → ReadsLexps es
unfolding IsPrintable
reads es = elim es as ReadsLexp ReadsLexps [
  | atom quoted text ↦ reads-atom quoted text
  | list quoted (es → ih) ↦ reads-list quoted es ih
  | bare quoted ↦ λ p. absurd p
  | no_lexps ↦ reads-none
  | lexps (e → ih) (es → ihs) ↦ reads-more e es ih ihs
]

-- With fuel for its bytes, `read_list` reads a printed list of expressions back as it was, with its
-- nested lists and quotes, and stops behind the closing parenthesis, if its strings have no
-- quotation marks and line ends and each of its elements has a string or a list.
pub read_list-print_lexps :
    (es : Lexps) (fuel : ℕ) (rest : List ℕ)
    → ArePrintable es
    → length (print_lexps es) ≤ fuel
    → read_list fuel (print_lexps es ++ rest)
      ≡ some (record { es = some es; status = parse_ok; rest = rest })
read_list-print_lexps es fuel rest p h = reads es p fuel rest h
