-- ===== src/Lisp/Tests.antt =====
-- Small programs of src/lisp.c.
use xzile.Prelude.{ℕ, ◌≡◌, refl, true, false, some, List, [], ◌∷◌, ◌++◌, arith}
use xzile.Lisp.{
  Lexps, lexps, no_lexps, atom, list, parse_ok, read_list, lisp_loadstring, chew, snag, read_word,
  read_token, read_sexp, from_token, after_quote, build_sexp, add_sexp, lexp_calls, lexp_eval,
  lexp_atoms,
}
use xzile.Lisp.Ends.{Ended, read_list-Ended}
use xzile.Lisp.Printed.{ArePrintable, print_lexps, is_plain, read_list-print_lexps}

-- An unclosed quote within a list: (a "b
abbrev unclosed : List ℕ
unclosed = b'(' ∷ 97 ∷ 32 ∷ 34 ∷ 98 ∷ 10 ∷ b')' ∷ []

read_list-Ended_example : Ended 7 (read_list 8 unclosed)
read_list-Ended_example = read_list-Ended 8 unclosed (omega arith)

-- ("f" '("x"))
abbrev call : Lexps
call =
    lexps (atom false (102 ∷ []))
      (lexps (list true (lexps (atom false (120 ∷ [])) no_lexps)) no_lexps)

call-ArePrintable : ArePrintable call
unfolding ArePrintable is_plain
call-ArePrintable = (refl, ((refl, tt), tt))

read_list-print_lexps_example :
    read_list 20 (print_lexps call ++ b')' ∷ [])
    ≡ some (record { es = some call; status = parse_ok; rest = b')' ∷ [] })
unfolding print_lexps
read_list-print_lexps_example =
    read_list-print_lexps call 20 (b')' ∷ []) call-ArePrintable (omega arith)

-- "(f 'x) ; y" and a line end: the comment is skipped.
loads :
    lisp_loadstring (b'(' ∷ 102 ∷ 32 ∷ 39 ∷ 120 ∷ b')' ∷ 32 ∷ b';' ∷ 121 ∷ 10 ∷ [])
    ≡ (some (102 ∷ []) ∷ some (120 ∷ []) ∷ []) ∷ []
unfolding lisp_loadstring read_list read_sexp add_sexp from_token after_quote build_sexp read_token
    chew snag read_word lexp_calls lexp_eval lexp_atoms
loads = refl
