-- ===== src/Lisp.antt =====
-- The reader of src/lisp.c. A reader is the bytes that it has yet to read. The file's commands are
-- read into S-expressions, and each list calls the function that its first atom names.
pub mod Ends
pub mod Printed
mod Tests
use xzile.Prelude.{
  ℕ, zero, suc, ◌+◌, ◌-◌, ◌*◌, ◌/◌, ◌%◌, ◌^◌, ◌≤◌, ◌<◌, min, max, ◌≡◌, refl, sym, ap, ap₂, ◌∙◌,
  fun_ext, ◌≢◌, ◌↔◌, ◌⊎◌, inl, inr, Bool, true, false, ◌&&◌, ◌||◌, not, Option, none, some, List,
  [], ◌∷◌, ◌++◌, map, append-nil, append_assoc, arith, ltb, leb, ◌==◌, if◌then◌else◌, ltb→lt,
  lt→ltb, leb→le, ==_iff, tests, Bool-cases, Option-cases, length, get_elem?, set, get_or, take,
  drop, replicate, length-append, length-set, length-take, length-drop, length-replicate,
  length-map, take-append-drop, ext_get, get-append, get-take, get-drop, get-replicate, get-ge,
  drop-nil, drop-drop, drop-cons_pos, drop-ge, take-ge, slices, lengths,
}

-- isspace in the C locale
abbrev pub is_space : ℕ → Bool
is_space c = c == 32 || (leb 9 c && leb c 13)

-- `)`, `(`, `;` and spaces end a word.
abbrev pub ends_word : ℕ → Bool
ends_word c = c == b')' || c == b'(' || c == b';' || is_space c

-- The loop that chews spaces and comments up to the next token; `comment` says that one is being
-- munched. The first byte of the token, and what follows it.
unfoldable pub chew : Bool → List ℕ → Option (ℕ × List ℕ)
chew comment [] = none
chew comment (c ∷ s) =
    let rest = chew (if comment then not (c == 10) else c == b';') s in
    if comment || c == b';' || is_space c then rest else some (c, s)

pub data Token : Type 0 where
  close_paren open_paren quote : Token
  word : (text : List ℕ) → Token

-- A token and what follows it; PARSE_EOF, at the end; or PARSE_UNCLOSED_QUOTE and what follows.
pub data TokenRead : Type 0 where
  token : (t : Token) → (rest : List ℕ) → TokenRead
  token_eof : TokenRead
  token_unclosed : (rest : List ℕ) → TokenRead

-- The loop that reads the bytes of a symbol or, where `quotes` holds, of a string.
unfoldable pub read_word : Bool → List ℕ → List ℕ → TokenRead
read_word quotes text [] = token_eof
read_word false text (c ∷ s) =
    let more = read_word false (text ++ c ∷ []) s in
    if ends_word c then token (word text) (c ∷ s) else more
read_word true text (c ∷ s) =
    let more = read_word true (text ++ c ∷ []) s in
    if c == 10 || c == 13 then token_unclosed s else if c == 34 then token (word text) s else more

-- "Snag token"
unfoldable pub snag : ℕ → List ℕ → TokenRead
snag c s =
    if c == b'('
    then token open_paren s
    else if c == b')'
    then token close_paren s
    else if c == 39
    then token quote s
    else if c == 34
    then read_word true [] s
    else read_word false [] (c ∷ s)

unfoldable pub read_token : List ℕ → TokenRead
read_token s = elim (chew false s) [ none ↦ token_eof | some p ↦ snag p.0 p.1 ]

-- `struct Lexp`: `bare` has neither an atom nor a list.
mutual
  pub data Lexp : Type 0 where
    atom : (quoted : Bool) → (text : List ℕ) → Lexp
    list : (quoted : Bool) → (es : Lexps) → Lexp
    bare : (quoted : Bool) → Lexp

  pub data Lexps : Type 0 where
    no_lexps : Lexps
    lexps : (e : Lexp) → (es : Lexps) → Lexps

pub data Status : Type 0 where
  parse_ok parse_eof parse_unclosed_quote : Status

-- What `read_sexp` leaves: with PARSE_OK the expression and whether the type of its last token is
-- TOK_CLOSEPAREN.
pub data SexpRead : Type 0 where
  sexp : (e : Lexp) → (closes : Bool) → (rest : List ℕ) → SexpRead
  sexp_eof : SexpRead
  sexp_unclosed : (rest : List ℕ) → SexpRead

-- `read_list`: the list, none for NULL.
pub record ListRead : Type 0 where
  pub es : Option Lexps
  pub status : Status
  pub rest : List ℕ

abbrev pub sexp_of : Bool → ListRead → SexpRead
sexp_of quoted r = elim r.es [
  | none ↦ sexp (bare quoted) false r.rest
  | some es ↦ sexp (list quoted es) false r.rest
]

abbrev pub add_lexp : Lexp → ListRead → ListRead
add_lexp e r = record r { es = elim r.es [ none ↦ none | some es ↦ some (lexps e es) ] }

-- The switch on the type of the token, where `lists` is `read_list`.
unfoldable pub build_sexp : (List ℕ → Option ListRead) → Bool → Token → List ℕ → Option SexpRead
build_sexp lists quoted open_paren rest = elim (lists rest) [
  | none ↦ none
  | some r ↦ some (sexp_of quoted r)
]
build_sexp lists quoted close_paren rest = some (sexp (bare quoted) true rest)
build_sexp lists quoted quote rest = some (sexp (bare quoted) false rest)
build_sexp lists quoted (word text) rest = some (sexp (atom quoted text) false rest)

-- The token behind a quote.
unfoldable pub after_quote : (List ℕ → Option ListRead) → TokenRead → Option SexpRead
after_quote lists token_eof = some sexp_eof
after_quote lists (token_unclosed rest) = some (sexp_unclosed rest)
after_quote lists (token t rest) = build_sexp lists true t rest

unfoldable pub from_token : (List ℕ → Option ListRead) → TokenRead → Option SexpRead
from_token lists token_eof = some sexp_eof
from_token lists (token_unclosed rest) = some (sexp_unclosed rest)
from_token lists (token quote rest) = after_quote lists (read_token rest)
from_token lists (token t rest) = build_sexp lists false t rest

unfoldable pub read_sexp : (List ℕ → Option ListRead) → List ℕ → Option SexpRead
read_sexp lists s = from_token lists (read_token s)

-- A round of the loop of `read_list`, where `lists` goes on with it.
unfoldable pub add_sexp : (List ℕ → Option ListRead) → Option SexpRead → Option ListRead
add_sexp lists none = none
add_sexp lists (some sexp_eof) = some (record { es = some no_lexps; status = parse_eof; rest = [] })
add_sexp lists (some (sexp_unclosed rest)) =
    some (record { es = none; status = parse_unclosed_quote; rest = rest })
add_sexp lists (some (sexp e true rest)) =
    some (record { es = some no_lexps; status = parse_ok; rest = rest })
add_sexp lists (some (sexp e false rest)) = elim (lists rest) [
  | none ↦ none
  | some r ↦ some (add_lexp e r)
]

-- Each expression takes a byte at least, and each list within a list its parenthesis, so fuel above
-- the number of bytes is enough; `none` is no fuel.
unfoldable pub read_list : ℕ → List ℕ → Option ListRead
read_list zero s = none
read_list (suc fuel) s = add_sexp (read_list fuel) (read_sexp (read_list fuel) s)

-- The atoms of a list, which `lexp_eval` passes on; none for a list, whose atom is NULL.
unfoldable pub lexp_atoms : Lexps → List (Option (List ℕ))
lexp_atoms no_lexps = []
lexp_atoms (lexps (atom quoted text) es) = some text ∷ lexp_atoms es
lexp_atoms (lexps e es) = none ∷ lexp_atoms es

-- The arguments that `lexp_eval` looks a function up with; nothing for an atom.
unfoldable pub lexp_eval : Lexp → Option (List (Option (List ℕ)))
lexp_eval (list quoted es) = some (lexp_atoms es)
lexp_eval e = none

-- The calls of `lisp_loadstring`, in order.
unfoldable pub lexp_calls : Lexps → List (List (Option (List ℕ)))
lexp_calls no_lexps = []
lexp_calls (lexps e es) = elim (lexp_eval e) [
  | none ↦ lexp_calls es
  | some args ↦ args ∷ lexp_calls es
]

unfoldable pub lisp_loadstring : List ℕ → List (List (Option (List ℕ)))
lisp_loadstring s = elim (read_list (length s + 1) s) [
  | none ↦ []
  | some r ↦ elim r.es [ none ↦ [] | some es ↦ lexp_calls es ]
]
