-- ===== src/Lisp/Ends.antt =====
-- The reader of src/lisp.c ends: every token takes a byte, so the fuel given is enough.
use xzile.Prelude.{
  ℕ, zero, suc, ◌≤◌, ◌<◌, ◌≡◌, refl, inl, inr, Bool, true, false, ◌||◌, not, Option, some, List, [],
  ◌∷◌, ◌++◌, arith, ◌==◌, if◌then◌else◌, Bool-cases, Option-cases, length,
}
use xzile.Lisp.{
  ends_word, is_space, chew, Token, close_paren, open_paren, quote, word, TokenRead, token,
  token_eof, token_unclosed, read_word, snag, read_token, SexpRead, sexp, sexp_eof, sexp_unclosed,
  ListRead, build_sexp, after_quote, from_token, add_sexp, read_sexp, read_list, sexp_of, add_lexp,
}

-- What is left is shorter than `n` bytes.
abbrev pub Below : ℕ → TokenRead → Type 0
Below n (token t rest) = length rest < n
Below n token_eof = Unit
Below n (token_unclosed rest) = length rest < n

Below-le : (m n : ℕ) (r : TokenRead) → m ≤ n → Below m r → Below n r
Below-le m n (token t rest) h b = omega arith
Below-le m n token_eof h b = tt
Below-le m n (token_unclosed rest) h b = omega arith

chew-some :
    (comment : Bool) (s : List ℕ) (c : ℕ) (t : List ℕ)
    → chew comment s ≡ some (c, t)
    → (length t < length s) × ((c == b';' || is_space c) ≡ false)
unfolding chew
chew-some comment [] c t h = absurd (ground arith)
chew-some comment (d ∷ s) c t h =
    let rest = chew-some (if comment then not (d == 10) else d == b';') s c t in
    elim (Bool-cases (comment || d == b';' || is_space d)) [
      | inl e ↦ let (l, n) = rest (rw e at h) in (omega arith, n)
      | inr e ↦ let same = rw e at h in ground (arith, same)
    ]

read_word-Below :
    (quotes : Bool) (text s : List ℕ) → Below (suc (length s)) (read_word quotes text s)
unfolding read_word
read_word-Below quotes text [] = tt
read_word-Below false text (c ∷ s) =
    let more =
      Below-le (suc (length s)) (suc (suc (length s))) _ (omega arith)
        (read_word-Below false (text ++ c ∷ []) s) in
    elim (Bool-cases (ends_word c)) [ inl e ↦ rw e (omega arith) | inr e ↦ rw e more ]
read_word-Below true text (c ∷ s) =
    let more =
      Below-le (suc (length s)) (suc (suc (length s))) _ (omega arith)
        (read_word-Below true (text ++ c ∷ []) s) in
    elim (Bool-cases (c == 10 || c == 13)) [
      | inl e ↦ rw e (omega arith)
      | inr e ↦ elim (Bool-cases (c == 34)) [
        | inl f ↦ rw (e, f) (omega arith)
        | inr f ↦ rw (e, f) more
      ]
    ]

snag-Below :
    (c : ℕ) (s : List ℕ) → (c == b';' || is_space c) ≡ false → Below (suc (length s)) (snag c s)
unfolding snag read_word
snag-Below c s n = elim (Bool-cases (c == b'(')) [
  | inl e ↦ rw e (omega arith)
  | inr e ↦ elim (Bool-cases (c == b')')) [
    | inl f ↦ rw (e, f) (omega arith)
    | inr f ↦ elim (Bool-cases (c == 39)) [
      | inl g ↦ rw (e, f, g) (omega arith)
      | inr g ↦ elim (Bool-cases (c == 34)) [
        | inl k ↦ rw (e, f, g, k) (read_word-Below true [] s)
        | inr k ↦ rw (e, f, g, k, n) (read_word-Below false (c ∷ []) s)
      ]
    ]
  ]
]

pub read_token-Below : (s : List ℕ) → Below (length s) (read_token s)
unfolding read_token
read_token-Below s = elim (Option-cases (chew false s)) [
  | inl e ↦ rw (e, read_token) tt
  | inr ((c, t), e) ↦
      let (l, n) = chew-some false s c t e in
      rw (e, read_token)
        (Below-le (suc (length t)) (length s) (snag c t) (omega arith) (snag-Below c t n))
]

-- A result of `read_list`, with what is left.
abbrev pub Ended : ℕ → Option ListRead → Type 0
Ended n r = (l : ListRead) × (r ≡ some l) × (length l.rest ≤ n)

-- What is left by `read_sexp` is shorter than `n` bytes.
abbrev SexpEnded : ℕ → SexpRead → Type 0
SexpEnded n (sexp e closes rest) = length rest < n
SexpEnded n sexp_eof = Unit
SexpEnded n (sexp_unclosed rest) = length rest < n

module _ (lists : List ℕ → Option ListRead) (n : ℕ)
    (ended : (s : List ℕ) → length s < n → Ended (length s) (lists s)) where
  sexp_of-SexpEnded :
      (quoted : Bool) (l : ListRead) (m : ℕ) → length l.rest < m → SexpEnded m (sexp_of quoted l)
  sexp_of-SexpEnded quoted l m h = elim (Option-cases l.es) [
    | inl e ↦ rw e h
    | inr (es, e) ↦ rw e h
  ]

  build_sexp-SexpEnded :
      (quoted : Bool) (t : Token) (rest : List ℕ) (m : ℕ)
      → length rest < m
      → m ≤ n
      → (r : SexpRead) × (build_sexp lists quoted t rest ≡ some r) × SexpEnded m r
  unfolding build_sexp
  build_sexp-SexpEnded quoted open_paren rest m h b =
      let (l, e, c) = ended rest (omega arith) in
      (sexp_of quoted l, rw (e, build_sexp) refl, sexp_of-SexpEnded quoted l m (omega arith))
  build_sexp-SexpEnded quoted close_paren rest m h b = (_, refl, h)
  build_sexp-SexpEnded quoted quote rest m h b = (_, refl, h)
  build_sexp-SexpEnded quoted (word text) rest m h b = (_, refl, h)

  after_quote-SexpEnded :
      (t : TokenRead) (m : ℕ)
      → Below m t
      → m ≤ n
      → (r : SexpRead) × (after_quote lists t ≡ some r) × SexpEnded m r
  unfolding after_quote
  after_quote-SexpEnded token_eof m h b = (_, refl, tt)
  after_quote-SexpEnded (token_unclosed rest) m h b = (_, refl, h)
  after_quote-SexpEnded (token t rest) m h b = build_sexp-SexpEnded true t rest m h b

  from_token-SexpEnded :
      (t : TokenRead) (m : ℕ)
      → Below m t
      → m ≤ n
      → (r : SexpRead) × (from_token lists t ≡ some r) × SexpEnded m r
  unfolding from_token
  from_token-SexpEnded token_eof m h b = (_, refl, tt)
  from_token-SexpEnded (token_unclosed rest) m h b = (_, refl, h)
  from_token-SexpEnded (token quote rest) m h b =
      after_quote-SexpEnded (read_token rest) m
        (Below-le (length rest) m (read_token rest) (omega arith) (read_token-Below rest)) b
  from_token-SexpEnded (token close_paren rest) m h b =
      build_sexp-SexpEnded false close_paren rest m h b
  from_token-SexpEnded (token open_paren rest) m h b =
      build_sexp-SexpEnded false open_paren rest m h b
  from_token-SexpEnded (token (word text) rest) m h b =
      build_sexp-SexpEnded false (word text) rest m h b

  add_sexp-Ended :
      (r : SexpRead) (m : ℕ) → SexpEnded m r → m ≤ n → Ended m (add_sexp lists (some r))
  unfolding add_sexp
  add_sexp-Ended sexp_eof m h b = (_, refl, omega arith)
  add_sexp-Ended (sexp_unclosed rest) m h b = (_, refl, omega arith)
  add_sexp-Ended (sexp e true rest) m h b = (_, refl, omega arith)
  add_sexp-Ended (sexp e false rest) m h b =
      let (l, runs, c) = ended rest (omega arith) in
      (add_lexp e l, rw (runs, add_sexp) refl, omega arith)

-- With more fuel than there are bytes, `read_list` ends on every input, and what it leaves unread
-- is no longer than the input.
pub read_list-Ended :
    (fuel : ℕ) (s : List ℕ) → length s < fuel → Ended (length s) (read_list fuel s)
unfolding read_list read_sexp
read_list-Ended zero s h = absurd (omega arith)
read_list-Ended (suc fuel) s h =
    let ended = λ (t : List ℕ) (b : length t < length s). read_list-Ended fuel t (omega arith) in
    let (r, runs, e) =
      from_token-SexpEnded (read_list fuel) (length s) ended (read_token s) (length s)
        (read_token-Below s) (omega arith) in
    rw runs (add_sexp-Ended (read_list fuel) (length s) ended r (length s) e (omega arith))
