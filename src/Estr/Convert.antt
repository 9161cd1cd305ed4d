-- ===== src/Estr/Convert.antt =====
-- `estr_replace` and `ev_len_with_eol` of src/estr.c against a reference: the text with every line
-- end of one kind turned into one of another kind.
use xzile.Prelude.{
  ℕ, zero, suc, ◌+◌, ◌-◌, ◌*◌, ◌%◌, ◌≤◌, ◌<◌, ◌≡◌, refl, sym, ap, ◌∙◌, inl, inr, true, false,
  Option, none, some, List, [], ◌∷◌, ◌++◌, arith, Bool-cases, Option-cases, length, take, drop,
  length-append, length-take, length-drop, drop-nil, drop-drop, drop-cons_pos,
}
use xzile.Bytes.{is_prefix, matches_at, overwrite, xmemmem}
use xzile.Bytes.Find.{IsFirst}
use xzile.Bytes.Writes.{overwrite-nil, overwrite_thrice, length-overwrite}
use xzile.Estr.{
  Eol, eol_bytes, eol_len, EstrView, Estr, size_mod, count_lines, ev_lines, ev_len_with_eol,
  replace_lines, estr_replace,
}
use xzile.Estr.Lines.{xmemmem_eol, eol_fits, eol_len_pos}

-- The bytes of a text with its line ends converted; `skip` bytes of a line end are still to pass.
unfoldable pub convert : Eol → Eol → ℕ → List ℕ → List ℕ
convert from to skip [] = []
convert from to (suc skip) (x ∷ s) = convert from to skip s
convert from to zero (x ∷ s) = elim (is_prefix (eol_bytes from) (x ∷ s)) [
  | true ↦ eol_bytes to ++ convert from to (eol_len from - 1) s
  | false ↦ x ∷ convert from to 0 s
]

module _ (from to : Eol) where
  convert_skip : (k : ℕ) (s : List ℕ) → convert from to k s ≡ convert from to 0 (drop k s)
  unfolding convert
  convert_skip k [] = simp drop-nil
  convert_skip zero (x ∷ s) = refl
  convert_skip (suc k) (x ∷ s) = convert_skip k s

  -- Without a line end the text stays.
  convert_none :
      (s : List ℕ) → ((j : ℕ) → matches_at (eol_bytes from) s j ≡ false) → convert from to 0 s ≡ s
  unfolding convert
  convert_none [] h = refl
  convert_none (x ∷ s) h = ground (arith, h 0, convert_none s (λ j. h (suc j)))

  -- The first line end is converted, and the text behind it.
  convert_some :
      (n : ℕ) (s : List ℕ)
      → matches_at (eol_bytes from) s n ≡ true
      → ((j : ℕ) → j < n → matches_at (eol_bytes from) s j ≡ false)
      → convert from to 0 s
        ≡ take n s ++ (eol_bytes to ++ convert from to 0 (drop (eol_len from) (drop n s)))
  unfolding convert
  convert_some zero [] m h = absurd (omega (arith, eol_fits from [] 0 m, eol_len_pos from))
  convert_some zero (x ∷ s) m h =
      rw (m, convert)
        (ap (λ r. eol_bytes to ++ r)
          (rw (drop-cons_pos (eol_len from) x s (eol_len_pos from))
            (convert_skip (eol_len from - 1) s)))
  convert_some (suc n) [] m h = absurd (omega (arith, eol_fits from [] (suc n) m, eol_len_pos from))
  convert_some (suc n) (x ∷ s) m h =
      rw (h 0 (omega arith), convert)
        (ap (x ∷◌) (convert_some n s m (λ j b. h (suc j) (omega arith))))

  -- What `ev_lines` counts, with the lengths of the text and of the converted text.
  count_lines_acc :
      (fuel : ℕ) (s : List ℕ) (n : ℕ) → count_lines fuel from s n ≡ n + count_lines fuel from s 0
  unfolding count_lines
  count_lines_acc zero s n = omega arith
  count_lines_acc (suc fuel) s n = elim (Option-cases (xmemmem s (eol_bytes from))) [
    | inl e ↦ ground arith
    | inr (i, e) ↦ ground (
      arith,
      count_lines_acc fuel (drop (i + eol_len from) s) (n + 1),
      count_lines_acc fuel (drop (i + eol_len from) s) (0 + 1),
    )
  ]

  convert_split :
      (n : ℕ) (s : List ℕ)
      → matches_at (eol_bytes from) s n ≡ true
      → ((j : ℕ) → j < n → matches_at (eol_bytes from) s j ≡ false)
      → convert from to 0 s
        ≡ take n s ++ (eol_bytes to ++ convert from to 0 (drop (n + eol_len from) s))
  convert_split n s m h = rw (← drop-drop (eol_len from) n s) (convert_some n s m h)

  abbrev Counted : ℕ → List ℕ → Type 0
  Counted fuel s =
      length (convert from to 0 s) + count_lines fuel from s 0 * eol_len from
      ≡ length s + count_lines fuel from s 0 * eol_len to

  count_step :
      (fuel : ℕ) (s : List ℕ)
      → length s < suc fuel
      → ((s' : List ℕ) → length s' < fuel → Counted fuel s')
      → (r : Option ℕ) → xmemmem s (eol_bytes from) ≡ r
      → IsFirst (eol_bytes from) s r
      → Counted (suc fuel) s
  unfolding count_lines
  count_step fuel s h ih none e f = rw (e, count_lines, convert_none s f) (omega arith)
  count_step fuel s h ih (some n) e f =
      let rest = drop (n + eol_len from) s in
      let shorter = length-drop (n + eol_len from) s in
      let fits = eol_fits from s n f.0 in
      let pos = eol_len_pos from in
      rw (e, count_lines, convert_split n s f.0 f.1, count_lines_acc fuel rest (0 + 1))
        (omega (
          arith,
          ih rest (omega (arith, shorter, fits, pos)),
          shorter,
          fits,
          length-append (take n s) (eol_bytes to ++ convert from to 0 rest),
          length-append (eol_bytes to) (convert from to 0 rest),
          length-take n s,
        ))

  pub length-convert : (fuel : ℕ) (s : List ℕ) → length s < fuel → Counted fuel s
  length-convert zero s h = absurd (omega arith)
  length-convert (suc fuel) s h =
      count_step fuel s h (λ s' b. length-convert fuel s' b) (xmemmem s (eol_bytes from)) refl
        (xmemmem_eol from s)

-- The wrapped difference of the two lengths, times the number of lines, wraps back.
wrapped_len :
    (from to : Eol) (l n c : ℕ)
    → c + n * eol_len from ≡ l + n * eol_len to
    → c < size_mod
    → (l + n * ((size_mod + eol_len to - eol_len from) % size_mod)) % size_mod ≡ c
wrapped_len from to l n c e h = grind arith

-- `ev_len_with_eol` is the length of the converted text, if that is less than 2 ^ 64, although the
-- difference of the two line ends' lengths wraps.
pub ev_len_with_eol_lem :
    (ev : EstrView) (to : Eol)
    → length (convert ev.eol to 0 ev.text) < size_mod
    → ev_len_with_eol ev to ≡ length (convert ev.eol to 0 ev.text)
unfolding ev_len_with_eol ev_lines
ev_len_with_eol_lem ev to h =
    wrapped_len ev.eol to (length ev.text) (ev_lines ev) _
      (length-convert ev.eol to (length ev.text + 1) ev.text (omega arith)) h

module _ (from to : Eol) where
  abbrev Written : ℕ → ℕ → List ℕ → List ℕ → Type 0
  Written fuel pos s t =
      pos + length (convert from to 0 s) ≤ length t
      → replace_lines fuel from to pos s t ≡ overwrite pos (convert from to 0 s) t

  replace_step :
      (fuel pos c : ℕ) (s t : List ℕ)
      → length (c ∷ s) < suc fuel
      → ((p : ℕ) (s' t' : List ℕ) → length s' < fuel → Written fuel p s' t')
      → (r : Option ℕ) → xmemmem (c ∷ s) (eol_bytes from) ≡ r
      → IsFirst (eol_bytes from) (c ∷ s) r
      → Written (suc fuel) pos (c ∷ s) t
  unfolding replace_lines
  replace_step fuel pos c s t h ih none e f b =
      rw (e, replace_lines, convert_none from to (c ∷ s) f)
  replace_step fuel pos c s t h ih (some n) e f b =
      let rest = drop (n + eol_len from) (c ∷ s) in
      let line = take n (c ∷ s) in
      let fits = eol_fits from (c ∷ s) n f.0 in
      let line_length : length line ≡ n = omega (arith, fits, length-take n (c ∷ s)) in
      let shorter = length-drop (n + eol_len from) (c ∷ s) in
      let split = convert_split from to n (c ∷ s) f.0 f.1 in
      let parts = length-append line (eol_bytes to ++ convert from to 0 rest) in
      let tail = length-append (eol_bytes to) (convert from to 0 rest) in
      let room : pos + n + eol_len to + length (convert from to 0 rest) ≤ length t =
        omega (arith, parts, tail, line_length, ap length split) in
      rw (e, replace_lines, split)
        (ih (pos + n + eol_len to) rest (overwrite (pos + n) (eol_bytes to) (overwrite pos line t))
            (omega (arith, shorter, fits, eol_len_pos from))
            (omega (
              arith,
              length-overwrite pos line t,
              length-overwrite (pos + n) (eol_bytes to) (overwrite pos line t),
            ))
          ∙ overwrite_thrice pos n (eol_len to) line (eol_bytes to) (convert from to 0 rest) t
              line_length refl room)

  pub replace_lines_lem : (fuel pos : ℕ) (s t : List ℕ) → length s < fuel → Written fuel pos s t
  unfolding replace_lines convert
  replace_lines_lem zero pos s t h = λ b. absurd (omega arith)
  replace_lines_lem (suc fuel) pos [] t h = λ b. sym (overwrite-nil pos t (omega arith))
  replace_lines_lem (suc fuel) pos (c ∷ s) t h =
      replace_step fuel pos c s t h (λ p s' t' b. replace_lines_lem fuel p s' t' b)
        (xmemmem (c ∷ s) (eol_bytes from)) refl (xmemmem_eol from (c ∷ s))

-- `estr_replace` writes the source at `pos` with each of its line ends converted to the string's
-- own kind, if the converted text fits; nothing else of the string changes.
pub estr_replace_lem :
    (es : Estr) (pos : ℕ) (src : EstrView)
    → pos + length (convert src.eol es.eol 0 src.text) ≤ length es.text
    → estr_replace es pos src
      ≡ record es { text = overwrite pos (convert src.eol es.eol 0 src.text) es.text }
unfolding estr_replace
estr_replace_lem es pos src h =
    rw (replace_lines_lem src.eol es.eol (length src.text + 1) pos src.text es.text (omega arith) h)

-- A text is its own conversion to the kind that it has.
is_prefix_split : (t s : List ℕ) → is_prefix t s ≡ true → t ++ drop (length t) s ≡ s
unfolding is_prefix
is_prefix_split [] s h = refl
is_prefix_split (c ∷ t) [] h = cc
is_prefix_split (c ∷ t) (d ∷ s) h = ground (arith, is_prefix_split t s)

convert-drop : (e : Eol) (k : ℕ) (s : List ℕ) → convert e e k s ≡ drop k s
unfolding convert
convert-drop e k [] = simp drop-nil
convert-drop e (suc k) (x ∷ s) = convert-drop e k s
convert-drop e zero (x ∷ s) = elim (Bool-cases (is_prefix (eol_bytes e) (x ∷ s))) [
  | inl p ↦
      rw (p, convert)
        (ap (λ r. eol_bytes e ++ r)
            (convert-drop e (eol_len e - 1) s ∙ sym (drop-cons_pos (eol_len e) x s (eol_len_pos e)))
          ∙ is_prefix_split (eol_bytes e) (x ∷ s) p)
  | inr p ↦ rw (p, convert) (ap (x ∷◌) (convert-drop e 0 s))
]

pub convert_same : (e : Eol) (s : List ℕ) → convert e e 0 s ≡ s
convert_same e s = convert-drop e 0 s
