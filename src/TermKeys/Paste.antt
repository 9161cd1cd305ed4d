-- ===== src/TermKeys/Paste.antt =====
-- The end of pasted text in src/term.c.
use xzile.Prelude.{
  ℕ, zero, suc, ◌+◌, ◌<◌, ◌≡◌, refl, sym, ap, ap₂, ◌∙◌, inl, inr, true, false, Option, none, some,
  List, [], ◌∷◌, ◌++◌, append-nil, append_assoc, arith, ◌==◌, if◌then◌else◌, Bool-cases, length,
  get_or, take, drop,
}
use mathlib.Core.Option.{map as map_option, map-eq-some_iff, some-injective}
use xzile.Completion.{starts_with}
use xzile.TermKeys.{paste_end, payload, read_bracketed_paste_payload}

-- The text before the first end of a paste, and what follows that; nothing where there is no end.
unfoldable pub cut_at_end : List ℕ → Option (List ℕ × List ℕ)
cut_at_end [] = none
cut_at_end (c ∷ cs) =
    let rest = cut_at_end cs in
    if starts_with (c ∷ cs) paste_end
    then some ([], drop 6 (c ∷ cs))
    else map_option (λ r. (c ∷ r.0, r.1)) rest

-- A part of the end in front.
abbrev pub behind : List ℕ → List ℕ × List ℕ → List ℕ × List ℕ
behind s r = (s ++ r.0, r.1)

-- The same, byte by byte.
prepend : List ℕ → Option (List ℕ × List ℕ) → Option (List ℕ × List ℕ)
prepend [] o = o
prepend (c ∷ s) o = map_option (λ r. (c ∷ r.0, r.1)) (prepend s o)

prepend_behind : (s : List ℕ) (o : Option (List ℕ × List ℕ)) → prepend s o ≡ map_option (behind s) o
unfolding prepend
prepend_behind [] none = refl
prepend_behind [] (some r) = refl
prepend_behind (c ∷ s) none = rw (prepend_behind s none) refl
prepend_behind (c ∷ s) (some r) = rw (prepend_behind s (some r)) refl

skip_part :
    (m c : ℕ) (cs : List ℕ)
    → m < 6
    → (c == get_or paste_end m 0) ≡ false
    → cut_at_end (take m paste_end ++ c ∷ cs)
      ≡ map_option (behind (take m paste_end)) (cut_at_end (c ∷ cs))
unfolding cut_at_end starts_with prepend
skip_part zero c cs h e = prepend_behind [] (cut_at_end (c ∷ cs))
skip_part (suc zero) c cs h e =
    rw (cut_at_end, e) (prepend_behind (take 1 paste_end) (cut_at_end (c ∷ cs)))
skip_part (suc (suc zero)) c cs h e =
    rw (cut_at_end, e) (prepend_behind (take 2 paste_end) (cut_at_end (c ∷ cs)))
skip_part (suc (suc (suc zero))) c cs h e =
    rw (cut_at_end, e) (prepend_behind (take 3 paste_end) (cut_at_end (c ∷ cs)))
skip_part (suc (suc (suc (suc zero)))) c cs h e =
    rw (cut_at_end, e) (prepend_behind (take 4 paste_end) (cut_at_end (c ∷ cs)))
skip_part (suc (suc (suc (suc (suc zero))))) c cs h e =
    rw (cut_at_end, e) (prepend_behind (take 5 paste_end) (cut_at_end (c ∷ cs)))
skip_part (suc (suc (suc (suc (suc (suc m)))))) c cs h e = absurd (omega (arith, h))

map_some :
    (f : List ℕ × List ℕ → List ℕ × List ℕ) (o : Option (List ℕ × List ℕ)) (x : List ℕ × List ℕ)
    → map_option f o ≡ some x
    → (y : List ℕ × List ℕ) × ((o ≡ some y) × (f y ≡ x))
map_some f o x e = let (y, same, image) = (map-eq-some_iff f o).0 e in (y, (same, image))

no_end : (m : ℕ) → m < 6 → cut_at_end (take m paste_end ++ []) ≡ none
unfolding cut_at_end starts_with
no_end zero h = refl
no_end (suc zero) h = refl
no_end (suc (suc zero)) h = refl
no_end (suc (suc (suc zero))) h = refl
no_end (suc (suc (suc (suc zero)))) h = refl
no_end (suc (suc (suc (suc (suc zero))))) h = refl
no_end (suc (suc (suc (suc (suc (suc m)))))) h = absurd (omega (arith, h))

take_one_more :
    (xs : List ℕ) (m c : ℕ) (cs : List ℕ)
    → m < length xs
    → c ≡ get_or xs m 0
    → take m xs ++ c ∷ cs ≡ take (m + 1) xs ++ cs
take_one_more [] m c cs h e = absurd (omega (arith, h))
take_one_more (x ∷ []) zero c cs h e = ap (λ b. b ∷ cs) e
take_one_more (x ∷ y ∷ xs) zero c cs h e = ap (λ b. b ∷ cs) e
take_one_more (x ∷ xs) (suc m) c cs h e =
    let next : suc m + 1 ≡ suc (m + 1) = omega arith in
    rw next (ap (λ t. x ∷ t) (take_one_more xs m c cs (omega (arith, h)) e))

cut_whole : (cs : List ℕ) → cut_at_end (paste_end ++ cs) ≡ some ([], cs)
unfolding cut_at_end starts_with
cut_whole cs = refl

cut_other :
    (c : ℕ) (cs : List ℕ)
    → (c == 27) ≡ false
    → cut_at_end (c ∷ cs) ≡ map_option (behind (c ∷ [])) (cut_at_end cs)
unfolding cut_at_end starts_with
cut_other c cs e = rw (cut_at_end, e) refl

payload-cut_at_end :
    (rest : List ℕ) (m : ℕ) (text : List ℕ) (x : List ℕ × List ℕ)
    → m < 6
    → cut_at_end (take m paste_end ++ rest) ≡ some x
    → payload m text rest ≡ behind text x
unfolding payload
payload-cut_at_end [] m text x h e = absurd (ground (arith, e, no_end m h))
payload-cut_at_end (c ∷ cs) m text x h e = elim (Bool-cases (c == get_or paste_end m 0)) [
  | inl f ↦
      let next = sym (take_one_more paste_end m c cs h (ground (arith, f))) in
      elim (Bool-cases (m + 1 == 6)) [
        | inl g ↦
            let all : m + 1 ≡ 6 = ground (arith, g) in
            let whole : cut_at_end (take 6 paste_end ++ cs) ≡ some x =
              ap (λ n. cut_at_end (take n paste_end ++ cs)) (sym all) ∙ (ap cut_at_end next ∙ e) in
            rw (payload, f, g)
              (ap (λ t. (t, cs)) (sym (append-nil text))
                ∙ ap (behind text) (some-injective ([], cs) x (sym (cut_whole cs) ∙ whole)))
        | inr g ↦
            rw (payload, f, g)
              (payload-cut_at_end cs (m + 1) text x (ground (arith, g, h)) (ap cut_at_end next ∙ e))
      ]
  | inr f ↦
      let part = take m paste_end in
      let (y, (found, joined)) =
        map_some (behind part) (cut_at_end (c ∷ cs)) x (sym (skip_part m c cs h f) ∙ e) in
      elim (Bool-cases (c == 27)) [
        | inl g ↦
            let esc : c ≡ 27 = ground (arith, g) in
            let ih =
              payload-cut_at_end cs 1 (text ++ part) y (omega arith)
                (ap (λ b. cut_at_end (b ∷ cs)) (sym esc) ∙ found) in
            rw (payload, f, g)
              (ih ∙ (ap (λ t. (t, y.1)) (append_assoc text part y.0) ∙ ap (behind text) joined))
        | inr g ↦
            let (z, (later, one)) =
              map_some (behind (c ∷ [])) (cut_at_end cs) y (sym (cut_other c cs g) ∙ found) in
            let ih = payload-cut_at_end cs 0 ((text ++ part) ++ c ∷ []) z (omega arith) later in
            rw (payload, f, g)
              (ih
                ∙ (ap (λ t. (t, z.1))
                      (append_assoc (text ++ part) (c ∷ []) z.0 ∙ append_assoc text part (c ∷ z.0))
                    ∙ ap (behind text) (ap (behind part) one ∙ joined)))
      ]
]

drop_zero : (s : List ℕ) → drop 0 s ≡ s
drop_zero [] = refl
drop_zero (c ∷ s) = refl

starts_with-drop : (s p : List ℕ) → starts_with s p ≡ true → s ≡ p ++ drop (length p) s
unfolding starts_with
starts_with-drop s [] e = sym (drop_zero s)
starts_with-drop [] (c ∷ p) e = absurd (ground (arith, e))
starts_with-drop (d ∷ s) (c ∷ p) e =
    let same : d ≡ c = ground (arith, e) in
    ap₂ (λ b t. b ∷ t) same (starts_with-drop s p (ground (arith, e)))

-- The text cut off stands before an end.
cut_at_end-append :
    (bytes : List ℕ) (x : List ℕ × List ℕ)
    → cut_at_end bytes ≡ some x
    → bytes ≡ x.0 ++ (paste_end ++ x.1)
unfolding cut_at_end
cut_at_end-append [] x e = absurd (ground (arith, e))
cut_at_end-append (c ∷ cs) x e = elim (Bool-cases (starts_with (c ∷ cs) paste_end)) [
  | inl f ↦
      let here : ([], drop 6 (c ∷ cs)) ≡ x = some-injective _ x (rw (cut_at_end, f) at e) in
      starts_with-drop (c ∷ cs) paste_end f ∙ ap (λ r. r.0 ++ (paste_end ++ r.1)) here
  | inr f ↦
      let (y, (found, joined)) = map_some _ (cut_at_end cs) x (rw (cut_at_end, f) at e) in
      ap (λ t. c ∷ t) (cut_at_end-append cs y found) ∙ ap (λ r. r.0 ++ (paste_end ++ r.1)) joined
]

-- If the bytes from the terminal have an end of a paste, `read_bracketed_paste_payload` returns the
-- text before the first one and leaves what follows it, though it compares byte by byte and never
-- goes back; the text, the end and the rest make up the bytes.
pub read_bracketed_paste_payload-end :
    (bytes : List ℕ) (x : List ℕ × List ℕ)
    → cut_at_end bytes ≡ some x
    → (read_bracketed_paste_payload bytes ≡ x) × (bytes ≡ x.0 ++ (paste_end ++ x.1))
unfolding read_bracketed_paste_payload
read_bracketed_paste_payload-end bytes x e =
    (payload-cut_at_end bytes 0 [] x (omega arith) e, cut_at_end-append bytes x e)
