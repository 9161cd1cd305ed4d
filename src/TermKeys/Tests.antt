-- ===== src/TermKeys/Tests.antt =====
-- Keys pushed back and a pasted text.
use xzile.Prelude.{ℕ, ◌≡◌, refl, inl, false, some, List, [], ◌∷◌, ◌++◌, arith}
use xzile.Completion.{starts_with}
use xzile.TermKeys.{
  TermKeys, codetokey, term_getkey, term_ungetkey, with_meta, paste_end,
  read_bracketed_paste_payload,
}
use xzile.TermKeys.Codes.{IsTyped, term_getkey-term_ungetkey}
use xzile.TermKeys.Paste.{cut_at_end, read_bracketed_paste_payload-end}

abbrev idle : TermKeys
idle = record { key_buf = 97 ∷ []; tty = [] }

byte_IsTyped : IsTyped 24
unfolding IsTyped
byte_IsTyped = inl (omega arith, λ e. omega (arith, e))

term_getkey-term_ungetkey_example :
    let key = codetokey (some 24) in
    (term_getkey false (term_ungetkey idle key) ≡ (key, idle))
    × (term_getkey false (term_ungetkey idle (with_meta key)) ≡ (with_meta key, idle))
term_getkey-term_ungetkey_example = term_getkey-term_ungetkey 24 false idle byte_IsTyped

-- "a\\033[\\033[201~b"
abbrev pasted : List ℕ
pasted = 97 ∷ 27 ∷ 91 ∷ 27 ∷ 91 ∷ 50 ∷ 48 ∷ 49 ∷ 126 ∷ 98 ∷ []

pasted_end : cut_at_end pasted ≡ some (97 ∷ 27 ∷ 91 ∷ [], 98 ∷ [])
unfolding cut_at_end starts_with
pasted_end = refl

read_bracketed_paste_payload-end_example :
    (read_bracketed_paste_payload pasted ≡ (97 ∷ 27 ∷ 91 ∷ [], 98 ∷ []))
    × (pasted ≡ (97 ∷ 27 ∷ 91 ∷ []) ++ (paste_end ++ 98 ∷ []))
read_bracketed_paste_payload-end_example =
    read_bracketed_paste_payload-end pasted (97 ∷ 27 ∷ 91 ∷ [], 98 ∷ []) pasted_end
