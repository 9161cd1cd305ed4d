-- ===== src/TermKeys/Codes.antt =====
-- A key pushed back is read again, in src/term.c.
use xzile.Prelude.{
  ℕ, zero, suc, ◌+◌, ◌≤◌, ◌<◌, ◌≡◌, refl, sym, ap, ◌∙◌, ◌≢◌, ◌⊎◌, inl, inr, Bool, true, false, ◌&&◌,
  ◌||◌, not, Option, none, some, List, [], ◌∷◌, arith, ◌==◌, Bool-cases, Option-cases, length,
}
use xzile.StrVec.{same_bytes}
use xzile.StrVec.Search.{same_bytes_eq}
use xzile.TermKeys.{
  TermKeys, kbd_meta, code_paste, mods_of, special_key, char_key, codetokey, index_of, special_code,
  char_codes, plain_codes, keytocodes, term_ungetkey, get_char, with_meta, meta_key, term_getkey,
}

-- The codes that stand for one key, but for ESC: bytes, and the special keys, also with Control.
unfoldable pub IsTyped : ℕ → Type 0
IsTyped c =
    ((c < 256) × (c ≢ 27)) ⊎ (((0x10000 ≤ c) × (c < 0x10016)) ⊎ ((0x110000 ≤ c) × (c < 0x110016)))

is_other_key : Option ℕ → Bool
is_other_key none = false
is_other_key (some key) = not (key == kbd_meta)

comes_back : ℕ → Bool
comes_back c =
    let key = codetokey (some c) in
    is_other_key key
    && (same_bytes (keytocodes key) (c ∷ [])
        && same_bytes (keytocodes (with_meta key)) (27 ∷ c ∷ []))

-- From `lo` on, `n` codes.
all_come_back : ℕ → ℕ → Bool
all_come_back lo zero = true
all_come_back lo (suc n) = (comes_back lo || lo == 27) && all_come_back (lo + 1) n

all_come_back-one :
    (lo n c : ℕ) → all_come_back lo n ≡ true → lo ≤ c → c < lo + n → c ≢ 27 → comes_back c ≡ true
unfolding all_come_back
all_come_back-one lo zero c e h k d = absurd (omega (arith, h, k))
all_come_back-one lo (suc n) c e h k d = elim (Bool-cases (lo == c)) [
  | inl f ↦
      let same : lo ≡ c = ground (arith, f) in
      let not_esc : (lo == 27) ≡ false = ground (arith, same, d) in
      ap comes_back (sym same) ∙ ground (arith, e, not_esc)
  | inr f ↦
      all_come_back-one (lo + 1) n c (ground (arith, e)) (ground (arith, f, h)) (omega (arith, k)) d
]

bytes_come_back : all_come_back 0 256 ≡ true
unfolding all_come_back comes_back is_other_key codetokey keytocodes same_bytes char_key special_key
    mods_of index_of special_code char_codes plain_codes
bytes_come_back = refl

specials_come_back : all_come_back 0x10000 22 ≡ true
unfolding all_come_back comes_back is_other_key codetokey keytocodes same_bytes char_key special_key
    mods_of index_of special_code char_codes plain_codes
specials_come_back = refl

controls_come_back : all_come_back 0x110000 22 ≡ true
unfolding all_come_back comes_back is_other_key codetokey keytocodes same_bytes char_key special_key
    mods_of index_of special_code char_codes plain_codes
controls_come_back = refl

IsTyped-comes_back : (c : ℕ) → IsTyped c → comes_back c ≡ true
unfolding IsTyped
IsTyped-comes_back c (inl (h, d)) =
    all_come_back-one 0 256 c bytes_come_back (omega arith) (omega (arith, h)) d
IsTyped-comes_back c (inr (inl (h, k))) =
    all_come_back-one 0x10000 22 c specials_come_back h (omega (arith, k))
      (λ e. omega (arith, e, h))
IsTyped-comes_back c (inr (inr (h, k))) =
    all_come_back-one 0x110000 22 c controls_come_back h (omega (arith, k))
      (λ e. omega (arith, e, h))

-- What the two tests of `comes_back` mean.
come_back_eq :
    (c : ℕ)
    → comes_back c ≡ true
    → (key : ℕ) × ((codetokey (some c) ≡ some key) × ((key == kbd_meta) ≡ false))
unfolding comes_back is_other_key
come_back_eq c e = elim (Option-cases (codetokey (some c))) [
  | inl f ↦ absurd (ground (arith, rw f at e))
  | inr (key, f) ↦ (key, (f, ground (arith, rw f at e)))
]

keytocodes-codetokey :
    (c : ℕ)
    → comes_back c ≡ true
    → (keytocodes (codetokey (some c)) ≡ c ∷ [])
      × (keytocodes (with_meta (codetokey (some c))) ≡ 27 ∷ c ∷ [])
unfolding comes_back
keytocodes-codetokey c e =
    let key = codetokey (some c) in
    (
      same_bytes_eq (keytocodes key) (c ∷ []) (ground (arith, e)),
      same_bytes_eq (keytocodes (with_meta key)) (27 ∷ c ∷ []) (ground (arith, e)),
    )

not_special : (c : ℕ) → IsTyped c → ((c == code_paste) ≡ false) × ((c == 27) ≡ false)
unfolding IsTyped
not_special c (inl (h, d)) = (ground (arith, h), ground (arith, d))
not_special c (inr (inl (h, k))) = (ground (arith, k), ground (arith, h))
not_special c (inr (inr (h, k))) = (ground (arith, h), ground (arith, h))

meta_key-one :
    (fuel c key : ℕ) (cs tty : List ℕ)
    → 0 < fuel
    → codetokey (some c) ≡ some key
    → (key == kbd_meta) ≡ false
    → meta_key fuel (record { key_buf = c ∷ cs; tty = tty })
      ≡ (with_meta (codetokey (some c)), record { key_buf = cs; tty = tty })
unfolding meta_key get_char
meta_key-one zero c key cs tty h e f = absurd (omega (arith, h))
meta_key-one (suc fuel) c key cs tty h e f = rw (meta_key, get_char, e, f) refl

-- ESC pushed back is never alone.
getkey_meta :
    (c key : ℕ) (alone : Bool) (cs tty : List ℕ)
    → codetokey (some c) ≡ some key
    → (key == kbd_meta) ≡ false
    → term_getkey alone (record { key_buf = 27 ∷ c ∷ cs; tty = tty })
      ≡ (with_meta (codetokey (some c)), record { key_buf = cs; tty = tty })
unfolding term_getkey get_char
getkey_meta c key alone cs tty e f =
    let fuel = length (c ∷ cs) + length tty + 1 in
    let from_tty : (length (27 ∷ c ∷ cs) == 0) ≡ false = ground arith in
    rw from_tty (meta_key-one fuel c key cs tty (omega arith) e f)

-- A key typed by a byte other than ESC, or by a special key, also with Control, and pushed back by
-- `term_ungetkey`, with Meta or without, is what `term_getkey` reads next, and the keys pushed back
-- before are as they were.
pub term_getkey-term_ungetkey :
    (c : ℕ) (alone : Bool) (t : TermKeys)
    → IsTyped c
    → let key = codetokey (some c) in
      (term_getkey alone (term_ungetkey t key) ≡ (key, t))
      × (term_getkey alone (term_ungetkey t (with_meta key)) ≡ (with_meta key, t))
unfolding term_getkey term_ungetkey get_char
term_getkey-term_ungetkey c alone t h =
    let (not_paste, not_esc) = not_special c h in
    let back = IsTyped-comes_back c h in
    let (plain, meta) = keytocodes-codetokey c back in
    let (key, (is, other)) = come_back_eq c back in
    (
      rw (plain, not_paste, not_esc) refl,
      rw meta (getkey_meta c key alone t.key_buf t.tty is other),
    )
