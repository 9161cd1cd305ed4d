-- ===== src/VTerm/Feed/Total.antt =====
-- `feed_byte` of src/vterm.c calls itself at most once, and a character sent in UTF-8 is put.
use xzile.Prelude.{ℕ, suc, ◌≡◌, refl, sym, ap, ◌∙◌, Bool, Option, none, some, List, []}
use xzile.Utf8.{replacement}
use xzile.VTerm.Modes.{
  Emulator, ParseState, s_ground, s_escape, s_escape_inter, s_csi, s_osc, s_osc_esc, s_string,
  s_string_esc,
}
use xzile.VTerm.Feed.{
  start_sequence, put, feed_string, feed_ground, feed_state, feed_plain, feed_byte, with_utf8,
}
use mathlib.Core.Path.{subst}

module _ (wcwidth : ℕ → Option ℕ) (strtol : List ℕ → ℕ × Bool) where
  -- A byte that follows ESC in a command starts an escape sequence, where nothing is called again.
  again-escape :
      (k : ℕ) (e : Emulator) (c : ℕ)
      → feed_byte wcwidth strtol (suc k) (start_sequence e s_escape) c
        ≡ feed_byte wcwidth strtol 1 (start_sequence e s_escape) c
  unfolding feed_byte feed_string feed_plain feed_state start_sequence
  again-escape k e c = refl

  -- Behind a broken character none is open, and nothing is called again.
  again-ground :
      (k : ℕ) (e : Emulator) (c r : ℕ)
      → e.parser.state ≡ s_ground
      → feed_byte wcwidth strtol (suc k) (put wcwidth strtol (with_utf8 e []) r) c
        ≡ feed_byte wcwidth strtol 1 (put wcwidth strtol (with_utf8 e []) r) c
  unfolding feed_byte feed_string feed_plain feed_state feed_ground
  again-ground k e c r h = rw h refl

  -- Where `feed_ground` calls itself, and where a string may.
  feed_ground-again :
      (f g : Emulator → ℕ → Emulator) (e : Emulator) (c : ℕ)
      → f (put wcwidth strtol (with_utf8 e []) replacement) c
        ≡ g (put wcwidth strtol (with_utf8 e []) replacement) c
      → feed_ground wcwidth strtol f e c ≡ feed_ground wcwidth strtol g e c
  unfolding feed_ground
  feed_ground-again f g e c q = rw (feed_ground, q) refl

  feed_string-again :
      (f g : Emulator → ℕ → Emulator) (e : Emulator) (c : ℕ)
      → f (start_sequence e s_escape) c ≡ g (start_sequence e s_escape) c
      → feed_string wcwidth strtol f e c s_osc_esc ≡ feed_string wcwidth strtol g e c s_osc_esc
  unfolding feed_string
  feed_string-again f g e c q = rw (feed_string, q) refl

  feed_plain-again :
      (f g : Emulator → ℕ → Emulator) (e : Emulator) (c : ℕ) (s : ParseState)
      → e.parser.state ≡ s
      → feed_state wcwidth strtol f e c s ≡ feed_state wcwidth strtol g e c s
      → feed_plain wcwidth strtol f e c ≡ feed_plain wcwidth strtol g e c
  unfolding feed_plain
  feed_plain-again f g e c s h q =
      let at =
        subst (λ z. feed_state wcwidth strtol f e c z ≡ feed_state wcwidth strtol g e c z) (sym h)
          q in
      rw (feed_plain, at) refl

  -- One call of `feed_byte` in the state `s`, whose own call is `f`.
  abbrev byte_by : (Emulator → ℕ → Emulator) → Emulator → ℕ → ParseState → Emulator
  byte_by f e c s = elim (feed_string wcwidth strtol f e c s) [
    | some e' ↦ e'
    | none ↦ feed_plain wcwidth strtol f e c
  ]

  byte_by-again :
      (f g : Emulator → ℕ → Emulator) (e : Emulator) (c : ℕ) (s : ParseState)
      → e.parser.state ≡ s
      → f (start_sequence e s_escape) c ≡ g (start_sequence e s_escape) c
      → (e.parser.state ≡ s_ground
          → f (put wcwidth strtol (with_utf8 e []) replacement) c
            ≡ g (put wcwidth strtol (with_utf8 e []) replacement) c)
      → byte_by f e c s ≡ byte_by g e c s
  unfolding feed_string feed_state
  byte_by-again f g e c s_ground h q r =
      feed_plain-again f g e c s_ground h (feed_ground-again f g e c (r h))
  byte_by-again f g e c s_escape h q r = feed_plain-again f g e c s_escape h refl
  byte_by-again f g e c s_escape_inter h q r = feed_plain-again f g e c s_escape_inter h refl
  byte_by-again f g e c s_csi h q r = feed_plain-again f g e c s_csi h refl
  byte_by-again f g e c s_osc h q r = refl
  byte_by-again f g e c s_osc_esc h q r =
      ap (λ r. elim r [ some e' ↦ e' | none ↦ e ]) (feed_string-again f g e c q)
  byte_by-again f g e c s_string h q r = refl
  byte_by-again f g e c s_string_esc h q r = refl

  feed_byte-byte_by :
      (k : ℕ) (e : Emulator) (c : ℕ)
      → feed_byte wcwidth strtol (suc k) e c
        ≡ byte_by (feed_byte wcwidth strtol k) e c e.parser.state
  unfolding feed_byte
  feed_byte-byte_by k e c = refl

  -- `feed_byte` calls itself at most once: in every state and for every byte, calls of any greater
  -- depth change nothing.
  pub feed_byte-enough :
      (k : ℕ) (e : Emulator) (c : ℕ)
      → feed_byte wcwidth strtol (suc (suc k)) e c ≡ feed_byte wcwidth strtol 2 e c
  feed_byte-enough k e c =
      feed_byte-byte_by (suc k) e c
      ∙ byte_by-again (feed_byte wcwidth strtol (suc k)) (feed_byte wcwidth strtol 1) e c
          e.parser.state refl (again-escape k e c) (again-ground k e c replacement)
      ∙ sym (feed_byte-byte_by 1 e c)
