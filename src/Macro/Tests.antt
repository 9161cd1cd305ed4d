-- ===== src/Macro/Tests.antt =====
-- A macro of two commands.
use xzile.Prelude.{ℕ, ◌≡◌, refl, inl, inr, false, none, some, List, [], ◌∷◌, map, arith, length}
use xzile.TermKeys.{TermKeys, codetokey, char_key, next_code, get_char, meta_key, term_getkey}
use xzile.TermKeys.Codes.{IsTyped}
use xzile.Macro.{Macros, push_keys}
use xzile.Macro.Record.{AreKeys, Reads, joined, recorded, macros, strokes, recorded-joined}

-- C-x (, then "a", and "a" with Meta, and C-x ), as the terminal gives them
abbrev waiting : TermKeys
waiting = record { key_buf = []; tty = 24 ∷ 40 ∷ 97 ∷ 27 ∷ 97 ∷ 24 ∷ 41 ∷ [] }

abbrev quiet : TermKeys
quiet = record { key_buf = []; tty = [] }

abbrev before : Macros
before = record { cur_mp = some (98 ∷ []); cmd_mp = none; defining = false; keys = waiting }

-- "a", and "a" with Meta
abbrev commands : List (List ℕ)
commands = (97 ∷ []) ∷ (0x461 ∷ []) ∷ []

-- C-x (
abbrev opening : List ℕ
opening = 0x278 ∷ 40 ∷ []

-- C-x )
abbrev closing : List ℕ
closing = 0x278 ∷ 41 ∷ []

byte_IsTyped : IsTyped 97
unfolding IsTyped
byte_IsTyped = inl (omega arith, λ e. omega (arith, e))

commands-AreKeys : AreKeys (joined commands)
unfolding AreKeys joined codetokey char_key
commands-AreKeys = ((97, (byte_IsTyped, inl refl)), ((97, (byte_IsTyped, inr refl)), tt))

waiting-Reads : Reads false (0x278 ∷ 40 ∷ 97 ∷ 0x461 ∷ 0x278 ∷ 41 ∷ []) waiting quiet
unfolding Reads term_getkey get_char next_code meta_key codetokey char_key
waiting-Reads = (_, refl, (_, refl, (_, refl, (_, refl, (_, refl, (_, refl, refl))))))

recorded-joined_example :
    (recorded false opening commands closing before
      ≡ macros (some (joined commands)) none false quiet)
    × (strokes false
          (length (joined commands))
          (macros (some (joined commands)) none false (push_keys (joined commands) quiet))
        ≡ (map some (joined commands), macros (some (joined commands)) none false quiet))
unfolding joined
recorded-joined_example =
    recorded-joined false opening commands closing before quiet refl refl waiting-Reads
      commands-AreKeys
