-- ===== src/Regex/Bracket.antt =====
-- Brackets of patterns of src/regex.c: the loop of `parse_bracket` over characters, ranges and
-- classes, and the errors of the parser.
use xzile.Prelude.{
  ℕ, zero, suc, ◌+◌, Bool, true, false, ◌&&◌, ◌||◌, not, Option, none, some, List, [], ◌∷◌, ltb,
  leb, ◌==◌, if◌then◌else◌, length, get_or, take, drop,
}
use xzile.Utf8.{replacement, utf8_decode}
use xzile.Bytes.{xmemmem}
use xzile.Regex.{CharSet, set_add_byte, set_has_byte, set_add_range}
use xzile.Regex.Run.{Ctype}

pub data RegexError : Type 0 where
  trailing_backslash unmatched_open unmatched_close : RegexError
  invalid_syntax invalid_backref invalid_content : RegexError
  unmatched_bracket invalid_class invalid_range : RegexError

-- The `name` fields of `char_classes`.
abbrev pub char_classes : List (List ℕ)
char_classes =
    (97 ∷ 108 ∷ 110 ∷ 117 ∷ 109 ∷ [])
    ∷ (97 ∷ 108 ∷ 112 ∷ 104 ∷ 97 ∷ [])
    ∷ (98 ∷ 108 ∷ 97 ∷ 110 ∷ 107 ∷ [])
    ∷ (99 ∷ 110 ∷ 116 ∷ 114 ∷ 108 ∷ [])
    ∷ (100 ∷ 105 ∷ 103 ∷ 105 ∷ 116 ∷ [])
    ∷ (103 ∷ 114 ∷ 97 ∷ 112 ∷ 104 ∷ [])
    ∷ (108 ∷ 111 ∷ 119 ∷ 101 ∷ 114 ∷ [])
    ∷ (112 ∷ 114 ∷ 105 ∷ 110 ∷ 116 ∷ [])
    ∷ (112 ∷ 117 ∷ 110 ∷ 99 ∷ 116 ∷ [])
    ∷ (115 ∷ 112 ∷ 97 ∷ 99 ∷ 101 ∷ [])
    ∷ (117 ∷ 112 ∷ 112 ∷ 101 ∷ 114 ∷ [])
    ∷ (120 ∷ 100 ∷ 105 ∷ 103 ∷ 105 ∷ 116 ∷ [])
    ∷ []

unfoldable pub equal_bytes : List ℕ → List ℕ → Bool
equal_bytes [] [] = true
equal_bytes [] (d ∷ t) = false
equal_bytes (c ∷ s) [] = false
equal_bytes (c ∷ s) (d ∷ t) = c == d && equal_bytes s t

unfoldable pub listed : List (List ℕ) → List ℕ → Bool
listed [] name = false
listed (n ∷ names) name = equal_bytes n name || listed names name

-- A set with one more item, and where the item ends.
pub data Item : Type 0 where
  adds : (cs : CharSet) → (next : ℕ) → Item
  refuses : (e : RegexError) → Item

module _ (ct : Ctype) (p : List ℕ) where
  -- One (possibly multibyte) character of the pattern, and where it ends.
  unfoldable pub read_pattern_char : ℕ → ℕ × ℕ
  read_pattern_char i =
      let decoded = utf8_decode p i in
      (
        if decoded.0 == replacement && decoded.1 == 1 then get_or p i 0 else decoded.0,
        i + decoded.1,
      )

  -- The length of the name behind `[:` at `i`, if there is a `:]`.
  unfoldable pub class_end : ℕ → Option ℕ
  class_end i =
      if get_or p i 0 == 91 && ltb (i + 1) (length p) && get_or p (i + 1) 0 == 58
      then xmemmem (drop (i + 2) p) (58 ∷ 93 ∷ [])
      else none

  -- The ASCII bytes below `n` for which `test` holds.
  unfoldable pub add_class : (ℕ → Bool) → ℕ → CharSet → CharSet
  add_class test zero cs = cs
  add_class test (suc n) cs =
      let rest = add_class test n cs in if test n then set_add_byte rest n else rest

  -- The other case of the ASCII bytes below `n` that the set has.
  unfoldable pub fold_case : ℕ → CharSet → CharSet
  fold_case zero cs = cs
  fold_case (suc n) cs =
      let rest = fold_case n cs in
      if set_has_byte rest n
      then set_add_byte (set_add_byte rest (ct.tolower n)) (ct.toupper n)
      else rest

  unfoldable pub add_chars : ℕ → CharSet → Item
  add_chars i cs =
      let lo = read_pattern_char i in
      let hi = read_pattern_char (lo.1 + 1) in
      if ltb (lo.1 + 1) (length p) && get_or p lo.1 0 == 45 && not (get_or p (lo.1 + 1) 0 == 93)
      then (if ltb hi.0 lo.0 then refuses invalid_range else adds (set_add_range cs lo.0 hi.0) hi.1)
      else adds (set_add_range cs lo.0 lo.0) lo.1

  unfoldable pub add_item : ℕ → CharSet → Item
  add_item i cs = elim (class_end i) [
    | none ↦ add_chars i cs
    | some n ↦
        let name = take n (drop (i + 2) p) in
        if listed char_classes name
        then adds (add_class (ct.is_class name) 0x80 cs) (i + 2 + n + 2)
        else refuses invalid_class
  ]

  -- The loop, up to the closing bracket.
  unfoldable pub bracket_from : ℕ → Bool → ℕ → CharSet → Item
  bracket_from zero first i cs = refuses unmatched_bracket
  bracket_from (suc fuel) first i cs =
      let more : Item = elim (add_item i cs) [
        | adds cs' next ↦ bracket_from fuel false next cs'
        | refuses e ↦ refuses e
      ] in
      if leb (length p) i
      then refuses unmatched_bracket
      else if get_or p i 0 == 93 && not first
      then adds cs (i + 1)
      else more
