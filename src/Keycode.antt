-- ===== src/Keycode.antt =====
-- Keys and their names in src/keycode.c. A key is a number; strings are lists of bytes without a
-- NUL. KBD_NOKEY is `none`. The codes of src/xzile.h have bit 8 set from KBD_TAB on; KBD_CTRL is
-- bit 9, KBD_META bit 10.
use xzile.Prelude.{
  ℕ, zero, suc, ◌+◌, ◌-◌, ◌*◌, ◌/◌, ◌%◌, ◌^◌, ◌≤◌, ◌<◌, min, max, ◌≡◌, refl, sym, ap, ap₂, ◌∙◌,
  fun_ext, ◌≢◌, ◌↔◌, ◌⊎◌, inl, inr, Bool, true, false, ◌&&◌, ◌||◌, not, Option, none, some, List,
  [], ◌∷◌, ◌++◌, map, append-nil, append_assoc, arith, ltb, leb, ◌==◌, if◌then◌else◌, ltb→lt,
  lt→ltb, leb→le, ==_iff, tests, Bool-cases, Option-cases, length, get_elem?, set, get_or, take,
  drop, replicate, length-append, length-set, length-take, length-drop, length-replicate,
  length-map, take-append-drop, ext_get, get-append, get-take, get-drop, get-replicate, get-ge,
  drop-nil, drop-drop, drop-cons_pos, drop-ge, take-ge, slices, lengths,
}
use Prim.Native.Nat.{bit_or}
use mathlib.Core.Option.{map as map_option}
use xzile.Completion.{starts_with}
pub mod Strings
pub mod Names
pub mod Ends
mod Tests

-- A row of the table: code, name, description.
pub record KeyInfo : Type 0 where
  pub code : ℕ
  pub name : List ℕ
  pub desc : Option (List ℕ)

abbrev pub kbd_ctrl : ℕ
kbd_ctrl = 0x200

abbrev pub kbd_meta : ℕ
kbd_meta = 0x400

abbrev key : ℕ → List ℕ → Option (List ℕ) → KeyInfo
key code name desc = record { code = code; name = name; desc = desc }

abbrev pub keyinfo : List KeyInfo
keyinfo =
    key 0x109 (92 ∷ 66 ∷ 65 ∷ 67 ∷ 75 ∷ 83 ∷ 80 ∷ 65 ∷ 67 ∷ 69 ∷ [])
      (some (60 ∷ 98 ∷ 97 ∷ 99 ∷ 107 ∷ 115 ∷ 112 ∷ 97 ∷ 99 ∷ 101 ∷ 62 ∷ []))
    ∷ key 0x200 (92 ∷ 67 ∷ 45 ∷ []) (some (67 ∷ 45 ∷ []))
    ∷ key 0x108 (92 ∷ 68 ∷ 69 ∷ 76 ∷ 69 ∷ 84 ∷ 69 ∷ [])
        (some (60 ∷ 100 ∷ 101 ∷ 108 ∷ 101 ∷ 116 ∷ 101 ∷ 62 ∷ []))
    ∷ key 0x10e (92 ∷ 68 ∷ 79 ∷ 87 ∷ 78 ∷ []) (some (60 ∷ 100 ∷ 111 ∷ 119 ∷ 110 ∷ 62 ∷ []))
    ∷ key 0x11f (92 ∷ 68 ∷ 82 ∷ 65 ∷ 71 ∷ 77 ∷ 79 ∷ 85 ∷ 83 ∷ 69 ∷ 49 ∷ [])
        (some (60 ∷ 100 ∷ 114 ∷ 97 ∷ 103 ∷ 45 ∷ 109 ∷ 111 ∷ 117 ∷ 115 ∷ 101 ∷ 45 ∷ 49 ∷ 62 ∷ []))
    ∷ key 0x127 (92 ∷ 68 ∷ 82 ∷ 65 ∷ 71 ∷ 77 ∷ 79 ∷ 85 ∷ 83 ∷ 69 ∷ 50 ∷ [])
        (some (60 ∷ 100 ∷ 114 ∷ 97 ∷ 103 ∷ 45 ∷ 109 ∷ 111 ∷ 117 ∷ 115 ∷ 101 ∷ 45 ∷ 50 ∷ 62 ∷ []))
    ∷ key 0x128 (92 ∷ 68 ∷ 82 ∷ 65 ∷ 71 ∷ 77 ∷ 79 ∷ 85 ∷ 83 ∷ 69 ∷ 51 ∷ [])
        (some (60 ∷ 100 ∷ 114 ∷ 97 ∷ 103 ∷ 45 ∷ 109 ∷ 111 ∷ 117 ∷ 115 ∷ 101 ∷ 45 ∷ 51 ∷ 62 ∷ []))
    ∷ key 0x1b (92 ∷ 101 ∷ []) (some (69 ∷ 83 ∷ 67 ∷ []))
    ∷ key 0x11d (92 ∷ 69 ∷ 83 ∷ 67 ∷ []) (some (60 ∷ 101 ∷ 115 ∷ 99 ∷ 97 ∷ 112 ∷ 101 ∷ 62 ∷ []))
    ∷ key 0x107 (92 ∷ 69 ∷ 78 ∷ 68 ∷ []) (some (60 ∷ 101 ∷ 110 ∷ 100 ∷ 62 ∷ []))
    ∷ key 0x110 (92 ∷ 70 ∷ 49 ∷ []) (some (60 ∷ 102 ∷ 49 ∷ 62 ∷ []))
    ∷ key 0x119 (92 ∷ 70 ∷ 49 ∷ 48 ∷ []) (some (60 ∷ 102 ∷ 49 ∷ 48 ∷ 62 ∷ []))
    ∷ key 0x11a (92 ∷ 70 ∷ 49 ∷ 49 ∷ []) (some (60 ∷ 102 ∷ 49 ∷ 49 ∷ 62 ∷ []))
    ∷ key 0x11b (92 ∷ 70 ∷ 49 ∷ 50 ∷ []) (some (60 ∷ 102 ∷ 49 ∷ 50 ∷ 62 ∷ []))
    ∷ key 0x111 (92 ∷ 70 ∷ 50 ∷ []) (some (60 ∷ 102 ∷ 50 ∷ 62 ∷ []))
    ∷ key 0x112 (92 ∷ 70 ∷ 51 ∷ []) (some (60 ∷ 102 ∷ 51 ∷ 62 ∷ []))
    ∷ key 0x113 (92 ∷ 70 ∷ 52 ∷ []) (some (60 ∷ 102 ∷ 52 ∷ 62 ∷ []))
    ∷ key 0x114 (92 ∷ 70 ∷ 53 ∷ []) (some (60 ∷ 102 ∷ 53 ∷ 62 ∷ []))
    ∷ key 0x115 (92 ∷ 70 ∷ 54 ∷ []) (some (60 ∷ 102 ∷ 54 ∷ 62 ∷ []))
    ∷ key 0x116 (92 ∷ 70 ∷ 55 ∷ []) (some (60 ∷ 102 ∷ 55 ∷ 62 ∷ []))
    ∷ key 0x117 (92 ∷ 70 ∷ 56 ∷ []) (some (60 ∷ 102 ∷ 56 ∷ 62 ∷ []))
    ∷ key 0x118 (92 ∷ 70 ∷ 57 ∷ []) (some (60 ∷ 102 ∷ 57 ∷ 62 ∷ []))
    ∷ key 0x106 (92 ∷ 72 ∷ 79 ∷ 77 ∷ 69 ∷ []) (some (60 ∷ 104 ∷ 111 ∷ 109 ∷ 101 ∷ 62 ∷ []))
    ∷ key 0x10a (92 ∷ 73 ∷ 78 ∷ 83 ∷ 69 ∷ 82 ∷ 84 ∷ [])
        (some (60 ∷ 105 ∷ 110 ∷ 115 ∷ 101 ∷ 114 ∷ 116 ∷ 62 ∷ []))
    ∷ key 0x10b (92 ∷ 76 ∷ 69 ∷ 70 ∷ 84 ∷ []) (some (60 ∷ 108 ∷ 101 ∷ 102 ∷ 116 ∷ 62 ∷ []))
    ∷ key 0x400 (92 ∷ 77 ∷ 45 ∷ []) (some (77 ∷ 45 ∷ []))
    ∷ key 0x11e (92 ∷ 77 ∷ 79 ∷ 85 ∷ 83 ∷ 69 ∷ 49 ∷ [])
        (some (60 ∷ 109 ∷ 111 ∷ 117 ∷ 115 ∷ 101 ∷ 45 ∷ 49 ∷ 62 ∷ []))
    ∷ key 0x122 (92 ∷ 77 ∷ 79 ∷ 85 ∷ 83 ∷ 69 ∷ 50 ∷ [])
        (some (60 ∷ 109 ∷ 111 ∷ 117 ∷ 115 ∷ 101 ∷ 45 ∷ 50 ∷ 62 ∷ []))
    ∷ key 0x123 (92 ∷ 77 ∷ 79 ∷ 85 ∷ 83 ∷ 69 ∷ 51 ∷ [])
        (some (60 ∷ 109 ∷ 111 ∷ 117 ∷ 115 ∷ 101 ∷ 45 ∷ 51 ∷ 62 ∷ []))
    ∷ key 0x105 (92 ∷ 78 ∷ 69 ∷ 88 ∷ 84 ∷ []) (some (60 ∷ 110 ∷ 101 ∷ 120 ∷ 116 ∷ 62 ∷ []))
    ∷ key 0x105 (92 ∷ 80 ∷ 65 ∷ 71 ∷ 69 ∷ 68 ∷ 79 ∷ 87 ∷ 78 ∷ [])
        (some (60 ∷ 112 ∷ 97 ∷ 103 ∷ 101 ∷ 100 ∷ 111 ∷ 119 ∷ 110 ∷ 62 ∷ []))
    ∷ key 0x104 (92 ∷ 80 ∷ 65 ∷ 71 ∷ 69 ∷ 85 ∷ 80 ∷ [])
        (some (60 ∷ 112 ∷ 97 ∷ 103 ∷ 101 ∷ 117 ∷ 112 ∷ 62 ∷ []))
    ∷ key 0x104 (92 ∷ 80 ∷ 82 ∷ 73 ∷ 79 ∷ 82 ∷ [])
        (some (60 ∷ 112 ∷ 114 ∷ 105 ∷ 111 ∷ 114 ∷ 62 ∷ []))
    ∷ key 0x103 (92 ∷ 82 ∷ 69 ∷ 84 ∷ []) (some (60 ∷ 82 ∷ 69 ∷ 84 ∷ 62 ∷ []))
    ∷ key 0x103 (92 ∷ 114 ∷ []) none
    ∷ key 0x10c (92 ∷ 82 ∷ 73 ∷ 71 ∷ 72 ∷ 84 ∷ [])
        (some (60 ∷ 114 ∷ 105 ∷ 103 ∷ 104 ∷ 116 ∷ 62 ∷ []))
    ∷ key 0x20 (92 ∷ 83 ∷ 80 ∷ 67 ∷ []) (some (83 ∷ 80 ∷ 67 ∷ []))
    ∷ key 0x102 (92 ∷ 84 ∷ 65 ∷ 66 ∷ []) (some (60 ∷ 84 ∷ 65 ∷ 66 ∷ 62 ∷ []))
    ∷ key 0x102 (92 ∷ 116 ∷ []) none
    ∷ key 0x10d (92 ∷ 85 ∷ 80 ∷ []) (some (60 ∷ 117 ∷ 112 ∷ 62 ∷ []))
    ∷ key 0x124 (92 ∷ 85 ∷ 80 ∷ 77 ∷ 79 ∷ 85 ∷ 83 ∷ 69 ∷ 49 ∷ [])
        (some (60 ∷ 117 ∷ 112 ∷ 45 ∷ 109 ∷ 111 ∷ 117 ∷ 115 ∷ 101 ∷ 45 ∷ 49 ∷ 62 ∷ []))
    ∷ key 0x125 (92 ∷ 85 ∷ 80 ∷ 77 ∷ 79 ∷ 85 ∷ 83 ∷ 69 ∷ 50 ∷ [])
        (some (60 ∷ 117 ∷ 112 ∷ 45 ∷ 109 ∷ 111 ∷ 117 ∷ 115 ∷ 101 ∷ 45 ∷ 50 ∷ 62 ∷ []))
    ∷ key 0x126 (92 ∷ 85 ∷ 80 ∷ 77 ∷ 79 ∷ 85 ∷ 83 ∷ 69 ∷ 51 ∷ [])
        (some (60 ∷ 117 ∷ 112 ∷ 45 ∷ 109 ∷ 111 ∷ 117 ∷ 115 ∷ 101 ∷ 45 ∷ 51 ∷ 62 ∷ []))
    ∷ key 0x121 (92 ∷ 87 ∷ 72 ∷ 69 ∷ 69 ∷ 76 ∷ 68 ∷ 79 ∷ 87 ∷ 78 ∷ [])
        (some (60 ∷ 119 ∷ 104 ∷ 101 ∷ 101 ∷ 108 ∷ 45 ∷ 100 ∷ 111 ∷ 119 ∷ 110 ∷ 62 ∷ []))
    ∷ key 0x120 (92 ∷ 87 ∷ 72 ∷ 69 ∷ 69 ∷ 76 ∷ 85 ∷ 80 ∷ [])
        (some (60 ∷ 119 ∷ 104 ∷ 101 ∷ 101 ∷ 108 ∷ 45 ∷ 117 ∷ 112 ∷ 62 ∷ []))
    ∷ key 0x5c (92 ∷ 92 ∷ []) (some (92 ∷ []))
    ∷ []

-- The loop of `strtokey` over the table: the code of the longest name so far, and its length.
unfoldable pub find_best : List KeyInfo → List ℕ → Option ℕ → ℕ → Option ℕ × ℕ
find_best [] buf best best_len = (best, best_len)
find_best (k ∷ ks) buf best best_len =
    elim (ltb best_len (length k.name) && starts_with buf k.name) [
      | true ↦ find_best ks buf (some k.code) (length k.name)
      | false ↦ find_best ks buf best best_len
    ]

-- The key, and `*len`.
unfoldable pub strtokey : List ℕ → Option ℕ × ℕ
strtokey buf =
    if get_or buf 0 0 == 92 then find_best keyinfo buf none 0 else (some (get_or buf 0 0), 1)

-- The loop of `strtochord`, from `*len` on. Each round but the last takes a byte at least.
unfoldable pub chord_from : ℕ → List ℕ → ℕ → ℕ → Option ℕ × ℕ
chord_from zero buf len key = (none, 0)
chord_from (suc fuel) buf len key =
    let (code, l) = strtokey (drop len buf) in
    elim code [
      | none ↦ (none, 0)
      | some k ↦ elim ((k == kbd_ctrl || k == kbd_meta) && ltb (len + l) (length buf)) [
        | true ↦ chord_from fuel buf (len + l) (bit_or key k)
        | false ↦ (some (bit_or key k), len + l)
      ]
    ]

unfoldable pub strtochord : List ℕ → Option ℕ × ℕ
strtochord buf = chord_from (length buf + 1) buf 0 0

-- The loop of `keystrtovec` over what is left of the string. Each round takes a byte at least.
unfoldable pub keys_from : ℕ → List ℕ → Option (List ℕ)
keys_from fuel [] = some []
keys_from zero (c ∷ rest) = none
keys_from (suc fuel) (c ∷ rest) =
    let (code, len) = strtochord (c ∷ rest) in
    elim code [
      | none ↦ none
      | some k ↦
          if len == 0
          then none
          else map_option (λ ks. k ∷ ks) (keys_from fuel (drop len (c ∷ rest)))
    ]

-- A null pointer for the string is `none`.
unfoldable pub keystrtovec : Option (List ℕ) → Option (List ℕ)
keystrtovec none = none
keystrtovec (some key) = keys_from (length key) key

-- The first description of a code in the table.
unfoldable pub find_desc : List KeyInfo → ℕ → Option (List ℕ)
find_desc [] key = none
find_desc (k ∷ ks) key = elim (k.code == key) [
  | true ↦ elim k.desc [ some d ↦ some d | none ↦ find_desc ks key ]
  | false ↦ find_desc ks key
]

-- "%x"
unfoldable pub hex : ℕ → ℕ → List ℕ
hex zero n = []
hex (suc fuel) n =
    let digit = if ltb (n % 16) 10 then 48 + n % 16 else 87 + n % 16 in
    elim (ltb n 16) [ true ↦ digit ∷ [] | false ↦ hex fuel (n / 16) ++ digit ∷ [] ]

module _ (isgraph : ℕ → Bool) where
  unfoldable pub keytodesc : ℕ → List ℕ
  keytodesc key = elim (find_desc keyinfo key) [
    | some d ↦ d
    | none ↦ if leb key 0xFF && isgraph key then key ∷ [] else 60 ∷ (hex 8 key ++ 62 ∷ [])
  ]

  unfoldable pub chordtodesc : ℕ → List ℕ
  chordtodesc key =
      (if key / kbd_ctrl % 2 == 1 then 67 ∷ 45 ∷ [] else [])
      ++ ((if key / kbd_meta % 2 == 1 then 77 ∷ 45 ∷ [] else [])
          ++ keytodesc (key % kbd_ctrl + key / 2048 * 2048))

  unfoldable pub descs_after : List ℕ → List ℕ
  descs_after [] = []
  descs_after (k ∷ keys) = 32 ∷ (chordtodesc k ++ descs_after keys)

  unfoldable pub keyvectodesc : List ℕ → List ℕ
  keyvectodesc [] = []
  keyvectodesc (k ∷ keys) = chordtodesc k ++ descs_after keys
