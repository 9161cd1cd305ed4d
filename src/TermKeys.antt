-- ===== src/TermKeys.antt =====
-- Keys from a terminal, in src/term.c: codes and keys, the keys pushed back, and pasted text. The
-- codes that `read_code` will return are the list `tty`; CODE_NONE and KBD_NOKEY are `none`.
use xzile.Prelude.{
  ℕ, zero, suc, ◌+◌, ◌-◌, ◌*◌, ◌/◌, ◌%◌, ◌^◌, ◌≤◌, ◌<◌, min, max, ◌≡◌, refl, sym, ap, ap₂, ◌∙◌,
  fun_ext, ◌≢◌, ◌↔◌, ◌⊎◌, inl, inr, Bool, true, false, ◌&&◌, ◌||◌, not, Option, none, some, List,
  [], ◌∷◌, ◌++◌, map, append-nil, append_assoc, arith, ltb, leb, ◌==◌, if◌then◌else◌, ltb→lt,
  lt→ltb, leb→le, ==_iff, tests, Bool-cases, Option-cases, length, get_elem?, set, get_or, take,
  drop, replicate, length-append, length-set, length-take, length-drop, length-replicate,
  length-map, take-append-drop, ext_get, get-append, get-take, get-drop, get-replicate, get-ge,
  drop-nil, drop-drop, drop-cons_pos, drop-ge, take-ge, slices, lengths,
}
use Prim.Native.Nat.{bit_or}
use mathlib.Core.Option.{map as map_option}
use xzile.Completion.{starts_with}
pub mod Codes
pub mod Paste
mod Tests

-- `key_buf` with the last key pushed first.
pub record TermKeys : Type 0 where
  pub key_buf : List ℕ
  pub tty : List ℕ

abbrev pub code_up : ℕ
code_up = 0x10000

abbrev pub code_paste : ℕ
code_paste = 0x10016

abbrev pub code_mouse : ℕ
code_mouse = 0x10019

abbrev pub kbd_mouse_1 : ℕ
kbd_mouse_1 = 0x11E

abbrev pub kbd_meta : ℕ
kbd_meta = 0x400

-- The keys of CODE_UP to CODE_F12, in order.
abbrev pub special_keys : List ℕ
special_keys =
    0x10d ∷ 0x10e ∷ 0x10b ∷ 0x10c ∷ 0x106 ∷ 0x107 ∷ 0x104 ∷ 0x105 ∷ 0x10a ∷ 0x108 ∷ 0x110 ∷ 0x111
    ∷ 0x112 ∷ 0x113 ∷ 0x114 ∷ 0x115 ∷ 0x116 ∷ 0x117 ∷ 0x118 ∷ 0x119 ∷ 0x11a ∷ 0x11b ∷ []

-- `c & ~CODE_MODS`
abbrev pub without_mods : ℕ → ℕ
without_mods c = c % 0x100000 + c / 0x400000 * 0x400000

unfoldable pub mods_of : ℕ → ℕ
mods_of c =
    bit_or (if c / 0x100000 % 2 == 1 then 0x200 else 0) (if c / 0x200000 % 2 == 1 then 0x400 else 0)

-- The switch over the codes from CODE_UP on.
unfoldable pub special_key : ℕ → Option ℕ
special_key c =
    let base = without_mods c in
    if ltb base code_up
    then none
    else map_option (λ key. bit_or key (mods_of c)) (get_elem? special_keys (base - code_up))

-- The switch over the others.
unfoldable pub char_key : ℕ → ℕ
char_key c =
    if c == 0
    then 0x240
    else if c == 9
    then 0x102
    else if c == 13
    then 0x103
    else if c == 27
    then 0x400
    else if leb 28 c && leb c 31
    then 0x200 + get_or (92 ∷ 93 ∷ 94 ∷ 95 ∷ []) (c - 28) 0
    else if c == 127
    then 0x109
    else if leb 1 c && leb c 26
    then 0x200 + (97 + c - 1)
    else c

unfoldable pub codetokey : Option ℕ → Option ℕ
codetokey none = none
codetokey (some c) =
    if leb code_mouse c && leb c (code_mouse + 10)
    then some (kbd_mouse_1 + (c - code_mouse))
    else if leb code_up c
    then special_key c
    else some (char_key c)

-- Where a key stands in a list of keys.
unfoldable pub index_of : List ℕ → ℕ → Option ℕ
index_of [] key = none
index_of (k ∷ ks) key = if k == key then some 0 else map_option suc (index_of ks key)

unfoldable pub special_code : ℕ → Option ℕ
special_code key = map_option (λ i. code_up + i) (index_of special_keys key)

-- The switch of `keytocodes`.
unfoldable pub char_codes : ℕ → List ℕ
char_codes key =
    if key == 0x240
    then 0 ∷ []
    else if key == 0x102
    then 9 ∷ []
    else if key == 0x103
    then 13 ∷ []
    else if key == 0x25C
    then 28 ∷ []
    else if key == 0x25D
    then 29 ∷ []
    else if key == 0x25E
    then 30 ∷ []
    else if key == 0x25F
    then 31 ∷ []
    else if key == 0x109
    then 127 ∷ []
    else if key / 0x200 % 2 == 1
        && leb 97 (key % 0x100)
        && leb (key % 0x100) 122
        && leb (key % 0x200 + key / 0x400 * 0x400) 0xFF
    then (key % 0x100 + 1 - 97) ∷ []
    else if key % 0x100 == key
    then key ∷ []
    else []

-- A key without KBD_META.
unfoldable pub plain_codes : ℕ → List ℕ
plain_codes key = elim (special_code (key % 0x200 + key / 0x400 * 0x400)) [
  | some c ↦ bit_or c (if key / 0x200 % 2 == 1 then 0x100000 else 0) ∷ []
  | none ↦ char_codes key
]

unfoldable pub keytocodes : Option ℕ → List ℕ
keytocodes none = []
keytocodes (some key) =
    if leb kbd_mouse_1 key && leb key 0x128
    then (code_mouse + (key - kbd_mouse_1)) ∷ []
    else (if key / 0x400 % 2 == 1 then 27 ∷ [] else [])
      ++ plain_codes (key % 0x400 + key / 0x800 * 0x800)

unfoldable pub term_ungetkey : TermKeys → Option ℕ → TermKeys
term_ungetkey t key = record t { key_buf = keytocodes key ++ t.key_buf }

-- The loop of `get_char` over the codes of the terminal: CODE_IGNORE and CODE_RESIZE are skipped.
unfoldable pub next_code : List ℕ → Option ℕ × List ℕ
next_code [] = (none, [])
next_code (c ∷ cs) =
    let rest = next_code cs in if c == 0x10017 || c == 0x10018 then rest else (some c, cs)

unfoldable pub get_char : TermKeys → Option ℕ × TermKeys
get_char t = elim t.key_buf [
  | c ∷ cs ↦ (some c, record t { key_buf = cs })
  | [] ↦ let (c, cs) = next_code t.tty in (c, record t { tty = cs })
]

-- `key | KBD_META`; KBD_NOKEY has all bits already.
abbrev pub with_meta : Option ℕ → Option ℕ
with_meta key = map_option (λ k. bit_or k kbd_meta) key

-- The loop of `term_getkey` after ESC. Each round takes a code, or finds that there is none.
unfoldable pub meta_key : ℕ → TermKeys → Option ℕ × TermKeys
meta_key zero t = (none, t)
meta_key (suc fuel) t =
    let (c, t') = get_char t in
    elim (codetokey c) [
      | none ↦ (none, t')
      | some key ↦ elim (key == kbd_meta) [
        | true ↦ meta_key fuel t'
        | false ↦ (with_meta (some key), t')
      ]
    ]

-- Whether ESC stands for itself hangs on the window and the time: `alone`. The text after
-- CODE_PASTE is read by `read_bracketed_paste_payload`, of which there is more below.
unfoldable pub term_getkey : Bool → TermKeys → Option ℕ × TermKeys
term_getkey alone t =
    let from_tty = length t.key_buf == 0 in
    let (c, t') = get_char t in
    let fuel = length t'.key_buf + length t'.tty + 1 in
    elim c [
      | none ↦ (codetokey none, t')
      | some code ↦
          if code == code_paste
          then (some 0x11C, t')
          else if code == 27
          then (if from_tty && alone then (some 0x11D, t') else meta_key fuel t')
          else (codetokey (some code), t')
    ]

-- "\033[201~"
abbrev pub paste_end : List ℕ
paste_end = 27 ∷ 91 ∷ 50 ∷ 48 ∷ 49 ∷ 126 ∷ []

-- The loop of `read_bracketed_paste_payload` over the bytes of the terminal, with the text so far,
-- and the bytes it leaves. It ends early where they run out (CODE_NONE).
unfoldable pub payload : ℕ → List ℕ → List ℕ → List ℕ × List ℕ
payload matched text [] = (text, [])
payload matched text (c ∷ rest) = elim (c == get_or paste_end matched 0) [
  | true ↦ elim (matched + 1 == 6) [ true ↦ (text, rest) | false ↦ payload (matched + 1) text rest ]
  | false ↦ elim (c == 27) [
    | true ↦ payload 1 (text ++ take matched paste_end) rest
    | false ↦ payload 0 ((text ++ take matched paste_end) ++ c ∷ []) rest
  ]
]

unfoldable pub read_bracketed_paste_payload : List ℕ → List ℕ × List ℕ
read_bracketed_paste_payload bytes = payload 0 [] bytes
