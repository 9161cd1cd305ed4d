-- ===== src/Utf8.antt =====
-- src/utf8.c: decoding and encoding of UTF-8, steps over characters, and the assembly of typed
-- bytes. A byte slice [s, s+len) is the list of its bytes. Masks and shifts by constants are
-- written as quotients and remainders: `(b & 0xE0) == 0xC0` is `b / 32 == 6`.
use xzile.Prelude.{
  ℕ, zero, suc, ◌+◌, ◌-◌, ◌*◌, ◌/◌, ◌%◌, ◌^◌, ◌≤◌, ◌<◌, min, max, ◌≡◌, refl, sym, ap, ap₂, ◌∙◌,
  fun_ext, ◌≢◌, ◌↔◌, ◌⊎◌, inl, inr, Bool, true, false, ◌&&◌, ◌||◌, not, Option, none, some, List,
  [], ◌∷◌, ◌++◌, map, append-nil, append_assoc, arith, ltb, leb, ◌==◌, if◌then◌else◌, ltb→lt,
  lt→ltb, leb→le, ==_iff, tests, Bool-cases, Option-cases, length, get_elem?, set, get_or, take,
  drop, replicate, length-append, length-set, length-take, length-drop, length-replicate,
  length-map, take-append-drop, ext_get, get-append, get-take, get-drop, get-replicate, get-ge,
  drop-nil, drop-drop, drop-cons_pos, drop-ge, take-ge, slices, lengths,
}
use Prim.Native.Nat.{bit_or}
pub mod Roundtrip
pub mod Exact
pub mod Steps
pub mod Pending
mod Tests

abbrev pub replacement : ℕ
replacement = 0xFFFD

-- `wcwidth` is the C library's: the columns of a code point, or none (-1).
unfoldable pub utf8_char_display_width : (ℕ → Option ℕ) → ℕ → ℕ
utf8_char_display_width wcwidth ch =
    if ltb ch 0x20 || ch == 0x7F
    then 2
    else if leb 0x80 ch && ltb ch 0xA0
    then 4
    else elim (wcwidth ch) [ none ↦ 1 | some w ↦ w ]

unfoldable pub utf8_seq_len : ℕ → ℕ
utf8_seq_len b =
    if ltb b 0x80
    then 1
    else if b / 32 == 6
    then 2
    else if b / 16 == 14
    then 3
    else if b / 8 == 30
    then 4
    else 0

-- The loop over the continuation bytes: `n` of them are still to come, at index `j`.
unfoldable pub gather : List ℕ → ℕ → ℕ → ℕ → Option ℕ
gather s zero j cp = some cp
gather s (suc n) j cp =
    let c = get_or s j 0 in if c / 64 == 2 then gather s n (j + 1) (cp * 64 + c % 64) else none

-- The smallest code point of each sequence length.
abbrev pub min_cp : ℕ → ℕ
min_cp n = get_or (0 ∷ 0 ∷ 0x80 ∷ 0x800 ∷ 0x10000 ∷ []) n 0

unfoldable pub refused : ℕ → ℕ → Bool
refused n cp = ltb cp (min_cp n) || ltb 0x10FFFF cp || (leb 0xD800 cp && leb cp 0xDFFF)

-- The code point and `*char_len`.
unfoldable pub utf8_decode : List ℕ → ℕ → ℕ × ℕ
utf8_decode s i =
    let b = get_or s i 0 in
    let n = utf8_seq_len b in
    if leb (length s) i
    then (0, 0)
    else if ltb b 0x80
    then (b, 1)
    else if n == 0 || ltb (length s) (i + n)
    then (replacement, 1)
    else elim (gather s (n - 1) (i + 1) (b % 2 ^ (7 - n))) [
      | none ↦ (replacement, 1)
      | some cp ↦ if refused n cp then (replacement, 1) else (cp, n)
    ]

unfoldable pub utf8_next_char : List ℕ → ℕ → ℕ
utf8_next_char s i =
    let next = i + (utf8_decode s i).1 in if leb next (length s) then next else length s

-- `while (p > 0 && (s[p] & 0xC0) == 0x80) p--;`
unfoldable pub back_up : List ℕ → ℕ → ℕ
back_up s zero = 0
back_up s (suc p) = if get_or s (suc p) 0 / 64 == 2 then back_up s p else suc p

unfoldable pub utf8_prev_char : List ℕ → ℕ → ℕ
unfolding back_up
utf8_prev_char s i =
    let p = back_up s (i - 1) in
    if i == 0
    then 0
    else if ltb 4 (i - p)
    then i - 1
    else if p + (utf8_decode s p).1 == i
    then p
    else i - 1

-- The bytes written to `out`. The lead byte of four is the only one whose sum could carry into the
-- tag bits, for a code point that is none, so that one keeps its `|` and its cast.
unfoldable pub utf8_encode : ℕ → List ℕ
utf8_encode cp =
    if ltb cp 0x80
    then cp ∷ []
    else if ltb cp 0x800
    then (0xC0 + cp / 2 ^ 6) ∷ (0x80 + cp % 64) ∷ []
    else if ltb cp 0x10000
    then (0xE0 + cp / 2 ^ 12) ∷ (0x80 + cp / 2 ^ 6 % 64) ∷ (0x80 + cp % 64) ∷ []
    else (bit_or 0xF0 (cp / 2 ^ 18) % 256)
      ∷ (0x80 + cp / 2 ^ 12 % 64)
      ∷ (0x80 + cp / 2 ^ 6 % 64)
      ∷ (0x80 + cp % 64)
      ∷ []

-- `Utf8Pending`: the first `n` bytes of a sequence of `need`, in order.
pub record Utf8Pending : Type 0 where
  pub bytes : List ℕ
  pub need : ℕ

abbrev pub nothing_pending : Utf8Pending
nothing_pending = record { bytes = []; need = 0 }

-- A byte with nothing pending: a whole character, or the first of a sequence.
unfoldable pub feed_first : Utf8Pending → ℕ → Utf8Pending × Option (List ℕ)
feed_first acc b =
    let need = utf8_seq_len b in
    if leb need 1 then (acc, some (b ∷ [])) else (record { bytes = b ∷ []; need = need }, none)

-- The new accumulator, and `out` where the result is true. `acc->n = 0` empties the bytes and
-- leaves `need`; the recursive call is then made with nothing pending.
unfoldable pub utf8_pending_feed : Utf8Pending → ℕ → Utf8Pending × Option (List ℕ)
unfolding feed_first
utf8_pending_feed acc b =
    let bytes = acc.bytes ++ b ∷ [] in
    let (cp, char_len) = utf8_decode bytes 0 in
    let empty = record acc { bytes = [] } in
    if length acc.bytes == 0
    then feed_first acc b
    else if not (b / 64 == 2)
    then feed_first empty b
    else if ltb (length bytes) acc.need
    then (record acc { bytes = bytes }, none)
    else if cp == replacement && not (char_len == length bytes)
    then (empty, none)
    else (empty, some bytes)
