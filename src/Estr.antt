-- ===== src/Estr.antt =====
-- src/estr.c: strings with an encoding of line ends, and views of them.
-- The C strings `eol_lf`, `eol_crlf` and `eol_cr`, which the program compares as pointers, are the
-- constructors of `Eol`. A view is its bytes; an `Estr` is the bytes up to `len`, whose number is
-- `len`, with the size of its block.
pub mod Lines
pub mod Edit
pub mod Convert
pub mod Cat
pub mod Detect
mod Tests
use xzile.Prelude.{
  ℕ, zero, suc, ◌+◌, ◌-◌, ◌*◌, ◌/◌, ◌%◌, ◌^◌, ◌≤◌, ◌<◌, min, max, ◌≡◌, refl, sym, ap, ap₂, ◌∙◌,
  fun_ext, ◌≢◌, ◌↔◌, ◌⊎◌, inl, inr, Bool, true, false, ◌&&◌, ◌||◌, not, Option, none, some, List,
  [], ◌∷◌, ◌++◌, map, append-nil, append_assoc, arith, ltb, leb, ◌==◌, if◌then◌else◌, ltb→lt,
  lt→ltb, leb→le, ==_iff, tests, Bool-cases, Option-cases, length, get_elem?, set, get_or, take,
  drop, replicate, length-append, length-set, length-take, length-drop, length-replicate,
  length-map, take-append-drop, ext_get, get-append, get-take, get-drop, get-replicate, get-ge,
  slices, lengths,
}
use xzile.Bytes.{overwrite, memset, memrmem, xmemmem, is_prefix}

pub data Eol : Type 0 where
  lf crlf cr : Eol

abbrev pub eol_bytes : Eol → List ℕ
eol_bytes lf = 10 ∷ []
eol_bytes crlf = 13 ∷ 10 ∷ []
eol_bytes cr = 13 ∷ []

-- `this_eol_type == es->eol`
abbrev pub same_eol : Eol → Eol → Bool
same_eol lf lf = true
same_eol crlf crlf = true
same_eol cr cr = true
same_eol _ _ = false

-- strlen (eol)
abbrev pub eol_len : Eol → ℕ
eol_len e = length (eol_bytes e)

pub record EstrView : Type 0 where
  pub text : List ℕ
  pub eol : Eol

abbrev pub view : List ℕ → Eol → EstrView
view t e = record { text = t; eol = e }

abbrev pub ev_empty : EstrView
ev_empty = view [] lf

abbrev pub ev_substring : EstrView → ℕ → ℕ → EstrView
ev_substring ev pos n = view (take n (drop pos ev.text)) ev.eol

unfoldable pub ev_start_of_line : EstrView → ℕ → ℕ
ev_start_of_line ev o = elim (memrmem (take o ev.text) (eol_bytes ev.eol)) [
  | none ↦ 0
  | some prev ↦ prev + eol_len ev.eol
]

unfoldable pub ev_end_of_line : EstrView → ℕ → ℕ
ev_end_of_line ev o = elim (xmemmem (drop o ev.text) (eol_bytes ev.eol)) [
  | none ↦ length ev.text
  | some next ↦ o + next
]

-- `none` is NOPOS.
unfoldable pub ev_prev_line : EstrView → ℕ → Option ℕ
ev_prev_line ev o =
    let so = ev_start_of_line ev o in
    if so == 0 then none else some (ev_start_of_line ev (so - eol_len ev.eol))

unfoldable pub ev_next_line : EstrView → ℕ → Option ℕ
ev_next_line ev o =
    let eo = ev_end_of_line ev o in
    if eo == length ev.text then none else some (eo + eol_len ev.eol)

-- The loop of `ev_lines` over what is left of the text. Each round takes a line end, so the length
-- of the text is fuel enough.
pub count_lines : ℕ → Eol → List ℕ → ℕ → ℕ
count_lines zero e s lines = lines
count_lines (suc fuel) e s lines = elim (xmemmem s (eol_bytes e)) [
  | none ↦ lines
  | some next ↦ count_lines fuel e (drop (next + eol_len e) s) (lines + 1)
]

unfoldable pub ev_lines : EstrView → ℕ
unfolding count_lines
ev_lines ev = count_lines (length ev.text + 1) ev.eol ev.text 0

abbrev pub size_mod : ℕ
size_mod = 2 ^ 64

-- `size_t` arithmetic: the difference of the two lengths wraps, and so does the sum.
unfoldable pub ev_len_with_eol : EstrView → Eol → ℕ
ev_len_with_eol ev e =
    (length ev.text + ev_lines ev * ((size_mod + eol_len e - eol_len ev.eol) % size_mod)) % size_mod

pub record Estr : Type 0 where
  pub text : List ℕ
  pub buf_size : ℕ
  pub eol : Eol

abbrev pub estr_view : Estr → EstrView
estr_view es = view es.text es.eol

abbrev pub chunk_size : ℕ
chunk_size = 16

abbrev pub estr_new : Eol → Estr
estr_new e = record { text = []; buf_size = chunk_size; eol = e }

-- The bytes that a longer string gains are unspecified until they are written; here they are 0,
-- and the only caller that lengthens a string, `estr_insert`, writes all of them.
unfoldable pub estr_resize : Estr → ℕ → Estr
estr_resize es n = record es {
  text = take n es.text ++ replicate (n - length es.text) 0;
  buf_size = if ltb es.buf_size n || ltb n (es.buf_size / 2) then n + chunk_size else es.buf_size;
}

-- A failed assertion aborts the program: `none`.
infixl 5 ◌>>=◌ ◌>>◌
abbrev pub ◌>>=◌ {ℓ κ} : {A : Type ℓ} {B : Type κ} → Option A → (A → Option B) → Option B
none >>= f = none
some a >>= f = f a

abbrev pub ◌>>◌ {ℓ} : {B : Type ℓ} → Option (Unit {0}) → Option B → Option B
m >> k = m >>= λ _. k

abbrev pub assert : Bool → Option (Unit {0})
assert true = some tt
assert false = none

unfoldable pub estr_insert : Estr → ℕ → ℕ → Option Estr
estr_insert es pos size = do
  assert (leb pos (length es.text))
  assert (leb (max pos size) ((pos + size) % size_mod))
  let es' = estr_resize es (length es.text + size)
  let moved = overwrite (pos + size) (take (length es.text - pos) (drop pos es'.text)) es'.text
  some (record es' { text = memset pos 0 size moved })

unfoldable pub estr_remove : Estr → ℕ → ℕ → Option Estr
estr_remove es pos size = do
  assert (leb pos (length es.text))
  assert (leb size (length es.text - pos))
  let moved = overwrite pos (drop (pos + size) es.text) es.text
  some (estr_resize (record es { text = moved }) (length es.text - size))

unfoldable pub estr_move : Estr → ℕ → ℕ → ℕ → Option Estr
estr_move es to from n = do
  assert (leb to (length es.text))
  assert (leb from (length es.text))
  assert (leb n (length es.text - max from to))
  some (record es { text = overwrite to (take n (drop from es.text)) es.text })

unfoldable pub estr_set : Estr → ℕ → ℕ → ℕ → Option Estr
estr_set es pos c n = do
  assert (leb pos (length es.text))
  assert (leb n (length es.text - pos))
  some (record es { text = memset pos c n es.text })

-- The loop of `estr_replace`: the lines of `s` are written from `pos` on, each line end of the
-- source as one of the target. A round takes at least a line end.
pub replace_lines : ℕ → Eol → Eol → ℕ → List ℕ → List ℕ → List ℕ
replace_lines zero from to pos s t = t
replace_lines (suc fuel) from to pos [] t = t
replace_lines (suc fuel) from to pos (c ∷ s) t = elim (xmemmem (c ∷ s) (eol_bytes from)) [
  | none ↦ overwrite pos (c ∷ s) t
  | some n ↦
      replace_lines fuel from to (pos + n + eol_len to) (drop (n + eol_len from) (c ∷ s))
        (overwrite (pos + n) (eol_bytes to) (overwrite pos (take n (c ∷ s)) t))
]

unfoldable pub estr_replace : Estr → ℕ → EstrView → Estr
unfolding replace_lines
estr_replace es pos src = record es {
  text = replace_lines (length src.text + 1) src.eol es.eol pos src.text es.text;
}

unfoldable pub estr_cat : Estr → EstrView → Option Estr
estr_cat es src = do
  let oldlen = length es.text
  es' ← estr_insert es oldlen (ev_len_with_eol src es.eol)
  some (estr_replace es' oldlen src)

-- The line end that begins with byte `c`, before the bytes `s`.
pub line_end : ℕ → List ℕ → Option Eol
line_end c [] = if c == 10 then some lf else if c == 13 then some cr else none
line_end c (d ∷ s) =
    if c == 10 then some lf else if c == 13 then (if d == 10 then some crlf else some cr) else none

-- MAX_EOL_CHECK_COUNT
abbrev pub max_eol_check_count : ℕ
max_eol_check_count = 3

-- The loop of `estr_set_eol_from_text` over the bytes left: `total` line ends were seen, `first`
-- holds until one was, and `e` is `es->eol` so far. Each round takes a byte.
pub detect : ℕ → List ℕ → ℕ → Bool → Eol → Eol
detect zero s total first e = e
detect (suc fuel) [] total first e = e
detect (suc fuel) (c ∷ s) total first e = elim (ltb total max_eol_check_count) [
  | false ↦ e
  | true ↦ elim (line_end c s) [
    | none ↦ detect fuel s total first e
    | some this ↦ elim first [
      | true ↦ detect fuel (drop (eol_len this - 1) s) (total + 1) false this
      | false ↦ elim (same_eol e this) [
        | true ↦ detect fuel (drop (eol_len this - 1) s) (total + 1) false e
        | false ↦ lf
      ]
    ]
  ]
]

unfoldable pub estr_set_eol_from_text : Estr → Estr
unfolding detect line_end
estr_set_eol_from_text es = record es { eol = detect (length es.text) es.text 0 true lf }

-- `s` and `len` are what `read_file` gave.
unfoldable pub estr_from_file : Option (List ℕ) → Option Estr
unfolding estr_set_eol_from_text
estr_from_file none = none
estr_from_file (some s) =
    some (estr_set_eol_from_text (record { text = s; buf_size = length s; eol = lf }))
