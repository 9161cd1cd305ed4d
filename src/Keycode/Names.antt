-- ===== src/Keycode/Names.antt =====
-- The names of the table of src/keycode.c, read by its `strtokey`.
use xzile.Prelude.{
  ℕ, zero, suc, ◌<◌, ◌≡◌, refl, Bool, true, false, ◌&&◌, Option, none, some, List, [], ◌∷◌, arith,
  ◌==◌, length,
}
use xzile.Completion.{starts_with}
use xzile.Keycode.{KeyInfo, keyinfo, find_best, strtokey}
use xzile.Keycode.Strings.{row}

is_key : Option ℕ × ℕ → KeyInfo → Bool
is_key (none, n) k = false
is_key (some c, n) k = c == k.code && n == length k.name

is_key-eq : (r : Option ℕ × ℕ) (k : KeyInfo) → is_key r k ≡ true → r ≡ (some k.code, length k.name)
unfolding is_key
is_key-eq (none, n) k e = absurd (ground (arith, e))
is_key-eq (some c, n) k e =
    let same_code : c ≡ k.code = ground (arith, e) in
    let same_len : n ≡ length k.name = ground (arith, e) in rw (same_code, same_len) refl

all_read : List KeyInfo → Bool
all_read [] = true
all_read (k ∷ ks) = is_key (strtokey k.name) k && all_read ks

all_read-row :
    (ks : List KeyInfo) (i : ℕ)
    → all_read ks ≡ true
    → i < length ks
    → is_key (strtokey (row ks i).name) (row ks i) ≡ true
unfolding all_read
all_read-row [] i e h = absurd (omega (arith, h))
all_read-row (k ∷ ks) zero e h = ground (arith, e)
all_read-row (k ∷ ks) (suc i) e h = all_read-row ks i (ground (arith, e)) (omega (arith, h))

all_read-keyinfo : all_read keyinfo ≡ true
unfolding all_read is_key strtokey find_best starts_with
all_read-keyinfo = refl

-- Each name of the table is read as its row's code, in full, also where another name starts it.
pub strtokey-keyinfo :
    (i : ℕ)
    → i < length keyinfo
    → strtokey (row keyinfo i).name ≡ (some (row keyinfo i).code, length (row keyinfo i).name)
strtokey-keyinfo i h = is_key-eq _ (row keyinfo i) (all_read-row keyinfo i all_read-keyinfo h)
