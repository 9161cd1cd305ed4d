-- ===== src/Keycode/Ends.antt =====
-- The readers of src/keycode.c always end: each key takes a byte of the string at least.
use xzile.Prelude.{
  ℕ, zero, suc, ◌+◌, ◌≤◌, ◌<◌, ◌≡◌, refl, ap, ◌⊎◌, inl, inr, true, ◌&&◌, ◌||◌, Option, none, some,
  List, [], ◌∷◌, arith, ltb, ◌==◌, Bool-cases, Option-cases, length, get_or, drop, length-drop,
}
use mathlib.Core.Option.{map as map_option}
use Prim.Native.Nat.{bit_or}
use xzile.Completion.{starts_with}
use xzile.Keycode.{
  KeyInfo, keyinfo, key, kbd_ctrl, kbd_meta, find_best, strtokey, chord_from, strtochord, keys_from,
  keystrtovec,
}
use xzile.Keycode.Strings.{row, find_best-IsBest}

starts_with-length : (s p : List ℕ) → starts_with s p ≡ true → length p ≤ length s
unfolding starts_with
starts_with-length s [] e = omega arith
starts_with-length [] (c ∷ p) e = absurd (ground (arith, e))
starts_with-length (d ∷ s) (c ∷ p) e = omega (arith, starts_with-length s p (ground (arith, e)))

-- No key, or one that ends behind `len` and not behind the string.
unfoldable pub IsRead : ℕ → List ℕ → Option ℕ × ℕ → Type 0
IsRead len buf (found, n) = (found ≡ none) ⊎ ((len < n) × (n ≤ length buf))

find_best-IsRead : (ks : List KeyInfo) (buf : List ℕ) → IsRead 0 buf (find_best ks buf none 0)
unfolding IsRead
find_best-IsRead ks buf = elim (find_best-IsBest ks buf).taken [
  | inl (e, n) ↦ inl e
  | inr (h, (i, r)) ↦ inr (h, omega (arith, starts_with-length buf (row ks i).name r.starts, r.len))
]

strtokey-IsRead : (buf : List ℕ) → 0 < length buf → IsRead 0 buf (strtokey buf)
unfolding strtokey IsRead
strtokey-IsRead buf h = elim (Bool-cases (get_or buf 0 0 == 92)) [
  | inl e ↦ rw (strtokey, e) (find_best-IsRead keyinfo buf)
  | inr e ↦ rw (strtokey, e) (inr (omega arith, h))
]

was_read :
    (len : ℕ) (buf : List ℕ) (r : Option ℕ × ℕ) (k : ℕ)
    → IsRead len buf r
    → r.0 ≡ some k
    → (len < r.1) × (r.1 ≤ length buf)
unfolding IsRead
was_read len buf (found, n) k (inl e) f = absurd (ground (arith, e, f))
was_read len buf (found, n) k (inr h) f = h

IsRead-later :
    (len l : ℕ) (buf : List ℕ) (r : Option ℕ × ℕ) → IsRead (len + l) buf r → IsRead len buf r
unfolding IsRead
IsRead-later len l buf (found, n) (inl e) = inl e
IsRead-later len l buf (found, n) (inr (h, k)) = inr (omega (arith, h), k)

-- One key from `len` on.
one_key :
    (buf : List ℕ) (len k : ℕ)
    → len < length buf
    → (strtokey (drop len buf)).0 ≡ some k
    → (0 < (strtokey (drop len buf)).1) × (len + (strtokey (drop len buf)).1 ≤ length buf)
one_key buf len k h e =
    let left = length-drop len buf in
    let (more, most) =
      was_read 0 (drop len buf) (strtokey (drop len buf)) k
        (strtokey-IsRead (drop len buf) (omega (arith, h, left))) e in
    (more, omega (arith, most, left, h))

chord_from-IsRead :
    (fuel : ℕ) (buf : List ℕ) (len key : ℕ)
    → len < length buf
    → IsRead len buf (chord_from fuel buf len key)
unfolding chord_from IsRead
chord_from-IsRead zero buf len key h = inl refl
chord_from-IsRead (suc fuel) buf len key h =
    let (code, l) = strtokey (drop len buf) in
    elim (Option-cases code) [
      | inl e ↦ rw (chord_from, e) (inl refl)
      | inr (k, e) ↦
          elim (Bool-cases ((k == kbd_ctrl || k == kbd_meta) && ltb (len + l) (length buf))) [
            | inl f ↦
                rw (chord_from, e, f)
                  (IsRead-later len l buf _
                    (chord_from-IsRead fuel buf (len + l) (bit_or key k) (ground (arith, f))))
            | inr f ↦
                rw (chord_from, e, f)
                  (inr (let (more, most) = one_key buf len k h e in (omega (arith, more), most)))
          ]
    ]

chord_from-more :
    (fuel more : ℕ) (buf : List ℕ) (len key : ℕ)
    → len < length buf
    → length buf < len + fuel
    → chord_from (fuel + more) buf len key ≡ chord_from fuel buf len key
unfolding chord_from
chord_from-more zero more buf len key h f = absurd (omega (arith, h, f))
chord_from-more (suc fuel) more buf len key h f =
    let next : suc fuel + more ≡ suc (fuel + more) = omega arith in
    let (code, l) = strtokey (drop len buf) in
    rw next (elim (Option-cases code) [
      | inl e ↦ rw (chord_from, e) refl
      | inr (k, e) ↦
          elim (Bool-cases ((k == kbd_ctrl || k == kbd_meta) && ltb (len + l) (length buf))) [
            | inr g ↦ rw (chord_from, e, g) refl
            | inl g ↦
                let (some_bytes, most) = one_key buf len k h e in
                rw (chord_from, e, g)
                  (chord_from-more fuel more buf (len + l) (bit_or key k) (ground (arith, g))
                    (omega (arith, f, some_bytes)))
          ]
    ])

keys_from-more :
    (fuel more : ℕ) (buf : List ℕ)
    → length buf ≤ fuel
    → keys_from (fuel + more) buf ≡ keys_from fuel buf
unfolding keys_from
keys_from-more fuel more [] h = refl
keys_from-more zero more (c ∷ rest) h = absurd (omega (arith, h))
keys_from-more (suc fuel) more (c ∷ rest) h =
    let next : suc fuel + more ≡ suc (fuel + more) = omega arith in
    let (code, len) = strtochord (c ∷ rest) in
    rw next (elim (Option-cases code) [
      | inl e ↦ rw (keys_from, e) refl
      | inr (k, e) ↦ elim (Bool-cases (len == 0)) [
        | inl g ↦ rw (keys_from, e, g) refl
        | inr g ↦
            let some_bytes : 0 < len = ground (arith, g) in
            let ih =
              keys_from-more fuel more (drop len (c ∷ rest))
                (omega (arith, h, length-drop len (c ∷ rest), some_bytes)) in
            rw (keys_from, e, g) (ap (map_option (λ ks. k ∷ ks)) ih)
      ]
    ])

-- For a string that is not empty, the loops of `keystrtovec` and `strtochord` find the same with
-- more fuel than they are given: each key takes a byte at least.
pub keystrtovec-enough :
    (key : List ℕ) (more : ℕ)
    → 0 < length key
    → (keys_from (length key + more) key ≡ keystrtovec (some key))
      × (chord_from (length key + 1 + more) key 0 0 ≡ strtochord key)
unfolding keystrtovec strtochord
keystrtovec-enough key more h = (
  keys_from-more (length key) more key (omega arith),
  chord_from-more (length key + 1) more key 0 0 h (omega arith),
)
