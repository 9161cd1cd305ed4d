-- ===== src/VTerm/Sgr/Attrs.antt =====
-- The attributes that `sgr` of src/vterm.c makes.
use xzile.Prelude.{
  ℕ, zero, suc, ◌+◌, ◌≤◌, ◌<◌, min, ◌⊎◌, inl, inr, Bool, false, ◌&&◌, Option, none, some, List,
  arith, ltb, leb, ◌==◌, if◌then◌else◌, Bool-cases, length, get_or,
}
use xzile.VTerm.{VAttr, default_vattr}
use xzile.VTerm.Dispatch.Safe.{AllCases, ◌▸◌, either_lem, select_lem}
use xzile.VTerm.Sgr.{
  set_bit, clear_bit, vcolor_rgb, extended_color, set_fg, set_bg, palette, sgr_step, sgr_from, sgr,
  with_flags,
}

-- A colour is VCOLOR_DEFAULT, in the palette of 256, or a VCOLOR_RGB value of three bytes.
pub IsColor : Option ℕ → Type 0
IsColor none = Unit
IsColor (some c) = c < 256 ⊎ (0x1000000 ≤ c × c < 0x2000000)

pub record IsAttr (a : VAttr) : Type 0 where
  pub fg_color : IsColor a.fg
  pub bg_color : IsColor a.bg
  pub flags_lt : a.flags < 128

IsFound : Option ℕ × ℕ → Type 0
IsFound s = IsColor s.0

IsStep : VAttr × ℕ → Type 0
IsStep s = IsAttr s.0

pub default_vattr-IsAttr : IsAttr default_vattr
unfolding IsColor
default_vattr-IsAttr = record { fg_color = tt; bg_color = tt; flags_lt = omega arith }

clear_bit_bound : (k flags : ℕ) → flags < 128 → clear_bit k flags < 128
unfolding clear_bit
clear_bit_bound k flags f = ground (arith, f)

set_bit_bound : (k flags : ℕ) → k < 7 → flags < 128 → set_bit k flags < 128
unfolding set_bit
set_bit_bound zero flags h f = ground (arith, f)
set_bit_bound (suc zero) flags h f = ground (arith, f)
set_bit_bound (suc (suc zero)) flags h f = ground (arith, f)
set_bit_bound (suc (suc (suc zero))) flags h f = ground (arith, f)
set_bit_bound (suc (suc (suc (suc zero)))) flags h f = ground (arith, f)
set_bit_bound (suc (suc (suc (suc (suc zero))))) flags h f = ground (arith, f)
set_bit_bound (suc (suc (suc (suc (suc (suc zero)))))) flags h f = ground (arith, f)
set_bit_bound (suc (suc (suc (suc (suc (suc (suc k))))))) flags h f = absurd (omega (arith, h))

min_byte : (n : ℕ) → min n 255 < 256
min_byte n = omega arith

IsColor-rgb : (r g b : ℕ) → r < 256 → g < 256 → b < 256 → IsColor (some (vcolor_rgb r g b))
unfolding IsColor
IsColor-rgb r g b h k l = inr (omega (arith, h, k, l), omega (arith, h, k, l))

none-IsFound : (i : ℕ) → IsFound (none, i)
unfolding IsFound IsColor
none-IsFound i = tt

palette-IsFound : (c i : ℕ) → IsFound (some (min c 255), i)
unfolding IsFound IsColor
palette-IsFound c i = inl (min_byte c)

rgb-IsFound : (r g b i : ℕ) → IsFound (some (vcolor_rgb (min r 255) (min g 255) (min b 255)), i)
unfolding IsFound
rgb-IsFound r g b i = IsColor-rgb _ _ _ (min_byte r) (min_byte g) (min_byte b)

extended_color-IsFound :
    (params : List ℕ) (colons : List Bool) (i : ℕ) → IsFound (extended_color params colons i)
unfolding extended_color
extended_color-IsFound params colons i =
    let n = length params in
    let k = i + 1 in
    let p = λ (j : ℕ). get_or params j 0 in
    let first =
      if get_or colons k false && ltb (k + 1 + 3) n && get_or colons (k + 1 + 2) false
      then k + 2
      else k + 1 in
    let rgb = rgb-IsFound (p first) (p (first + 1)) (p (first + 2)) (first + 2) in
    let palette = palette-IsFound (p (k + 1)) (k + 1) in
    either_lem IsFound (leb n k) _ _ (none-IsFound i) (
      either_lem IsFound (p k == 5 && ltb (k + 1) n) _ _ palette
        (either_lem IsFound (p k == 2 && ltb (first + 2) n) _ _ rgb (none-IsFound n)))

set_fg-IsAttr : (a : VAttr) (c : Option ℕ) → IsColor c → IsAttr a → IsAttr (set_fg a c)
unfolding set_fg
set_fg-IsAttr a none h v = v
set_fg-IsAttr a (some c) h v = record { fg_color = h; bg_color = v.bg_color; flags_lt = v.flags_lt }

set_bg-IsAttr : (a : VAttr) (c : Option ℕ) → IsColor c → IsAttr a → IsAttr (set_bg a c)
unfolding set_bg
set_bg-IsAttr a none h v = v
set_bg-IsAttr a (some c) h v = record { fg_color = v.fg_color; bg_color = h; flags_lt = v.flags_lt }

flags-IsAttr : (a : VAttr) (f : ℕ) → f < 128 → IsAttr a → IsAttr (with_flags a f)
flags-IsAttr a f h v = record { fg_color = v.fg_color; bg_color = v.bg_color; flags_lt = h }

-- A colour of the palette set by one parameter.
fg-IsAttr : (a : VAttr) (c : ℕ) → c < 256 → IsAttr a → IsAttr (record a { fg = some c })
unfolding IsColor
fg-IsAttr a c h v = record { fg_color = inl h; bg_color = v.bg_color; flags_lt = v.flags_lt }

bg-IsAttr : (a : VAttr) (c : ℕ) → c < 256 → IsAttr a → IsAttr (record a { bg = some c })
unfolding IsColor
bg-IsAttr a c h v = record { fg_color = v.fg_color; bg_color = inl h; flags_lt = v.flags_lt }

palette-IsAttr : (p : ℕ) (a : VAttr) → IsAttr a → IsAttr (palette p a)
unfolding palette
palette-IsAttr p a v =
    let range = λ (lo hi : ℕ). Bool-cases (leb lo p && leb p hi) in
    elim (range 30 37) [
      | inl e ↦ rw (palette, e) (fg-IsAttr a _ (ground (arith, e)) v)
      | inr e ↦ elim (range 40 47) [
        | inl f ↦ rw (palette, e, f) (bg-IsAttr a _ (ground (arith, f)) v)
        | inr f ↦ elim (range 90 97) [
          | inl g ↦ rw (palette, e, f, g) (fg-IsAttr a _ (ground (arith, g)) v)
          | inr g ↦ elim (range 100 107) [
            | inl h ↦ rw (palette, e, f, g, h) (bg-IsAttr a _ (ground (arith, h)) v)
            | inr h ↦ rw (palette, e, f, g, h) v
          ]
        ]
      ]
    ]

sgr_step-IsStep :
    (params : List ℕ) (colons : List Bool) (i : ℕ) (a : VAttr)
    → IsAttr a
    → IsStep (sgr_step params colons i a)
unfolding sgr_step AllCases IsFound IsColor IsStep
sgr_step-IsStep params colons i a v =
    let on = λ (k : ℕ) (h : k < 7).
      flags-IsAttr a (set_bit k a.flags) (set_bit_bound k a.flags h v.flags_lt) v in
    let off =
      λ (k : ℕ). flags-IsAttr a (clear_bit k a.flags) (clear_bit_bound k a.flags v.flags_lt) v in
    let off2 =
      flags-IsAttr a (clear_bit 1 (clear_bit 0 a.flags))
        (clear_bit_bound 1 _ (clear_bit_bound 0 a.flags v.flags_lt)) v in
    let color = extended_color-IsFound params colons i in
    let underline =
      either_lem IsStep (get_or colons i false && ltb (i + 1) (length params)) _ _
        (either_lem IsStep (get_or params (i + 1) 0 == 0)
          (with_flags a (clear_bit 3 a.flags), i + 1) (with_flags a (set_bit 3 a.flags), i + 1)
          (off 3) (on 3 (omega arith)))
        (on 3 (omega arith)) in
    select_lem IsStep _ (get_or params i 0) (palette (get_or params i 0) a, i)
      (default_vattr-IsAttr
        ▸ on 0 (omega arith)
        ▸ on 1 (omega arith)
        ▸ on 2 (omega arith)
        ▸ underline
        ▸ on 4 (omega arith)
        ▸ on 5 (omega arith)
        ▸ on 6 (omega arith)
        ▸ on 3 (omega arith)
        ▸ off2
        ▸ off 2
        ▸ off 3
        ▸ off 4
        ▸ off 5
        ▸ off 6
        ▸ set_fg-IsAttr a _ color v
        ▸ record { fg_color = tt; bg_color = v.bg_color; flags_lt = v.flags_lt }
        ▸ set_bg-IsAttr a _ color v
        ▸ record { fg_color = v.fg_color; bg_color = tt; flags_lt = v.flags_lt }
        ▸ tt)
      (palette-IsAttr _ a v)

sgr_from-IsAttr :
    (fuel : ℕ) (params : List ℕ) (colons : List Bool) (i : ℕ) (a : VAttr)
    → IsAttr a
    → IsAttr (sgr_from fuel params colons i a)
unfolding sgr_from IsStep
sgr_from-IsAttr zero params colons i a v = v
sgr_from-IsAttr (suc fuel) params colons i a v =
    let done = sgr_step params colons i a in
    let rest =
      sgr_from-IsAttr fuel params colons (done.1 + 1) done.0
        (sgr_step-IsStep params colons i a v) in
    either_lem IsAttr (ltb i (length params)) _ a rest v

-- For any parameters, `sgr` makes of attributes whose flags are the seven of the program and whose
-- colours are VCOLOR_DEFAULT, in the palette of 256, or three bytes of VCOLOR_RGB, again such
-- attributes.
pub sgr-IsAttr :
    (params : List ℕ) (colons : List Bool) (a : VAttr) → IsAttr a → IsAttr (sgr params colons a)
unfolding sgr
sgr-IsAttr params colons a v =
    either_lem IsAttr (length params == 0) _ _ default_vattr-IsAttr
      (sgr_from-IsAttr _ params colons 0 a v)
