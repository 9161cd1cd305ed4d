-- ===== src/VTerm/Sgr.antt =====
-- Select graphic rendition of src/vterm.c: `sgr` and `extended_color`. A flag set by `|=` or
-- cleared by `&= ~` is a bit of the number; no colour (VCOLOR_DEFAULT - 1) is `none`.
use xzile.Prelude.{
  ℕ, zero, suc, ◌+◌, ◌-◌, ◌*◌, ◌/◌, ◌%◌, ◌^◌, ◌≤◌, ◌<◌, min, max, ◌≡◌, refl, sym, ap, ap₂, ◌∙◌,
  fun_ext, ◌≢◌, ◌↔◌, ◌⊎◌, inl, inr, Bool, true, false, ◌&&◌, ◌||◌, not, Option, none, some, List,
  [], ◌∷◌, ◌++◌, map, append-nil, append_assoc, arith, ltb, leb, ◌==◌, if◌then◌else◌, ltb→lt,
  lt→ltb, leb→le, ==_iff, tests, Bool-cases, Option-cases, length, get_elem?, set, get_or, take,
  drop, replicate, length-append, length-set, length-take, length-drop, length-replicate,
  length-map, take-append-drop, ext_get, get-append, get-take, get-drop, get-replicate, get-ge,
  drop-nil, drop-drop, drop-cons_pos, drop-ge, take-ge, slices, lengths,
}
use xzile.VTerm.{VAttr, default_vattr}
use xzile.VTerm.Dispatch.{select}
pub mod Attrs

unfoldable pub set_bit : ℕ → ℕ → ℕ
set_bit k flags = if flags / 2 ^ k % 2 == 1 then flags else flags + 2 ^ k

unfoldable pub clear_bit : ℕ → ℕ → ℕ
clear_bit k flags = if flags / 2 ^ k % 2 == 1 then flags - 2 ^ k else flags

abbrev pub vcolor_rgb : ℕ → ℕ → ℕ → ℕ
vcolor_rgb r g b = 0x1000000 + r * 2 ^ 16 + g * 2 ^ 8 + b

-- The colour and the index of the last parameter it took.
unfoldable pub extended_color : List ℕ → List Bool → ℕ → Option ℕ × ℕ
extended_color params colons i =
    let n = length params in
    let k = i + 1 in
    let p = λ (j : ℕ). get_or params j 0 in
    let first =
      if get_or colons k false && ltb (k + 1 + 3) n && get_or colons (k + 1 + 2) false
      then k + 2
      else k + 1 in
    if leb n k
    then (none, i)
    else if p k == 5 && ltb (k + 1) n
    then (some (min (p (k + 1)) 255), k + 1)
    else if p k == 2 && ltb (first + 2) n
    then (
      some (vcolor_rgb (min (p first) 255) (min (p (first + 1)) 255) (min (p (first + 2)) 255)),
      first + 2,
    )
    else (none, n)

unfoldable pub set_fg : VAttr → Option ℕ → VAttr
set_fg a none = a
set_fg a (some c) = record a { fg = some c }

unfoldable pub set_bg : VAttr → Option ℕ → VAttr
set_bg a none = a
set_bg a (some c) = record a { bg = some c }

abbrev pub with_flags : VAttr → ℕ → VAttr
with_flags a f = record a { flags = f }

-- The colours of the `default` case.
unfoldable pub palette : ℕ → VAttr → VAttr
palette p a =
    if leb 30 p && leb p 37
    then record a { fg = some (p - 30) }
    else if leb 40 p && leb p 47
    then record a { bg = some (p - 40) }
    else if leb 90 p && leb p 97
    then record a { fg = some (p - 90 + 8) }
    else if leb 100 p && leb p 107
    then record a { bg = some (p - 100 + 8) }
    else a

-- One round of the loop at index `i`: the attributes, and the index of the last parameter read.
unfoldable pub sgr_step : List ℕ → List Bool → ℕ → VAttr → VAttr × ℕ
sgr_step params colons i a =
    let p = get_or params i 0 in
    let color = extended_color params colons i in
    let on : ℕ → VAttr × ℕ = λ k. (with_flags a (set_bit k a.flags), i) in
    let off : ℕ → VAttr × ℕ = λ k. (with_flags a (clear_bit k a.flags), i) in
    select
      ((0, (default_vattr, i))
        ∷ (1, on 0)
        ∷ (2, on 1)
        ∷ (3, on 2)
        ∷ (
          4,
          if get_or colons i false && ltb (i + 1) (length params)
              then (if get_or params (i + 1) 0 == 0
                  then (with_flags a (clear_bit 3 a.flags), i + 1)
                  else (with_flags a (set_bit 3 a.flags), i + 1))
              else on 3,
        )
        ∷ (7, on 4)
        ∷ (8, on 5)
        ∷ (9, on 6)
        ∷ (21, on 3)
        ∷ (22, (with_flags a (clear_bit 1 (clear_bit 0 a.flags)), i))
        ∷ (23, off 2)
        ∷ (24, off 3)
        ∷ (27, off 4)
        ∷ (28, off 5)
        ∷ (29, off 6)
        ∷ (38, (set_fg a color.0, color.1))
        ∷ (39, (record a { fg = none }, i))
        ∷ (48, (set_bg a color.0, color.1))
        ∷ (49, (record a { bg = none }, i))
        ∷ [])
      p (palette p a, i)

-- The loop over the parameters from index `i` on.
unfoldable pub sgr_from : ℕ → List ℕ → List Bool → ℕ → VAttr → VAttr
sgr_from zero params colons i a = a
sgr_from (suc fuel) params colons i a =
    let done = sgr_step params colons i a in
    let rest = sgr_from fuel params colons (done.1 + 1) done.0 in
    if ltb i (length params) then rest else a

unfoldable pub sgr : List ℕ → List Bool → VAttr → VAttr
sgr params colons a =
    if length params == 0 then default_vattr else sgr_from (length params) params colons 0 a
