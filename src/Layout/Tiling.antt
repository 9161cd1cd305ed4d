-- ===== src/Layout/Tiling.antt =====
-- The layout of src/layout.c tiles the screen.
use xzile.Prelude.{
  ℕ, ◌+◌, ◌-◌, ◌≤◌, ◌<◌, ◌≡◌, refl, ap₂, Bool, true, false, ◌&&◌, ◌||◌, not, Option, none, some,
  arith, ltb, if◌then◌else◌,
}
use xzile.Layout.{
  WinNode, leaf, split, split_rows, split_cols, box_at, first_size, winnode_layout, too_small,
  winnode_fits, winnode_each_leaf, in_box, find_leaf_at, layout_leaf_at,
}

pub first_size_le :
    (scale : ℕ → ℕ) (total : ℕ) → scale total ≤ total → first_size scale total ≤ total
unfolding first_size
first_size_le scale total h = ground arith

-- Both parts of a split of two cells or more have cells.
pub first_size_bounds :
    (scale : ℕ → ℕ) (total : ℕ)
    → 2 ≤ total
    → (1 ≤ first_size scale total) × (first_size scale total < total)
unfolding first_size
first_size_bounds scale total h = ground arith

-- The ratio of every split is at most 1.
unfoldable pub HasRatios : WinNode → Type 0
HasRatios (leaf box wp) = Unit
HasRatios (split box kind scale a b) =
    ((total : ℕ) → scale total ≤ total) × HasRatios a × HasRatios b

-- How many leaves a cell lies in.
unfoldable pub covering : WinNode → ℕ → ℕ → ℕ
covering (leaf box wp) y x = if in_box box y x then 1 else 0
covering (split box kind scale a b) y x = covering a y x + covering b y x

-- If no split's ratio is above 1, the layout of a tree in a rectangle tiles it: every cell of the
-- rectangle lies in exactly one leaf, and no other cell lies in any.
pub covering-winnode_layout :
    (n : WinNode) (x y w h : ℕ) (cy cx : ℕ)
    → HasRatios n
    → covering (winnode_layout n x y w h) cy cx ≡ (if in_box (box_at x y w h) cy cx then 1 else 0)
unfolding covering winnode_layout HasRatios
covering-winnode_layout (leaf box wp) x y w h cy cx r = refl
covering-winnode_layout (split box split_rows scale a b) x y w h cy cx (s, ra, rb) =
    let d1 = first_size scale h in
    let le : d1 ≤ h = first_size_le scale h (s h) in
    let ea = covering-winnode_layout a x y w d1 cy cx ra in
    let eb = covering-winnode_layout b x (y + d1) w (h - d1) cy cx rb in rw (ea, eb) (ground arith)
covering-winnode_layout (split box split_cols scale a b) x y w h cy cx (s, ra, rb) =
    let d1 = first_size scale w in
    let le : d1 ≤ w = first_size_le scale w (s w) in
    let ea = covering-winnode_layout a x y d1 h cy cx ra in
    let eb = covering-winnode_layout b (x + d1) y (w - d1) h cy cx rb in rw (ea, eb) (ground arith)

-- Every leaf of a tree is big enough.
unfoldable pub all_fit : WinNode → Bool
all_fit (leaf box wp) = not (too_small box.width box.height)
all_fit (split box kind scale a b) = all_fit a && all_fit b

-- `winnode_fits` agrees with the layout, wherever its corner is: it holds exactly if every leaf,
-- laid out in that size, is big enough.
pub winnode_fits_lem :
    (n : WinNode) (x y w h : ℕ) → winnode_fits n w h ≡ all_fit (winnode_layout n x y w h)
unfolding all_fit winnode_layout winnode_fits
winnode_fits_lem (leaf box wp) x y w h = refl
winnode_fits_lem (split box split_rows scale a b) x y w h =
    let d1 = first_size scale h in
    ap₂ ◌&&◌ (winnode_fits_lem a x y w d1) (winnode_fits_lem b x (y + d1) w (h - d1))
winnode_fits_lem (split box split_cols scale a b) x y w h =
    let d1 = first_size scale w in
    ap₂ ◌&&◌ (winnode_fits_lem a x y d1 h) (winnode_fits_lem b (x + d1) y (w - d1) h)

abbrev pub is_some {ℓ} : {A : Type ℓ} → Option A → Bool
is_some none = false
is_some (some a) = true

find_leaf_at-covering :
    (n : WinNode) (y x : ℕ) (found : Option ℕ)
    → is_some (winnode_each_leaf n (find_leaf_at y x) found)
      ≡ (ltb 0 (covering n y x) || is_some found)
unfolding covering winnode_each_leaf
find_leaf_at-covering (leaf box wp) y x found = ground arith
find_leaf_at-covering (split box kind scale a b) y x found =
    rw
      (
        find_leaf_at-covering b y x (winnode_each_leaf a (find_leaf_at y x) found),
        find_leaf_at-covering a y x found,
      )
      (ground arith)

-- If no split's ratio is above 1, `layout_leaf_at` finds a window for every cell of the rectangle
-- laid out, and for no other cell.
pub layout_leaf_at-winnode_layout :
    (n : WinNode) (x y w h : ℕ) (cy cx : ℕ)
    → HasRatios n
    → is_some (layout_leaf_at (winnode_layout n x y w h) cy cx) ≡ in_box (box_at x y w h) cy cx
unfolding layout_leaf_at
layout_leaf_at-winnode_layout n x y w h cy cx r = ground (
  arith,
  find_leaf_at-covering (winnode_layout n x y w h) cy cx none,
  covering-winnode_layout n x y w h cy cx r,
)
