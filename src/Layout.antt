-- ===== src/Layout.antt =====
-- src/layout.c: the tree of splits that divides the screen into windows.
-- A window is named by a number, and its leaf is found by it: no two leaves show the same window.
-- The parent pointers are left out, since the tree is searched from its root. `scale` is what a
-- split's ratio makes of a size, `(size_t) ((double) total * n->ratio)`. The generation counter and
-- the columns of scroll bars are passed on.
pub mod Tiling
pub mod Windows
mod Tests
use xzile.Prelude.{
  ℕ, zero, suc, ◌+◌, ◌-◌, ◌*◌, ◌/◌, ◌%◌, ◌^◌, ◌≤◌, ◌<◌, min, max, ◌≡◌, refl, sym, ap, ap₂, ◌∙◌,
  fun_ext, ◌≢◌, ◌↔◌, ◌⊎◌, inl, inr, Bool, true, false, ◌&&◌, ◌||◌, not, Option, none, some, List,
  [], ◌∷◌, ◌++◌, map, append-nil, append_assoc, arith, ltb, leb, ◌==◌, if◌then◌else◌, ltb→lt,
  lt→ltb, leb→le, ==_iff, tests, Bool-cases, Option-cases, length, get_elem?, set, get_or, take,
  drop, replicate, length-append, length-set, length-take, length-drop, length-replicate,
  length-map, take-append-drop, ext_get, get-append, get-take, get-drop, get-replicate, get-ge,
  drop-nil, drop-drop, drop-cons_pos, drop-ge, take-ge, slices, lengths,
}

pub data SplitKind : Type 0 where
  split_rows split_cols : SplitKind

pub record Box : Type 0 where
  pub x : ℕ
  pub y : ℕ
  pub width : ℕ
  pub height : ℕ

pub data WinNode : Type 0 where
  leaf : (box : Box) → (wp : ℕ) → WinNode
  split :
      (box : Box)
      → (kind : SplitKind) → (scale : ℕ → ℕ) → (left_or_top : WinNode) → (right_or_bottom : WinNode)
      → WinNode

abbrev pub no_box : Box
no_box = record { x = 0; y = 0; width = 0; height = 0 }

abbrev pub box_at : ℕ → ℕ → ℕ → ℕ → Box
box_at x y w h = record { x = x; y = y; width = w; height = h }

abbrev pub leaf_node_new : ℕ → WinNode
leaf_node_new wp = leaf no_box wp

-- `half` is what the ratio 0.5 makes of a size.
abbrev pub split_node_new : (ℕ → ℕ) → SplitKind → WinNode → WinNode → WinNode
split_node_new half kind left_or_top right_or_bottom =
    split no_box kind half left_or_top right_or_bottom

unfoldable pub first_size : (ℕ → ℕ) → ℕ → ℕ
first_size scale total =
    let d1 = if scale total == 0 && ltb 0 total then 1 else scale total in
    if leb total d1 && ltb 1 total then total - 1 else d1

unfoldable pub winnode_layout : WinNode → ℕ → ℕ → ℕ → ℕ → WinNode
winnode_layout (leaf box wp) x y w h = leaf (box_at x y w h) wp
winnode_layout (split box split_rows scale a b) x y w h =
    let d1 = first_size scale h in
    split (box_at x y w h) split_rows scale (winnode_layout a x y w d1)
      (winnode_layout b x (y + d1) w (h - d1))
winnode_layout (split box split_cols scale a b) x y w h =
    let d1 = first_size scale w in
    split (box_at x y w h) split_cols scale (winnode_layout a x y d1 h)
      (winnode_layout b (x + d1) y (w - d1) h)

abbrev pub too_small : ℕ → ℕ → Bool
too_small w h = ltb h 2 || ltb w 4

unfoldable pub winnode_fits : WinNode → ℕ → ℕ → Bool
winnode_fits (leaf box wp) w h = not (too_small w h)
winnode_fits (split box split_rows scale a b) w h =
    let d1 = first_size scale h in winnode_fits a w d1 && winnode_fits b w (h - d1)
winnode_fits (split box split_cols scale a b) w h =
    let d1 = first_size scale w in winnode_fits a d1 h && winnode_fits b (w - d1) h

-- `fn` on each leaf, on a state.
unfoldable pub winnode_each_leaf {ℓ} : {A : Type ℓ} → WinNode → (Box → ℕ → A → A) → A → A
winnode_each_leaf (leaf box wp) fn data' = fn box wp data'
winnode_each_leaf (split box kind scale a b) fn data' =
    winnode_each_leaf b fn (winnode_each_leaf a fn data')

-- The box of a window.
unfoldable pub winnode_find_leaf : WinNode → ℕ → Option Box
winnode_find_leaf (leaf box w) wp = if w == wp then some box else none
winnode_find_leaf (split box kind scale a b) wp =
    let found = winnode_find_leaf a wp in
    let other = winnode_find_leaf b wp in elim found [ none ↦ other | some l ↦ some l ]

-- The tree with the leaf of `wp` replaced; a leaf is its own root where the tree is one.
unfoldable pub replace_leaf_with_split : (ℕ → ℕ) → WinNode → ℕ → SplitKind → ℕ → ℕ → WinNode
replace_leaf_with_split half (leaf box w) wp kind w1 w2 =
    if w == wp then split_node_new half kind (leaf_node_new w1) (leaf_node_new w2) else leaf box w
replace_leaf_with_split half (split box k scale a b) wp kind w1 w2 =
    split box k scale (replace_leaf_with_split half a wp kind w1 w2)
      (replace_leaf_with_split half b wp kind w1 w2)

abbrev pub is_leaf_of : WinNode → ℕ → Bool
is_leaf_of (leaf box w) wp = w == wp
is_leaf_of (split box k scale a b) wp = false

-- A leaf that is the root stays; any other goes, and its sibling takes the place of their parent.
unfoldable pub remove_leaf_and_promote_sibling : WinNode → ℕ → WinNode
remove_leaf_and_promote_sibling (leaf box w) wp = leaf box w
remove_leaf_and_promote_sibling (split box k scale a b) wp =
    let a' = remove_leaf_and_promote_sibling a wp in
    let b' = remove_leaf_and_promote_sibling b wp in
    if is_leaf_of a wp then b else if is_leaf_of b wp then a else split box k scale a' b'

abbrev pub in_box : Box → ℕ → ℕ → Bool
in_box n y x = (leb n.y y && ltb y (n.y + n.height)) && (leb n.x x && ltb x (n.x + n.width))

-- `find_leaf_at`: the last leaf found stays.
abbrev pub find_leaf_at : ℕ → ℕ → Box → ℕ → Option ℕ → Option ℕ
find_leaf_at y x box wp found = if in_box box y x then some wp else found

unfoldable pub layout_leaf_at : WinNode → ℕ → ℕ → Option ℕ
layout_leaf_at root y x = winnode_each_leaf root (find_leaf_at y x) none

abbrev pub box_of : WinNode → Box
box_of (leaf box wp) = box
box_of (split box k scale a b) = box

abbrev pub on_divider : SplitKind → Box → ℕ → ℕ → Bool
on_divider split_rows first y x = y + 1 == first.y + first.height
on_divider split_cols first y x =
    ltb x (first.x + first.width) && leb (first.x + first.width) (x + 2)

-- The split, by its box.
unfoldable pub winnode_divider_at : WinNode → ℕ → ℕ → Option Box
winnode_divider_at (leaf box wp) y x = none
winnode_divider_at (split box kind scale a b) y x =
    let found = winnode_divider_at a y x in
    let other = winnode_divider_at b y x in
    if not (in_box box y x)
    then none
    else if on_divider kind (box_of a) y x
    then some box
    else elim found [ none ↦ other | some l ↦ some l ]

-- What a window gets from its leaf's box, in a frame `w` columns wide with `bar` columns for a
-- scroll bar.
pub record Geometry : Type 0 where
  pub xpos : ℕ
  pub fwidth : ℕ
  pub fheight : ℕ
  pub ewidth : ℕ
  pub eheight : ℕ
  pub scroll_bar_width : ℕ

unfoldable pub update_leaf_geometry : ℕ → ℕ → Box → Geometry
update_leaf_geometry bar w box =
    let ewidth =
      if ltb (box.x + box.width) w
      then (if ltb 2 box.width then box.width - 2 else 1)
      else box.width in
    let scroll = if ltb (bar + 1) ewidth then bar else 0 in
    record {
      xpos = box.x;
      fwidth = box.width;
      fheight = box.height;
      ewidth = ewidth - scroll;
      eheight = if ltb 0 box.height then box.height - 1 else 0;
      scroll_bar_width = scroll;
    }
