-- ===== src/Layout/Tests.antt =====
-- Two windows side by side, over a third, on a screen of 80 by 24 cells.
use xzile.Prelude.{ℕ, ◌/◌, ◌≤◌, ◌≡◌, refl, false, arith, if◌then◌else◌}
use xzile.Layout.{
  WinNode, split_rows, split_cols, box_at, leaf_node_new, split_node_new, first_size,
  winnode_layout, winnode_fits, remove_leaf_and_promote_sibling, in_box,
}
use xzile.Layout.Tiling.{covering, HasRatios, covering-winnode_layout}
use xzile.Layout.Windows.{windows, occurs, without, windows-remove_leaf_and_promote_sibling}

abbrev half : ℕ → ℕ
half n = n / 2

abbrev three : WinNode
three =
    split_node_new half split_rows
      (split_node_new half split_cols (leaf_node_new 1) (leaf_node_new 2)) (leaf_node_new 3)

half_le : (n : ℕ) → half n ≤ n
half_le n = omega arith

three-HasRatios : HasRatios three
unfolding HasRatios
three-HasRatios = (half_le, (half_le, tt, tt), tt)

covering-winnode_layout_example :
    covering (winnode_layout three 0 0 80 24) 11 40
    ≡ (if in_box (box_at 0 0 80 24) 11 40 then 1 else 0)
covering-winnode_layout_example = covering-winnode_layout three 0 0 80 24 11 40 three-HasRatios

too_narrow : winnode_fits three 6 24 ≡ false
unfolding winnode_fits first_size
too_narrow = refl

windows-remove_leaf_and_promote_sibling_example :
    windows (remove_leaf_and_promote_sibling three 2) ≡ without 2 (windows three)
unfolding windows occurs
windows-remove_leaf_and_promote_sibling_example =
    windows-remove_leaf_and_promote_sibling three 2 refl (omega arith)
