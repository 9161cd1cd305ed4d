-- ===== src/Layout/Windows.antt =====
-- The windows of the tree of src/layout.c, in order, after splits and removals.
use xzile.Prelude.{
  ℕ, ◌+◌, ◌≤◌, ◌≡◌, refl, sym, inl, inr, true, false, List, [], ◌∷◌, ◌++◌, append-nil, append_assoc,
  arith, ◌==◌, if◌then◌else◌, Bool-cases,
}
use xzile.Layout.{
  WinNode, leaf, split, SplitKind, replace_leaf_with_split, remove_leaf_and_promote_sibling,
  is_leaf_of,
}

unfoldable pub windows : WinNode → List ℕ
windows (leaf box wp) = wp ∷ []
windows (split box kind scale a b) = windows a ++ windows b

-- The list with `wp` replaced.
unfoldable pub replaced_by : ℕ → List ℕ → List ℕ → List ℕ
replaced_by wp new [] = []
replaced_by wp new (w ∷ ws) =
    let rest = replaced_by wp new ws in if w == wp then new ++ rest else w ∷ rest

replaced_by-append :
    (wp : ℕ) (new s t : List ℕ)
    → replaced_by wp new (s ++ t) ≡ replaced_by wp new s ++ replaced_by wp new t
unfolding replaced_by
replaced_by-append wp new [] t = refl
replaced_by-append wp new (w ∷ s) t =
    let e = replaced_by-append wp new s t in
    ground (arith, append_assoc new (replaced_by wp new s) (replaced_by wp new t))

-- Splitting a window replaces it, in the order of the windows, by the two new ones; the others
-- stay.
pub windows-replace_leaf_with_split :
    (half : ℕ → ℕ) (n : WinNode) (wp : ℕ) (kind : SplitKind) (w1 w2 : ℕ)
    → windows (replace_leaf_with_split half n wp kind w1 w2)
      ≡ replaced_by wp (w1 ∷ w2 ∷ []) (windows n)
unfolding windows replace_leaf_with_split replaced_by
windows-replace_leaf_with_split half (leaf box w) wp kind w1 w2 = ground arith
windows-replace_leaf_with_split half (split box k scale a b) wp kind w1 w2 =
    rw
      (
        windows-replace_leaf_with_split half a wp kind w1 w2,
        windows-replace_leaf_with_split half b wp kind w1 w2,
      )
      (sym (replaced_by-append wp (w1 ∷ w2 ∷ []) (windows a) (windows b)))

-- The list less `wp`, and how often it occurs.
unfoldable pub without : ℕ → List ℕ → List ℕ
without wp ws = replaced_by wp [] ws

unfoldable pub occurs : ℕ → List ℕ → ℕ
occurs wp [] = 0
occurs wp (w ∷ ws) = (if w == wp then 1 else 0) + occurs wp ws

occurs-append : (wp : ℕ) (s t : List ℕ) → occurs wp (s ++ t) ≡ occurs wp s + occurs wp t
unfolding occurs
occurs-append wp [] t = omega arith
occurs-append wp (w ∷ s) t = let e = occurs-append wp s t in omega arith

without_lem : (wp : ℕ) (ws : List ℕ) → occurs wp ws ≡ 0 → without wp ws ≡ ws
unfolding without occurs replaced_by
without_lem wp [] h = refl
without_lem wp (w ∷ ws) h = ground (arith, without_lem wp ws)

leaf_windows :
    (n : WinNode) (wp : ℕ)
    → is_leaf_of n wp ≡ true
    → (without wp (windows n) ≡ []) × (occurs wp (windows n) ≡ 1)
unfolding windows without occurs replaced_by
leaf_windows (leaf box w) wp h = (ground arith, ground arith)
leaf_windows (split box k scale a b) wp h = absurd (ground arith)

-- Removing a window that is not the root and stands in the tree once at most takes it out of the
-- windows, and keeps the others in their order.
pub windows-remove_leaf_and_promote_sibling :
    (n : WinNode) (wp : ℕ)
    → is_leaf_of n wp ≡ false
    → occurs wp (windows n) ≤ 1
    → windows (remove_leaf_and_promote_sibling n wp) ≡ without wp (windows n)
unfolding windows remove_leaf_and_promote_sibling without
windows-remove_leaf_and_promote_sibling (leaf box w) wp f h = unfold replaced_by in ground arith
windows-remove_leaf_and_promote_sibling (split box k scale a b) wp f h =
    let both = occurs-append wp (windows a) (windows b) in
    let parts = replaced_by-append wp [] (windows a) (windows b) in
    elim (Bool-cases (is_leaf_of a wp)) [
      | inl la ↦
          let (gone, once) = leaf_windows a wp la in
          let kept = without_lem wp (windows b) (omega (arith, both)) in
          rw (la, parts, gone, kept) refl
      | inr la ↦ elim (Bool-cases (is_leaf_of b wp)) [
        | inl lb ↦
            let (gone, once) = leaf_windows b wp lb in
            let kept = without_lem wp (windows a) (omega (arith, both)) in
            rw (la, lb, parts, gone, kept) (sym (append-nil (windows a)))
        | inr lb ↦
            let ea = windows-remove_leaf_and_promote_sibling a wp la (omega (arith, both)) in
            let eb = windows-remove_leaf_and_promote_sibling b wp lb (omega (arith, both)) in
            rw (la, lb, parts, ea, eb) refl
      ]
    ]
