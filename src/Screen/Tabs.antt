-- ===== src/Screen/Tabs.antt =====
-- The loop over the spaces of a tab in `term_addnstr` of src/screen.c.
use xzile.Prelude.{
  ℕ, zero, suc, ◌+◌, ◌-◌, ◌*◌, ◌/◌, ◌%◌, ◌≤◌, ◌<◌, ◌≡◌, refl, sym, ◌∙◌, ◌≢◌, ◌⊎◌, inl, inr, Bool,
  true, ◌&&◌, not, none, some, [], ◌∷◌, arith, ltb, ◌==◌, Bool-cases,
}
use xzile.Screen.{Screen, put_cell, put_tab}
use xzile.Screen.Cursor.{IsScreen, put_cell_one-IsAdvanced, put_cell-IsScreen}

-- The screen after one space.
abbrev space : Screen → Screen
space s = put_cell s (0x20 ∷ []) 1

-- The next tab stop.
abbrev pub stop : Screen → ℕ
stop s = (s.x / 8 + 1) * 8

-- The spaces reach a tab stop, or the start of a line, or a last column that is a tab stop.
unfoldable pub HasStop : Screen → Type 0
HasStop s = (s.y + 1 < s.rows) ⊎ (((s.cols - 1) % 8 ≡ 0) ⊎ (stop s < s.cols))

-- Only the cursor's column can change: the last row has no next one.
unfoldable pub HasNoStop : Screen → Type 0
HasNoStop s = (s.y + 1 ≡ s.rows) × (((s.cols - 1) % 8 ≢ 0) × (s.cols ≤ stop s))

goes_on : Screen → Bool
goes_on s = not (s.x % 8 == 0) && not (s.x == 0)

goes_on-HasStop :
    (s : Screen)
    → IsScreen s
    → HasStop s
    → goes_on (space s) ≡ true
    → HasStop (space s) × ((space s).x ≡ s.x + 1)
unfolding HasStop goes_on
goes_on-HasStop s v h e =
    let a = put_cell_one-IsAdvanced s (0x20 ∷ []) in
    let x = a.x_eq in
    let y = a.y_eq in
    let r = a.rows_eq in
    let c = a.cols_eq in
    let step : (space s).x ≡ s.x + 1 = ground (arith, e, x, h, v.x_lt) in
    let v' = put_cell-IsScreen s (0x20 ∷ []) 1 v in
    let same_y : (space s).y ≡ s.y = ground (arith, y, step, v'.x_lt, c) in
    let off : (space s).x % 8 ≢ 0 = ground (arith, e) in
    let same_stop : stop (space s) ≡ stop s = omega (arith, step, off) in
    (
      elim h [
        | inl below ↦ inl (omega (arith, below, same_y, r))
        | inr (inl end) ↦ inr (inl (omega (arith, end, c)))
        | inr (inr before) ↦ inr (inr (omega (arith, before, same_stop, c)))
      ],
      step,
    )

goes_on_off : (s : Screen) → goes_on (space s) ≡ true → (space s).x % 8 ≢ 0
unfolding goes_on
goes_on_off s e = ground (arith, e)

pub put_tab-HasStop :
    (fuel : ℕ) (s : Screen)
    → IsScreen s
    → HasStop s
    → 8 ≤ fuel + s.x % 8
    → (s' : Screen) × ((put_tab fuel s ≡ some s') × IsScreen s')
unfolding put_tab goes_on
put_tab-HasStop zero s v h f = absurd (omega (arith, f))
put_tab-HasStop (suc fuel) s v h f =
    let v' = put_cell-IsScreen s (0x20 ∷ []) 1 v in
    elim (Bool-cases (goes_on (space s))) [
      | inl e ↦
          let (h', x) = goes_on-HasStop s v h e in
          rw (put_tab, e)
            (put_tab-HasStop fuel (space s) v' h' (omega (arith, f, x, goes_on_off s e)))
      | inr e ↦ (space s, (rw (put_tab, e) refl, v'))
    ]

pub stop_cases : (s : Screen) → IsScreen s → HasStop s ⊎ HasNoStop s
unfolding HasStop HasNoStop
stop_cases s v = elim (Bool-cases (ltb (s.y + 1) s.rows)) [
  | inl e ↦ inl (inl (ground (arith, e)))
  | inr e ↦ elim (Bool-cases ((s.cols - 1) % 8 == 0)) [
    | inl f ↦ inl (inr (inl (ground (arith, f))))
    | inr f ↦ elim (Bool-cases (ltb (stop s) s.cols)) [
      | inl g ↦ inl (inr (inr (ground (arith, g))))
      | inr g ↦ inr (ground (arith, e, v.y_lt), (λ z. ground (arith, f, z), ground (arith, g)))
    ]
  ]
]

-- More rounds find the same.
put_tab_more :
    (fuel more : ℕ) (s s' : Screen) → put_tab fuel s ≡ some s' → put_tab (fuel + more) s ≡ some s'
unfolding put_tab goes_on
put_tab_more zero more s s' e = absurd (ground (arith, e))
put_tab_more (suc fuel) more s s' e =
    let next : suc fuel + more ≡ suc (fuel + more) = omega arith in
    rw next (elim (Bool-cases (goes_on (space s))) [
      | inl g ↦
          rw (put_tab, g) (put_tab_more fuel more (space s) s' (sym (rw (put_tab, g) refl) ∙ e))
      | inr g ↦ rw (put_tab, g) (sym (rw (put_tab, g) refl) ∙ e)
    ])

pub put_tab-HasNoStop : (fuel : ℕ) (s : Screen) → IsScreen s → HasNoStop s → put_tab fuel s ≡ none
unfolding put_tab HasNoStop goes_on
put_tab-HasNoStop zero s v h = refl
put_tab-HasNoStop (suc fuel) s v (last, (off, past)) =
    let v' = put_cell-IsScreen s (0x20 ∷ []) 1 v in
    let a = put_cell_one-IsAdvanced s (0x20 ∷ []) in
    let x = a.x_eq in
    let y = a.y_eq in
    let next : ((space s).x ≡ s.x + 1) ⊎ ((space s).x ≡ s.cols - 1) = ground (arith, x, last) in
    let same_y : (space s).y ≡ s.y = ground (arith, y, last) in
    let off' : (space s).x % 8 ≢ 0 = elim next [
      | inl n ↦ omega (arith, n, past, v'.x_lt, a.cols_eq)
      | inr n ↦ λ z. off (omega (arith, z, n))
    ] in
    let past' : s.cols ≤ stop (space s) = elim next [
      | inl n ↦ omega (arith, n, past)
      | inr n ↦ omega (arith, n)
    ] in
    let e : goes_on (space s) ≡ true = ground (arith, off') in
    rw (put_tab, e)
      (put_tab-HasNoStop fuel (space s) v' (
        omega (arith, same_y, last, a.rows_eq),
        (λ z. off (omega (arith, z, a.cols_eq)), omega (arith, past', a.cols_eq)),
      ))

-- With the cursor on the grid, the loop over the spaces of a tab finds the same with more than
-- eight rounds as with eight: it ends within eight rounds or not at all.
pub put_tab-enough : (fuel : ℕ) (s : Screen) → IsScreen s → put_tab (8 + fuel) s ≡ put_tab 8 s
unfolding HasStop HasNoStop
put_tab-enough fuel s v = elim (stop_cases s v) [
  | inl h ↦
      let (s', (e, _)) = put_tab-HasStop 8 s v h (omega arith) in put_tab_more 8 fuel s s' e ∙ sym e
  | inr h ↦ put_tab-HasNoStop (8 + fuel) s v h ∙ sym (put_tab-HasNoStop 8 s v h)
]
