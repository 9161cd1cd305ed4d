-- ===== src/Screen/Draw.antt =====
-- `term_addnstr` of src/screen.c.
use xzile.Prelude.{
  ℕ, zero, suc, ◌≡◌, refl, ◌∙◌, inl, inr, true, ◌&&◌, ◌||◌, Option, none, some, List, ◌∷◌, arith,
  ltb, ◌==◌, Bool-cases, Option-cases, length, get_or,
}
use xzile.Utf8.{replacement, utf8_decode}
use xzile.Screen.{Screen, put_wide, put_utf8, put_at, draw_from, term_addnstr, octal, put_tab}
use xzile.Screen.Cursor.{
  IsScreen, put_cell-IsScreen, put_combining-IsScreen, put_newline-IsScreen, put_cells-IsScreen,
}
use xzile.Screen.Tabs.{HasNoStop, stop_cases, put_tab-HasStop, put_tab-HasNoStop}
use mathlib.Core.Path.{subst}

-- The text is drawn, with the cursor on the grid, or it has a tab that is not.
unfoldable pub IsOutcome : List ℕ → Option Screen → Type 0
IsOutcome bytes none = (i : ℕ) × (get_or bytes i 0 ≡ 9)
IsOutcome bytes (some s) = IsScreen s

module _ (wcwidth : ℕ → Option ℕ) where
  put_wide-IsScreen :
      (s : Screen) (bytes : List ℕ) (cp : ℕ) → IsScreen s → IsScreen (put_wide wcwidth s bytes cp)
  unfolding put_wide
  put_wide-IsScreen s bytes cp v = elim (Option-cases (wcwidth cp)) [
    | inl e ↦ rw (put_wide, e) (put_cell-IsScreen s bytes 1 v)
    | inr (w, e) ↦ elim (Bool-cases (w == 0)) [
      | inl z ↦ rw (put_wide, e, z) (put_combining-IsScreen s bytes v)
      | inr z ↦ rw (put_wide, e, z) (put_cell-IsScreen s bytes _ v)
    ]
  ]

  put_utf8-IsScreen :
      (s : Screen) (bytes : List ℕ) (i : ℕ) → IsScreen s → IsScreen (put_utf8 wcwidth s bytes i)
  unfolding put_utf8
  put_utf8-IsScreen s bytes i v =
      let (cp, n) = utf8_decode bytes i in
      elim (Bool-cases (cp == replacement && n == 1)) [
        | inl e ↦ rw (put_utf8, e) (put_cell-IsScreen s _ 1 v)
        | inr e ↦ elim (Bool-cases (ltb cp 0xA0)) [
          | inl f ↦ rw (put_utf8, e, f) (put_cells-IsScreen s (octal cp) v)
          | inr f ↦ rw (put_utf8, e, f) (put_wide-IsScreen s _ cp v)
        ]
      ]

  put_tab-IsOutcome :
      (s : Screen) (bytes : List ℕ) (i : ℕ)
      → IsScreen s
      → get_or bytes i 0 ≡ 9
      → IsOutcome bytes (put_tab 8 s)
  unfolding IsOutcome
  put_tab-IsOutcome s bytes i v e = elim (stop_cases s v) [
    | inl h ↦ let (s', (r, v')) = put_tab-HasStop 8 s v h (omega arith) in rw r v'
    | inr h ↦ rw (put_tab-HasNoStop 8 s v h) (i, e)
  ]

  put_at-IsOutcome :
      (s : Screen) (bytes : List ℕ) (i : ℕ)
      → IsScreen s
      → IsOutcome bytes (put_at wcwidth s bytes i)
  unfolding put_at IsOutcome
  put_at-IsOutcome s bytes i v =
      let b = get_or bytes i 0 in
      elim (Bool-cases (b == 10)) [
        | inl e ↦ rw (put_at, e) (put_newline-IsScreen s v)
        | inr e ↦ elim (Bool-cases (b == 9)) [
          | inl f ↦ rw (put_at, e, f) (put_tab-IsOutcome s bytes i v (ground (arith, f)))
          | inr f ↦ elim (Bool-cases (ltb b 0x20 || b == 0x7F)) [
            | inl g ↦ rw (put_at, e, f, g) (put_cells-IsScreen s _ v)
            | inr g ↦ elim (Bool-cases (ltb b 0x80)) [
              | inl h ↦ rw (put_at, e, f, g, h) (put_cell-IsScreen s _ 1 v)
              | inr h ↦ rw (put_at, e, f, g, h) (put_utf8-IsScreen s bytes i v)
            ]
          ]
        ]
      ]

  draw_from-IsOutcome :
      (fuel : ℕ) (s : Screen) (bytes : List ℕ) (i : ℕ)
      → IsScreen s
      → IsOutcome bytes (draw_from wcwidth fuel s bytes i)
  unfolding draw_from IsOutcome
  draw_from-IsOutcome zero s bytes i v = v
  draw_from-IsOutcome (suc fuel) s bytes i v = elim (Bool-cases (ltb i (length bytes))) [
    | inr e ↦ rw (draw_from, e) v
    | inl e ↦
        let next = put_at-IsOutcome s bytes i v in
        elim (Option-cases (put_at wcwidth s bytes i)) [
          | inl f ↦ rw (draw_from, e, f) (subst (IsOutcome bytes) f next)
          | inr (s', f) ↦
              rw (draw_from, e, f)
                (draw_from-IsOutcome fuel s' bytes _ (subst (IsOutcome bytes) f next))
        ]
  ]

  -- Drawing any text, valid UTF-8 or not, keeps the cursor on the grid and the number of cells, or
  -- else does not end, and then the text has a tab.
  pub term_addnstr-IsOutcome :
      (s : Screen) (bytes : List ℕ) → IsScreen s → IsOutcome bytes (term_addnstr wcwidth s bytes)
  unfolding term_addnstr
  term_addnstr-IsOutcome s bytes = draw_from-IsOutcome (length bytes) s bytes 0

  draw_from-none :
      (fuel : ℕ) (s : Screen) (bytes : List ℕ) (i : ℕ)
      → ltb i (length bytes) ≡ true
      → put_at wcwidth s bytes i ≡ none
      → draw_from wcwidth (suc fuel) s bytes i ≡ none
  unfolding draw_from
  draw_from-none fuel s bytes i e f = rw (draw_from, e, f) refl

  put_at-tab : (s : Screen) (bytes : List ℕ) → put_at wcwidth s (9 ∷ bytes) 0 ≡ put_tab 8 s
  unfolding put_at
  put_at-tab s bytes = refl

  -- On the last row, where the next tab stop is behind the last column and the last column is no
  -- tab stop, drawing a tab does not end.
  pub term_addnstr-tab :
      (s : Screen) (bytes : List ℕ)
      → IsScreen s
      → HasNoStop s
      → term_addnstr wcwidth s (9 ∷ bytes) ≡ none
  unfolding term_addnstr
  term_addnstr-tab s bytes v h =
      draw_from-none (length bytes) s (9 ∷ bytes) 0 (ground arith)
        (put_at-tab s bytes ∙ put_tab-HasNoStop 8 s v h)
