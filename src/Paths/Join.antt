-- ===== src/Paths/Join.antt =====
-- The last name of a path that `path_join` of src/util.c made.
use xzile.Prelude.{
  ℕ, zero, suc, ◌+◌, ◌-◌, ◌≤◌, ◌<◌, ◌≡◌, refl, sym, ap, ◌∙◌, inl, inr, true, false, ◌&&◌, List, [],
  ◌∷◌, ◌++◌, append_assoc, arith, ltb, ◌==◌, Bool-cases, length, get_or, drop, length-append,
  ext_get, get-append, get-take, get-drop, get-ge,
}
use xzile.Prelude.{if_true, if_false}
use xzile.Paths.{slash, slash_before, strip_slashes, strip_name, path_basename, path_join}

-- A file's name: not empty, and without a slash.
abbrev pub IsName : List ℕ → Type 0
IsName name = (0 < length name) × ((i : ℕ) → i < length name → (get_or name i 0 == slash) ≡ false)

get_or-behind : (pre s : List ℕ) (i : ℕ) → get_or (pre ++ s) (length pre + i) 0 ≡ get_or s i 0
get_or-behind [] s i = let e : 0 + i ≡ i = omega arith in rw e refl
get_or-behind (x ∷ pre) s i =
    let e : suc (length pre) + i ≡ suc (length pre + i) = omega arith in
    rw e (get_or-behind pre s i)

get_or-before : (pre s : List ℕ) (i : ℕ) → i < length pre → get_or (pre ++ s) i 0 ≡ get_or pre i 0
get_or-before [] s i h = absurd (omega arith)
get_or-before (x ∷ pre) s zero h = refl
get_or-before (x ∷ pre) s (suc i) h = get_or-before pre s i (omega arith)

strip_name-stop : (p : List ℕ) (n : ℕ) → 0 < n → slash_before p n ≡ true → strip_name p n ≡ n
unfolding strip_name
strip_name-stop p zero b h = absurd (omega arith)
strip_name-stop p (suc n) b h = if_true (slash_before p (suc n)) (suc n) (strip_name p n) h

strip_name-go :
    (p : List ℕ) (n : ℕ) → slash_before p (suc n) ≡ false → strip_name p (suc n) ≡ strip_name p n
unfolding strip_name
strip_name-go p n h = if_false (slash_before p (suc n)) (suc n) (strip_name p n) h

strip_slashes-stop : (p : List ℕ) (n : ℕ) → slash_before p n ≡ false → strip_slashes p n ≡ n
unfolding strip_slashes
strip_slashes-stop p zero h = refl
strip_slashes-stop p (suc n) h = ground (arith, h)

module _ (pre name : List ℕ) (named : IsName name) where
  abbrev path : List ℕ
  path = pre ++ name

  no_slash : (m : ℕ) → m < length name → slash_before path (suc (length pre + m)) ≡ false
  no_slash m h =
      let at : suc (length pre + m) - 1 ≡ length pre + m = omega arith in
      rw (at, get_or-behind pre name m) (named.1 m h)

  -- Stripping the name stops at the slash before it.
  strip_name_lem :
      slash_before pre (length pre) ≡ true
      → 0 < length pre
      → (m : ℕ) → m ≤ length name
      → strip_name path (length pre + m) ≡ length pre
  unfolding strip_name
  strip_name_lem h p zero b =
      let e : length pre + 0 ≡ length pre = omega arith in
      rw e (
        strip_name-stop path (length pre) p
          (ap (◌== slash) (get_or-before pre name (length pre - 1) (omega arith)) ∙ h))
  strip_name_lem h p (suc m) b =
      let e : length pre + suc m ≡ suc (length pre + m) = omega arith in
      rw e (
        strip_name-go path (length pre + m) (no_slash m (omega arith))
        ∙ strip_name_lem h p m (omega arith))

  kept : strip_slashes path (length path) ≡ length pre + length name
  kept =
      let all : length path ≡ suc (length pre + (length name - 1)) =
        omega (arith, named.0, length-append pre name) in
      ap (strip_slashes path) all
      ∙ (strip_slashes-stop path _ (no_slash (length name - 1) (omega (arith, named.0)))
          ∙ omega (arith, named.0))

  basename_lem : slash_before pre (length pre) ≡ true → 0 < length pre → path_basename path ≡ name
  unfolding path_basename
  basename_lem h p =
      let start = strip_name_lem h p (length name) (omega arith) in
      let some_left : (length pre + length name == 0) ≡ false = ground arith in
      let more : (length pre + length name == 1) ≡ false = ground (arith, named.0) in
      rw (kept, start, some_left, more)
        (ext_get _ _ λ i. ground (
          arith,
          get-take (length pre + length name - length pre) (drop (length pre) path) i,
          get-drop (length pre) path i,
          get-append pre name (length pre + i),
          get-ge name i,
        ))

-- `path_basename` of a directory joined with a name that is not empty and has no slash is the name,
-- whether the directory ends in a slash, is empty, or neither.
pub path_basename-path_join :
    (dir name : List ℕ) → IsName name → path_basename (path_join dir name) ≡ name
unfolding path_join
path_basename-path_join dir name n =
    elim (Bool-cases (ltb 0 (length dir) && slash_before dir (length dir))) [
      | inl e ↦ rw e (basename_lem dir name n (ground arith) (ground arith))
      | inr e ↦
          let pre = dir ++ (slash ∷ []) in
          let whole : dir ++ (slash ∷ name) ≡ pre ++ name =
            sym (append_assoc dir (slash ∷ []) name) in
          let n1 = length-append dir (slash ∷ []) in
          let at : length pre - 1 ≡ length dir + 0 = omega (arith, n1) in
          let ends : slash_before pre (length pre) ≡ true =
            rw (at, get_or-behind dir (slash ∷ []) 0) refl in
          rw (e, whole) (basename_lem pre name n ends (omega (arith, n1)))
    ]
