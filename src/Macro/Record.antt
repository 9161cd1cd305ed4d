-- ===== src/Macro/Record.antt =====
-- What is recorded in a macro of src/macro.c, and read again when it is called.
use xzile.Prelude.{
  ℕ, zero, suc, ◌≡◌, refl, sym, ap, ap₂, ◌∙◌, ◌⊎◌, inl, inr, Bool, true, false, Option, none, some,
  List, [], ◌∷◌, ◌++◌, map, append-nil, append_assoc, length,
}
use xzile.TermKeys.{TermKeys, codetokey, with_meta, term_getkey, term_ungetkey}
use xzile.TermKeys.Codes.{IsTyped, term_getkey-term_ungetkey}
use xzile.Macro.{
  Macros, add_cmd_to_macro, add_key_to_cmd, cancel_kbd_macro, start_kbd_macro, end_kbd_macro,
  getkeystroke, call_command, push_keys,
}

-- A key that a code stands for, with Meta or without.
abbrev pub IsKey : ℕ → Type 0
IsKey k =
    (c : ℕ) × (IsTyped c
      × ((codetokey (some c) ≡ some k) ⊎ (with_meta (codetokey (some c)) ≡ some k)))

unfoldable pub AreKeys : List ℕ → Type 0
AreKeys [] = Unit
AreKeys (k ∷ ks) = IsKey k × AreKeys ks

-- The terminal gives these keys, one after another, and is then as at the end.
unfoldable pub Reads : Bool → List ℕ → TermKeys → TermKeys → Type 0
Reads alone [] t t' = t ≡ t'
Reads alone (k ∷ ks) t t' =
    (t1 : TermKeys) × (term_getkey alone t ≡ (some k, t1)) × Reads alone ks t1 t'

one_back :
    (alone : Bool) (k : ℕ) (t : TermKeys)
    → IsKey k
    → term_getkey alone (term_ungetkey t (some k)) ≡ (some k, t)
one_back alone k t (c, (typed, inl e)) =
    ap (λ key. term_getkey alone (term_ungetkey t key)) (sym e)
    ∙ ((term_getkey-term_ungetkey c alone t typed).0 ∙ ap (λ key. (key, t)) e)
one_back alone k t (c, (typed, inr e)) =
    ap (λ key. term_getkey alone (term_ungetkey t key)) (sym e)
    ∙ ((term_getkey-term_ungetkey c alone t typed).1 ∙ ap (λ key. (key, t)) e)

Reads-push_keys :
    (alone : Bool) (ks : List ℕ) (t : TermKeys) → AreKeys ks → Reads alone ks (push_keys ks t) t
unfolding Reads push_keys AreKeys
Reads-push_keys alone [] t a = refl
Reads-push_keys alone (k ∷ ks) t (one, a) =
    (push_keys ks t, one_back alone k (push_keys ks t) one, Reads-push_keys alone ks t a)

Reads-append :
    (alone : Bool) (ks ls : List ℕ) (t t' : TermKeys)
    → Reads alone (ks ++ ls) t t'
    → (t1 : TermKeys) × Reads alone ks t t1 × Reads alone ls t1 t'
unfolding Reads
Reads-append alone [] ls t t' r = (t, refl, r)
Reads-append alone (k ∷ ks) ls t t' (t1, g, r) =
    let (t2, r1, r2) = Reads-append alone ks ls t1 t' r in (t2, (t1, g, r1), r2)

-- Keys read by `getkeystroke`, as many as asked for.
unfoldable pub strokes : Bool → ℕ → Macros → List (Option ℕ) × Macros
strokes alone zero m = ([], m)
strokes alone (suc n) m =
    let (key, m1) = getkeystroke alone m in let (keys, m2) = strokes alone n m1 in (key ∷ keys, m2)

-- The keys `ks` of a command are read, and the command is called.
unfoldable pub command : Bool → (Macros → Bool × Macros) → List ℕ → Macros → Macros
command alone f ks m = (call_command f (strokes alone (length ks) m).1).1

-- A command that leaves the macros as they are.
abbrev pub other_command : Macros → Bool × Macros
other_command m = (true, m)

unfoldable pub commands : Bool → List (List ℕ) → Macros → Macros
commands alone [] m = m
commands alone (ks ∷ cmds) m = commands alone cmds (command alone other_command ks m)

unfoldable pub joined : List (List ℕ) → List ℕ
joined [] = []
joined (ks ∷ cmds) = ks ++ joined cmds

-- Commands between the two that start and end a macro, whose keys are `first` and `last`.
unfoldable pub recorded : Bool → List ℕ → List (List ℕ) → List ℕ → Macros → Macros
recorded alone first cmds last m =
    let started = command alone start_kbd_macro first m in
    command alone end_kbd_macro last (commands alone cmds started)

abbrev pub macros : Option (List ℕ) → Option (List ℕ) → Bool → TermKeys → Macros
macros cur cmd defining keys = record {
  cur_mp = cur;
  cmd_mp = cmd;
  defining = defining;
  keys = keys;
}

-- `cmd_mp` after keys are added.
unfoldable typed : Option (List ℕ) → List ℕ → Option (List ℕ)
typed cmd [] = cmd
typed none (k ∷ ks) = typed (some (k ∷ [])) ks
typed (some cmd) (k ∷ ks) = typed (some (cmd ++ k ∷ [])) ks

typed-some : (cmd ks : List ℕ) → typed (some cmd) ks ≡ some (cmd ++ ks)
unfolding typed
typed-some cmd [] = ap some (sym (append-nil cmd))
typed-some cmd (k ∷ ks) = typed-some (cmd ++ k ∷ []) ks ∙ ap some (append_assoc cmd (k ∷ []) ks)

add_cmd_to_macro-typed :
    (cur ks : List ℕ) (t : TermKeys)
    → add_cmd_to_macro (macros (some cur) (typed none ks) true t)
      ≡ macros (some (cur ++ ks)) none true t
unfolding typed add_cmd_to_macro
add_cmd_to_macro-typed cur [] t = ap (λ c. macros (some c) none true t) (sym (append-nil cur))
add_cmd_to_macro-typed cur (k ∷ ks) t =
    ap (λ c. add_cmd_to_macro (macros (some cur) c true t)) (typed-some (k ∷ []) ks)

module _ (alone : Bool) where
  recorded_stroke :
      (k : ℕ) (cur cmd : Option (List ℕ)) (t t1 : TermKeys)
      → term_getkey alone t ≡ (some k, t1)
      → getkeystroke alone (macros cur cmd true t)
        ≡ (some k, macros cur (typed cmd (k ∷ [])) true t1)
  unfolding getkeystroke add_key_to_cmd typed
  recorded_stroke k cur none t t1 g = rw (getkeystroke, ap (λ p. p.0) g, ap (λ p. p.1) g) refl
  recorded_stroke k cur (some cmd) t t1 g = rw (getkeystroke, ap (λ p. p.0) g, ap (λ p. p.1) g) refl

  silent_stroke :
      (k : ℕ) (cur cmd : Option (List ℕ)) (t t1 : TermKeys)
      → term_getkey alone t ≡ (some k, t1)
      → getkeystroke alone (macros cur cmd false t) ≡ (some k, macros cur cmd false t1)
  unfolding getkeystroke
  silent_stroke k cur cmd t t1 g = rw (getkeystroke, ap (λ p. p.0) g, ap (λ p. p.1) g) refl

  read_next :
      (k : ℕ) (ks : List (Option ℕ)) (n : ℕ) (m m1 m2 : Macros)
      → getkeystroke alone m ≡ (some k, m1)
      → strokes alone n m1 ≡ (ks, m2)
      → strokes alone (suc n) m ≡ (some k ∷ ks, m2)
  unfolding strokes
  read_next k ks n m m1 m2 e r =
      ap (λ p. (p.0 ∷ (strokes alone n p.1).0, (strokes alone n p.1).1)) e
      ∙ ap (λ q. (some k ∷ q.0, q.1)) r

  strokes-typed :
      (ks : List ℕ) (cur cmd : Option (List ℕ)) (t t' : TermKeys)
      → Reads alone ks t t'
      → strokes alone (length ks) (macros cur cmd true t)
        ≡ (map some ks, macros cur (typed cmd ks) true t')
  unfolding Reads strokes typed
  strokes-typed [] cur cmd t t' r = ap (λ keys. ([], macros cur cmd true keys)) r
  strokes-typed (k ∷ ks) cur none t t' (t1, g, r) =
      let rest = strokes-typed ks cur (some (k ∷ [])) t1 t' r in
      read_next k (map some ks) (length ks) _ _ _ (recorded_stroke k cur none t t1 g) rest
  strokes-typed (k ∷ ks) cur (some cmd) t t' (t1, g, r) =
      let rest = strokes-typed ks cur (some (cmd ++ k ∷ [])) t1 t' r in
      read_next k (map some ks) (length ks) _ _ _ (recorded_stroke k cur (some cmd) t t1 g) rest

  strokes-silent :
      (ks : List ℕ) (cur cmd : Option (List ℕ)) (t t' : TermKeys)
      → Reads alone ks t t'
      → strokes alone (length ks) (macros cur cmd false t) ≡ (map some ks, macros cur cmd false t')
  unfolding Reads strokes
  strokes-silent [] cur cmd t t' r = ap (λ keys. ([], macros cur cmd false keys)) r
  strokes-silent (k ∷ ks) cur cmd t t' (t1, g, r) =
      let rest = strokes-silent ks cur cmd t1 t' r in
      read_next k (map some ks) (length ks) _ _ _ (silent_stroke k cur cmd t t1 g) rest

  starts :
      (first : List ℕ) (cur : Option (List ℕ)) (t t' : TermKeys)
      → Reads alone first t t'
      → command alone start_kbd_macro first (macros cur none false t)
        ≡ macros (some []) none true t'
  unfolding command call_command start_kbd_macro cancel_kbd_macro
  starts first none t t' r =
      ap (λ s. (call_command start_kbd_macro s.1).1) (strokes-silent first none none t t' r)
  starts first (some cur) t t' r =
      ap (λ s. (call_command start_kbd_macro s.1).1) (strokes-silent first (some cur) none t t' r)

  goes_on :
      (ks cur : List ℕ) (t t' : TermKeys)
      → Reads alone ks t t'
      → command alone other_command ks (macros (some cur) none true t)
        ≡ macros (some (cur ++ ks)) none true t'
  unfolding command call_command
  goes_on ks cur t t' r =
      ap (λ s. (call_command other_command s.1).1) (strokes-typed ks (some cur) none t t' r)
      ∙ add_cmd_to_macro-typed cur ks t'

  ends :
      (last cur : List ℕ) (t t' : TermKeys)
      → Reads alone last t t'
      → command alone end_kbd_macro last (macros (some cur) none true t)
        ≡ macros (some cur) none false t'
  unfolding command call_command end_kbd_macro
  ends last cur t t' r =
      ap (λ s. (call_command end_kbd_macro s.1).1) (strokes-typed last (some cur) none t t' r)

  commands-joined :
      (cmds : List (List ℕ)) (cur : List ℕ) (t t' : TermKeys)
      → Reads alone (joined cmds) t t'
      → commands alone cmds (macros (some cur) none true t)
        ≡ macros (some (cur ++ joined cmds)) none true t'
  unfolding commands joined Reads
  commands-joined [] cur t t' r =
      ap₂ (λ c keys. macros (some c) none true keys) (sym (append-nil cur)) r
  commands-joined (ks ∷ cmds) cur t t' r =
      let (t1, r1, r2) = Reads-append alone ks (joined cmds) t t' r in
      ap (commands alone cmds) (goes_on ks cur t t1 r1)
      ∙ (commands-joined cmds (cur ++ ks) t1 t' r2
          ∙ ap (λ c. macros (some c) none true t') (append_assoc cur ks (joined cmds)))

  -- With no macro being defined and no keys of a command left, `getkeystroke` reads the keys of a
  -- command, which starts a macro, of some commands, and of a command that ends it. Then the macro
  -- is the keys of the commands between, in order, without those of the two around, no macro is
  -- being defined, and the keys left are those behind. The keys of the macro, pushed back as
  -- `call_macro` does, are read by `getkeystroke` as they were typed, are not recorded again, and
  -- the keys left are as before. The keys of the macro are those that a byte other than ESC, or a
  -- special key, types, with Meta or without.
  pub recorded-joined :
      (first : List ℕ) (cmds : List (List ℕ)) (last : List ℕ) (m : Macros) (t : TermKeys)
      → m.defining ≡ false
      → m.cmd_mp ≡ none
      → Reads alone (first ++ (joined cmds ++ last)) m.keys t
      → AreKeys (joined cmds)
      → (recorded alone first cmds last m ≡ macros (some (joined cmds)) none false t)
        × (strokes alone
              (length (joined cmds))
              (macros (some (joined cmds)) none false (push_keys (joined cmds) t))
            ≡ (map some (joined cmds), macros (some (joined cmds)) none false t))
  unfolding recorded
  recorded-joined first cmds last m t d e r a =
      let all = joined cmds in
      let (t1, r1, r') = Reads-append alone first (all ++ last) m.keys t r in
      let (t2, r2, r3) = Reads-append alone all last t1 t r' in
      (
        ap (recorded alone first cmds last)
              (ap₂ (λ cmd defining. macros m.cur_mp cmd defining m.keys) e d)
            ∙ (ap (λ s. command alone end_kbd_macro last (commands alone cmds s))
                  (starts first m.cur_mp m.keys t1 r1)
                ∙ (ap (command alone end_kbd_macro last) (commands-joined cmds [] t1 t2 r2)
                    ∙ ends last all t2 t r3)),
        strokes-silent all (some all) none (push_keys all t) t (Reads-push_keys alone all t a),
      )
