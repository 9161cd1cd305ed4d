-- ===== src/Regex/Pike/Safe.antt =====
-- The lockstep matcher of src/regex.c stays within a program whose jumps and sets are within
-- bounds, within its marks and its lists, and within the text.
use xzile.Prelude.{
  ℕ, zero, suc, ◌+◌, ◌≤◌, ◌<◌, ◌≡◌, sym, ◌⊎◌, inl, inr, Bool, true, false, some, arith, ltb, leb,
  Option-cases, length, get_elem?,
}
use mathlib.Core.Path.{subst}
use xzile.Utf8.Roundtrip.{utf8_decode-IsDecoded}
use xzile.VTerm.Dispatch.Safe.{either_lem}
use xzile.Regex.{
  pos, negsuc, Inst, op_char, op_any, op_set, op_bol, op_eol, op_bob, op_eob, op_wordb, op_nwordb,
  op_wstart, op_wend, op_wordchar, op_nwordchar, op_space, op_nspace, op_split, op_jmp, op_save,
  op_mark, op_check, op_match, Regex,
}
use xzile.Regex.Closed.{FitsAt}
use xzile.Regex.Run.{Ctype, Subject, char_len_at}
use xzile.Regex.Run.Safe.{IsProgram, get-within, within-get, program_at}
use xzile.Regex.Run.Safe.Steps.{limits, length_prog}
use xzile.Regex.Pike.{bytes_if, max_wait, char_bytes, inst_bytes, pike_run}
use xzile.Regex.Pike.Kept.{Target, IsRead, IsKept}
use xzile.Regex.Pike.Rounds.{IsRun, pike_run-IsRun}

module _ (ct : Ctype) (re : Regex) (s : Subject) (p : IsProgram re) where
  -- A thread is in the program, and has gone from its start to a place in the text.
  pub record IsPlace (start pc sp : ℕ) : Type 0 where
    pub pc_lt : pc < length re.prog
    pub start_le : start ≤ sp
    pub sp_le : sp ≤ length s.text

  pub fits :
      (pc : ℕ) (i : Inst)
      → get_elem? re.prog pc ≡ some i
      → (i ≡ op_match) ⊎ ((pc < length p.body) × FitsAt (limits ct re s p) (length p.body) pc i)
  fits pc i e =
      elim (program_at (limits ct re s p) (length p.body) 0 p.body pc i p.closed
        (subst (λ v. get_elem? v pc ≡ some i) p.prog_eq e)) [
          | inl q ↦ inl q
          | inr (h, f) ↦
              inr (h, subst (λ k. FitsAt (limits ct re s p) (length p.body) k i) (omega arith) f)
        ]

  Target-lt :
      (pc sp to : ℕ) (i : Inst)
      → pc < length p.body
      → FitsAt (limits ct re s p) (length p.body) pc i
      → Target ct s i pc sp to
      → to ≤ length p.body
  unfolding Target FitsAt
  Target-lt pc sp to (op_jmp (pos a)) h f t = omega (arith, h, f, t)
  Target-lt pc sp to (op_jmp (negsuc a)) h f (t, k) = omega (arith, h, f, t)
  Target-lt pc sp to (op_split a b) h (f, g) (inl t) = omega (arith, f, t)
  Target-lt pc sp to (op_split a b) h (f, g) (inr t) = omega (arith, g, t)
  Target-lt pc sp to (op_save r) h f t = omega (arith, h, t)
  Target-lt pc sp to (op_mark r) h f t = omega (arith, h, t)
  Target-lt pc sp to (op_check r) h f t = omega (arith, h, t)
  Target-lt pc sp to op_bol h f (q, t) = omega (arith, h, t)
  Target-lt pc sp to op_eol h f (q, t) = omega (arith, h, t)
  Target-lt pc sp to op_bob h f (q, t) = omega (arith, h, t)
  Target-lt pc sp to op_eob h f (q, t) = omega (arith, h, t)
  Target-lt pc sp to op_wordb h f (q, t) = omega (arith, h, t)
  Target-lt pc sp to op_nwordb h f (q, t) = omega (arith, h, t)
  Target-lt pc sp to op_wstart h f (q, t) = omega (arith, h, t)
  Target-lt pc sp to op_wend h f (q, t) = omega (arith, h, t)
  Target-lt pc sp to _ h f t = absurd t

  pub match-Target : (pc sp to : ℕ) (i : Inst) → i ≡ op_match → Target ct s i pc sp to → ⊥
  unfolding Target
  match-Target pc sp to i q t = subst (λ x. Target ct s x pc sp to) q t

  pub moved-IsPlace :
      (start pc sp to : ℕ) (i : Inst)
      → IsPlace start pc sp
      → get_elem? re.prog pc ≡ some i
      → Target ct s i pc sp to
      → IsPlace start to sp
  moved-IsPlace start pc sp to i g e t = elim (fits pc i e) [
    | inl q ↦ absurd (match-Target pc sp to i q t)
    | inr (h, f) ↦ record {
      pc_lt = omega (arith, Target-lt pc sp to i h f t, length_prog ct re s p);
      start_le = g.start_le;
      sp_le = g.sp_le;
    }
  ]

  jump_back : (pc a : ℕ) → get_elem? re.prog pc ≡ some (op_jmp (negsuc a)) → a < pc
  unfolding FitsAt
  jump_back pc a e = elim (fits pc (op_jmp (negsuc a)) e) [
    | inl q ↦ absurd (ground (arith, q))
    | inr (h, f) ↦ f
  ]

  -- A number of bytes behind `sp` that are in the text, of one character.
  IsLen : ℕ → ℕ → Type 0
  IsLen sp n = (n ≤ max_wait + 1) × (sp + n ≤ length s.text)

  char_len_at-IsLen : (sp : ℕ) → sp < length s.text → IsLen sp (char_len_at s sp).0
  unfolding char_len_at IsLen
  char_len_at-IsLen sp h = ground (arith, h, utf8_decode-IsDecoded s.text sp)

  one-IsLen : (sp : ℕ) → sp < length s.text → IsLen sp 1
  unfolding IsLen
  one-IsLen sp h = omega (arith, h)

  module _ (start pc sp : ℕ) (g : IsPlace start pc sp) (h : pc < length p.body) where
    bytes_if-IsRead : (ok : Bool) (n : ℕ) → IsLen sp n → IsRead IsPlace start pc sp (bytes_if ok n)
    unfolding IsRead IsLen
    bytes_if-IsRead false n l = tt
    bytes_if-IsRead true zero l = tt
    bytes_if-IsRead true (suc n) (k, l) = (
      omega (arith, k),
      record {
        pc_lt = omega (arith, h, length_prog ct re s p);
        start_le = omega (arith, g.start_le);
        sp_le = l;
      },
    )

    char_bytes-IsRead :
        (i : Inst) (c : ℕ)
        → sp < length s.text
        → FitsAt (limits ct re s p) (length p.body) pc i
        → IsRead IsPlace start pc sp (char_bytes ct re s i c sp)
    unfolding char_bytes FitsAt IsRead
    char_bytes-IsRead (op_char a) c k f = bytes_if-IsRead _ 1 (one-IsLen sp k)
    char_bytes-IsRead op_any c k f = bytes_if-IsRead _ _ (char_len_at-IsLen sp k)
    char_bytes-IsRead (op_set index) c k f = elim (Option-cases (get_elem? re.sets index)) [
      | inl e ↦ absurd (get-within re.sets index f e)
      | inr (cs, e) ↦
          rw (char_bytes, e)
            (bytes_if-IsRead _ _
              (either_lem (IsLen sp) (ltb c 0x80) 1 _ (one-IsLen sp k) (char_len_at-IsLen sp k)))
    ]
    char_bytes-IsRead op_wordchar c k f =
        bytes_if-IsRead _ _
          (either_lem (IsLen sp) (leb 0x80 c) _ 1 (char_len_at-IsLen sp k) (one-IsLen sp k))
    char_bytes-IsRead op_nwordchar c k f =
        bytes_if-IsRead _ _
          (either_lem (IsLen sp) (leb 0x80 c) _ 1 (char_len_at-IsLen sp k) (one-IsLen sp k))
    char_bytes-IsRead op_space c k f = bytes_if-IsRead _ 1 (one-IsLen sp k)
    char_bytes-IsRead op_nspace c k f = bytes_if-IsRead _ 1 (one-IsLen sp k)
    char_bytes-IsRead _ c k f = tt

  match_bytes : (start pc sp c : ℕ) → IsRead IsPlace start pc sp (char_bytes ct re s op_match c sp)
  unfolding char_bytes IsRead
  match_bytes start pc sp c = tt

  pub inst_bytes-IsRead :
      (start pc sp : ℕ) (i : Inst)
      → IsPlace start pc sp
      → get_elem? re.prog pc ≡ some i
      → IsRead IsPlace start pc sp (inst_bytes ct re s i sp)
  unfolding inst_bytes IsRead
  inst_bytes-IsRead start pc sp i g e = elim (Option-cases (get_elem? s.text sp)) [
    | inl q ↦ rw (inst_bytes, q) tt
    | inr (c, q) ↦ elim (fits pc i e) [
      | inl m ↦
          rw (inst_bytes, q)
            (subst (λ x. IsRead IsPlace start pc sp (char_bytes ct re s x c sp)) (sym m)
              (match_bytes start pc sp c))
      | inr (h, f) ↦
          rw (inst_bytes, q) (char_bytes-IsRead start pc sp g h i c (within-get s.text sp c q) f)
    ]
  ]

  pub IsPlace-IsKept : (anchored : Bool) → IsKept ct re s IsPlace anchored
  IsPlace-IsKept anchored = record {
    in_prog = λ start pc sp g. g.pc_lt;
    back = jump_back;
    moves = moved-IsPlace;
    reads = inst_bytes-IsRead;
    fresh = λ sp a h. record {
      pc_lt = omega (arith, length_prog ct re s p);
      start_le = omega arith;
      sp_le = h;
    };
  }

  -- `pike_run` ends, and what it finds is a match of a part of the text.
  pub pike_run-IsSafe :
      (anchored : Bool) (from : ℕ)
      → from ≤ length s.text
      → IsRun ct re s IsPlace (pike_run ct re s from anchored)
  pike_run-IsSafe anchored from h =
      pike_run-IsRun ct re s IsPlace anchored (IsPlace-IsKept anchored) from h
        (record { pc_lt = omega (arith, length_prog ct re s p); start_le = omega arith; sp_le = h })
