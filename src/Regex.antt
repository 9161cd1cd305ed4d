-- ===== src/Regex.antt =====
-- The programs of src/regex.c: instructions with relative jumps, fragments of them that are put
-- together, and sets of characters. A set's bits are a list of 256 flags. An offset is an `ℤ`; only
-- a loop's end jumps back. `nloops` is the parser's count of loop registers.
use xzile.Prelude.{
  ℕ, zero, suc, ◌+◌, ◌-◌, ◌*◌, ◌/◌, ◌%◌, ◌^◌, ◌≤◌, ◌<◌, min, max, ◌≡◌, refl, sym, ap, ap₂, ◌∙◌,
  fun_ext, ◌≢◌, ◌↔◌, ◌⊎◌, inl, inr, Bool, true, false, ◌&&◌, ◌||◌, not, Option, none, some, List,
  [], ◌∷◌, ◌++◌, map, append-nil, append_assoc, arith, ltb, leb, ◌==◌, if◌then◌else◌, ltb→lt,
  lt→ltb, leb→le, ==_iff, tests, Bool-cases, Option-cases, length, get_elem?, set, get_or, take,
  drop, replicate, length-append, length-set, length-take, length-drop, length-replicate,
  length-map, take-append-drop, ext_get, get-append, get-take, get-drop, get-replicate, get-ge,
  drop-nil, drop-drop, drop-cons_pos, drop-ge, take-ge, slices, lengths,
}
pub mod Closed
pub mod Sets
pub mod Run
pub mod Bracket
pub mod Parse
pub mod Pike
pub mod Search
mod Tests

pub data ℤ : Type 0 where
  pos negsuc : ℕ → ℤ

pub data Inst : Type 0 where
  op_char : (byte : ℕ) → Inst
  op_any : Inst
  op_set : (index : ℕ) → Inst
  op_bol op_eol op_bob op_eob op_wordb op_nwordb op_wstart op_wend : Inst
  op_wordchar op_nwordchar op_space op_nspace : Inst
  op_split : (preferred alternative : ℕ) → Inst
  op_jmp : (offset : ℤ) → Inst
  op_save : (reg : ℕ) → Inst
  op_mark : (reg : ℕ) → Inst
  op_check : (reg : ℕ) → Inst
  op_backref : (group : ℕ) → Inst
  op_match : Inst

pub record CharSet : Type 0 where
  pub bits : List Bool
  pub ranges : List (ℕ × ℕ)
  pub negate : Bool

pub record Frag : Type 0 where
  pub v : List Inst
  pub nullable : Bool

pub record Regex : Type 0 where
  pub icase : Bool
  pub prog : List Inst
  pub sets : List CharSet
  pub ngroups : ℕ
  pub nregs : ℕ
  pub has_backref : Bool
  pub has_empty_loop : Bool

abbrev pub frag_empty : Frag
frag_empty = record { v = []; nullable = true }

unfoldable pub frag_alt : Frag → Frag → Frag
frag_alt f1 f2 =
    let n1 = length f1.v in
    let n2 = length f2.v in
    record {
      v = op_split 1 (n1 + 2) ∷ f1.v ++ op_jmp (pos (n2 + 1)) ∷ f2.v;
      nullable = f1.nullable || f2.nullable;
    }

unfoldable pub split : Bool → ℕ → Inst
split greedy n = if greedy then op_split 1 n else op_split n 1

-- The fragment, and `nloops` behind it.
unfoldable pub frag_star : ℕ → Frag → Bool → Frag × ℕ
frag_star nloops body greedy =
    let marked = op_mark nloops ∷ body.v ++ op_check nloops ∷ [] in
    let loop = if body.nullable then marked else body.v in
    let blen = length loop + 1 in
    (
      record {
        v = split greedy (blen + 1) ∷ loop ++ op_jmp (negsuc (blen - 1)) ∷ [];
        nullable = true;
      },
      if body.nullable then nloops + 1 else nloops,
    )

unfoldable pub frag_opt : Frag → Bool → Frag
frag_opt body greedy = record { v = split greedy (length body.v + 1) ∷ body.v; nullable = true }

-- `n` copies.
unfoldable pub copies : ℕ → List Inst → List Inst
copies zero v = []
copies (suc n) v = v ++ copies n v

-- The optional copies, nested.
unfoldable pub opt_copies : ℕ → Frag → Bool → List Inst → List Inst
opt_copies zero body greedy tail = tail
opt_copies (suc n) body greedy tail =
    let inner : Frag = record { v = body.v ++ tail; nullable = body.nullable } in
    opt_copies n body greedy (frag_opt inner greedy).v

-- `body{min,max}`, where `none` stands for a negative `max`.
unfoldable pub frag_repeat : ℕ → Frag → ℕ → Option ℕ → Bool → Frag × ℕ
frag_repeat nloops body min none greedy =
    let star = frag_star nloops body greedy in
    (record { v = copies min body.v ++ star.0.v; nullable = min == 0 || body.nullable }, star.1)
frag_repeat nloops body min (some max) greedy = (
  record {
    v = copies min body.v ++ opt_copies (max - min) body greedy [];
    nullable = min == 0 || body.nullable;
  },
  nloops,
)

-- The frame of a group: the registers of its start and its end.
unfoldable pub frag_group : ℕ → Frag → Frag
frag_group group inner = record {
  v = op_save (2 * group) ∷ inner.v ++ op_save (2 * group + 1) ∷ [];
  nullable = inner.nullable;
}

abbrev pub empty_set : CharSet
empty_set = record { bits = replicate 256 false; ranges = []; negate = false }

abbrev pub set_add_byte : CharSet → ℕ → CharSet
set_add_byte cs c = record cs { bits = set cs.bits c true }

abbrev pub set_has_byte : CharSet → ℕ → Bool
set_has_byte cs c = get_or cs.bits c false

-- The loop over the bytes from `lo` on, below 0x80.
unfoldable pub add_bytes : ℕ → CharSet → ℕ → ℕ → CharSet
add_bytes zero cs c hi = cs
add_bytes (suc fuel) cs c hi =
    let more = add_bytes fuel (set_add_byte cs c) (c + 1) hi in
    if leb c hi && ltb c 0x80 then more else cs

unfoldable pub set_add_range : CharSet → ℕ → ℕ → CharSet
set_add_range cs lo hi =
    let added = add_bytes 0x80 cs lo hi in
    if leb 0x80 hi then record added { ranges = added.ranges ++ (max lo 0x80, hi) ∷ [] } else added

unfoldable pub in_ranges : List (ℕ × ℕ) → ℕ → Bool
in_ranges [] cp = false
in_ranges ((lo, hi) ∷ ranges) cp = (leb lo cp && leb cp hi) || in_ranges ranges cp

abbrev pub set_has_cp : CharSet → ℕ → Bool
set_has_cp cs cp = in_ranges cs.ranges cp
