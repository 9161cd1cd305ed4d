-- ===== src/Buffer/Index.antt =====
-- The line index and the syntax cache of src/buffer.c, as far as edits invalidate them.
use xzile.Prelude.{
  ℕ, zero, suc, ◌+◌, ◌-◌, ◌*◌, ◌/◌, ◌%◌, true, false, not, none, some, List, [], ◌∷◌, ◌++◌, ltb,
  leb, ◌==◌, if◌then◌else◌, length, get_or, take,
}
use xzile.Buffer.{Buffer, LineIndex, buffer_end_of_line, buffer_next_line, buffer_start_of_line}

abbrev pub line_index_stride : ℕ
line_index_stride = 256

abbrev pub reset_line_index : LineIndex
reset_line_index = record { checkpoints = 0 ∷ []; upto_line = 0; upto_offset = 0 }

-- The loop of `ensure_line_index_to_offset`: the next line begins further on, so `offset` rounds
-- are enough.
unfoldable pub index_lines : ℕ → Buffer → ℕ → LineIndex → LineIndex
index_lines zero bp offset ix = ix
index_lines (suc fuel) bp offset ix = elim (ltb ix.upto_offset offset) [
  | false ↦ ix
  | true ↦ elim (buffer_next_line bp ix.upto_offset) [
    | none ↦ ix
    | some next_o ↦ index_lines fuel bp offset (record {
      checkpoints =
          if (ix.upto_line + 1) % line_index_stride == 0
          then ix.checkpoints ++ next_o ∷ []
          else ix.checkpoints;
      upto_line = ix.upto_line + 1;
      upto_offset = next_o;
    })
  ]
]

unfoldable pub ensure_line_index_to_offset : Buffer → ℕ → Buffer
ensure_line_index_to_offset bp offset = record bp {
  index = index_lines (offset + 1) bp offset bp.index;
}

-- `for (i = n - 1; i > 0; i--) if (checkpoints[i] <= offset) return i; return 0;`
unfoldable pub last_checkpoint : List ℕ → ℕ → ℕ → ℕ
last_checkpoint cs offset zero = 0
last_checkpoint cs offset (suc i) =
    if leb (get_or cs (suc i) 0) offset then suc i else last_checkpoint cs offset i

unfoldable pub find_line_checkpoint_index : Buffer → ℕ → ℕ × Buffer
find_line_checkpoint_index bp offset =
    let bp' = ensure_line_index_to_offset bp offset in
    (last_checkpoint bp'.index.checkpoints offset (length bp'.index.checkpoints - 1), bp')

-- The loop of `buffer_offset_to_line`, from the line at `o`, whose number is `n`.
unfoldable pub lines_to : ℕ → Buffer → ℕ → ℕ → ℕ → ℕ
lines_to zero bp offset o n = n
lines_to (suc fuel) bp offset o n = elim (ltb (buffer_end_of_line bp o) offset) [
  | false ↦ n
  | true ↦ elim (buffer_next_line bp o) [
    | none ↦ n + 1
    | some next_o ↦ lines_to fuel bp offset next_o (n + 1)
  ]
]

-- The line number, and the buffer with its index extended.
unfoldable pub buffer_offset_to_line : Buffer → ℕ → ℕ × Buffer
buffer_offset_to_line bp offset =
    let (i, bp') = find_line_checkpoint_index bp offset in
    (
      lines_to (offset + 1) bp' offset (get_or bp'.index.checkpoints i 0) (i * line_index_stride),
      bp',
    )

unfoldable pub invalidate_line_index_at : Buffer → ℕ → Buffer
invalidate_line_index_at bp offset =
    let (line_idx, bp') = buffer_offset_to_line bp offset in
    let checkpoint_line = line_idx / line_index_stride * line_index_stride in
    let checkpoint_idx = checkpoint_line / line_index_stride in
    let kept =
      if ltb (checkpoint_idx + 1) (length bp'.index.checkpoints)
      then take (checkpoint_idx + 1) bp'.index.checkpoints
      else bp'.index.checkpoints in
    record bp' {
      index = record {
        checkpoints = kept;
        upto_line = checkpoint_line;
        upto_offset = get_or bp'.index.checkpoints checkpoint_idx 0;
      };
    }

unfoldable pub invalidate_syntax_cache_at : Buffer → ℕ → Buffer
invalidate_syntax_cache_at bp o =
    let (line_idx, bp') = buffer_offset_to_line bp o in
    if not bp.syntax.cached
    then bp
    else if ltb line_idx bp'.syntax.valid_upto
    then record bp' {
      syntax = record bp'.syntax {
        valid_upto = line_idx;
        valid_offset = buffer_start_of_line bp' o;
      };
    }
    else bp'
