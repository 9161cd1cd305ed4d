-- ===== src/Buffer/Tests.antt =====
-- The operations of src/buffer.c on a buffer that holds "ab\ncd", with a gap of two bytes at 2.
use xzile.Prelude.{
  ℕ, zero, suc, ◌+◌, ◌-◌, ◌^◌, ◌≤◌, ◌<◌, ◌≡◌, refl, ◌⊎◌, inr, true, false, some, List, [], ◌∷◌,
  arith, length, get_elem?, take, drop,
}
use xzile.Bytes.{is_prefix}
use xzile.Estr.{lf, EstrView, view, Estr, size_mod}
use xzile.Estr.Convert.{convert}
use xzile.Utf8.{utf8_decode}
use xzile.Buffer.Read.{buffer_get_utf8_char_lem}
use xzile.Buffer.{buffer_get_utf8_char, Display, Buffer, buffer_eol}
use xzile.Buffer.Index.{reset_line_index}
use xzile.Buffer.Replace.{
  Region, region_size, buffer_goto_offset, buffer_replace_estr, buffer_get_region, adjust_marker,
}
use xzile.Buffer.Gap.{HasGap, contents}
use xzile.Buffer.Point.{Moved, buffer_goto_offset-Moved}
use xzile.Buffer.Region.{Gives, buffer_get_region_lem}
use xzile.Buffer.Edit.{Replaced, buffer_replace_estr_lem}
use xzile.Buffer.Marker.{spliced, adjust_marker-outside, adjust_marker-within}

abbrev pub display : Display
display = record { tab_width = 8; wcwidth = λ c. some 1 }

abbrev text : Estr
text = record { text = 97 ∷ 98 ∷ 0 ∷ 0 ∷ 10 ∷ 99 ∷ 100 ∷ []; buf_size = 16; eol = lf }

abbrev pub scratch : Buffer
scratch = record {
  text = text;
  pt = 2;
  gap = 2;
  goalc = some 2;
  modified = false;
  readonly = false;
  noundo = false;
  changes = 0;
  last_undo = [];
  next_undo = 0;
  markers = 4 ∷ [];
  index = reset_line_index;
  syntax = record { cached = false; valid_upto = 0; valid_offset = 0 };
  need_resync = false;
}

pub scratch-HasGap : HasGap text.text 2 2
scratch-HasGap = record { within = omega arith; zeros = λ i a b. zero_at i a b }
  where
    zero_at : (i : ℕ) → 2 ≤ i → i < 2 + 2 → get_elem? text.text i ≡ some 0
    zero_at zero a b = absurd (omega arith)
    zero_at (suc zero) a b = absurd (omega arith)
    zero_at (suc (suc zero)) a b = refl
    zero_at (suc (suc (suc zero))) a b = refl
    zero_at (suc (suc (suc (suc i)))) a b = absurd (omega arith)

-- "x\r\n", as CR
abbrev pub inserted_text : EstrView
inserted_text = view (120 ∷ 10 ∷ []) lf

buffer_goto_offset-Moved_example :
    (bp' : Buffer) × (buffer_goto_offset display scratch 5 ≡ some bp') × Moved scratch bp' 5
buffer_goto_offset-Moved_example =
    buffer_goto_offset-Moved display scratch 5 scratch-HasGap (omega arith)

abbrev middle : Region
middle = record { start = 1; end = 4 }

buffer_get_region_lem_example :
    Gives
      (buffer_get_region scratch middle)
      (take (region_size middle) (drop 1 (contents scratch)))
      (buffer_eol scratch)
buffer_get_region_lem_example =
    buffer_get_region_lem scratch middle (omega arith) scratch-HasGap (omega arith) (omega arith)

-- The "\n" at point is replaced.
buffer_replace_estr_lem_example :
    (false ≡ true × buffer_replace_estr display scratch 1 inserted_text ≡ some (scratch, false))
    ⊎ (false ≡ false
        × ((bp' : Buffer) × (buffer_replace_estr display scratch 1 inserted_text ≡ some (bp', true))
            × Replaced scratch bp' 1 (convert lf lf 0 inserted_text.text)))
unfolding convert is_prefix
buffer_replace_estr_lem_example =
    buffer_replace_estr_lem display scratch 1 inserted_text scratch-HasGap (omega arith)
      (omega arith) (omega arith)

abbrev letters : List ℕ
letters = 97 ∷ 98 ∷ 99 ∷ 100 ∷ []

adjust_marker-outside_example :
    (adjust_marker 0 1 2 3 ≤ length (spliced letters 0 2 (120 ∷ [])))
    × (get_elem? (spliced letters 0 2 (120 ∷ [])) (adjust_marker 0 1 2 3) ≡ get_elem? letters 3)
adjust_marker-outside_example =
    adjust_marker-outside letters (120 ∷ []) 0 2 3 (omega arith) (omega arith) (omega arith)
      (inr (omega arith)) (omega arith)

-- A marker at 1, when three bytes at 0 are deleted
adjust_marker-within_example :
    (3 ≤ 1 + 0 × 0 ≤ adjust_marker 0 0 3 1 × adjust_marker 0 0 3 1 ≤ 0 + 0)
    ⊎ (1 + 0 < 3 × adjust_marker 0 0 3 1 ≡ size_mod - (3 - (1 + 0)))
adjust_marker-within_example =
    adjust_marker-within letters [] 0 3 1 (omega arith) (omega arith) (omega arith) (omega arith)
      (omega arith)

wraps : adjust_marker 0 0 3 1 ≡ 2 ^ 64 - 2
unfolding adjust_marker
wraps = refl

-- The byte behind the gap
buffer_get_utf8_char_lem_example :
    buffer_get_utf8_char scratch 1 ≡ utf8_decode (take 4 (drop 1 (contents scratch))) 0
buffer_get_utf8_char_lem_example = buffer_get_utf8_char_lem scratch 1 scratch-HasGap (omega arith)
