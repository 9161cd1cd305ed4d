-- ===== src/Estr/Cat.antt =====
-- `estr_cat` and `estr_copy` of src/estr.c.
use xzile.Prelude.{
  ℕ, ◌+◌, ◌<◌, ◌≡◌, refl, ap, ◌∙◌, some, List, [], ◌++◌, append-nil, arith, length, take, drop,
  replicate, length-replicate, drop-ge, take-ge, lengths,
}
use xzile.Bytes.{overwrite}
use xzile.Bytes.Writes.{overwrite_segment}
use xzile.Estr.{Estr, EstrView, size_mod, estr_resize, estr_cat}
use xzile.Estr.Edit.{estr_insert_lem}
use xzile.Estr.Convert.{convert, ev_len_with_eol_lem, estr_replace_lem}

overwrite_end :
    (t c : List ℕ)
    → overwrite (length t) c (take (length t) t ++ (replicate (length c) 0 ++ drop (length t) t))
      ≡ t ++ c
overwrite_end t c =
    rw (take-ge (length t) t (omega arith), drop-ge (length t) t (omega arith))
      (overwrite_segment (length t) t (replicate (length c) 0) c [] refl
          (length-replicate (length c) 0)
        ∙ ap (λ r. t ++ r) (append-nil c))

-- `estr_cat` runs and appends the source with its line ends converted to the string's own kind, if
-- the sum of the lengths is less than 2 ^ 64.
pub estr_cat_lem :
    (es : Estr) (src : EstrView)
    → length es.text + length (convert src.eol es.eol 0 src.text) < size_mod
    → let c = convert src.eol es.eol 0 src.text in
      estr_cat es src
      ≡ some (record (estr_resize es (length es.text + length c)) { text = es.text ++ c })
unfolding estr_cat estr_resize
estr_cat_lem es src h =
    let c = convert src.eol es.eol 0 src.text in
    let n = ev_len_with_eol_lem src es.eol (omega arith) in
    rw (n, estr_insert_lem es (length es.text) (length c) (omega arith) h)
      (ap some (
        estr_replace_lem
          (record (estr_resize es (length es.text + length c)) {
            text =
                take (length es.text) es.text
                ++ (replicate (length c) 0 ++ drop (length es.text) es.text);
          })
          (length es.text) src (simp lengths (omega arith))
        ∙ ap (λ t. record (estr_resize es (length es.text + length c)) { text = t })
            (overwrite_end es.text c)))
