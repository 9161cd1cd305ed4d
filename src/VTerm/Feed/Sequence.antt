-- ===== src/VTerm/Feed/Sequence.antt =====
-- The parser of src/vterm.c stays within its arrays, and escape sequences keep a terminal
-- well-formed.
use xzile.Prelude.{
  ℕ, ◌-◌, ◌≤◌, ◌<◌, max, ◌≡◌, refl, ◌∙◌, Bool, true, ◌&&◌, ◌||◌, not, List, [], ◌∷◌, arith, ltb,
  leb, ◌==◌, if◌then◌else◌, length, length-append, length-set,
}
use xzile.VTerm.Cursor.{
  index_line-IsTerm, reverse_index-IsTerm, save_cursor-IsTerm, restore_cursor-IsTerm,
}
use xzile.VTerm.Dispatch.Cases.{settled-IsTerm, erase_lines-IsTerm, tabbed, column-IsTerm}
use xzile.VTerm.Dispatch.Safe.{AllCases, ◌▸◌, either_lem, either_checked, select_lem}
use xzile.VTerm.Modes.{
  Parser, Emulator, ParseState, s_ground, s_escape_inter, s_csi, s_osc, s_string, max_params, reset,
}
use xzile.VTerm.Feed.{
  start_sequence, esc_dispatch, feed_escape, feed_digit, feed_separator, in_state,
}
use xzile.VTerm.Feed.Safe.{IsParser, IsEmulator, term_lem, free_fields, reset-IsEmulator}

pub parser_lem :
    (e : Emulator) (p : Parser) → IsParser p → IsEmulator e → IsEmulator (record e { parser = p })
parser_lem e p h v = record { term_ok = v.term_ok; parser_ok = h }

-- The state and the marks of a sequence have no bounds.
pub marked-IsEmulator :
    (e : Emulator) (s : ParseState) (mark inter : ℕ)
    → IsEmulator e
    → IsEmulator
        (record e { parser = record e.parser { state = s; private_mark = mark; inter = inter } })
marked-IsEmulator e s mark inter v =
    let h = v.parser_ok in
    parser_lem e _
      (record {
        params_len = h.params_len;
        colon_len = h.colon_len;
        osc_lt = h.osc_lt;
        need_le = h.need_le;
        utf8_lt = h.utf8_lt;
      })
      v

pub in_state-IsEmulator : (e : Emulator) (s : ParseState) → IsEmulator e → IsEmulator (in_state e s)
in_state-IsEmulator e s v = marked-IsEmulator e s e.parser.private_mark e.parser.inter v

pub with_utf8-IsEmulator :
    (e : Emulator) (bytes : List ℕ) (need : ℕ)
    → need ≤ 4
    → length bytes < max 1 need
    → IsEmulator e
    → IsEmulator (record e { parser = record e.parser { utf8 = bytes; utf8_need = need } })
with_utf8-IsEmulator e bytes need n l v =
    let h = v.parser_ok in
    parser_lem e _
      (record {
        params_len = h.params_len;
        colon_len = h.colon_len;
        osc_lt = h.osc_lt;
        need_le = n;
        utf8_lt = l;
      })
      v

pub start_sequence-IsEmulator :
    (e : Emulator) (s : ParseState) → IsEmulator e → IsEmulator (start_sequence e s)
unfolding start_sequence
start_sequence-IsEmulator e s v =
    let h = v.parser_ok in
    parser_lem e _
      (record {
        params_len = omega arith;
        colon_len = refl;
        osc_lt = omega arith;
        need_le = h.need_le;
        utf8_lt = h.utf8_lt;
      })
      v

-- The first parameter there.
started :
    (params : List ℕ)
    → length params ≤ max_params
    → length (if length params == 0 then 0 ∷ [] else params) ≤ max_params
started params h =
    either_lem (λ ps. length ps ≤ max_params) (length params == 0) _ params (omega arith) h

pub feed_digit-IsParser : (p : Parser) (c : ℕ) → IsParser p → IsParser (feed_digit p c)
unfolding feed_digit
feed_digit-IsParser p c h =
    let params = if length p.params == 0 then 0 ∷ [] else p.params in
    record {
      params_len = rw (length-set params (length params - 1) _) (started p.params h.params_len);
      colon_len = h.colon_len;
      osc_lt = h.osc_lt;
      need_le = h.need_le;
      utf8_lt = h.utf8_lt;
    }

pub feed_separator-IsParser : (p : Parser) (c : ℕ) → IsParser p → IsParser (feed_separator p c)
unfolding feed_separator
feed_separator-IsParser p c h =
    let params = if length p.params == 0 then 0 ∷ [] else p.params in
    let s = started p.params h.params_len in
    record {
      params_len =
          either_checked (λ ps. length ps ≤ max_params) (ltb (length params) max_params) _ params
            (λ e. rw (length-append params (0 ∷ [])) (ground (arith, e))) (λ e. s);
      colon_len =
          either_lem (λ f. length f ≡ max_params) (c == 58) _ p.param_colon
            (length-set p.param_colon _ true ∙ h.colon_len) h.colon_len;
      osc_lt = h.osc_lt;
      need_le = h.need_le;
      utf8_lt = h.utf8_lt;
    }

pub esc_dispatch-IsEmulator : (e : Emulator) (f : ℕ) → IsEmulator e → IsEmulator (esc_dispatch e f)
unfolding esc_dispatch AllCases
esc_dispatch-IsEmulator e f v =
    let t = e.term in
    let h = v.term_ok in
    let g =
      λ (g0 g1 : Bool). free_fields t t.attr t.origin t.autowrap t.insert t.wrap_pending g0 g1 h in
    let r = reset-IsEmulator e v in
    let first = column-IsTerm t 0 h (omega (arith, h.cx_lt)) in
    either_lem IsEmulator (e.parser.inter == 40) _ _ (term_lem e _ (g (f == 48) t.g1_graphics) v) (
      either_lem IsEmulator (e.parser.inter == 41) _ _ (term_lem e _ (g t.g0_graphics (f == 48)) v)
        (either_lem IsEmulator (not (e.parser.inter == 0)) e _ v (
          select_lem IsEmulator _ f e
            (term_lem e _ (save_cursor-IsTerm t h) v
              ▸ term_lem e _ (restore_cursor-IsTerm t h) v
              ▸ term_lem e _ (settled-IsTerm _ (index_line-IsTerm t h)) v
              ▸ term_lem e _ (settled-IsTerm _ (index_line-IsTerm _ first)) v
              ▸ term_lem e _ (tabbed t _ h) v
              ▸ term_lem e _ (settled-IsTerm _ (reverse_index-IsTerm t h)) v
              ▸ term_lem (reset e) _ (erase_lines-IsTerm _ 0 t.rows r.term_ok) r
              ▸ record { term_ok = h; parser_ok = v.parser_ok }
              ▸ record { term_ok = h; parser_ok = v.parser_ok }
              ▸ tt)
            v)))

pub feed_escape-IsEmulator : (e : Emulator) (c : ℕ) → IsEmulator e → IsEmulator (feed_escape e c)
unfolding feed_escape
feed_escape-IsEmulator e c v =
    either_lem IsEmulator (leb 0x20 c && leb c 0x2F) _ _
      (marked-IsEmulator e s_escape_inter e.parser.private_mark c v)
      (either_lem IsEmulator (c == 91) _ _ (start_sequence-IsEmulator e s_csi v) (
        either_lem IsEmulator (c == 93) _ _ (start_sequence-IsEmulator e s_osc v) (
          either_lem IsEmulator (c == 80 || c == 88 || c == 94 || c == 95) _ _
            (in_state-IsEmulator e s_string v)
            (in_state-IsEmulator _ s_ground (esc_dispatch-IsEmulator e c v)))))
