-- ===== src/VTerm/Feed/Bytes.antt =====
-- Every byte keeps a terminal of src/vterm.c well-formed.
use xzile.Prelude.{
  ℕ, zero, suc, ◌-◌, ◌/◌, inl, inr, Bool, true, false, ◌&&◌, ◌||◌, not, Option, none, some, List,
  [], ◌∷◌, ◌++◌, arith, ltb, leb, ◌==◌, Option-cases, length, length-append,
}
use xzile.Utf8.Roundtrip.{utf8_seq_len_le}
use xzile.Utf8.{replacement, utf8_seq_len}
use xzile.VTerm.Cursor.{put_char-IsTerm}
use xzile.VTerm.Dispatch.Safe.{
  AllCases, ◌▸◌, either_lem, either_checked, select_lem, csi_screen-IsTerm, control-IsTerm,
}
use xzile.VTerm.Modes.{
  Emulator, ParseState, s_ground, s_escape, s_escape_inter, s_csi, s_osc, s_osc_esc, s_string,
  s_string_esc, max_osc,
}
use xzile.VTerm.Feed.{
  osc_dispatch, csi_dispatch, put, feed_string, feed_ground, feed_csi, feed_state, feed_plain,
  feed_byte, vterm_write,
}
use xzile.VTerm.Feed.Safe.{
  IsEmulator, term_lem, reset-IsEmulator, set_mode-IsEmulator, device_attributes-IsEmulator,
  status_report-IsEmulator, window_report-IsEmulator, select_rendition-IsEmulator,
}
use mathlib.Core.Path.{subst}
use xzile.VTerm.Feed.Sequence.{
  parser_lem, in_state-IsEmulator, marked-IsEmulator, with_utf8-IsEmulator,
  start_sequence-IsEmulator, feed_digit-IsParser, feed_separator-IsParser, esc_dispatch-IsEmulator,
  feed_escape-IsEmulator,
}

module _ (wcwidth : ℕ → Option ℕ) (strtol : List ℕ → ℕ × Bool) where
  osc_dispatch-IsEmulator :
      (e : Emulator) → IsEmulator e → IsEmulator (osc_dispatch wcwidth strtol e)
  unfolding osc_dispatch
  osc_dispatch-IsEmulator e v =
      either_lem IsEmulator _ e _ v
        (either_lem IsEmulator _ e _ v (record { term_ok = v.term_ok; parser_ok = v.parser_ok }))

  csi_dispatch-IsEmulator :
      (e : Emulator) (f : ℕ) → IsEmulator e → IsEmulator (csi_dispatch wcwidth strtol e f)
  unfolding csi_dispatch AllCases
  csi_dispatch-IsEmulator e f v =
      let p = e.parser in
      let plain = p.private_mark == 0 in
      let screen = term_lem e _ (csi_screen-IsTerm wcwidth plain p.params f e.term v.term_ok) v in
      let guarded = either_lem IsEmulator plain _ e screen v in
      either_lem IsEmulator (not (p.inter == 0)) _ _
        (either_lem IsEmulator (p.inter == 33 && f == 112) _ e (reset-IsEmulator e v) v)
        (either_lem IsEmulator _ e _ v (
          select_lem IsEmulator _ f _
            (device_attributes-IsEmulator e v
              ▸ set_mode-IsEmulator true e v
              ▸ set_mode-IsEmulator false e v
              ▸ select_rendition-IsEmulator e v
              ▸ status_report-IsEmulator e v
              ▸ guarded
              ▸ guarded
              ▸ guarded
              ▸ window_report-IsEmulator e v
              ▸ tt)
            screen))

  put-IsEmulator : (e : Emulator) (c : ℕ) → IsEmulator e → IsEmulator (put wcwidth strtol e c)
  put-IsEmulator e c v = term_lem e _ (put_char-IsTerm wcwidth e.term c v.term_ok) v

  feed_csi-IsEmulator :
      (e : Emulator) (c : ℕ) → IsEmulator e → IsEmulator (feed_csi wcwidth strtol e c)
  unfolding feed_csi
  feed_csi-IsEmulator e c v =
      let p = e.parser in
      let h = v.parser_ok in
      let kept = λ (mark inter : ℕ). marked-IsEmulator e p.state mark inter v in
      either_lem IsEmulator (leb 48 c && leb c 57) _ _
        (parser_lem e _ (feed_digit-IsParser p c h) v)
        (either_lem IsEmulator (c == 59 || c == 58) _ _
          (parser_lem e _ (feed_separator-IsParser p c h) v)
          (either_lem IsEmulator (leb 60 c && leb c 63) _ _ (kept c p.inter) (
            either_lem IsEmulator (leb 0x20 c && leb c 0x2F) _ _ (kept p.private_mark c) (
              either_lem IsEmulator (leb 0x40 c && leb c 0x7E) _ _
                (in_state-IsEmulator _ s_ground (csi_dispatch-IsEmulator e c v))
                (in_state-IsEmulator e s_ground v)))))

  -- The recursive call of `feed_byte` keeps it well-formed.
  module _ (again : Emulator → ℕ → Emulator)
      (again-IsEmulator : (e : Emulator) (c : ℕ) → IsEmulator e → IsEmulator (again e c)) where
    feed_ground-IsEmulator :
        (e : Emulator) (c : ℕ) → IsEmulator e → IsEmulator (feed_ground wcwidth strtol again e c)
    unfolding feed_ground
    feed_ground-IsEmulator e c v =
        let p = e.parser in
        let h = v.parser_ok in
        let bytes = p.utf8 ++ c ∷ [] in
        let need = utf8_seq_len c in
        let empty = with_utf8-IsEmulator e [] p.utf8_need h.need_le (omega arith) v in
        let replaced = put-IsEmulator _ replacement empty in
        either_lem IsEmulator (ltb c 0x80) _ _ (put-IsEmulator _ c empty) (
          either_checked IsEmulator (length p.utf8 == 0) _ _
            (λ z.
              either_checked IsEmulator (leb need 1) _ _ (λ b. put-IsEmulator e replacement v)
                (λ b.
                  with_utf8-IsEmulator e (c ∷ []) need (utf8_seq_len_le c) (ground (arith, b)) v))
            (λ z.
              either_lem IsEmulator (c / 64 == 2) _ _
                (either_checked IsEmulator (length bytes == p.utf8_need) _ _
                  (λ b. put-IsEmulator _ _ empty)
                  (λ b.
                    with_utf8-IsEmulator e bytes p.utf8_need h.need_le
                      (ground (arith, b, z, h.utf8_lt, length-append p.utf8 (c ∷ []))) v))
                (again-IsEmulator _ c replaced)))

    feed_state-IsEmulator :
        (e : Emulator) (c : ℕ) (s : ParseState)
        → IsEmulator e
        → IsEmulator (feed_state wcwidth strtol again e c s)
    unfolding feed_state
    feed_state-IsEmulator e c s_ground v = feed_ground-IsEmulator e c v
    feed_state-IsEmulator e c s_escape v = feed_escape-IsEmulator e c v
    feed_state-IsEmulator e c s_escape_inter v =
        either_lem IsEmulator (leb 0x20 c && leb c 0x2F) e _ v
          (in_state-IsEmulator _ s_ground (esc_dispatch-IsEmulator e c v))
    feed_state-IsEmulator e c s_csi v = feed_csi-IsEmulator e c v
    feed_state-IsEmulator e c s_osc v = in_state-IsEmulator e s_ground v
    feed_state-IsEmulator e c s_osc_esc v = in_state-IsEmulator e s_ground v
    feed_state-IsEmulator e c s_string v = in_state-IsEmulator e s_ground v
    feed_state-IsEmulator e c s_string_esc v = in_state-IsEmulator e s_ground v

    feed_plain-IsEmulator :
        (e : Emulator) (c : ℕ) → IsEmulator e → IsEmulator (feed_plain wcwidth strtol again e c)
    unfolding feed_plain
    feed_plain-IsEmulator e c v =
        let h = v.parser_ok in
        let empty = with_utf8-IsEmulator e [] e.parser.utf8_need h.need_le (omega arith) v in
        either_lem IsEmulator (c == 27) _ _ (start_sequence-IsEmulator _ s_escape empty) (
          either_lem IsEmulator (c == 24 || c == 26) _ _ (in_state-IsEmulator e s_ground v) (
            either_lem IsEmulator (ltb c 0x20) _ _
              (term_lem e _ (control-IsTerm c e.term v.term_ok) v)
              (either_lem IsEmulator (c == 127) e _ v
                (feed_state-IsEmulator e c e.parser.state v))))

    -- A step over a string, or none.
    WhenSome : Option Emulator → Type 0
    WhenSome none = Unit
    WhenSome (some e) = IsEmulator e

    feed_string-IsEmulator :
        (e : Emulator) (c : ℕ) (s : ParseState)
        → IsEmulator e
        → WhenSome (feed_string wcwidth strtol again e c s)
    unfolding feed_string WhenSome
    feed_string-IsEmulator e c s_osc v =
        let h = v.parser_ok in
        let longer =
          either_checked IsEmulator (ltb (length e.parser.osc) (max_osc - 1)) _ e
            (λ b.
              parser_lem e _
                (record {
                  params_len = h.params_len;
                  colon_len = h.colon_len;
                  osc_lt = rw (length-append e.parser.osc (c ∷ [])) (ground (arith, b));
                  need_le = h.need_le;
                  utf8_lt = h.utf8_lt;
                })
                v)
            (λ b. v) in
        either_lem IsEmulator (c == 7) _ _
          (in_state-IsEmulator _ s_ground (osc_dispatch-IsEmulator e v))
          (either_lem IsEmulator (c == 27) _ _ (in_state-IsEmulator e s_osc_esc v) longer)
    feed_string-IsEmulator e c s_osc_esc v =
        either_lem IsEmulator (c == 92) _ _
          (in_state-IsEmulator _ s_ground (osc_dispatch-IsEmulator e v))
          (again-IsEmulator _ c (start_sequence-IsEmulator e s_escape v))
    feed_string-IsEmulator e c s_string v =
        either_lem IsEmulator (c == 27) _ _ (in_state-IsEmulator e s_string_esc v)
          (either_lem IsEmulator (c == 7) _ e (in_state-IsEmulator e s_ground v) v)
    feed_string-IsEmulator e c s_string_esc v =
        either_lem IsEmulator (c == 92) _ _ (in_state-IsEmulator e s_ground v)
          (in_state-IsEmulator e s_string v)
    feed_string-IsEmulator e c s_ground v = tt
    feed_string-IsEmulator e c s_escape v = tt
    feed_string-IsEmulator e c s_escape_inter v = tt
    feed_string-IsEmulator e c s_csi v = tt

  pub feed_byte-IsEmulator :
      (fuel : ℕ) (e : Emulator) (c : ℕ)
      → IsEmulator e
      → IsEmulator (feed_byte wcwidth strtol fuel e c)
  unfolding feed_byte WhenSome
  feed_byte-IsEmulator zero e c v = v
  feed_byte-IsEmulator (suc fuel) e c v =
      let again = feed_byte wcwidth strtol fuel in
      let ok = feed_byte-IsEmulator fuel in
      let string = feed_string-IsEmulator again ok e c e.parser.state v in
      elim (Option-cases (feed_string wcwidth strtol again e c e.parser.state)) [
        | inl q ↦ rw (feed_byte, q) (feed_plain-IsEmulator again ok e c v)
        | inr (e', q) ↦ rw (feed_byte, q) (subst (WhenSome again ok) q string)
      ]

  pub vterm_write-IsEmulator :
      (e : Emulator) (s : List ℕ) → IsEmulator e → IsEmulator (vterm_write wcwidth strtol e s)
  unfolding vterm_write
  vterm_write-IsEmulator e [] v = v
  vterm_write-IsEmulator e (c ∷ s) v =
      vterm_write-IsEmulator (feed_byte wcwidth strtol 2 e c) s (feed_byte-IsEmulator 2 e c v)
