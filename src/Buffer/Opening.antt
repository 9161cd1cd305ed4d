-- ===== src/Buffer/Opening.antt =====
-- The gap adjustment of `buffer_replace_estr` of src/buffer.c runs, and makes the room.
use xzile.Prelude.{
  ℕ, ◌+◌, ◌-◌, ◌≤◌, ◌<◌, max, ◌≡◌, refl, inl, inr, false, some, List, arith, ltb, lt→ltb,
  Bool-cases, length,
}
use native.Mathlib.Decide.{dec_lt}
use xzile.Estr.{Estr, size_mod, estr_resize}
use xzile.Estr.Edit.{estr_insert_lem, estr_remove_lem, estr_set_lem}
use xzile.Buffer.Replace.{min_gap, max_gap, adjust_gap, zero_gap}
use xzile.Buffer.Room.{
  HasRoom, inserted, opened, zeroed, cut, length-inserted, opened-HasRoom, length-cut, cut-HasRoom,
  kept-HasRoom,
}
use xzile.Buffer.Gap.{HasGap}

not_lt : (a b : ℕ) → b ≤ a → ltb a b ≡ false
not_lt a b h = ground arith

-- The two steps run, and make the room.
pub record MadeRoom (text : Estr) (pt gap del newlen : ℕ) : Type 0 where
  pub adjusted : Estr
  pub gap' : ℕ
  pub text' : Estr
  pub adjusts : adjust_gap text pt gap del newlen ≡ some (adjusted, gap')
  pub zeroes : zero_gap adjusted pt gap del newlen gap' ≡ some text'
  pub same_eol : text'.eol ≡ text.eol
  pub bounded : gap' ≤ gap + del + min_gap
  pub room : HasRoom text.text text'.text pt gap del newlen gap'

module _ (text : Estr) (pt gap del newlen : ℕ) where
  module _ (v : HasGap text.text pt gap) (h : pt + gap + del ≤ length text.text) where
    abbrev with_text : Estr → List ℕ → Estr
    with_text es t = record es { text = t }

    zero_gap_lem :
        (es : Estr) (gap' : ℕ)
        → newlen ≤ gap + del
        → pt + newlen + gap' ≤ length es.text
        → zero_gap es pt gap del newlen gap'
          ≡ some (with_text es (zeroed text.text pt gap del newlen v h es.text gap'))
    unfolding zero_gap
    zero_gap_lem es gap' b fits = elim (Bool-cases (ltb (gap + del) newlen)) [
      | inl c ↦ absurd (ground arith)
      | inr c ↦ elim (Bool-cases (ltb (max gap newlen + 0) (gap' + newlen))) [
        | inl e ↦
            rw (c, e)
              (estr_set_lem es (pt + max gap newlen + 0) 0 (newlen + gap' - max gap newlen - 0)
                (ground arith))
        | inr e ↦ rw (c, e)
      ]
    ]

    -- The gap opened by `estr_insert` is zero already.
    zero_gap_opened :
        (es : Estr) → gap + del < newlen → zero_gap es pt gap del newlen min_gap ≡ some es
    unfolding zero_gap
    zero_gap_opened es b = ground arith

    grown : ℕ
    grown = newlen + min_gap - (gap + del)

    lost : ℕ
    lost = gap + del - (max_gap + newlen)

    opened_text : Estr
    opened_text =
        with_text (estr_resize text (length text.text + grown)) (opened text.text pt gap del newlen)

    cut_text : Estr
    cut_text =
        with_text (estr_resize text (length text.text - lost)) (cut text.text pt gap del newlen)

    room_opened :
        gap + del < newlen
        → length text.text + newlen + min_gap < size_mod
        → MadeRoom text pt gap del newlen
    unfolding adjust_gap opened_text grown estr_resize
    room_opened b small = record {
      adjusted = opened_text;
      gap' = min_gap;
      text' = opened_text;
      adjusts = rw (
        lt→ltb (gap + del) newlen b,
        estr_insert_lem text pt grown (omega arith) (omega arith),
        estr_set_lem
            (with_text (estr_resize text (length text.text + grown))
              (inserted text.text pt gap del newlen))
            (pt + newlen) 0 min_gap
            (omega (arith, length-inserted text.text pt gap del newlen v h b)),
      );
      zeroes = zero_gap_opened opened_text b;
      same_eol = refl;
      bounded = omega arith;
      room = opened-HasRoom text.text pt gap del newlen v h b;
    }

    room_cut : max_gap + newlen < gap + del → MadeRoom text pt gap del newlen
    unfolding adjust_gap cut_text lost estr_resize
    room_cut b = record {
      adjusted = cut_text;
      gap' = max_gap;
      text' = with_text cut_text (zeroed text.text pt gap del newlen v h cut_text.text max_gap);
      adjusts = rw (
        not_lt (gap + del) newlen (omega arith),
        lt→ltb (max_gap + newlen) (gap + del) b,
        estr_remove_lem text (pt + newlen + max_gap) lost (omega arith),
      );
      zeroes =
          zero_gap_lem cut_text max_gap (omega arith)
            (omega (arith, length-cut text.text pt gap del newlen v h b));
      same_eol = refl;
      bounded = omega arith;
      room = cut-HasRoom text.text pt gap del newlen v h b;
    }

    room_kept : newlen ≤ gap + del → gap + del ≤ max_gap + newlen → MadeRoom text pt gap del newlen
    unfolding adjust_gap
    room_kept b c = record {
      adjusted = text;
      gap' = gap + del - newlen;
      text' =
          with_text text (zeroed text.text pt gap del newlen v h text.text (gap + del - newlen));
      adjusts = rw (not_lt (gap + del) newlen b, not_lt (max_gap + newlen) (gap + del) c);
      zeroes = zero_gap_lem text (gap + del - newlen) b (omega arith);
      same_eol = refl;
      bounded = omega arith;
      room = kept-HasRoom text.text pt gap del newlen v h b;
    }

    -- With the gap and the `del` bytes behind it within the text and the sums within `size_t`, the
    -- gap adjustment of `buffer_replace_estr` runs, its assertions included, whether the gap is
    -- opened, kept or restricted. `MadeRoom` holds: there is room for the new text, a zeroed gap
    -- behind it, and the bytes before and behind are as they were.
    pub make_room : length text.text + newlen + min_gap < size_mod → MadeRoom text pt gap del newlen
    make_room small = elim (dec_lt (gap + del) newlen) [
      | yes b ↦ room_opened b small
      | no b ↦ elim (dec_lt (max_gap + newlen) (gap + del)) [
        | yes c ↦ room_cut c
        | no c ↦ room_kept (omega arith) (omega arith)
      ]
    ]
