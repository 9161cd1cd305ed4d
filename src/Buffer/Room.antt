-- ===== src/Buffer/Room.antt =====
-- The room that `buffer_replace_estr` of src/buffer.c makes for the new text: the gap is opened,
-- kept or restricted, and zeroed.
use xzile.Prelude.{
  ℕ, ◌+◌, ◌-◌, ◌≤◌, ◌<◌, max, ◌≡◌, refl, ◌&&◌, some, List, ◌++◌, arith, ltb, leb, if◌then◌else◌,
  length, get_elem?, take, drop, replicate, length-take, length-replicate, ext_get, get-append,
  get-take, get-drop, get-replicate, lengths,
}
use xzile.Bytes.{overwrite, memset}
use xzile.Bytes.Writes.{length-memset, get-memset, length-overwrite, get-overwrite}
use xzile.Buffer.Replace.{min_gap, max_gap}
use xzile.Buffer.Gap.{HasGap, without_gap, get-without_gap, length-without_gap}

-- `t'` is `t` with room for `newlen` bytes at `pt`, a zeroed gap of `gap'` behind them, and then
-- what followed the old gap and the `del` bytes.
pub record HasRoom (t t' : List ℕ) (pt gap del newlen gap' : ℕ) : Type 0 where
  pub len : length t' + gap + del ≡ length t + newlen + gap'
  pub before : (i : ℕ) → i < pt → get_elem? t' i ≡ get_elem? t i
  pub zeros : (i : ℕ) → pt + newlen ≤ i → i < pt + newlen + gap' → get_elem? t' i ≡ some 0
  pub behind :
      (i : ℕ)
      → pt + newlen + gap' ≤ i
      → get_elem? t' i ≡ get_elem? t (i + gap + del - (newlen + gap'))

module _ (t : List ℕ) (pt gap del newlen : ℕ) where
  -- Opened to MIN_GAP.
  abbrev pub inserted : List ℕ
  inserted = take pt t ++ (replicate (newlen + min_gap - (gap + del)) 0 ++ drop pt t)

  abbrev pub opened : List ℕ
  opened = memset (pt + newlen) 0 min_gap inserted

  -- Restricted to MAX_GAP.
  abbrev pub cut : List ℕ
  cut =
      take (pt + newlen + max_gap) t
      ++ drop (pt + newlen + max_gap + (gap + del - (max_gap + newlen))) t

  module _ (v : HasGap t pt gap) (h : pt + gap + del ≤ length t) where
    pub length-inserted :
        gap + del < newlen → length inserted + gap + del ≡ length t + newlen + min_gap
    length-inserted b = simp lengths (omega arith)

    get-inserted :
        (i : ℕ)
        → get_elem? inserted i ≡ (
            if ltb i pt
            then get_elem? t i
            else if ltb i (pt + (newlen + min_gap - (gap + del)))
            then some 0
            else get_elem? t (i - (newlen + min_gap - (gap + del))))
    get-inserted i = ground (
      arith,
      get-append (take pt t) (replicate (newlen + min_gap - (gap + del)) 0 ++ drop pt t) i,
      get-append (replicate (newlen + min_gap - (gap + del)) 0) (drop pt t) (i - pt),
      get-take pt t i,
      get-replicate {A = ℕ} (newlen + min_gap - (gap + del)) 0 (i - pt),
      get-drop pt t (i - pt - (newlen + min_gap - (gap + del))),
      length-take pt t,
      length-replicate {A = ℕ} (newlen + min_gap - (gap + del)) 0,
    )

    pub opened-HasRoom : gap + del < newlen → HasRoom t opened pt gap del newlen min_gap
    opened-HasRoom b = record {
      len = omega (arith, length-inserted b, length-memset (pt + newlen) 0 min_gap inserted);
      before = λ i a.
          ground (
            arith,
            length-inserted b,
            get-memset (pt + newlen) 0 min_gap inserted i,
            get-inserted i,
          );
      zeros =
          λ i a c. ground (arith, length-inserted b, get-memset (pt + newlen) 0 min_gap inserted i);
      behind = λ i a.
          ground (
            arith,
            length-inserted b,
            get-memset (pt + newlen) 0 min_gap inserted i,
            get-inserted i,
          );
    }

    -- "Zero any new bit of gap": what `zero_gap` makes of a text that has the room already, where
    -- the old gap is zero as far as it goes.
    abbrev pub zeroed : List ℕ → ℕ → List ℕ
    zeroed t1 gap' =
        if ltb (max gap newlen + 0) (gap' + newlen)
        then memset (pt + max gap newlen + 0) 0 (newlen + gap' - max gap newlen - 0) t1
        else t1

    module _ (t1 : List ℕ) (gap' : ℕ) (len : length t1 + gap + del ≡ length t + newlen + gap')
        (before : (i : ℕ) → i < pt + newlen + gap' → get_elem? t1 i ≡ get_elem? t i)
        (behind : (i : ℕ)
          → pt + newlen + gap' ≤ i
          → get_elem? t1 i ≡ get_elem? t (i + gap + del - (newlen + gap')))
        (enough : newlen ≤ gap + del) where
      length-zeroed : length (zeroed t1 gap') ≡ length t1
      length-zeroed =
          ground (
            arith,
            length-memset (pt + max gap newlen + 0) 0 (newlen + gap' - max gap newlen - 0) t1,
          )

      get-zeroed :
          (i : ℕ)
          → get_elem? (zeroed t1 gap') i ≡ (
              if leb (pt + max gap newlen) i && ltb i (pt + newlen + gap')
              then some 0
              else get_elem? t1 i)
      get-zeroed i =
          ground (
            arith,
            get-memset (pt + max gap newlen + 0) 0 (newlen + gap' - max gap newlen - 0) t1 i,
          )

      zeroed-HasRoom : HasRoom t (zeroed t1 gap') pt gap del newlen gap'
      zeroed-HasRoom = record {
        len = omega (arith, length-zeroed);
        before = λ i a. ground (arith, get-zeroed i, before i);
        zeros = λ i a c. ground (arith, get-zeroed i, before i, v.zeros i);
        behind = λ i a. ground (arith, get-zeroed i, behind i);
      }

    pub length-cut :
        max_gap + newlen < gap + del → length cut + gap + del ≡ length t + newlen + max_gap
    length-cut b = simp lengths (omega arith)

    get-cut :
        (i : ℕ)
        → max_gap + newlen < gap + del
        → get_elem? cut i ≡ (
            if ltb i (pt + newlen + max_gap)
            then get_elem? t i
            else get_elem? t (i + (gap + del - (max_gap + newlen))))
    get-cut i b =
        let at = pt + newlen + max_gap in
        let lost = gap + del - (max_gap + newlen) in
        ground (
          arith,
          get-append (take at t) (drop (at + lost) t) i,
          get-take at t i,
          get-drop (at + lost) t (i - at),
          length-take at t,
        )

    pub cut-HasRoom :
        max_gap + newlen < gap + del → HasRoom t (zeroed cut max_gap) pt gap del newlen max_gap
    cut-HasRoom b =
        zeroed-HasRoom cut max_gap (length-cut b) (λ i a. ground (arith, get-cut i b))
          (λ i a. ground (arith, get-cut i b)) (omega arith)

    pub kept-HasRoom :
        newlen ≤ gap + del
        → HasRoom t (zeroed t (gap + del - newlen)) pt gap del newlen (gap + del - newlen)
    kept-HasRoom b =
        zeroed-HasRoom t (gap + del - newlen) (omega arith) (λ i a. refl)
          (λ i a. let e : i + gap + del - (newlen + (gap + del - newlen)) ≡ i = omega arith in rw e)
          b

-- The new text in its room: what the bytes stand for, and the gap behind it.
module _ (t t' c : List ℕ) (pt gap del gap' : ℕ) (v : HasGap t pt gap)
    (h : pt + gap + del ≤ length t) (r : HasRoom t t' pt gap del (length c) gap') where
  pub overwrite-HasGap : HasGap (overwrite pt c t') (pt + length c) gap'
  overwrite-HasGap = record {
    within = omega (arith, r.len, length-overwrite pt c t');
    zeros = λ i a b. ground (arith, r.len, r.zeros i, get-overwrite pt c t' i);
  }

  pub without_gap-overwrite :
      without_gap (overwrite pt c t') (pt + length c) gap'
      ≡ take pt (without_gap t pt gap) ++ (c ++ drop (pt + del) (without_gap t pt gap))
  without_gap-overwrite = ext_get _ _ λ i. ground (
    arith,
    r.len,
    v.within,
    overwrite-HasGap.within,
    get-without_gap (overwrite pt c t') (pt + length c) gap' i,
    get-overwrite pt c t' i,
    get-overwrite pt c t' (i + gap'),
    r.before i,
    r.behind (i + gap'),
    get-append (take pt (without_gap t pt gap)) (c ++ drop (pt + del) (without_gap t pt gap)) i,
    get-append c (drop (pt + del) (without_gap t pt gap)) (i - pt),
    get-take pt (without_gap t pt gap) i,
    get-drop (pt + del) (without_gap t pt gap) (i - pt - length c),
    length-take pt (without_gap t pt gap),
    length-without_gap t pt gap,
    get-without_gap t pt gap i,
    get-without_gap t pt gap (pt + del + (i - pt - length c)),
  )
