-- ===== src/Estr/Tests.antt =====
-- The strings of src/estr.c on small texts.
use xzile.Prelude.{◌≡◌, refl, [], ◌∷◌, arith, take}
use xzile.Estr.{lf, crlf, EstrView, view, Estr, estr_replace, estr_set_eol_from_text}
use xzile.Bytes.{overwrite, is_prefix}
use xzile.Estr.Convert.{convert, estr_replace_lem}
use xzile.Estr.Detect.{line_ends, decide_eol, estr_set_eol_from_text_lem}

-- "a\r\nb\r\nc", with CRLF line ends
abbrev dos : EstrView
dos = view (97 ∷ 13 ∷ 10 ∷ 98 ∷ 13 ∷ 10 ∷ 99 ∷ []) crlf

-- "xy\n"
abbrev unix : Estr
unix = record { text = 120 ∷ 121 ∷ 10 ∷ []; buf_size = 16; eol = lf }

converted : convert crlf lf 0 dos.text ≡ 97 ∷ 10 ∷ 98 ∷ 10 ∷ 99 ∷ []
unfolding convert is_prefix
converted = refl

-- Two line ends of one byte, in the room of five bytes behind "xy\n"
abbrev roomy : Estr
roomy = record unix { text = 120 ∷ 121 ∷ 10 ∷ 0 ∷ 0 ∷ 0 ∷ 0 ∷ 0 ∷ [] }

estr_replace_lem_example :
    estr_replace roomy 3 dos
    ≡ record roomy { text = overwrite 3 (convert crlf lf 0 dos.text) roomy.text }
unfolding convert is_prefix
estr_replace_lem_example = estr_replace_lem roomy 3 dos (omega arith)

abbrev unread : Estr
unread = record { text = dos.text; buf_size = 7; eol = lf }

estr_set_eol_from_text_lem_example :
    estr_set_eol_from_text unread
    ≡ record unread { eol = decide_eol (take 3 (line_ends unread.text)) }
estr_set_eol_from_text_lem_example = estr_set_eol_from_text_lem unread

detected : (estr_set_eol_from_text unread).eol ≡ crlf
unfolding estr_set_eol_from_text
detected = refl
