-- ===== src/TextSafe/Tests.antt =====
-- Runs of src/textsafe.rs.
use stavlos.Common.{codes, true, false, all, ◌≡◌, refl}
use stavlos.Common.Bytes.{Bytes, as_bytes, encode_char, from_utf8, decode, decode_byte, is_char}
use stavlos.TextSafe.Scrub.{
  clean, visible, frame, is_frame, width, stray, rune, bidi, invisible, control, csi, starts_byte,
  string_sequence, escape_sequence, sequence, sgr_from, sgr, hex_digits, zeros, upper_hex,
  lower_hex, hidden_char, caret, shown, introduces, advance, scrub_from, scrub,
}
use stavlos.TextSafe.Safety.{is_harmless, is_plain, scrub-safe}

-- A colour, a character that reorders the line, and a title
abbrev tricky : Bytes
tricky = as_bytes (codes "\u{1b}[31ma\u{202e}b\u{1b}]0;t\u{7}c")

cleaned : scrub tricky clean ≡ codes "abc"
unfolding as_bytes encode_char from_utf8 decode decode_byte is_char width stray rune bidi invisible
    control csi starts_byte string_sequence escape_sequence sequence sgr_from sgr hex_digits zeros
    upper_hex lower_hex hidden_char caret shown introduces advance scrub_from scrub
cleaned = refl

shown_all : scrub tricky visible ≡ codes "^[a<U+202E>b^[c"
unfolding as_bytes encode_char from_utf8 decode decode_byte is_char width stray rune bidi invisible
    control csi starts_byte string_sequence escape_sequence sequence sgr_from sgr hex_digits zeros
    upper_hex lower_hex hidden_char caret shown introduces advance scrub_from scrub
shown_all = refl

coloured : scrub tricky frame ≡ codes "\u{1b}[31mabc"
unfolding as_bytes encode_char from_utf8 decode decode_byte is_char width stray rune bidi invisible
    control csi starts_byte string_sequence escape_sequence sequence sgr_from sgr hex_digits zeros
    upper_hex lower_hex hidden_char caret shown introduces advance scrub_from scrub
coloured = refl

scrub-safe_example :
    (is_frame clean ≡ false → all (is_harmless clean) (scrub tricky clean) ≡ true)
    × (all is_plain tricky ≡ true → scrub tricky clean ≡ tricky)
scrub-safe_example = scrub-safe tricky clean
