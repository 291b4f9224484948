-- ===== src/TextSafe/Scrub.antt =====
-- `scrub` of src/textsafe.rs over bytes. The loop's index is the bytes that are left, with a count of
-- those that are still to be passed over.
use stavlos.Common.{
  ℕ, zero, suc, ◌+◌, ◌-◌, ◌/◌, ◌%◌, Text, codes, Bool, true, false, not, ◌&&◌, ◌||◌, none, some, [],
  ◌∷◌, ◌++◌, length, take, drop, leb, ltb, ◌==◌, if◌then◌else◌,
}
use stavlos.Common.Str.{is_digit}
use stavlos.Common.Bytes.{Bytes, from_utf8}

pub data Mode : Type 0 where
  clean visible frame : Mode

abbrev pub is_visible : Mode → Bool
is_visible visible = true
is_visible clean = false
is_visible frame = false

abbrev pub is_frame : Mode → Bool
is_frame frame = true
is_frame clean = false
is_frame visible = false

-- How many bytes a character takes by its first one; 0 for a byte that starts none
unfoldable pub width : ℕ → ℕ
width b =
    if leb 0xc0 b && ltb b 0xe0
    then 2
    else if leb 0xe0 b && ltb b 0xf0
    then 3
    else if leb 0xf0 b && ltb b 0xf8
    then 4
    else 0

-- A byte that is no part of a character
unfoldable pub stray : ℕ → ℕ × ℕ
stray b = if leb 0x80 b && leb b 0x9f then (b, 1) else (0xfffd, 1)

-- The first character, and the bytes that it takes
unfoldable pub rune : ℕ → Bytes → ℕ × ℕ
rune b bs =
    let n = width b in
    if ltb b 128
    then (b, 1)
    else if ltb 0 n && leb n (suc (length bs))
    then elim (from_utf8 (take n (b ∷ bs))) [
      | some (c ∷ cs) ↦ (c, n)
      | some [] ↦ stray b
      | none ↦ stray b
    ]
    else stray b

unfoldable pub bidi : ℕ → Bool
bidi c =
    (leb 0x202a c && leb c 0x202e)
    || (leb 0x2066 c && leb c 0x2069)
    || c == 0x200e
    || c == 0x200f
    || c == 0x61c

unfoldable pub invisible : ℕ → Bool
invisible c = c == 0x200b || c == 0x2060 || c == 0xfeff || c == 0xad

unfoldable pub control : ℕ → Bool
control c = not (c == 10) && (not (c == 9) && (ltb c 32 || (leb 0x7f c && leb c 0x9f)))

unfoldable pub csi : Bytes → ℕ
csi [] = 0
csi (c ∷ s) =
    let later = suc (csi s) in
    if leb 0x40 c && leb c 0x7e then 1 else if not (leb 0x20 c && leb c 0x3f) then 0 else later

unfoldable pub starts_byte : Bytes → ℕ → Bool
starts_byte [] b = false
starts_byte (c ∷ s) b = c == b

unfoldable pub string_sequence : Bytes → ℕ
string_sequence [] = 0
string_sequence (c ∷ s) =
    let later = suc (string_sequence s) in
    if c == 7
    then 1
    else if c == 27
    then (if starts_byte s b'\\' then 2 else 0)
    else if c == 0xc2 && starts_byte s 0x9c
    then 2
    else if c == 0x9c
    then 1
    else if c == 10
    then 0
    else later

unfoldable pub escape_sequence : Bytes → ℕ
escape_sequence [] = 0
escape_sequence (c ∷ s) =
    if c == b'['
    then suc (csi s)
    else if c == b']' || c == b'P' || c == b'^' || c == b'_' || c == b'X'
    then suc (string_sequence s)
    else if (c == b'(' || c == b')' || c == b'*' || c == b'+' || c == b'#') && ltb 0 (length s)
    then 2
    else 1

unfoldable pub sequence : Bytes → ℕ → ℕ
sequence s intro =
    if intro == 0x1b then escape_sequence s else if intro == 0x9b then csi s else string_sequence s

-- The loop of `sgr`; `i` counts the bytes before `s`.
unfoldable pub sgr_from : ℕ → Bytes → ℕ
sgr_from i [] = 0
sgr_from i (c ∷ s) =
    let later = sgr_from (suc i) s in
    if c == b'm'
    then suc i
    else if not (is_digit c) && (not (c == b';') && not (c == b':'))
    then 0
    else later

unfoldable pub sgr : Bytes → ℕ
sgr [] = 0
sgr (c ∷ s) = if c == b'[' then sgr_from 1 s else 0

-- The digits of a number in base 16, `ten` being the character for 10; at most `n` of them
unfoldable pub hex_digits : ℕ → ℕ → ℕ → Text
hex_digits ten zero c = []
hex_digits ten (suc n) c =
    let digit = if ltb (c % 16) 10 then b'0' + c % 16 else ten + (c % 16 - 10) in
    let more = hex_digits ten n (c / 16) in (if ltb c 16 then [] else more) ++ (digit ∷ [])

unfoldable pub zeros : ℕ → Text
zeros zero = []
zeros (suc n) = b'0' ∷ zeros n

-- `{:04X}` and `{:x}`: a character has at most six digits.
unfoldable pub upper_hex : ℕ → Text
upper_hex c = zeros (4 - length (hex_digits b'A' 6 c)) ++ hex_digits b'A' 6 c

unfoldable pub lower_hex : ℕ → Text
lower_hex c = hex_digits b'a' 6 c

unfoldable pub hidden_char : Mode → ℕ → Bool
hidden_char mode c = bidi c || (is_visible mode && invisible c)

unfoldable pub caret : ℕ → Text
caret c =
    if c == 0x7f
    then codes "^?"
    else if ltb c 32
    then b'^' ∷ (b'@' + c) ∷ []
    else (b'<' ∷ lower_hex c) ++ (b'>' ∷ [])

-- What is written for a character
unfoldable pub shown : Mode → ℕ → Text
shown mode c =
    if hidden_char mode c
    then (if is_visible mode then (codes "<U+" ++ upper_hex c) ++ (b'>' ∷ []) else [])
    else if not (control c)
    then c ∷ []
    else if is_visible mode
    then caret c
    else []

unfoldable pub introduces : ℕ → Bool
introduces c =
    c == 0x1b || c == 0x9b || c == 0x9d || c == 0x90 || c == 0x9e || c == 0x9f || c == 0x98

-- How far the loop moves on after a character of `n` bytes
unfoldable pub advance : Mode → ℕ → ℕ → Bytes → ℕ
advance mode c n bytes =
    if hidden_char mode c || not (control c)
    then n
    else if introduces c
    then n + sequence (drop n bytes) c
    else n

unfoldable pub scrub_from : Mode → ℕ → Bytes → Text
scrub_from mode skip [] = []
scrub_from mode (suc skip) (b ∷ bs) = scrub_from mode skip bs
scrub_from mode zero (b ∷ bs) =
    let (c, n) = rune b bs in
    let size = if is_frame mode && c == 0x1b then sgr bs else 0 in
    let styled = take (suc size) (b ∷ bs) ++ scrub_from mode size bs in
    let plain = shown mode c ++ scrub_from mode (advance mode c n (b ∷ bs) - 1) bs in
    if ltb 0 size then styled else plain

unfoldable pub scrub : Bytes → Mode → Text
scrub s mode = scrub_from mode 0 s
