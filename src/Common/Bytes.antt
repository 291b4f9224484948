-- ===== src/Common/Bytes.antt =====
-- Byte strings: UTF-8 as Rust's `str` has it, and the slice methods that the program calls.
use Prim.Native.Nat.{ℕ, ◌+◌, ◌*◌, ◌/◌, ◌%◌}
use mathlib.Core.Bool.{Bool, ◌&&◌, not}
use mathlib.Core.List.{List, [], ◌∷◌, ◌++◌}
use mathlib.Core.Option.{Option, none, some}
use stavlos.Common.Tests.{◌==◌, leb, ltb, if◌then◌else◌}
use stavlos.Common.Chars.{Text}

abbrev pub Bytes : Type 0
Bytes = List ℕ

-- `char::encode_utf8`
unfoldable pub encode_char : ℕ → Bytes
encode_char c =
    if ltb c 0x80
    then c ∷ []
    else if ltb c 0x800
    then (0xc0 + c / 0x40) ∷ (0x80 + c % 0x40) ∷ []
    else if ltb c 0x10000
    then (0xe0 + c / 0x1000) ∷ (0x80 + (c / 0x40) % 0x40) ∷ (0x80 + c % 0x40) ∷ []
    else (0xf0 + c / 0x40000)
      ∷ (0x80 + (c / 0x1000) % 0x40)
      ∷ (0x80 + (c / 0x40) % 0x40)
      ∷ (0x80 + c % 0x40)
      ∷ []

-- `str::as_bytes`
unfoldable pub as_bytes : Text → Bytes
unfolding encode_char
as_bytes [] = []
as_bytes (c ∷ s) = encode_char c ++ as_bytes s

-- A character that is being read: the bytes that are still to come, the bits so far and the
-- smallest code point that needs as many bytes.
pub record Partial : Type 0 where
  pub need : ℕ
  pub bits : ℕ
  pub least : ℕ

abbrev pub idle : Partial
idle = record { need = 0; bits = 0; least = 0 }

abbrev pub pending : ℕ → ℕ → ℕ → Partial
pending need bits least = record { need = need; bits = bits; least = least }

unfoldable pub is_char : ℕ → ℕ → Bool
is_char least c = leb least c && (leb c 0x10ffff && not (leb 0xd800 c && leb c 0xdfff))

-- The characters that a byte completes, with what is pending after it; `none` for invalid bytes.
unfoldable pub decode_byte : Partial → ℕ → Option (Text × Partial)
unfolding is_char
decode_byte p b =
    let bits = p.bits * 0x40 + b % 0x40 in
    if p.need == 0
    then (if ltb b 0x80
        then some (b ∷ [], idle)
        else if leb 0xc0 b && ltb b 0xe0
        then some ([], pending 1 (b % 0x20) 0x80)
        else if leb 0xe0 b && ltb b 0xf0
        then some ([], pending 2 (b % 0x10) 0x800)
        else if leb 0xf0 b && ltb b 0xf8
        then some ([], pending 3 (b % 8) 0x10000)
        else none)
    else if not (leb 0x80 b && ltb b 0xc0)
    then none
    else if p.need == 1
    then (if is_char p.least bits then some (bits ∷ [], idle) else none)
    else if p.need == 2
    then some ([], pending 1 bits p.least)
    else some ([], pending 2 bits p.least)

unfoldable pub decode : Partial → Bytes → Option Text
decode p [] = if p.need == 0 then some [] else none
decode p (b ∷ bs) = elim (decode_byte p b) [
  | none ↦ none
  | some (cs, q) ↦ elim (decode q bs) [ none ↦ none | some rest ↦ some (cs ++ rest) ]
]

-- `std::str::from_utf8`
unfoldable pub from_utf8 : Bytes → Option Text
unfolding decode decode_byte
from_utf8 bs = decode idle bs

-- `split` at each occurrence of one element
unfoldable pub split_from_sep : ℕ → List ℕ → List ℕ → List (List ℕ)
split_from_sep d part [] = part ∷ []
split_from_sep d part (c ∷ s) =
    let cut = split_from_sep d [] s in
    let longer = split_from_sep d (part ++ (c ∷ [])) s in if c == d then part ∷ cut else longer

unfoldable pub split_on : ℕ → List ℕ → List (List ℕ)
unfolding split_from_sep
split_on d s = split_from_sep d [] s

-- `join` with one element
unfoldable pub join_on : ℕ → List (List ℕ) → List ℕ
join_on d [] = []
join_on d (w ∷ []) = w
join_on d (w ∷ v ∷ ws) = w ++ (d ∷ join_on d (v ∷ ws))
