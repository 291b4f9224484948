-- ===== src/Common/Str.antt =====
-- The methods of Rust's `str` that the program calls, over code points.
use Prim.Native.Nat.{ℕ, zero, suc, ◌+◌, ◌-◌}
use mathlib.Core.Bool.{Bool, ◌&&◌, ◌||◌}
use mathlib.Core.List.{List, [], ◌∷◌, ◌++◌, reverse}
use mathlib.Core.Option.{Option, none, some}
use stavlos.Common.Tests.{◌==◌, leb, ltb, if◌then◌else◌}
use stavlos.Common.Lists.{any, length}
use stavlos.Common.Chars.{Text, starts_with, is_empty}

-- `str::contains(char)`
abbrev pub has_char : Text → ℕ → Bool
has_char s c = any (λ x. x == c) s

-- `char::is_whitespace`, the White_Space property of Unicode
unfoldable pub is_whitespace : ℕ → Bool
is_whitespace c =
    (leb 9 c && leb c 13)
    || (c == 32
        || c == 0x85
        || c == 0xa0
        || c == 0x1680
        || (leb 0x2000 c && leb c 0x200a)
        || c == 0x2028
        || c == 0x2029
        || c == 0x202f
        || c == 0x205f
        || c == 0x3000)

abbrev pub is_alphabetic : ℕ → Bool
is_alphabetic c = (leb b'a' c && leb c b'z') || (leb b'A' c && leb c b'Z')

abbrev pub is_digit : ℕ → Bool
is_digit c = leb b'0' c && leb c b'9'

-- `str::len`: the bytes of the UTF-8 form
unfoldable pub byte_len : Text → ℕ
byte_len [] = 0
byte_len (c ∷ s) =
    (if ltb c 0x80 then 1 else if ltb c 0x800 then 2 else if ltb c 0x10000 then 3 else 4)
    + byte_len s

module _ (p : ℕ → Bool) where
  unfoldable pub trim_start_matches : Text → Text
  trim_start_matches [] = []
  trim_start_matches (c ∷ s) = let rest = trim_start_matches s in if p c then rest else c ∷ s

  unfoldable pub trim_end_matches : Text → Text
  unfolding trim_start_matches
  trim_end_matches s = reverse (trim_start_matches (reverse s))

  unfoldable pub trim_matches : Text → Text
  unfolding trim_end_matches
  trim_matches s = trim_end_matches (trim_start_matches s)

unfoldable pub trim : Text → Text
unfolding trim_matches is_whitespace
trim s = trim_matches is_whitespace s

-- `split_whitespace`: the runs of characters that are no white space
unfoldable pub split_from : Text → Text → List Text
split_from word [] = if is_empty word then [] else word ∷ []
split_from word (c ∷ s) =
    let cut = split_from [] s in
    let longer = split_from (word ++ (c ∷ [])) s in
    if is_whitespace c then (if is_empty word then cut else word ∷ cut) else longer

unfoldable pub split_whitespace : Text → List Text
unfolding split_from is_whitespace
split_whitespace s = split_from [] s

-- `join(" ")`
unfoldable pub join_words : List Text → Text
join_words [] = []
join_words (w ∷ []) = w
join_words (w ∷ v ∷ ws) = w ++ (32 ∷ join_words (v ∷ ws))

-- `str::contains(&str)`
unfoldable pub contains_str : Text → Text → Bool
unfolding starts_with
contains_str [] p = is_empty p
contains_str (c ∷ s) p = starts_with (c ∷ s) p || contains_str s p

-- `split_once(char)`
unfoldable pub split_once : ℕ → Text → Option (Text × Text)
split_once d [] = none
split_once d (c ∷ s) =
    let rest = split_once d s in
    if c == d then some ([], s) else elim rest [ none ↦ none | some (a, b) ↦ some (c ∷ a, b) ]

-- `str::replace` of a pattern that is not empty; the first argument counts characters of a match
-- that are still to be passed over.
unfoldable pub replace_from : ℕ → Text → Text → Text → Text
replace_from n pat with_ [] = []
replace_from (suc n) pat with_ (c ∷ s) = replace_from n pat with_ s
replace_from zero pat with_ (c ∷ s) =
    let matched = with_ ++ replace_from (length pat - 1) pat with_ s in
    let kept = c ∷ replace_from zero pat with_ s in
    if starts_with (c ∷ s) pat then matched else kept

unfoldable pub replace : Text → Text → Text → Text
unfolding replace_from starts_with
replace s pat with_ = replace_from 0 pat with_ s

-- The last part of `split(char)`
unfoldable pub last_part : ℕ → Text → Text → Text
last_part d part [] = part
last_part d part (c ∷ s) = last_part d (if c == d then [] else part ++ (c ∷ [])) s
