-- ===== src/Shell/Segments.antt =====
-- `segments` and `cut` of src/shellcmd.rs: a compound command is cut at its operators and
-- substitutions. `prev` is the character at `i - 1`, which the test for a brace looks at.
use stavlos.Common.{
  ℕ, ◌==◌, if◌then◌else◌, Bool, ◌&&◌, ◌||◌, Option, none, some, List, [], ◌∷◌, ◌++◌, Text, codes,
  is_empty,
}
use stavlos.Common.Str.{has_char, trim}
use stavlos.Shell.Words.{Quote, bare, single, double, ends_or_in, next_in}

pub record Cutting : Type 0 where
  pub quote : Quote
  pub prev : Option ℕ
  pub current : Text
  pub out : List Text

abbrev pub push : Cutting → ℕ → Cutting
push s c = record s { current = s.current ++ (c ∷ []); prev = some c }

unfoldable pub cut : Cutting → Cutting
unfolding trim
cut s =
    if is_empty (trim s.current)
    then record s { current = [] }
    else record s { out = s.out ++ (trim s.current ∷ []); current = [] }

-- A round goes on behind one character or behind two.
pub data Round : Type 0 where
  one two : Cutting → Round

-- `` ch == '`' || ch == '$' && chars.get(i + 1) == Some(&'(') ``
unfoldable pub substitution : ℕ → Option ℕ → Bool
substitution c next = c == b'`' || (c == b'$' && next_in next (codes "("))

unfoldable pub escape : Cutting → Option ℕ → Round
escape s none = one (push s b'\\')
escape s (some d) = two (push (push s b'\\') d)

-- `if ch == '$' { i += 1; } cut(...)`, and the quote that follows
unfoldable pub substitute : Cutting → ℕ → Round
unfolding cut
substitute s c =
    if c == b'$'
    then two (record (cut s) { quote = bare; prev = some b'(' })
    else one (record (cut s) { quote = bare; prev = some c })

unfoldable pub boundary : Cutting → ℕ → Option ℕ → Bool
boundary s c next =
    has_char (codes ";&|\n\r()") c
    || ((c == b'{' || c == b'}')
        && (ends_or_in s.prev (codes " \t") && ends_or_in next (codes " \t;")))

unfoldable pub cut_step : Quote → Cutting → ℕ → Option ℕ → Round
unfolding cut substitution escape substitute boundary
cut_step single s c next =
    if c == b'\'' then one (record (push s c) { quote = bare }) else one (push s c)
cut_step double s c next =
    if c == b'"'
    then one (record (push s c) { quote = bare })
    else if c == b'\\'
    then escape s next
    else if substitution c next
    then substitute s c
    else one (push s c)
cut_step bare s c next =
    if c == b'\''
    then one (record (push s c) { quote = single })
    else if c == b'"'
    then one (record (push s c) { quote = double })
    else if c == b'\\'
    then escape s next
    else if substitution c next
    then substitute s c
    else if boundary s c next
    then one (record (cut s) { prev = some c })
    else one (push s c)

unfoldable pub cutting : Cutting → Text → List Text
unfolding cut_step cut
cutting s [] = (cut s).out
cutting s (c ∷ []) = elim (cut_step s.quote s c none) [
  | one s' ↦ cutting s' []
  | two s' ↦ cutting s' []
]
cutting s (c ∷ d ∷ rest) = elim (cut_step s.quote s c (some d)) [
  | one s' ↦ cutting s' (d ∷ rest)
  | two s' ↦ cutting s' rest
]

unfoldable pub segments : Text → List Text
unfolding cutting
segments command = cutting (record { quote = bare; prev = none; current = []; out = [] }) command
