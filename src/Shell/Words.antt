-- ===== src/Shell/Words.antt =====
-- `words` and `simple` of src/shellcmd.rs. The loop over the index `i` is a recursion on the
-- characters that are left; `step` is its body, with the character at `i + 1` as an option.
use stavlos.Common.{
  ℕ, ◌==◌, if◌then◌else◌, Bool, true, false, not, ◌&&◌, ◌||◌, Option, none, some, List, [], ◌∷◌,
  ◌++◌, Text, codes, is_empty,
}
use stavlos.Common.Str.{has_char}

pub data Quote : Type 0 where
  bare single double : Quote

-- The loop's variables.
pub record Scan : Type 0 where
  pub quote : Quote
  pub active : Bool
  pub current : Text
  pub out : List Text

unfoldable pub flush : Scan → Scan
flush s =
    if s.active
    then record s { out = s.out ++ (s.current ∷ []); current = []; active = false }
    else s

abbrev pub push : Scan → ℕ → Scan
push s c = record s { current = s.current ++ (c ∷ []) }

-- What a round of the loop does: `return None`, or go on behind one character or two.
pub data Action : Type 0 where
  refuse : Action
  one two : Scan → Action

-- `chars.get(i + 1).is_some_and(|c| set.contains(*c))`
abbrev pub next_in : Option ℕ → Text → Bool
next_in none set = false
next_in (some c) set = has_char set c

-- `chars.get(i + 1).is_none_or(|c| set.contains(*c))`
abbrev pub ends_or_in : Option ℕ → Text → Bool
ends_or_in none set = true
ends_or_in (some c) set = has_char set c

unfoldable pub single_step : Scan → ℕ → Action
single_step s c = if c == b'\'' then one (record s { quote = bare }) else one (push s c)

-- A backslash in double quotes; the guard has seen the next character.
unfoldable pub double_escape : Scan → Option ℕ → Action
double_escape s none = one (push s b'\\')
double_escape s (some d) = if d == 10 then two s else two (push s d)

unfoldable pub double_step : Scan → ℕ → Option ℕ → Action
unfolding double_escape
double_step s c next =
    if c == b'"'
    then one (record s { quote = bare })
    else if c == b'\\' && next_in next (codes "$\"\\`\n")
    then double_escape s next
    else if c == b'`'
    then refuse
    else if c == b'$' && next_in next (codes "(")
    then refuse
    else one (push s c)

unfoldable pub bare_escape : Scan → Option ℕ → Action
unfolding flush
bare_escape s none = one s
bare_escape s (some d) =
    if d == 10 then two (flush s) else two (record (push s d) { active = true })

-- `'\n' | '\r' | ';' | '|' | '&' | '<' | '>' | '(' | ')' | '`'`
unfoldable pub operator : ℕ → Bool
operator c = has_char (codes "\n\r;|&<>()`") c

unfoldable pub bare_step : Scan → ℕ → Option ℕ → Action
unfolding flush bare_escape operator
bare_step s c next =
    if c == 32 || c == 9
    then one (flush s)
    else if operator c
    then refuse
    else if c == b'\''
    then one (record s { quote = single; active = true })
    else if c == b'"'
    then one (record s { quote = double; active = true })
    else if c == b'\\'
    then bare_escape s next
    else if c == b'$' && next_in next (codes "(")
    then refuse
    else if (c == b'{' || c == b'}') && (not s.active && ends_or_in next (codes " \t"))
    then refuse
    else one (record (push s c) { active = true })

-- The body of the loop, `match quote`.
unfoldable pub dispatch : Quote → Scan → ℕ → Option ℕ → Action
unfolding single_step double_step bare_step
dispatch single s c next = single_step s c
dispatch double s c next = double_step s c next
dispatch bare s c next = bare_step s c next

unfoldable pub step : Scan → ℕ → Option ℕ → Action
unfolding dispatch
step s c next = dispatch s.quote s c next

unfoldable pub finish : Quote → Scan → Option (List Text)
unfolding flush
finish bare s = some (flush s).out
finish single s = none
finish double s = none

unfoldable pub scan : Scan → Text → Option (List Text)
unfolding step finish
scan s [] = finish s.quote s
scan s (c ∷ []) = elim (step s c none) [ refuse ↦ none | one s' ↦ scan s' [] | two s' ↦ scan s' [] ]
scan s (c ∷ d ∷ rest) = elim (step s c (some d)) [
  | refuse ↦ none
  | one s' ↦ scan s' (d ∷ rest)
  | two s' ↦ scan s' rest
]

abbrev pub start : Scan
start = record { quote = bare; active = false; current = []; out = [] }

unfoldable pub words : Text → Option (List Text)
unfolding scan
words command = scan start command

unfoldable pub simple : Text → Bool
unfolding words
simple command = elim (words command) [ none ↦ false | some ws ↦ not (is_empty ws) ]
