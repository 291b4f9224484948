-- ===== src/Shell/Commands.antt =====
-- `bind`, `expand` and `commands` of src/shellcmd.rs: every command that a line may run.
use mathlib.Core.List.{foldl}
use stavlos.Common.{
  ℕ, zero, suc, ◌==◌, if◌then◌else◌, Bool, true, false, not, ◌&&◌, ◌||◌, none, some, List, [], ◌∷◌,
  ◌++◌, Text, codes, is_empty, text_eq, contains, length,
}
use stavlos.Common.Map.{Map, get, insert, remove}
use stavlos.Common.Str.{has_char, is_alphabetic, is_digit, replace, split_whitespace, join_words}
use stavlos.Shell.Words.{words}
use stavlos.Shell.Segments.{segments}
use stavlos.Shell.Launch.{assignment, basename, launched, scripts}

-- The leading assignments of a command; a value that is itself computed unbinds the name.
unfoldable pub bind : Map Text → List Text → Map Text
bind variables [] = variables
bind variables (word ∷ ws) = elim (assignment word) [
  | none ↦ variables
  | some (name, value) ↦
      bind
        (if has_char value b'$' || has_char value b'`'
          then remove variables name
          else insert variables name value)
        ws
]

-- The characters of a variable's name from the front of a text.
unfoldable pub name_span : Bool → Text → Text
name_span later [] = []
name_span later (c ∷ s) =
    let more = c ∷ name_span true s in
    if c == b'_' || is_alphabetic c || (later && is_digit c) then more else []

-- The first argument counts the characters of a name that are still to be passed over.
unfoldable pub expand_from : ℕ → Map Text → Text → Text
unfolding get name_span
expand_from skip variables [] = []
expand_from (suc skip) variables (c ∷ s) = expand_from skip variables s
expand_from zero variables (c ∷ s) =
    let kept = c ∷ expand_from zero variables s in
    let name = name_span false s in
    if c == b'$'
    then elim (get variables name) [
      | none ↦ kept
      | some value ↦ value ++ expand_from (length name) variables s
    ]
    else kept

unfoldable pub expand_bare : Map Text → Text → Text
unfolding expand_from
expand_bare variables word = expand_from 0 variables word

-- The loop that replaces `${name}`
unfoldable pub expand_braced : Map Text → Text → Text
unfolding replace
expand_braced [] word = word
expand_braced ((name, value) ∷ variables) word =
    expand_braced variables (replace word (codes "${" ++ (name ++ codes "}")) value)

unfoldable pub expand_word : Map Text → Text → List Text
unfolding expand_braced expand_bare split_whitespace
expand_word variables word =
    if not (has_char word b'$')
    then word ∷ []
    else split_whitespace (expand_bare variables (expand_braced variables word))

unfoldable pub expand_each : Map Text → List Text → List Text
unfolding expand_word
expand_each variables [] = []
expand_each variables (word ∷ ws) = expand_word variables word ++ expand_each variables ws

unfoldable pub expand : Map Text → List Text → List Text
unfolding expand_each
expand variables ws = if is_empty variables then ws else expand_each variables ws

-- The variables that `visit` threads through its calls.
pub record Found : Type 0 where
  pub variables : Map Text
  pub seen : List Text
  pub out : List Text

-- `if seen.insert(normalized.clone()) { out.push(normalized); }`
unfoldable pub add : Found → Text → Found
add f command =
    if contains f.seen command
    then f
    else record f { seen = command ∷ f.seen; out = f.out ++ (command ∷ []) }

-- The rest of the loop's body, once the words are known.
unfoldable pub visit_words : (Text → Found → Found) → List Text → Found → Found
unfolding add
visit_words deeper [] f = f
visit_words deeper (first ∷ rest) f =
    let normalized = join_words (first ∷ rest) in
    let listed = if is_empty normalized then f else add f normalized in
    let base = basename first in
    let based = if text_eq base first then listed else add listed (join_words (base ∷ rest)) in
    foldl (λ g script. deeper script g) based (scripts (first ∷ rest))

-- `words(&segment).unwrap_or_else(|| segment.split_whitespace()...)`
unfoldable pub words_or_split : Text → List Text
words_or_split segment = elim (words segment) [ none ↦ split_whitespace segment | some ws ↦ ws ]

unfoldable pub visit_segment : (Text → Found → Found) → Found → Text → Found
visit_segment deeper f segment =
    let ws = words_or_split segment in
    let variables = bind f.variables ws in
    visit_words deeper (launched (expand variables ws)) (record f { variables = variables })

unfoldable pub pieces : Text → List Text
pieces command = elim (words command) [ none ↦ segments command | some ws ↦ command ∷ [] ]

-- The first argument is `4 - depth`: at depth 4 no script is entered.
unfoldable pub visit : ℕ → Text → Found → Found
visit zero command f = foldl (visit_segment (λ script g. g)) f (pieces command)
visit (suc left) command f = foldl (visit_segment (visit left)) f (pieces command)

unfoldable pub commands : Text → List Text
commands command = (visit 4 command (record { variables = []; seen = []; out = [] })).out
