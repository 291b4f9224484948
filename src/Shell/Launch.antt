-- ===== src/Shell/Launch.antt =====
-- src/shellcmd.rs: the words in front of the program that is run (assignments, keywords, launchers
-- such as `sudo`), and the scripts that a shell is handed.
use stavlos.Common.{
  ℕ, zero, suc, ◌==◌, ltb, if◌then◌else◌, Bool, true, false, not, ◌&&◌, ◌||◌, Option, none, some,
  List, [], ◌∷◌, String, Text, codes, is_empty, text_eq, starts_with, contains, length, get_elem?,
  drop,
}
use stavlos.Common.Str.{
  has_char, is_alphabetic, is_digit, byte_len, trim_end_matches, trim_matches, last_part,
  split_once, join_words,
}

unfoldable pub basename : Text → Text
unfolding trim_end_matches last_part
basename [] = codes "."
basename (c ∷ word) =
    let trimmed = trim_end_matches (λ d. d == b'/') (c ∷ word) in
    if is_empty trimmed then codes "/" else last_part b'/' [] trimmed

-- `name.chars().enumerate().all(...)`: `later` says that `i > 0`.
unfoldable pub name_chars : Bool → Text → Bool
name_chars later [] = true
name_chars later (c ∷ s) =
    (c == b'_' || is_alphabetic c || (later && is_digit c)) && name_chars true s

unfoldable pub assignment : Text → Option (Text × Text)
unfolding split_once name_chars
assignment word = elim (split_once b'=' word) [
  | none ↦ none
  | some (name, value) ↦
      if not (is_empty name) && name_chars false name then some (name, value) else none
]

abbrev texts : List String → List Text
texts [] = []
texts (s ∷ ss) = codes s ∷ texts ss

unfoldable pub keyword : Text → Bool
unfolding text_eq
keyword word =
    contains
      (texts (
        "if" ∷ "then" ∷ "else" ∷ "elif" ∷ "fi" ∷ "while" ∷ "until" ∷ "do" ∷ "done" ∷ "!" ∷ "{" ∷ "}"
        ∷ "time" ∷ "coproc" ∷ []))
      word

-- The launchers, the number of their own arguments, and their flags that take a value.
abbrev launcher_table : List (String × ℕ × String)
launcher_table =
    ("sudo", 0, "ughpCDRTUr")
    ∷ ("doas", 0, "uC")
    ∷ ("env", 0, "uCS")
    ∷ ("nice", 0, "n")
    ∷ ("ionice", 0, "cnpPu")
    ∷ ("timeout", 1, "ks")
    ∷ ("chroot", 1, "")
    ∷ ("stdbuf", 0, "ioe")
    ∷ ("xargs", 0, "IndPLEsa")
    ∷ ("exec", 0, "a")
    ∷ ("nohup", 0, "")
    ∷ ("command", 0, "")
    ∷ ("builtin", 0, "")
    ∷ ("setsid", 0, "")
    ∷ ("chronic", 0, "")
    ∷ ("unbuffer", 0, "")
    ∷ []

unfoldable pub find_launcher : List (String × ℕ × String) → Text → Option (ℕ × Text)
find_launcher [] word = none
find_launcher ((name, own_args, flags) ∷ rows) word =
    let rest = find_launcher rows word in
    if text_eq (codes name) word then some (own_args, codes flags) else rest

unfoldable pub launcher : Text → Option (ℕ × Text)
unfolding find_launcher text_eq
launcher word = find_launcher launcher_table word

abbrev pub is_some {ℓ} : {A : Type ℓ} → Option A → Bool
is_some none = false
is_some (some a) = true

abbrev pub is_none {ℓ} : {A : Type ℓ} → Option A → Bool
is_none o = not (is_some o)

-- `word.len() == 2 && word != "--" && flags.contains(char::from(word.as_bytes()[1]))`. A word of
-- two bytes that comes here begins with an ASCII character, so its second byte is its second one.
unfoldable pub takes_value : Text → Text → Bool
unfolding byte_len text_eq
takes_value flags word =
    byte_len word == 2
    && (not (text_eq word (codes "--"))
        && elim (get_elem? word 1) [ none ↦ false | some c ↦ has_char flags c ])

-- The inner loop of `launched`: the launcher's flags, their values, and assignments.
unfoldable pub skip_flags : Text → List Text → List Text
skip_flags flags [] = []
skip_flags flags (word ∷ []) =
    if is_none (assignment word) && (ltb (byte_len word) 2 || not (starts_with word (codes "-")))
    then word ∷ []
    else []
skip_flags flags (word ∷ next ∷ rest) =
    let one = skip_flags flags (next ∷ rest) in
    let two = skip_flags flags rest in
    if is_none (assignment word) && (ltb (byte_len word) 2 || not (starts_with word (codes "-")))
    then word ∷ next ∷ rest
    else if takes_value flags word
    then two
    else one

-- The outer loop, with fuel: each round takes one word at least.
unfoldable pub launched_from : ℕ → List Text → List Text
launched_from fuel [] = []
launched_from zero (first ∷ rest) = first ∷ rest
launched_from (suc fuel) (first ∷ rest) =
    let next = launched_from fuel rest in
    if keyword first || is_some (assignment first) then next else elim (launcher (basename first)) [
      | none ↦ first ∷ rest
      | some (own_args, flags) ↦ launched_from fuel (drop own_args (skip_flags flags rest))
    ]

unfoldable pub launched : List Text → List Text
launched ws = launched_from (length ws) ws

-- The words behind the program from index `i` on; the loop stops one word before the last.
unfoldable pub script_args : List Text → List Text
unfolding text_eq starts_with trim_matches join_words
script_args [] = []
script_args (word ∷ []) = []
script_args (word ∷ next ∷ rest) =
    let later = script_args (next ∷ rest) in
    if text_eq word (codes "<<<")
    then trim_matches (λ c. c == b'\'' || c == b'"') (join_words (next ∷ rest)) ∷ later
    else if starts_with word (codes "-")
        && (not (starts_with word (codes "--")) && has_char word b'c')
    then next ∷ later
    else later

unfoldable pub is_shell : Text → Bool
unfolding text_eq
is_shell name = contains (texts ("sh" ∷ "bash" ∷ "zsh" ∷ "dash" ∷ "ksh" ∷ "fish" ∷ [])) name

unfoldable pub scripts : List Text → List Text
unfolding basename script_args is_shell join_words
scripts [] = []
scripts (first ∷ rest) =
    if text_eq (basename first) (codes "eval")
    then join_words rest ∷ []
    else if is_shell (basename first)
    then script_args rest
    else []
