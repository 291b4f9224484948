-- ===== src/Shell/Prefix.antt =====
-- `prefix` and `covers` of src/shellcmd.rs, with the tables of commands that they read.
use stavlos.Common.{
  ℕ, ltb, if◌then◌else◌, Bool, true, false, not, ◌&&◌, ◌||◌, Option, none, some, List, [], ◌∷◌,
  ◌++◌, String, Text, codes, is_empty, text_eq, starts_with, contains, all, drop,
}
use stavlos.Common.Str.{has_char, is_alphabetic, is_digit, contains_str, byte_len}
use stavlos.Shell.Words.{words}

abbrev texts : List String → List Text
texts [] = []
texts (s ∷ ss) = codes s ∷ texts ss

-- The commands whose second word belongs to the prefix, with the second words that are refused.
abbrev two_word_table : List (List String × List String)
two_word_table =
    (
      "git" ∷ "go" ∷ "cargo" ∷ "make" ∷ "just" ∷ "gh" ∷ "pip" ∷ "pip3" ∷ "dotnet" ∷ "mvn" ∷ "gradle"
          ∷ "terraform" ∷ "helm" ∷ [],
      [],
    )
    ∷ ("npm" ∷ [], "exec" ∷ "x" ∷ [])
    ∷ ("pnpm" ∷ [], "exec" ∷ "dlx" ∷ "x" ∷ [])
    ∷ ("yarn" ∷ [], "exec" ∷ "dlx" ∷ [])
    ∷ ("bun" ∷ [], "x" ∷ "exec" ∷ [])
    ∷ ("uv" ∷ [], "run" ∷ "tool" ∷ [])
    ∷ ("poetry" ∷ [], "run" ∷ [])
    ∷ ("docker" ∷ [], "run" ∷ "exec" ∷ "compose" ∷ [])
    ∷ ("kubectl" ∷ [], "exec" ∷ "run" ∷ "debug" ∷ [])
    ∷ []

-- The arms of a `match` on the program, in order.
unfoldable pub find_row : List (List String × List String) → Text → Option (List Text)
find_row [] program = none
find_row ((names, refused) ∷ rows) program =
    let rest = find_row rows program in
    if contains (texts names) program then some (texts refused) else rest

unfoldable pub two_word : Text → Option (List Text)
unfolding find_row text_eq
two_word program = find_row two_word_table program

unfoldable pub one_word : Text → Bool
unfolding text_eq
one_word program =
    contains
      (texts (
        "ls" ∷ "cat" ∷ "head" ∷ "tail" ∷ "wc" ∷ "echo" ∷ "printf" ∷ "grep" ∷ "rg" ∷ "sort" ∷ "uniq"
        ∷ "cut" ∷ "diff" ∷ "cmp" ∷ "tree" ∷ "file" ∷ "stat" ∷ "du" ∷ "df" ∷ "pwd" ∷ "which"
        ∷ "mkdir" ∷ "touch" ∷ "cp" ∷ "mv" ∷ "rm" ∷ "ln" ∷ "chmod" ∷ "jq" ∷ "yq" ∷ "curl" ∷ "wget"
        ∷ "tsc" ∷ "eslint" ∷ "prettier" ∷ "pytest" ∷ "jest" ∷ "vitest" ∷ "mypy" ∷ "ruff" ∷ "black"
        ∷ "gofmt" ∷ "goimports" ∷ "golangci-lint" ∷ "staticcheck" ∷ "rustfmt" ∷ "clang-format"
        ∷ "cmake" ∷ "ninja" ∷ []))
      program

unfoldable pub plain_char : ℕ → Bool
plain_char c = is_alphabetic c || is_digit c || has_char (codes "._/+-=@:,%") c

unfoldable pub plain_word : Text → Bool
unfolding plain_char
plain_word word = not (is_empty word) && all plain_char word

-- `match words.get(1)` in the arm of a command with two words
unfoldable pub two_word_prefix : Text → List Text → List Text → Text
two_word_prefix first refused [] = []
two_word_prefix first refused (second ∷ rest) =
    if not (starts_with second (codes "-")) && (plain_word second && not (contains refused second))
    then first ++ (32 ∷ second)
    else []

-- `first.starts_with("./") && first.len() > 2 && !first[2..].contains("/..")`
unfoldable pub local_program : Text → Bool
unfolding starts_with contains_str byte_len
local_program first =
    starts_with first (codes "./")
    && (ltb 2 (byte_len first) && not (contains_str (drop 2 first) (codes "/..")))

unfoldable pub prefix_of_words : List Text → Text
prefix_of_words [] = []
prefix_of_words (first ∷ rest) =
    let single = if one_word first || local_program first then first else [] in
    if not (plain_word first)
    then []
    else elim (two_word first) [ some refused ↦ two_word_prefix first refused rest | none ↦ single ]

unfoldable pub prefix : Text → Text
prefix command = elim (words command) [ none ↦ [] | some ws ↦ prefix_of_words ws ]

-- `[String]::starts_with`
unfoldable pub begins_with : List Text → List Text → Bool
unfolding text_eq
begins_with c [] = true
begins_with [] (w ∷ p) = false
begins_with (v ∷ c) (w ∷ p) = text_eq v w && begins_with c p

unfoldable pub covers_words : Option (List Text) → Option (List Text) → Bool
covers_words none c = false
covers_words (some p) none = false
covers_words (some p) (some c) = not (is_empty p) && begins_with c p

unfoldable pub covers : Text → Text → Bool
covers prefix command = covers_words (words prefix) (words command)
