-- ===== src/Shell/Tests.antt =====
-- Runs of the shell reader on the inputs of tests/permissions.rs.
use stavlos.Common.{
  ◌≡◌, refl, true, false, none, some, [], ◌∷◌, Text, codes, starts_with, text_eq, is_empty,
  contains, all, ◌++◌, ap, arith,
}
use stavlos.Shell.Words.{words, simple, operator}
use stavlos.Shell.Grants.{covers-prefix, covers-simple}
use stavlos.Shell.Refusal.{unquoted, words-operator}
use stavlos.Shell.Launched.{IsProgram}
use stavlos.Shell.Distinct.{commands-simple}
use stavlos.Shell.Prefix.{
  prefix, covers, prefix_of_words, two_word_prefix, plain_word, two_word, one_word, covers_words,
  begins_with,
}
use stavlos.Shell.Segments.{segments}
use stavlos.Shell.Launch.{
  launched, launched_from, keyword, assignment, launcher, skip_flags, takes_value, scripts,
  basename,
}
use stavlos.Shell.Commands.{
  commands, visit, visit_segment, visit_words, pieces, words_or_split, bind, expand,
}
use stavlos.Common.Map.{insert, remove}
use stavlos.Common.Str.{byte_len, join_words, split_whitespace}

words_quotes :
    words (codes "git commit -m 'a b'\"c\"")
    ≡ some (codes "git" ∷ codes "commit" ∷ codes "-m" ∷ codes "a bc" ∷ [])
unfolding words
words_quotes = refl

words_refuses : words (codes "ls; rm x") ≡ none
unfolding words
words_refuses = refl

prefix_git : prefix (codes "git status -s") ≡ codes "git status"
unfolding prefix words prefix_of_words two_word_prefix plain_word two_word one_word starts_with
    text_eq
prefix_git = refl

prefix_npm : prefix (codes "npm exec x") ≡ []
unfolding prefix words prefix_of_words two_word_prefix plain_word two_word one_word starts_with
    text_eq
prefix_npm = refl

covers_git : covers (codes "git status") (codes "git status -s") ≡ true
unfolding covers words covers_words begins_with
covers_git = refl

commands_nested :
    commands (codes "cd x && sudo -u a /bin/sh -c 'rm y'")
    ≡ codes "cd x" ∷ codes "/bin/sh -c rm y" ∷ codes "sh -c rm y" ∷ codes "rm y" ∷ []
unfolding commands visit visit_segment visit_words pieces words_or_split words segments bind expand
    launched launched_from keyword assignment launcher skip_flags takes_value byte_len starts_with
    scripts basename join_words text_eq split_whitespace insert remove
commands_nested = refl

commands_variable : commands (codes "A=rm; $A file") ≡ codes "rm file" ∷ []
unfolding commands visit visit_segment visit_words pieces words_or_split words segments bind expand
    launched launched_from keyword assignment launcher skip_flags takes_value byte_len starts_with
    scripts basename join_words text_eq split_whitespace insert remove
commands_variable = refl

-- The theorems at concrete inputs.
abbrev git_status : Text
git_status = codes "git status -s"

git_offers : is_empty (prefix git_status) ≡ false
unfolding prefix words prefix_of_words two_word_prefix plain_word two_word one_word starts_with
    text_eq
git_offers = refl

covers-prefix_example : covers (prefix git_status) git_status ≡ true
covers-prefix_example =
    covers-prefix git_status (λ e. ground (arith, git_offers, ap (λ t. is_empty t) e))

git_wide : covers (codes "git") (codes "git status") ≡ true
unfolding covers words covers_words begins_with text_eq
git_wide = refl

git_narrow : covers (codes "git status") git_status ≡ true
unfolding covers words covers_words begins_with text_eq
git_narrow = refl

covers-simple_example : (simple (codes "git status") ≡ true) × (simple git_status ≡ true)
covers-simple_example = covers-simple (codes "git status") git_status git_narrow

plain_front : all unquoted (codes "ls ") ≡ true
unfolding unquoted
plain_front = refl

semicolon : operator b';' ≡ true
unfolding operator
semicolon = refl

words-operator_example :
    (words (codes "ls " ++ (b';' ∷ codes " rm 'x'")) ≡ none)
    × (simple (codes "ls " ++ (b';' ∷ codes " rm 'x'")) ≡ false)
words-operator_example = words-operator (codes "ls ") (codes " rm 'x'") b';' plain_front semicolon

rm_words : words (codes "rm 'a b'") ≡ some (codes "rm" ∷ codes "a b" ∷ [])
unfolding words
rm_words = refl

rm-IsProgram : IsProgram (codes "rm" ∷ codes "a b" ∷ [])
unfolding keyword assignment launcher basename
rm-IsProgram = (refl, refl, refl)

rm_joined : is_empty (join_words (codes "rm" ∷ codes "a b" ∷ [])) ≡ false
unfolding join_words
rm_joined = refl

commands-simple_example :
    contains (commands (codes "rm 'a b'")) (join_words (codes "rm" ∷ codes "a b" ∷ [])) ≡ true
commands-simple_example =
    commands-simple (codes "rm 'a b'") (codes "rm") (codes "a b" ∷ []) rm_words rm-IsProgram
      rm_joined
