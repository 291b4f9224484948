-- ===== src/Shell/Launched.antt =====
-- Which program `launched` of src/shellcmd.rs finds behind assignments, keywords and launchers.
use stavlos.Common.{
  ℕ, ◌≡◌, Bool, true, false, ◌||◌, ◌&&◌, leb, none, some, List, [], ◌∷◌, Text, codes, drop,
  starts_with,
}
use stavlos.Common.Str.{byte_len}
use stavlos.Shell.Launch.{keyword, assignment, launcher, basename, takes_value, is_some}

-- No words, or words whose first is a program: no keyword, no assignment and no launcher.
abbrev pub IsProgram : List Text → Type 0
IsProgram [] = Unit
IsProgram (first ∷ rest) =
    (keyword first ≡ false)
    × (is_some (assignment first) ≡ false)
    × (launcher (basename first) ≡ none)

-- A word of a launcher's own: an assignment, or a dash with something behind it.
unfoldable pub own_word : Text → Bool
own_word word = is_some (assignment word) || (leb 2 (byte_len word) && starts_with word (codes "-"))

-- The words behind a launcher's own words, where each flag of `flags` takes the next word along.
pub data Behind (flags : Text) : List Text → List Text → Type 0 where
  over : Behind flags [] []
  stop : (w : Text) (ws : List Text) → own_word w ≡ false → Behind flags (w ∷ ws) (w ∷ ws)
  last : (w : Text) → own_word w ≡ true → takes_value flags w ≡ true → Behind flags (w ∷ []) []
  plain :
      (w : Text) (ws rest : List Text)
      → own_word w ≡ true
      → takes_value flags w ≡ false
      → Behind flags ws rest
      → Behind flags (w ∷ ws) rest
  valued :
      (w v : Text) (ws rest : List Text)
      → own_word w ≡ true
      → takes_value flags w ≡ true
      → Behind flags ws rest
      → Behind flags (w ∷ v ∷ ws) rest

-- Which words are run when the first are typed: keywords and assignments go, one at a time; a
-- launcher goes with its own words and its own arguments; a program stays, with all that follows it.
pub data Runs : List Text → List Text → Type 0 where
  program : (ws : List Text) → IsProgram ws → Runs ws ws
  pass :
      (w : Text) (ws run : List Text)
      → (keyword w || is_some (assignment w)) ≡ true
      → Runs ws run
      → Runs (w ∷ ws) run
  launch :
      (w : Text) (ws rest run : List Text) (own_args : ℕ) (flags : Text)
      → (keyword w || is_some (assignment w)) ≡ false
      → launcher (basename w) ≡ some (own_args, flags)
      → Behind flags ws rest
      → Runs (drop own_args rest) run
      → Runs (w ∷ ws) run
