-- ===== src/Paths/Tests.antt =====
-- Runs of src/pathx.rs.
use stavlos.Common.{codes, text_eq, true, false, none, some, List, [], ◌∷◌, ◌≡◌, refl}
use stavlos.Paths.Lexical.{
  Part, parent, name, FilePath, part_eq, pop, clean_parts, or_current, clean, names, shared, climb,
  relative_parts, same_root, relative, inside,
}
use stavlos.Paths.Inside.{is_some, location, begins, inside-prefix}

abbrev rooted : List Part → FilePath
rooted ps = record { has_root = true; parts = ps }

abbrev home : FilePath
home = rooted (name (codes "home") ∷ name (codes "a") ∷ [])

abbrev below : FilePath
below =
    rooted
      (name (codes "home") ∷ name (codes "b") ∷ parent ∷ name (codes "a") ∷ name (codes "x") ∷ [])

abbrev sneaky : FilePath
sneaky = rooted (name (codes "home") ∷ name (codes "a") ∷ parent ∷ name (codes "ab") ∷ [])

below_inside : inside home below ≡ some (record { has_root = false; parts = name (codes "x") ∷ [] })
unfolding inside relative clean clean_parts pop or_current names shared climb relative_parts
    same_root part_eq text_eq
below_inside = refl

sneaky_outside : inside home sneaky ≡ none
unfolding inside relative clean clean_parts pop or_current names shared climb relative_parts
    same_root part_eq text_eq
sneaky_outside = refl

inside-prefix_example : is_some (inside home sneaky) ≡ begins (location home) (location sneaky)
inside-prefix_example = inside-prefix home sneaky refl refl
