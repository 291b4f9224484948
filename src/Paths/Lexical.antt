-- ===== src/Paths/Lexical.antt =====
-- The functions of src/pathx.rs on the components of a path, as `Path::components` gives them.
use mathlib.Core.List.{reverse}
use stavlos.Common.{
  ℕ, suc, Text, text_eq, Bool, true, false, not, ◌&&◌, Option, none, some, List, [], ◌∷◌, ◌++◌, any,
  drop, filter, is_empty, if◌then◌else◌,
}

-- `Component`, without the root, which stands at the front of a path only
pub data Part : Type 0 where
  current parent : Part
  name : Text → Part

pub record FilePath : Type 0 where
  pub has_root : Bool
  pub parts : List Part

unfoldable pub part_eq : Part → Part → Bool
part_eq current current = true
part_eq parent parent = true
part_eq (name a) (name b) = text_eq a b
part_eq _ _ = false

abbrev pub is_current : Part → Bool
is_current current = true
is_current parent = false
is_current (name a) = false

abbrev pub is_parent : Part → Bool
is_parent parent = true
is_parent current = false
is_parent (name a) = false

-- A `..`: the last name goes; where there is none, it is kept, but not behind a root.
unfoldable pub pop : Bool → List Part → List Part
pop root (name a ∷ out) = out
pop true out = out
pop false out = parent ∷ out

-- The loop of `clean`; `out` has the last component first.
unfoldable pub clean_parts : Bool → List Part → List Part → List Part
clean_parts root out [] = reverse out
clean_parts root out (current ∷ ps) = clean_parts root out ps
clean_parts root out (parent ∷ ps) = clean_parts root (pop root out) ps
clean_parts root out (name a ∷ ps) = clean_parts root (name a ∷ out) ps

-- An empty path is written `.`.
unfoldable pub or_current : Bool → List Part → List Part
or_current root parts = if not root && is_empty parts then current ∷ [] else parts

unfoldable pub clean : FilePath → FilePath
clean p = record p { parts = or_current p.has_root (clean_parts p.has_root [] p.parts) }

-- `Path::join`
unfoldable pub join : FilePath → FilePath → FilePath
join a b = if b.has_root then b else record a { parts = a.parts ++ b.parts }

-- `absolute`, with what `current_dir` answers
unfoldable pub absolute : Option FilePath → FilePath → Option FilePath
absolute directory p =
    if p.has_root
    then some (clean p)
    else elim directory [ none ↦ none | some d ↦ some (clean (join d p)) ]

unfoldable pub names : List Part → List Part
names ps = filter (λ c. not (is_current c)) ps

-- `zip`, `take_while` and `count`
unfoldable pub shared : List Part → List Part → ℕ
shared [] to = 0
shared (a ∷ from) [] = 0
shared (a ∷ from) (b ∷ to) = let rest = shared from to in if part_eq a b then suc rest else 0

-- One `..` for each component
unfoldable pub climb : List Part → List Part
climb [] = []
climb (a ∷ from) = parent ∷ climb from

unfoldable pub relative_parts : List Part → List Part → List Part
relative_parts from to = climb (drop (shared from to) from) ++ drop (shared from to) to

unfoldable pub same_root : Bool → Bool → Bool
same_root true b = b
same_root false b = not b

unfoldable pub relative : FilePath → FilePath → Option FilePath
relative base path =
    let from = clean base in
    let to = clean path in
    if same_root from.has_root to.has_root
    then some (record {
      has_root = false;
      parts = or_current false (relative_parts (names from.parts) (names to.parts));
    })
    else none

unfoldable pub inside : FilePath → FilePath → Option FilePath
inside base path = elim (relative base path) [
  | none ↦ none
  | some p ↦ if any is_parent p.parts then none else some p
]
