-- ===== src/Paths/Inside.antt =====
-- Which paths lie inside a directory (src/pathx.rs).
use mathlib.Core.List.{reverse, reverse_aux}
use stavlos.Common.{
  Bool, true, false, not, ◌&&◌, ◌||◌, Option, none, some, List, [], ◌∷◌, any, map, Text, text_eq,
  if◌then◌else◌, ◌≡◌, refl, sym, ap, ◌∙◌, arith, inl, inr, Bool-cases,
}
use stavlos.Paths.Lexical.{
  Part, current, parent, name, FilePath, part_eq, is_parent, pop, clean_parts, or_current, clean,
  names, shared, climb, relative_parts, same_root, relative, inside,
}

-- The components of a directory stand at the front of a path.
unfoldable pub is_prefix : List Part → List Part → Bool
is_prefix [] to = true
is_prefix (a ∷ from) [] = false
is_prefix (a ∷ from) (b ∷ to) = part_eq a b && is_prefix from to

abbrev pub is_some : Option FilePath → Bool
is_some none = false
is_some (some p) = true

any-reverse_aux :
    (xs ys : List Part) → any is_parent (reverse_aux xs ys) ≡ (any is_parent xs || any is_parent ys)
any-reverse_aux [] ys = refl
any-reverse_aux (x ∷ xs) ys = ground (arith, any-reverse_aux xs (x ∷ ys))

pop-rooted : (out : List Part) → any is_parent out ≡ false → any is_parent (pop true out) ≡ false
unfolding pop
pop-rooted [] h = refl
pop-rooted (current ∷ out) h = h
pop-rooted (parent ∷ out) h = h
pop-rooted (name a ∷ out) h = h

-- Behind a root no `..` is left.
clean_parts-rooted :
    (out ps : List Part)
    → any is_parent out ≡ false
    → any is_parent (clean_parts true out ps) ≡ false
unfolding clean_parts
clean_parts-rooted out [] h = ground (arith, h, any-reverse_aux out [])
clean_parts-rooted out (current ∷ ps) h = clean_parts-rooted out ps h
clean_parts-rooted out (parent ∷ ps) h = clean_parts-rooted (pop true out) ps (pop-rooted out h)
clean_parts-rooted out (name a ∷ ps) h = clean_parts-rooted (name a ∷ out) ps h

names-parents : (ps : List Part) → any is_parent ps ≡ false → any is_parent (names ps) ≡ false
unfolding names
names-parents [] h = refl
names-parents (current ∷ ps) h = names-parents ps h
names-parents (parent ∷ ps) h = ground (arith, h)
names-parents (name a ∷ ps) h = names-parents ps h

-- The way from one directory to a path goes up unless the directory is at the front.
relative_parts-up :
    (from to : List Part)
    → any is_parent to ≡ false
    → any is_parent (relative_parts from to) ≡ not (is_prefix from to)
unfolding relative_parts shared climb is_prefix
relative_parts-up [] to h = h
relative_parts-up (a ∷ from) [] h = refl
relative_parts-up (a ∷ from) (b ∷ to) h = elim (Bool-cases (part_eq a b)) [
  | inr e ↦ rw e refl
  | inl e ↦ rw e (relative_parts-up from to (ground (arith, h)))
]

or_current-parents : (ps : List Part) → any is_parent (or_current false ps) ≡ any is_parent ps
unfolding or_current
or_current-parents [] = refl
or_current-parents (p ∷ ps) = refl

not-not : (b : Bool) → not (not b) ≡ b
not-not true = refl
not-not false = refl

if-some : (b : Bool) (p : FilePath) → is_some (if b then none else some p) ≡ not b
if-some true p = refl
if-some false p = refl

-- Where a path leads in a tree of directories without links: from the directory `here`, given by the
-- names on the way to it with the last one first, a name goes down, `..` goes up and stays at the
-- root, and `.` stays.
unfoldable pub leads : List Text → List Part → List Text
leads here [] = here
leads here (current ∷ ps) = leads here ps
leads [] (parent ∷ ps) = leads [] ps
leads (a ∷ here) (parent ∷ ps) = leads here ps
leads here (name a ∷ ps) = leads (a ∷ here) ps

-- The names on the way from the root to where an absolute path leads.
abbrev pub location : FilePath → List Text
location p = reverse (leads [] p.parts)

-- The way to a place begins with the way to a directory.
unfoldable pub begins : List Text → List Text → Bool
begins [] to = true
begins (a ∷ from) [] = false
begins (a ∷ from) (b ∷ to) = text_eq a b && begins from to

named : List Text → List Part
named xs = map name xs

named-reverse_aux :
    (xs ys : List Text) → named (reverse_aux xs ys) ≡ reverse_aux (named xs) (named ys)
unfolding named
named-reverse_aux [] ys = refl
named-reverse_aux (x ∷ xs) ys = named-reverse_aux xs (x ∷ ys)

-- Cleaning an absolute path leaves the names on the way to where it leads.
clean_parts-leads :
    (here : List Text) (ps : List Part)
    → clean_parts true (named here) ps ≡ named (reverse (leads here ps))
unfolding clean_parts pop leads named
clean_parts-leads here [] = sym (named-reverse_aux here [])
clean_parts-leads here (current ∷ ps) = clean_parts-leads here ps
clean_parts-leads [] (parent ∷ ps) = clean_parts-leads [] ps
clean_parts-leads (a ∷ here) (parent ∷ ps) = clean_parts-leads here ps
clean_parts-leads here (name a ∷ ps) = clean_parts-leads (a ∷ here) ps

names-named : (xs : List Text) → names (named xs) ≡ named xs
unfolding names named
names-named [] = refl
names-named (a ∷ xs) = ap (λ r. name a ∷ r) (names-named xs)

is_prefix-named : (xs ys : List Text) → is_prefix (named xs) (named ys) ≡ begins xs ys
unfolding is_prefix named begins part_eq
is_prefix-named [] ys = refl
is_prefix-named (a ∷ xs) [] = refl
is_prefix-named (a ∷ xs) (b ∷ ys) = ap (λ r. text_eq a b && r) (is_prefix-named xs ys)

names-clean : (p : FilePath) → p.has_root ≡ true → names (clean p).parts ≡ named (location p)
unfolding clean or_current names named
names-clean p root = rw root (rw (clean_parts-leads [] p.parts) (names-named (location p)))

inside-is_prefix :
    (base path : FilePath)
    → base.has_root ≡ true
    → path.has_root ≡ true
    → is_some (inside base path) ≡ is_prefix (names (clean base).parts) (names (clean path).parts)
unfolding inside relative clean same_root or_current
inside-is_prefix base path b p =
    let from = names (clean base).parts in
    let to = names (clean path).parts in
    let out : FilePath = record {
      has_root = false;
      parts = or_current false (relative_parts from to);
    } in
    let way : relative base path ≡ some out = rw (relative, b, p) refl in
    let level : any is_parent to ≡ false =
      rw p
        (names-parents (clean_parts true [] path.parts) (clean_parts-rooted [] path.parts refl)) in
    rw (inside, way)
      (if-some (any is_parent out.parts) out
        ∙ (ap not (or_current-parents (relative_parts from to) ∙ relative_parts-up from to level)
            ∙ not-not (is_prefix from to)))

-- For absolute paths, a path lies inside a directory exactly where the way from the root to the place
-- that it leads to begins with the way to the directory, name by name. Where a path leads is followed
-- step by step in a tree without links, `..` going up one directory.
pub inside-prefix :
    (base path : FilePath)
    → base.has_root ≡ true
    → path.has_root ≡ true
    → is_some (inside base path) ≡ begins (location base) (location path)
inside-prefix base path b p =
    inside-is_prefix base path b p
    ∙ rw (names-clean base b, names-clean path p) (is_prefix-named (location base) (location path))
