-- ===== src/Shell/Distinct.antt =====
-- The list that `commands` of src/shellcmd.rs returns.
use mathlib.Core.List.{foldl}
use stavlos.Common.{
  ℕ, zero, suc, ◌≡◌, ◌∙◌, refl, sym, Bool, true, false, not, ◌&&◌, ◌||◌, some, List, [], ◌∷◌, ◌++◌,
  Text, is_empty, contains, text_eq, text_eq_refl, text_eq_iff, arith, Bool-cases, inl, inr,
  if◌then◌else◌,
}
use stavlos.Common.Map.{Map}
use stavlos.Common.Str.{join_words}
use stavlos.Shell.Words.{words}
use stavlos.Shell.Launch.{basename, launched, launched_from, scripts}
use stavlos.Shell.Launched.{IsProgram}
use stavlos.Shell.Commands.{
  Found, add, bind, expand, visit_words, words_or_split, visit_segment, pieces, visit, commands,
}

-- No two texts of the list are equal.
unfoldable pub distinct : List Text → Bool
distinct [] = true
distinct (x ∷ xs) = not (contains xs x) && distinct xs

contains-append :
    (xs ys : List Text) (k : Text) → contains (xs ++ ys) k ≡ (contains xs k || contains ys k)
contains-append [] ys k = refl
contains-append (x ∷ xs) ys k = ground (arith, contains-append xs ys k)

distinct_snoc :
    (xs : List Text) (k : Text)
    → distinct xs ≡ true
    → contains xs k ≡ false
    → distinct (xs ++ (k ∷ [])) ≡ true
unfolding distinct
distinct_snoc [] k d n = refl
distinct_snoc (x ∷ xs) k d n =
    ground
      (arith, distinct_snoc xs k, contains-append xs (k ∷ []) x, text_eq_iff k x, text_eq_iff x k)

-- `seen` holds exactly the texts of `out`, and those differ from one another.
record Listed (f : Found) : Type 0 where
  same : (k : Text) → contains f.seen k ≡ contains f.out k
  differ : distinct f.out ≡ true

add-Listed : (f : Found) (c : Text) → Listed f → Listed (add f c)
unfolding add
add-Listed f c h = elim (Bool-cases (contains f.seen c)) [
  | inl old ↦ rw old h
  | inr new ↦ rw new (record {
    same = λ k. ground (arith, h.same k, contains-append f.out (c ∷ []) k);
    differ = distinct_snoc f.out c h.differ (sym (h.same c) ∙ new);
  })
]

-- A property of `Found` that the recursive call and each step keep is kept by the loops.
module _ (P : Found → Type 0) where
  foldl_keeps :
      {A : Type 0} (step : Found → A → Found)
      → ((f : Found) (a : A) → P f → P (step f a))
      → (xs : List A) (f : Found) → P f
      → P (foldl step f xs)
  foldl_keeps step keep [] f h = h
  foldl_keeps step keep (x ∷ xs) f h = foldl_keeps step keep xs (step f x) (keep f x h)

  if_keeps : (b : Bool) {f g : Found} → P f → P g → P (if b then f else g)
  if_keeps true h k = h
  if_keeps false h k = k

  module _ (add_keeps : (f : Found) (c : Text) → P f → P (add f c))
      (bind_keeps : (f : Found) (m : Map Text) → P f → P (record f { variables = m })) where
    visit_words_keeps :
        (deeper : Text → Found → Found)
        → ((c : Text) (f : Found) → P f → P (deeper c f))
        → (ws : List Text) (f : Found) → P f
        → P (visit_words deeper ws f)
    unfolding visit_words
    visit_words_keeps deeper keep [] f h = h
    visit_words_keeps deeper keep (first ∷ rest) f h =
        foldl_keeps (λ g script. deeper script g) (λ g script k. keep script g k)
          (scripts (first ∷ rest)) _
          (if_keeps (text_eq (basename first) first)
            (if_keeps (is_empty (join_words (first ∷ rest))) h (add_keeps f _ h))
            (add_keeps _ _ (if_keeps (is_empty (join_words (first ∷ rest))) h (add_keeps f _ h))))

    visit_keeps : (left : ℕ) (c : Text) (f : Found) → P f → P (visit left c f)
    unfolding visit visit_segment
    visit_keeps zero c f h =
        foldl_keeps (visit_segment (λ script g. g))
          (λ g segment k. visit_words_keeps (λ script g. g) (λ _ g k. k) _ _ (bind_keeps g _ k))
          (pieces c) f h
    visit_keeps (suc left) c f h =
        foldl_keeps (visit_segment (visit left))
          (λ g segment k. visit_words_keeps (visit left) (visit_keeps left) _ _ (bind_keeps g _ k))
          (pieces c) f h

-- `commands` lists no command twice.
pub commands-distinct : (command : Text) → distinct (commands command) ≡ true
unfolding commands distinct
commands-distinct command =
    (visit_keeps Listed add-Listed (λ f m h. record { same = h.same; differ = h.differ }) 4 command
      (record { variables = []; seen = []; out = [] })
      (record { same = λ k. refl; differ = refl })).differ

-- A listed command stays listed.
abbrev Lists : Text → Found → Type 0
Lists k f = (contains f.out k ≡ true) × ((c : Text) → contains f.seen c ≡ contains f.out c)

add-Lists : (k : Text) (f : Found) (c : Text) → Lists k f → Lists k (add f c)
unfolding add
add-Lists k f c h = elim (Bool-cases (contains f.seen c)) [
  | inl old ↦ rw old h
  | inr new ↦ rw new (
    ground (arith, h.0, contains-append f.out (c ∷ []) k),
    λ d. ground (arith, h.1 d, contains-append f.out (c ∷ []) d),
  )
]

add-Lists' :
    (f : Found) (c : Text) → ((d : Text) → contains f.seen d ≡ contains f.out d) → Lists c (add f c)
unfolding add
add-Lists' f c h = elim (Bool-cases (contains f.seen c)) [
  | inl old ↦ rw old (sym (h c) ∙ old, h)
  | inr new ↦ rw new (
    ground (arith, contains-append f.out (c ∷ []) c, text_eq_refl c),
    λ d. ground (arith, h d, contains-append f.out (c ∷ []) d),
  )
]

visit_words-Lists :
    (left : ℕ) (first : Text) (rest : List Text) (f : Found)
    → is_empty (join_words (first ∷ rest)) ≡ false
    → ((d : Text) → contains f.seen d ≡ contains f.out d)
    → Lists (join_words (first ∷ rest)) (visit_words (visit left) (first ∷ rest) f)
unfolding visit_words
visit_words-Lists left first rest f full h =
    let k = join_words (first ∷ rest) in
    let listed = add-Lists' f k h in
    foldl_keeps (Lists k) (λ g script. visit left script g)
      (λ g script l. visit_keeps (Lists k) (add-Lists k) (λ g m l. l) left script g l)
      (scripts (first ∷ rest)) _
      (rw full
        (if_keeps (Lists k) (text_eq (basename first) first) listed (add-Lists k _ _ listed)))

launched_program :
    (first : Text) (rest : List Text)
    → IsProgram (first ∷ rest)
    → launched (first ∷ rest) ≡ first ∷ rest
unfolding launched launched_from
launched_program first rest h = rw (h.0, launched_from) (rw h.1 (rw h.2))

bind_program :
    (m : Map Text) (first : Text) (rest : List Text)
    → IsProgram (first ∷ rest)
    → bind m (first ∷ rest) ≡ m
unfolding bind
bind_program m first rest h = ground arith

pieces_read : (c : Text) (ws : List Text) → words c ≡ some ws → pieces c ≡ c ∷ []
unfolding pieces
pieces_read c ws h = rw (h, pieces)

words_or_split_read : (c : Text) (ws : List Text) → words c ≡ some ws → words_or_split c ≡ ws
unfolding words_or_split
words_or_split_read c ws h = rw (h, words_or_split)

abbrev nothing : Found
nothing = record { variables = []; seen = []; out = [] }

visit_program :
    (deeper : Text → Found → Found) (c first : Text) (rest : List Text)
    → words c ≡ some (first ∷ rest)
    → IsProgram (first ∷ rest)
    → visit_segment deeper nothing c ≡ visit_words deeper (first ∷ rest) nothing
unfolding visit_segment expand
visit_program deeper c first rest read program =
    rw (words_or_split_read c _ read, visit_segment)
      (rw (bind_program [] first rest program) (rw (launched_program first rest program)))

-- A line that is one simple command which starts with its program, and whose words are not all
-- empty, is itself among the commands, with its words joined by blanks.
pub commands-simple :
    (command first : Text) (rest : List Text)
    → words command ≡ some (first ∷ rest)
    → IsProgram (first ∷ rest)
    → is_empty (join_words (first ∷ rest)) ≡ false
    → contains (commands command) (join_words (first ∷ rest)) ≡ true
unfolding commands visit
commands-simple command first rest read program full =
    rw (pieces_read command _ read, commands, visit)
      (rw (visit_program (visit 3) command first rest read program)
        (visit_words-Lists 3 first rest nothing full (λ d. refl)).0)
