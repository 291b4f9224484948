-- ===== src/Shell/Grants.antt =====
-- What a granted prefix covers: the laws of `prefix` and `covers` of src/shellcmd.rs.
use mathlib.Core.List.{append-nil, append_assoc}
use stavlos.Common.{
  ℕ, ◌≡◌, ◌≢◌, ◌∙◌, refl, Bool, true, false, not, ◌||◌, Option, none, some, List, [], ◌∷◌, ◌++◌,
  Text, is_empty, all, &&-eq-true, eq_of_text_eq, text_eq_refl, arith, Bool-cases, Option-cases,
  inl, inr,
}
use stavlos.Shell.Words.{Scan, bare, one, step, scan, start, words, simple, finish}
use stavlos.Shell.Prefix.{
  plain_char, plain_word, two_word, two_word_prefix, prefix_of_words, prefix, begins_with,
  covers_words, covers,
}

-- `chars.get(i + 1)`, of the characters behind index `i`
abbrev pub first_of : Text → Option ℕ
first_of [] = none
first_of (c ∷ s) = some c

abbrev bare_scan : Bool → Text → List Text → Scan
bare_scan a cur o = record { quote = bare; active = a; current = cur; out = o }

step_plain :
    (a : Bool) (cur : Text) (o : List Text) (c : ℕ) (next : Option ℕ)
    → plain_char c ≡ true
    → step (bare_scan a cur o) c next ≡ one (bare_scan true (cur ++ (c ∷ [])) o)
unfolding step plain_char
step_plain a cur o c next h = ground arith

or_true : (a : Bool) → (a || true) ≡ true
or_true a = ground arith

space_step :
    (cur : Text) (next : Option ℕ)
    → step (bare_scan true cur []) 32 next ≡ one (bare_scan false [] (cur ∷ []))
unfolding step
space_step cur next = refl

last_word : (w : Text) (o : List Text) → scan (bare_scan true w o) [] ≡ some (o ++ (w ∷ []))
unfolding scan
last_word w o = refl

pub scan_one :
    (s t : Scan) (c : ℕ) (rest : Text)
    → step s c (first_of rest) ≡ one t
    → scan s (c ∷ rest) ≡ scan t rest
unfolding scan
scan_one s t c [] h = rw (h, scan)
scan_one s t c (d ∷ rest) h = rw (h, scan)

scan_word :
    (w rest cur : Text) (a : Bool) (o : List Text)
    → all plain_char w ≡ true
    → scan (bare_scan a cur o) (w ++ rest)
      ≡ scan (bare_scan (a || not (is_empty w)) (cur ++ w) o) rest
scan_word [] rest cur a o h = rw (append-nil cur) (ground arith)
scan_word (c ∷ w) rest cur a o h =
    let (plain, more) = &&-eq-true (plain_char c) (all plain_char w) h in
    scan_one (bare_scan a cur o) (bare_scan true (cur ++ (c ∷ [])) o) c (w ++ rest)
      (step_plain a cur o c (first_of (w ++ rest)) plain)
    ∙ scan_word w rest (cur ++ (c ∷ [])) true o more
    ∙ rw (append_assoc cur (c ∷ []) w, or_true a)

plain_word_parts :
    (w : Text) → plain_word w ≡ true → (is_empty w ≡ false) × (all plain_char w ≡ true)
unfolding plain_word
plain_word_parts w h = ground arith

-- A plain word is read as the one word that it is.
pub words-plain : (w : Text) → plain_word w ≡ true → words w ≡ some (w ∷ [])
unfolding words finish scan
words-plain w h =
    let (full, plain) = plain_word_parts w h in
    let read : scan start (w ++ []) ≡ scan (bare_scan (not (is_empty w)) w []) [] =
      scan_word w [] [] false [] plain in
    rw append-nil at read ∙ rw full

-- Two plain words are read back from their line.
pub words-plain_two :
    (v w : Text)
    → plain_word v ≡ true
    → plain_word w ≡ true
    → words (v ++ (32 ∷ w)) ≡ some (v ∷ w ∷ [])
unfolding words finish
words-plain_two v w hv hw =
    let (full, plain) = plain_word_parts v hv in
    let (full', plain') = plain_word_parts w hw in
    scan_word v (32 ∷ w) [] false [] plain
    ∙ rw full (
        scan_one (bare_scan true v []) (bare_scan false [] (v ∷ [])) 32 w
          (space_step v (first_of w))
        ∙ rw append-nil at (scan_word w [] [] false (v ∷ []) plain')
        ∙ rw full' (last_word w (v ∷ [])))

begins_with_refl : (c : List Text) → begins_with c c ≡ true
unfolding begins_with
begins_with_refl [] = refl
begins_with_refl (w ∷ c) = ground (arith, text_eq_refl w, begins_with_refl c)

begins_with-nil : (c : List Text) → begins_with c [] ≡ true
unfolding begins_with
begins_with-nil [] = refl
begins_with-nil (w ∷ c) = refl

single_covers :
    (first : Text) (rest : List Text)
    → plain_word first ≡ true
    → covers_words (words first) (some (first ∷ rest)) ≡ true
unfolding covers_words begins_with
single_covers first rest h =
    rw (words-plain first h) (ground (arith, text_eq_refl first, begins_with-nil rest))

pair_covers :
    (v w : Text) (rest : List Text)
    → plain_word v ≡ true
    → plain_word w ≡ true
    → covers_words (words (v ++ (32 ∷ w))) (some (v ∷ w ∷ rest)) ≡ true
unfolding covers_words begins_with
pair_covers v w rest hv hw =
    rw (words-plain_two v w hv hw)
      (ground (arith, text_eq_refl v, text_eq_refl w, begins_with-nil rest))

two_word_covers :
    (first : Text) (refused rest : List Text)
    → plain_word first ≡ true
    → two_word_prefix first refused rest ≢ []
    → covers_words (words (two_word_prefix first refused rest)) (some (first ∷ rest)) ≡ true
unfolding two_word_prefix
two_word_covers first refused [] h n = absurd (n refl)
two_word_covers first refused (second ∷ rest) h n = ground (arith, pair_covers first second rest h)

prefix_of_words_covers :
    (ws : List Text)
    → prefix_of_words ws ≢ []
    → covers_words (words (prefix_of_words ws)) (some ws) ≡ true
unfolding prefix_of_words
prefix_of_words_covers [] n = absurd (n refl)
prefix_of_words_covers (first ∷ rest) n = elim (Bool-cases (plain_word first)) [
  | inr odd ↦ absurd (n (rw odd))
  | inl plain ↦ elim (Option-cases (two_word first)) [
    | inl single ↦ ground (arith, single_covers first rest plain)
    | inr (refused, row) ↦ ground (arith, two_word_covers first refused rest plain)
  ]
]

prefix_none : (command : Text) → words command ≡ none → prefix command ≡ []
unfolding prefix
prefix_none command e = rw (e, prefix)

prefix_some :
    (command : Text) (ws : List Text)
    → words command ≡ some ws
    → prefix command ≡ prefix_of_words ws
unfolding prefix
prefix_some command ws e = rw (e, prefix)

-- The prefix that a permission prompt offers for a command, if it offers one, covers that command.
pub covers-prefix : (command : Text) → prefix command ≢ [] → covers (prefix command) command ≡ true
unfolding covers
covers-prefix command n = elim (Option-cases (words command)) [
  | inl refused ↦ absurd (n (prefix_none command refused))
  | inr (ws, read) ↦
      rw (prefix_some command ws read, read)
        (prefix_of_words_covers ws (λ e. n (prefix_some command ws read ∙ e)))
]

begins_with_nonempty :
    (c p : List Text) → is_empty p ≡ false → begins_with c p ≡ true → is_empty c ≡ false
unfolding begins_with
begins_with_nonempty [] [] h k = cc
begins_with_nonempty [] (w ∷ p) h k = cc
begins_with_nonempty (v ∷ c) p h k = refl

begins_with_trans :
    (a b c : List Text) → begins_with b a ≡ true → begins_with c b ≡ true → begins_with c a ≡ true
unfolding begins_with
begins_with_trans [] b c h k = begins_with-nil c
begins_with_trans (x ∷ a) [] c h k = cc
begins_with_trans (x ∷ a) (y ∷ b) [] h k = cc
begins_with_trans (x ∷ a) (y ∷ b) (z ∷ c) h k =
    ground (arith, begins_with_trans a b c, eq_of_text_eq y x, eq_of_text_eq z y, text_eq_refl x)

-- A grant covers whatever a narrower grant covers.
pub covers_trans :
    (p q command : Text) → covers p q ≡ true → covers q command ≡ true → covers p command ≡ true
unfolding covers covers_words
covers_trans p q command h k = elim (Option-cases (words p)) [
  | inl e ↦ ground arith
  | inr (a, ea) ↦ elim (Option-cases (words q)) [
    | inl e ↦ ground arith
    | inr (b, eb) ↦ elim (Option-cases (words command)) [
      | inl e ↦ ground arith
      | inr (c, ec) ↦ ground (arith, begins_with_trans a b c)
    ]
  ]
]

-- A grant of a prefix covers only what is one simple command, and no prefix that is not.
pub covers-simple :
    (p command : Text) → covers p command ≡ true → (simple p ≡ true) × (simple command ≡ true)
unfolding covers covers_words simple
covers-simple p command h = elim (Option-cases (words p)) [
  | inl e ↦ ground arith
  | inr (a, ea) ↦ elim (Option-cases (words command)) [
    | inl e ↦ ground arith
    | inr (c, ec) ↦ ground (arith, begins_with_nonempty c a)
  ]
]
