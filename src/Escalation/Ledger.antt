-- ===== src/Escalation/Ledger.antt =====
-- Counting the waiters of src/escalation.rs: those whose prompts are pending, and those that were
-- sent an answer.
use stavlos.Common.{
  ℕ, ◌+◌, ◌==◌, ◌≡◌, refl, Bool, true, false, not, none, some, List, [], ◌∷◌, ◌++◌, Text, text_eq,
  text_lt, text_eq_iff, arith, Bool-cases, inl, inr,
}
use stavlos.Common.Map.{
  Map, get, insert, remove, modify, map_option, get-insert, get-remove, get-modify,
}
use stavlos.Escalation.Prompts.{Pending, Answer}
use stavlos.Escalation.Manager.{release_where, keep_where, answers_for}

-- 1 for a hit, 0 otherwise.
abbrev pub hit : Bool → ℕ
hit true = 1
hit false = 0

-- How many pending prompts have a generation.
unfoldable pub live : ℕ → Map Pending → ℕ
live g [] = 0
live g ((id, p) ∷ m) = hit (p.generation == g) + live g m

-- How many answers were sent to the waiter of a generation.
unfoldable pub sent_to : ℕ → List (ℕ × Answer) → ℕ
sent_to g [] = 0
sent_to g ((h, a) ∷ l) = hit (h == g) + sent_to g l

-- No key stands twice.
abbrev pub Distinct : Map Pending → Type 0
Distinct [] = Unit
Distinct ((id, p) ∷ m) = (get m id ≡ none) × Distinct m

pub sent_to-append :
    (g : ℕ) (xs ys : List (ℕ × Answer)) → sent_to g (xs ++ ys) ≡ sent_to g xs + sent_to g ys
unfolding sent_to
sent_to-append g [] ys = omega arith
sent_to-append g ((h, a) ∷ xs) ys = omega (arith, sent_to-append g xs ys)

pub live-insert :
    (g : ℕ) (m : Map Pending) (k : Text) (p : Pending)
    → get m k ≡ none
    → live g (insert m k p) ≡ hit (p.generation == g) + live g m
unfolding live insert get
live-insert g [] k p h = refl
live-insert g ((j, q) ∷ m) k p h = ground (arith, live-insert g m k p)

remove-absent : (m : Map Pending) (k : Text) → get m k ≡ none → remove m k ≡ m
unfolding get remove
remove-absent [] k h = refl
remove-absent ((j, q) ∷ m) k h = ground (arith, remove-absent m k)

pub live-remove :
    (g : ℕ) (m : Map Pending) (k : Text) (p : Pending)
    → Distinct m
    → get m k ≡ some p
    → live g m ≡ hit (p.generation == g) + live g (remove m k)
unfolding live get remove
live-remove g [] k p d h = cc
live-remove g ((j, q) ∷ m) k p d h = elim (Bool-cases (text_eq j k)) [
  | inl same ↦ ground (arith, text_eq_iff j k, remove-absent m k, d.0)
  | inr other ↦ ground (arith, live-remove g m k p d.1)
]

pub live-modify :
    (g : ℕ) (m : Map Pending) (k : Text) (f : Pending → Pending)
    → ((p : Pending) → (f p).generation ≡ p.generation)
    → live g (modify m k f) ≡ live g m
unfolding live modify
live-modify g [] k f h = refl
live-modify g ((j, q) ∷ m) k f h = ground (arith, h q, live-modify g m k f h)

pub live-release_where :
    (g : ℕ) (test : Pending → Bool) (m : Map Pending) → live g (release_where test m) ≡ live g m
unfolding live release_where
live-release_where g test [] = refl
live-release_where g test ((j, q) ∷ m) = ground (arith, live-release_where g test m)

pub live-keep_where :
    (g : ℕ) (test : Pending → Bool) (m : Map Pending)
    → live g m ≡ live g (keep_where test m) + live g (keep_where (λ p. not (test p)) m)
unfolding live keep_where
live-keep_where g test [] = refl
live-keep_where g test ((j, q) ∷ m) = ground (arith, live-keep_where g test m)

pub sent_to-answers_for :
    (g : ℕ) (value client : Text) (m : Map Pending)
    → sent_to g (answers_for value client m) ≡ live g m
unfolding live sent_to answers_for
sent_to-answers_for g value client [] = refl
sent_to-answers_for g value client ((j, q) ∷ m) =
    omega (arith, sent_to-answers_for g value client m)

absent_tail :
    (j k : Text) (q : Pending) (m : Map Pending)
    → get ((j, q) ∷ m) k ≡ none
    → (text_eq j k ≡ false) × (get m k ≡ none)
unfolding get
absent_tail j k q m h = ground arith

pub Distinct-insert :
    (m : Map Pending) (k : Text) (p : Pending)
    → get m k ≡ none
    → Distinct m
    → Distinct (insert m k p)
unfolding insert
Distinct-insert [] k p h d = (unfold get in refl, tt)
Distinct-insert ((j, q) ∷ m) k p h d =
    let (other, later) = absent_tail j k q m h in
    elim (Bool-cases (text_lt k j)) [
      | inl first ↦ rw (other, insert) (rw first (h, d))
      | inr behind ↦
          rw (other, insert)
            (rw behind (
              ground (arith, get-insert m k j p, text_eq_iff j k, text_eq_iff k j, d.0),
              Distinct-insert m k p later d.1,
            ))
    ]

pub Distinct-remove : (m : Map Pending) (k : Text) → Distinct m → Distinct (remove m k)
unfolding remove
Distinct-remove [] k d = tt
Distinct-remove ((j, q) ∷ m) k d = elim (Bool-cases (text_eq j k)) [
  | inl same ↦ rw (same, remove) (Distinct-remove m k d.1)
  | inr other ↦ rw (other, remove) (ground (arith, get-remove m k j), Distinct-remove m k d.1)
]

pub Distinct-modify :
    (m : Map Pending) (k : Text) (f : Pending → Pending) → Distinct m → Distinct (modify m k f)
unfolding modify map_option
Distinct-modify [] k f d = tt
Distinct-modify ((j, q) ∷ m) k f d = elim (Bool-cases (text_eq j k)) [
  | inl same ↦ rw (same, modify) d
  | inr other ↦ rw (other, modify) (ground (arith, get-modify m k j f), Distinct-modify m k f d.1)
]

get-release_where :
    (test : Pending → Bool) (m : Map Pending) (k : Text)
    → get m k ≡ none
    → get (release_where test m) k ≡ none
unfolding get release_where
get-release_where test [] k h = refl
get-release_where test ((j, q) ∷ m) k h = ground (arith, get-release_where test m k)

pub Distinct-release_where :
    (test : Pending → Bool) (m : Map Pending) → Distinct m → Distinct (release_where test m)
unfolding release_where
Distinct-release_where test [] d = tt
Distinct-release_where test ((j, q) ∷ m) d =
    (get-release_where test m j d.0, Distinct-release_where test m d.1)

get-keep_where :
    (test : Pending → Bool) (m : Map Pending) (k : Text)
    → get m k ≡ none
    → get (keep_where test m) k ≡ none
unfolding get keep_where
get-keep_where test [] k h = refl
get-keep_where test ((j, q) ∷ m) k h = ground (arith, get-keep_where test m k)

pub Distinct-keep_where :
    (test : Pending → Bool) (m : Map Pending) → Distinct m → Distinct (keep_where test m)
unfolding keep_where
Distinct-keep_where test [] d = tt
Distinct-keep_where test ((j, q) ∷ m) d = elim (Bool-cases (test q)) [
  | inl kept ↦ rw (kept, keep_where) (get-keep_where test m j d.0, Distinct-keep_where test m d.1)
  | inr gone ↦ rw (gone, keep_where) (Distinct-keep_where test m d.1)
]
