-- ===== src/Common/Map.antt =====
-- `BTreeMap<String, V>` as an association list in the order of its keys.
use mathlib.Core.Path.{◌≡◌, refl}
use mathlib.Core.Bool.{Bool, true, false}
use mathlib.Core.List.{List, [], ◌∷◌}
use mathlib.Core.Option.{Option, none, some}
use native.Mathlib.Omega.{arith}
use stavlos.Common.Tests.{if◌then◌else◌}
use stavlos.Common.Chars.{Text, text_eq, text_lt, text_eq_iff, text_eq_refl}

abbrev pub Map {ℓ} : Type ℓ → Type ℓ
Map V = List (Text × V)

module _ {ℓ} {V : Type ℓ} where
  unfoldable pub get : Map V → Text → Option V
  get [] k = none
  get ((j, v) ∷ m) k = let rest = get m k in if text_eq j k then some v else rest

  unfoldable pub insert : Map V → Text → V → Map V
  insert [] k v = (k, v) ∷ []
  insert ((j, w) ∷ m) k v =
      let later = (j, w) ∷ insert m k v in
      if text_eq j k then (k, v) ∷ m else if text_lt k j then (k, v) ∷ (j, w) ∷ m else later

  unfoldable pub remove : Map V → Text → Map V
  remove [] k = []
  remove ((j, w) ∷ m) k = let rest = remove m k in if text_eq j k then rest else (j, w) ∷ rest

  abbrev pub has : Map V → Text → Bool
  has m k = elim (get m k) [ some v ↦ true | none ↦ false ]

  -- `get_mut` followed by a write through the reference; a missing key changes nothing.
  unfoldable pub modify : Map V → Text → (V → V) → Map V
  modify [] k f = []
  modify ((j, w) ∷ m) k f =
      let rest = modify m k f in if text_eq j k then (j, f w) ∷ m else (j, w) ∷ rest

  unfoldable pub values : Map V → List V
  values [] = []
  values ((k, v) ∷ m) = v ∷ values m

  pub get-insert :
      (m : Map V) (k j : Text) (v : V)
      → get (insert m k v) j ≡ (if text_eq k j then some v else get m j)
  unfolding get insert
  get-insert [] k j v = refl
  get-insert ((i, w) ∷ m) k j v =
      ground (arith, text_eq_iff k j, text_eq_iff i k, text_eq_iff i j, get-insert m k j v)

  pub get-remove :
      (m : Map V) (k j : Text) → get (remove m k) j ≡ (if text_eq k j then none else get m j)
  unfolding get remove
  get-remove [] k j = ground arith
  get-remove ((i, w) ∷ m) k j =
      ground (arith, text_eq_iff k j, text_eq_iff i k, text_eq_iff i j, get-remove m k j)

  unfoldable pub map_option {κ} : {B : Type κ} → (V → B) → Option V → Option B
  map_option f none = none
  map_option f (some v) = some (f v)

  pub get-modify :
      (m : Map V) (k j : Text) (f : V → V)
      → get (modify m k f) j ≡ (if text_eq k j then map_option f (get m j) else get m j)
  unfolding get modify map_option
  get-modify [] k j f = ground arith
  get-modify ((i, w) ∷ m) k j f =
      ground (arith, text_eq_iff k j, text_eq_iff i k, text_eq_iff i j, get-modify m k j f)

  pub get-insert_self : (m : Map V) (k : Text) (v : V) → get (insert m k v) k ≡ some v
  get-insert_self m k v = ground (arith, get-insert m k k v, text_eq_refl k)
