-- ===== src/Common/Sets.antt =====
-- `BTreeSet<String>` as the ascending list of its members.
use mathlib.Core.Path.{◌≡◌, refl}
use mathlib.Core.Bool.{not, ◌&&◌, ◌||◌}
use mathlib.Core.List.{List, [], ◌∷◌}
use native.Mathlib.Omega.{arith}
use stavlos.Common.Tests.{if◌then◌else◌}
use stavlos.Common.Lists.{filter}
use stavlos.Common.Chars.{Text, text_eq, text_lt, text_eq_iff, contains}

unfoldable pub set_insert : List Text → Text → List Text
set_insert [] k = k ∷ []
set_insert (x ∷ xs) k =
    let later = x ∷ set_insert xs k in
    if text_eq x k then x ∷ xs else if text_lt k x then k ∷ x ∷ xs else later

unfoldable pub set_remove : List Text → Text → List Text
set_remove xs k = filter (λ x. not (text_eq x k)) xs

pub contains-set_insert :
    (xs : List Text) (k j : Text) → contains (set_insert xs k) j ≡ (text_eq k j || contains xs j)
unfolding set_insert
contains-set_insert [] k j = refl
contains-set_insert (x ∷ xs) k j =
    ground (arith, contains-set_insert xs k j, text_eq_iff x k, text_eq_iff x j, text_eq_iff k j)

pub contains-set_remove :
    (xs : List Text) (k j : Text)
    → contains (set_remove xs k) j ≡ (not (text_eq k j) && contains xs j)
unfolding set_remove
contains-set_remove [] k j = ground arith
contains-set_remove (x ∷ xs) k j =
    ground (arith, contains-set_remove xs k j, text_eq_iff x k, text_eq_iff x j, text_eq_iff k j)
