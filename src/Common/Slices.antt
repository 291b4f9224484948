-- ===== src/Common/Slices.antt =====
-- Lemmas on slices and on reversed lists, measured by the native numbers.
use mathlib.Core.List.{List, [], ◌∷◌, ◌++◌, reverse, reverse_aux}
use Prim.Native.Nat.{ℕ, zero, suc, ◌+◌, ◌-◌, ◌≤◌, ◌<◌}
use mathlib.Core.Path.{◌≡◌, refl, ap, sym, ◌∙◌}
use mathlib.Core.Option.{some}
use native.Mathlib.Omega.{arith}
use stavlos.Common.Lists.{length, take, drop, get_elem?}

module _ {ℓ} {A : Type ℓ} where
  length-reverse_aux : (xs ys : List A) → length (reverse_aux xs ys) ≡ length xs + length ys
  length-reverse_aux [] ys = omega arith
  length-reverse_aux (x ∷ xs) ys = omega (arith, length-reverse_aux xs (x ∷ ys))

  pub length-reverse : (xs : List A) → length (reverse xs) ≡ length xs
  length-reverse xs = omega (arith, length-reverse_aux xs [])

  pub take-drop : (n : ℕ) (xs : List A) → take n xs ++ drop n xs ≡ xs
  take-drop zero xs = refl
  take-drop (suc n) [] = refl
  take-drop (suc n) (x ∷ xs) = ap (λ r. x ∷ r) (take-drop n xs)

  pub take-eq : (j k : ℕ) (xs : List A) → j ≡ k → take j xs ≡ take k xs
  take-eq j k xs e = ap (λ i. take i xs) e

  pub drop-eq : (j k : ℕ) (xs : List A) → j ≡ k → drop j xs ≡ drop k xs
  drop-eq j k xs e = ap (λ i. drop i xs) e

  pub drop-nil : (n : ℕ) → ◌≡◌ {A = List A} (drop n []) []
  drop-nil zero = refl
  drop-nil (suc n) = refl

  pub take-nil : (n : ℕ) → ◌≡◌ {A = List A} (take n []) []
  take-nil zero = refl
  take-nil (suc n) = refl

  pub drop-drop : (m n : ℕ) (xs : List A) → drop n (drop m xs) ≡ drop (m + n) xs
  drop-drop zero n xs = drop-eq n (0 + n) xs (omega arith)
  drop-drop (suc m) n [] = drop-nil n ∙ sym (drop-nil (suc m + n))
  drop-drop (suc m) n (x ∷ xs) =
      drop-drop m n xs ∙ drop-eq (suc (m + n)) (suc m + n) (x ∷ xs) (omega arith)

  pub drop-get_elem :
      (i : ℕ) (xs : List A)
      → i < length xs
      → (x : A) × (get_elem? xs i ≡ some x) × (drop i xs ≡ x ∷ drop (suc i) xs)
  drop-get_elem i [] h = absurd (omega (arith, h))
  drop-get_elem zero (x ∷ xs) h = (x, refl, refl)
  drop-get_elem (suc i) (x ∷ xs) h = drop-get_elem i xs (omega (arith, h))

  pub take-all : (n : ℕ) (xs : List A) → length xs ≤ n → take n xs ≡ xs
  take-all zero [] h = refl
  take-all zero (x ∷ xs) h = absurd (omega (arith, h))
  take-all (suc n) [] h = refl
  take-all (suc n) (x ∷ xs) h = ap (λ r. x ∷ r) (take-all n xs (omega (arith, h)))

  pub drop-all : (n : ℕ) (xs : List A) → length xs ≤ n → drop n xs ≡ []
  drop-all zero [] h = refl
  drop-all zero (x ∷ xs) h = absurd (omega (arith, h))
  drop-all (suc n) [] h = refl
  drop-all (suc n) (x ∷ xs) h = drop-all n xs (omega (arith, h))

  pub drop-append : (n : ℕ) (xs ys : List A) → n ≤ length xs → drop n (xs ++ ys) ≡ drop n xs ++ ys
  drop-append zero xs ys h = refl
  drop-append (suc n) [] ys h = absurd (omega (arith, h))
  drop-append (suc n) (x ∷ xs) ys h = drop-append n xs ys (omega (arith, h))

  pub take-append : (n : ℕ) (xs ys : List A) → n ≤ length xs → take n (xs ++ ys) ≡ take n xs
  take-append zero xs ys h = refl
  take-append (suc n) [] ys h = absurd (omega (arith, h))
  take-append (suc n) (x ∷ xs) ys h = ap (λ r. x ∷ r) (take-append n xs ys (omega (arith, h)))

  pub length-take : (n : ℕ) (xs : List A) → n ≤ length xs → length (take n xs) ≡ n
  length-take zero xs h = refl
  length-take (suc n) [] h = absurd (omega (arith, h))
  length-take (suc n) (x ∷ xs) h = omega (arith, length-take n xs (omega (arith, h)))

  pub length-drop : (n : ℕ) (xs : List A) → length (drop n xs) ≡ length xs - n
  length-drop zero xs = omega arith
  length-drop (suc n) [] = omega arith
  length-drop (suc n) (x ∷ xs) = omega (arith, length-drop n xs)

  -- A slice goes on with the elements that come next.
  pub drop-take_more :
      (m n k : ℕ) (xs : List A)
      → m ≤ n
      → drop m (take n xs) ++ take k (drop n xs) ≡ drop m (take (n + k) xs)
  drop-take_more zero zero k xs h = take-eq k (0 + k) xs (omega arith)
  drop-take_more (suc m) zero k xs h = absurd (omega (arith, h))
  drop-take_more m (suc n) k [] h =
      rw (drop-nil m, take-nil k, take-nil (suc n + k), drop-nil m) refl
  drop-take_more zero (suc n) k (x ∷ xs) h =
      ap (λ r. x ∷ r) (drop-take_more zero n k xs (omega arith))
      ∙ take-eq (suc (n + k)) (suc n + k) (x ∷ xs) (omega arith)
  drop-take_more (suc m) (suc n) k (x ∷ xs) h =
      drop-take_more m n k xs (omega (arith, h))
      ∙ ap (drop (suc m)) (take-eq (suc (n + k)) (suc n + k) (x ∷ xs) (omega arith))

  pub length-take_le : (n : ℕ) (xs : List A) → length (take n xs) ≤ n
  length-take_le zero xs = omega arith
  length-take_le (suc n) [] = omega arith
  length-take_le (suc n) (x ∷ xs) = omega (arith, length-take_le n xs)

  pub take-length-take : (n : ℕ) (xs : List A) → take (length (take n xs)) xs ≡ take n xs
  take-length-take zero xs = refl
  take-length-take (suc n) [] = refl
  take-length-take (suc n) (x ∷ xs) = ap (λ r. x ∷ r) (take-length-take n xs)

  pub length-take-drop :
      (n k : ℕ) (xs : List A) → n ≤ length xs → n + length (take k (drop n xs)) ≤ length xs
  length-take-drop zero zero xs h = omega arith
  length-take-drop zero (suc k) [] h = omega arith
  length-take-drop zero (suc k) (x ∷ xs) h = omega (arith, length-take-drop zero k xs (omega arith))
  length-take-drop (suc n) k [] h = absurd (omega (arith, h))
  length-take-drop (suc n) k (x ∷ xs) h = omega (arith, length-take-drop n k xs (omega (arith, h)))
