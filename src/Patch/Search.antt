-- ===== src/Patch/Search.antt =====
-- The search for the lines of a hunk (`find_run` and `locate` of src/toolpatch.rs).
use mathlib.Core.Path.{subst}
use stavlos.Common.{
  ℕ, zero, suc, ◌+◌, ◌-◌, ◌≤◌, ◌<◌, is_empty, Bool, true, false, none, some, List, length, leb,
  ◌==◌, leb→le, ==_iff, ◌≡◌, ◌⊎◌, refl, arith, inl, inr, Bool-cases, Option-cases, &&-eq-true,
}
use stavlos.Common.Bytes.{Bytes}
use stavlos.Patch.Types.{Hunk, ok}
use stavlos.Patch.Lines.{
  all_match, find, find_pass, fits, find_run, anchor_at, search_run, at_end, locate,
}

find-some :
    (p : ℕ → Bool) (from n at : ℕ)
    → find p from n ≡ some at
    → (p at ≡ true) × (from ≤ at) × (at < from + n) × ((j : ℕ) → from ≤ j → j < at → p j ≡ false)
unfolding find
find-some p from zero at h = ground (arith, h)
find-some p from (suc n) at h = elim (Bool-cases (p from)) [
  | inl e ↦
      let same : from ≡ at = ground (arith, h, e) in
      (
        subst (λ x. p x ≡ true) same e,
        omega (arith, same),
        omega (arith, same),
        λ j a b. absurd (omega (arith, same, a, b)),
      )
  | inr e ↦
      let (x, y, z, w) = find-some p (suc from) n at (ground (arith, h, e)) in
      (
        x,
        omega (arith, y),
        omega (arith, z),
        λ j a b. elim (Bool-cases (from == j)) [
          | inl same ↦ subst (λ x. p x ≡ false) ((==_iff from j).0 same) e
          | inr apart ↦ w j (ground (arith, a, apart)) b
        ],
      )
]

find-none :
    (p : ℕ → Bool) (from n j : ℕ) → find p from n ≡ none → from ≤ j → j < from + n → p j ≡ false
unfolding find
find-none p from zero j h = λ a b. absurd (ground (arith, a, b))
find-none p from (suc n) j h = λ a b. elim (Bool-cases (p from)) [
  | inl e ↦ absurd (ground (arith, h, e))
  | inr e ↦ elim (Bool-cases (from == j)) [
    | inl same ↦ subst (λ x. p x ≡ false) ((==_iff from j).0 same) e
    | inr apart ↦
        find-none p (suc from) n j (ground (arith, h, e)) (ground (arith, a, apart))
          (omega (arith, b))
  ]
]

-- No position from `from` on shows the old lines in a pass.
abbrev pub NoRun : List Bytes → List Bytes → ℕ → ℕ → Type 0
NoRun lines old from pass = (j : ℕ) → from ≤ j → fits lines old pass j ≡ false

-- What `find_run` finds: the old lines stand there in some pass, at no earlier position in that
-- pass, and nowhere in a stricter pass.
pub record FirstRun (lines old : List Bytes) (from at : ℕ) : Type 0 where
  pub pass : ℕ
  pub pass_lt : pass < 3
  pub from_le : from ≤ at
  pub here : fits lines old pass at ≡ true
  pub first : (j : ℕ) → from ≤ j → j < at → fits lines old pass j ≡ false
  pub stricter : (r : ℕ) → r < pass → NoRun lines old from r

find-NoRun :
    (lines old : List Bytes) (from pass : ℕ)
    → find (fits lines old pass) from (suc (length lines - length old) - from) ≡ none
    → NoRun lines old from pass
unfolding fits
find-NoRun lines old from pass h j a = elim (Bool-cases (leb (j + length old) (length lines))) [
  | inr c ↦ rw (fits, c) refl
  | inl c ↦
      find-none (fits lines old pass) from (suc (length lines - length old) - from) j h a
        (ground (arith, a, leb→le (j + length old) (length lines) c))
]

module _ (P : ℕ → Type 0) where
  below_1 : P 0 → (r : ℕ) → r < 1 → P r
  below_1 a zero b = a
  below_1 a (suc r) b = absurd (omega (arith, b))

  below_2 : P 0 → P 1 → (r : ℕ) → r < 2 → P r
  below_2 a c zero b = a
  below_2 a c (suc zero) b = c
  below_2 a c (suc (suc r)) b = absurd (omega (arith, b))

  below_3 : P 0 → P 1 → P 2 → (r : ℕ) → r < 3 → P r
  below_3 a c d zero b = a
  below_3 a c d (suc zero) b = c
  below_3 a c d (suc (suc zero)) b = d
  below_3 a c d (suc (suc (suc r))) b = absurd (omega (arith, b))

FirstRun-at :
    (lines old : List Bytes) (from at pass : ℕ)
    → pass < 3
    → find (fits lines old pass) from (suc (length lines - length old) - from) ≡ some at
    → ((r : ℕ) → r < pass → NoRun lines old from r)
    → FirstRun lines old from at
FirstRun-at lines old from at pass b h s =
    let (x, y, z, w) =
      find-some (fits lines old pass) from (suc (length lines - length old) - from) at h in
    record { pass = pass; pass_lt = b; from_le = y; here = x; first = w; stricter = s }

-- A search for old lines answers the first position from `from` on at which they stand, in the
-- strictest of the three passes in which they stand anywhere from there on; it answers none only
-- where they stand nowhere from there on, in any pass.
pub find_run-FirstRun :
    (lines old : List Bytes) (from : ℕ)
    → ((find_run lines old from ≡ none) × ((r : ℕ) → r < 3 → NoRun lines old from r))
      ⊎ ((at : ℕ) × (find_run lines old from ≡ some at) × FirstRun lines old from at)
unfolding find_run find_pass
find_run-FirstRun lines old from =
    let search =
      λ (pass : ℕ). find (fits lines old pass) from (suc (length lines - length old) - from) in
    elim (Option-cases (search 0)) [
      | inr (at, e) ↦ inr (
        at,
        rw (e, find_run, find_pass) refl,
        FirstRun-at lines old from at 0 (omega arith) e (λ r b. absurd (omega (arith, b))),
      )
      | inl e0 ↦ elim (Option-cases (search 1)) [
        | inr (at, e) ↦ inr (
          at,
          rw (e0, e, find_run, find_pass) refl,
          FirstRun-at lines old from at 1 (omega arith) e
              (below_1 (NoRun lines old from) (find-NoRun lines old from 0 e0)),
        )
        | inl e1 ↦ elim (Option-cases (search 2)) [
          | inr (at, e) ↦ inr (
            at,
            rw (e0, e1, e, find_run, find_pass) refl,
            FirstRun-at lines old from at 2 (omega arith) e (
                below_2 (NoRun lines old from) (find-NoRun lines old from 0 e0)
                  (find-NoRun lines old from 1 e1)),
          )
          | inl e2 ↦ inl (
            rw (e0, e1, e2, find_run, find_pass) refl,
            below_3 (NoRun lines old from) (find-NoRun lines old from 0 e0)
                (find-NoRun lines old from 1 e1) (find-NoRun lines old from 2 e2),
          )
        ]
      ]
    ]

-- A run that is found lies inside the lines.
pub find_run-fits :
    (lines old : List Bytes) (from at : ℕ)
    → find_run lines old from ≡ some at
    → at + length old ≤ length lines
unfolding fits
find_run-fits lines old from at h = elim (find_run-FirstRun lines old from) [
  | inl (e, n) ↦ absurd (ground (arith, h, e))
  | inr (j, e, f) ↦
      let same : j ≡ at = ground (arith, h, e) in
      let inside =
        leb→le (j + length old) (length lines)
          (&&-eq-true (leb (j + length old) (length lines)) (all_match f.pass lines j old)
            f.here).0 in
      omega (arith, same, inside)
]

search_run-fits :
    (lines old : List Bytes) (from at : ℕ)
    → search_run lines old from ≡ some at
    → at + length old ≤ length lines
unfolding search_run
search_run-fits lines old from at h = elim (Option-cases (find_run lines old from)) [
  | inr (j, e) ↦
      let same : j ≡ at = ground (arith, h, e) in
      omega (arith, same, find_run-fits lines old from j e)
  | inl e ↦ ground (arith, h, e, find_run-fits lines old 0 at)
]

at_end-fits :
    (h : Hunk) (lines old : List Bytes) (at : ℕ)
    → at + length old ≤ length lines
    → at_end h lines old at + length old ≤ length lines
unfolding at_end
at_end-fits h lines old at b =
    let last = length lines - length old in
    elim (Option-cases (find_run lines old last)) [
      | inl e ↦ ground (arith, b, e)
      | inr (j, e) ↦ ground (arith, b, e, find_run-fits lines old last j e)
    ]

-- Where a hunk that replaces lines is put, those lines lie inside the file.
pub locate-fits :
    (index : ℕ) (h : Hunk) (lines old : List Bytes) (from at : ℕ)
    → is_empty old ≡ false
    → locate index h lines old from ≡ ok at
    → at + length old ≤ length lines
unfolding locate
locate-fits index h lines old from at n =
    let start = elim (anchor_at h lines from) as (λ x. ℕ) [ some i ↦ i | none ↦ from ] in
    elim (Option-cases (search_run lines old start)) [
      | inl e ↦ rw (locate, n, e) (λ k. ground (arith, k))
      | inr (j, e) ↦
          rw (locate, n, e)
            (λ k.
              let same : at_end h lines old j ≡ at = ground (arith, k) in
              omega (arith, same, at_end-fits h lines old j (search_run-fits lines old start j e)))
    ]
