-- ===== src/Patch/Run.antt =====
-- A whole patch (`run` of src/toolpatch.rs): what it leaves when it succeeds and when it fails.

use stavlos.Common.{
  ◌≤◌, Text, is_empty, Option, none, some, List, [], ◌∷◌, ◌≡◌, ◌≢◌, refl, sym, ap, ◌∙◌, arith, inl,
  inr, Bool-cases, Option-cases,
}
use stavlos.Patch.Types.{Failure, Result, ok, err, Operation, Staged, Plan, not_removed}
use stavlos.Patch.Parse.{parse}
use stavlos.Patch.Disk.{Filesystem}
use stavlos.Patch.Stage.{stage}
use stavlos.Patch.Write.{is_removed, write_files, remove_files, write, run}
use stavlos.Patch.Spec.{View, entry, entry_content, spec}
use stavlos.Patch.Shows.{WellStaged, Shows, Result-cases, subst2}
use stavlos.Patch.Refine.{Implements, stage-Implements}
use stavlos.Patch.Atomic.{Same, Recorded, holds, write_files-Same}
use stavlos.Patch.Outcome.{write-holds}

module _ {ℓ} {S : Type ℓ} (fs : Filesystem S) where
  remove_files-error :
      (s : S) (files : List Staged) (e : Failure)
      → ((p : Text) → e ≢ not_removed p)
      → (remove_files fs s files).0 ≢ some e
  unfolding remove_files
  remove_files-error s [] e h = λ n. ground (arith, n)
  remove_files-error s (f ∷ files) e h = elim (Bool-cases (is_removed f)) [
    | inr c ↦ rw c (remove_files-error s files e h)
    | inl c ↦ elim (Bool-cases (fs.remove s f.path).0) [
      | inl o ↦ rw (c, o) (remove_files-error (fs.remove s f.path).1 files e h)
      | inr o ↦ rw (c, o) (λ n. h f.path (ground (arith, n)))
    ]
  ]

  WellStaged-Recorded : (s : S) (files : List Staged) → WellStaged fs s files → Recorded fs s files
  unfolding WellStaged Recorded
  WellStaged-Recorded s [] k = tt
  WellStaged-Recorded s (f ∷ files) k = (k.1, WellStaged-Recorded s files k.2)

  write-Same :
      (s : S) (files : List Staged) (e : Failure)
      → fs.faults s ≤ 1
      → ((p : Text) → e ≢ not_removed p)
      → WellStaged fs s files
      → (write fs s files).0 ≡ some e
      → Same fs s (write fs s files).1
  unfolding write Recorded
  write-Same s files e z h k =
      let m = WellStaged-Recorded s files k in
      elim (Option-cases (write_files fs s [] files).0) [
        | inr (d, w) ↦
            rw (w, write)
              (λ n.
                write_files-Same fs s s [] files z tt m (λ q. inr refl) (λ a. ground (arith, w, a)))
        | inl w ↦
            rw (w, write)
              (λ n. absurd (remove_files-error (write_files fs s [] files).1 files e h n))
      ]

  -- A staged plan shows some map that its operations mean.
  stage-Shows :
      (s : S) (ops : List Operation) (plan : Plan)
      → stage fs s ops ≡ ok plan
      → (v : View) × (spec fs.resolve (λ q. entry (fs.open_read s q)) ops ≡ ok v)
        × Shows fs s plan v
  unfolding Implements
  stage-Shows s ops plan r =
      let i = stage-Implements fs s ops in
      elim (Result-cases (spec fs.resolve (λ q. entry (fs.open_read s q)) ops)) [
        | inl (v, t) ↦ (v, t, subst2 (Implements fs s) r t i)
        | inr (d, t) ↦ absurd (subst2 (Implements fs s) r t i)
      ]

answer-error :
    (o : Option Failure) (ops : List Operation) (e : Failure)
    → elim o as (λ x. Result (List Operation)) [ some d ↦ err d | none ↦ ok ops ] ≡ err e
    → o ≡ some e
answer-error none ops e h = ground (arith, h)
answer-error (some d) ops e h = ground (arith, h)

answer-ok :
    (o : Option Failure) (ops done : List Operation)
    → elim o as (λ x. Result (List Operation)) [ some d ↦ err d | none ↦ ok ops ] ≡ ok done
    → (o ≡ none) × (ops ≡ done)
answer-ok none ops done h = (refl, ground (arith, h))
answer-ok (some d) ops done h = ground (arith, h)

-- A patch that fails leaves every path with the bytes that it held before, whether it could not be
-- parsed, staged or written, provided at most one call on the disk fails although its file is there
-- to be changed, and the failure is not a removal at the end, which the code announces as coming
-- after the other changes.
pub run-Same {ℓ} :
    {S : Type ℓ} (fs : Filesystem S) (s : S) (text : Text) (e : Failure)
    → fs.faults s ≤ 1
    → ((p : Text) → e ≢ not_removed p)
    → (run fs s text).0 ≡ err e
    → Same fs s (run fs s text).1
unfolding run
run-Same fs s text e z h = elim (Result-cases (parse text)) [
  | inr (d, p) ↦ rw (p, run) (λ n q. refl)
  | inl (ops, p) ↦ elim (Bool-cases (is_empty ops)) [
    | inl x ↦ rw (p, run, x) (λ n q. refl)
    | inr x ↦ elim (Result-cases (stage fs s ops)) [
      | inr (d, r) ↦ rw (p, run, x, r) (λ n q. refl)
      | inl (plan, r) ↦
          rw (p, run, x, r)
            (λ n.
              let (v, t, i) = stage-Shows fs s ops plan r in
              write-Same fs s plan.files e z h i.well
                (answer-error (write fs s plan.files).0 ops e n))
    ]
  ]
]

-- A patch that succeeds has done what its operations mean: they parse, they make sense one after
-- the other on what the disk held, and afterwards every path holds what they leave there, whatever
-- calls on the disk would still fail.
pub run-Implements {ℓ} :
    {S : Type ℓ} (fs : Filesystem S) (s : S) (text : Text) (ops : List Operation)
    → (run fs s text).0 ≡ ok ops
    → (parse text ≡ ok ops)
      × (v : View) × (spec fs.resolve (λ q. entry (fs.open_read s q)) ops ≡ ok v)
      × ((q : Text) → holds fs (run fs s text).1 q ≡ entry_content (v q))
unfolding run
run-Implements fs s text done = elim (Result-cases (parse text)) [
  | inr (d, p) ↦ rw (p, run) (λ n. ground (arith, n))
  | inl (ops, p) ↦ elim (Bool-cases (is_empty ops)) [
    | inl x ↦ rw (p, run, x) (λ n. ground (arith, n))
    | inr x ↦ elim (Result-cases (stage fs s ops)) [
      | inr (d, r) ↦ rw (p, run, x, r) (λ n. ground (arith, n))
      | inl (plan, r) ↦
          rw (p, run, x, r)
            (λ n.
              let (a, b) = answer-ok (write fs s plan.files).0 ops done n in
              let (v, t, i) = stage-Shows fs s ops plan r in
              (
                rw b refl,
                v,
                rw (sym b) t,
                λ q. write-holds fs s plan.files q i.well a ∙ ap entry_content (i.shown q),
              ))
    ]
  ]
]
