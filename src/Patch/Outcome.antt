-- ===== src/Patch/Outcome.antt =====
-- The disk after a `Plan::write` of src/toolpatch.rs that answers no error.

use stavlos.Common.{
  ℕ, suc, Text, text_eq, text_eq_iff, text_eq_refl, eq_of_text_eq, true, false, not, ◌||◌, Option,
  none, some, List, [], ◌∷◌, if◌then◌else◌, ◌≡◌, ◌≢◌, refl, sym, ap, ◌∙◌, arith, inl, inr,
  Bool-cases, Option-cases,
}
use stavlos.Common.Bytes.{Bytes}
use stavlos.Patch.Types.{Staged, Read, found, missing, failed}
use stavlos.Patch.Disk.{Filesystem, content}
use stavlos.Patch.Write.{unchanged, is_removed, write_files, remove_files, write}
use stavlos.Patch.Spec.{entry, entry_content}
use stavlos.Patch.Index.{index_of, overlay, staged_entry}
use stavlos.Patch.Shows.{WellStaged}
use stavlos.Patch.Atomic.{holds}

-- What a path holds after the writes, and after the removals, where it held `d`.
after_write : List Staged → Text → Option Bytes → Option Bytes
after_write [] q d = d
after_write (f ∷ files) q d =
    if text_eq f.path q then (if f.exists_ then some f.content else d) else after_write files q d

after_remove : List Staged → Text → Option Bytes → Option Bytes
after_remove [] q d = d
after_remove (f ∷ files) q d =
    if text_eq f.path q then (if is_removed f then none else d) else after_remove files q d

after_write-absent :
    (files : List Staged) (q : Text) (d : Option Bytes)
    → index_of files q ≡ none
    → after_write files q d ≡ d
unfolding after_write index_of
after_write-absent [] q d h = refl
after_write-absent (f ∷ files) q d h = ground (arith, after_write-absent files q d)

after_remove-absent :
    (files : List Staged) (q : Text) (d : Option Bytes)
    → index_of files q ≡ none
    → after_remove files q d ≡ d
unfolding after_remove index_of
after_remove-absent [] q d h = refl
after_remove-absent (f ∷ files) q d h = ground (arith, after_remove-absent files q d)

index_of_self : (f : Staged) (files : List Staged) → index_of (f ∷ files) f.path ≡ some 0
unfolding index_of
index_of_self f files = ground (arith, text_eq_refl f.path)

content-entry : (r : Read) → content r ≡ entry_content (entry r)
unfolding content entry entry_content
content-entry (found b m) = refl
content-entry missing = refl
content-entry failed = refl

staged-content :
    (f : Staged)
    → (if is_removed f then none else if f.exists_ then some f.content else f.previous)
      ≡ entry_content (staged_entry f)
unfolding is_removed entry_content staged_entry
staged-content f = ground arith

module _ {ℓ} {S : Type ℓ} (fs : Filesystem S) where
  -- The paths of the files that are left hold what they held in `t`.
  abbrev Untouched : S → S → List Staged → Type 0
  Untouched t s files = (q : Text) (i : ℕ) → index_of files q ≡ some i → holds fs s q ≡ holds fs t q

  Untouched-rest :
      (t s : S) (f : Staged) (files : List Staged)
      → index_of files f.path ≡ none
      → Untouched t s (f ∷ files)
      → Untouched t s files
  unfolding index_of
  Untouched-rest t s f files h u q i e = u q (suc i) (ground (arith, e, h, text_eq_iff f.path q))

  other-path :
      (files : List Staged) (p q : Text) (i : ℕ)
      → index_of files p ≡ none
      → index_of files q ≡ some i
      → q ≢ p
  other-path files p q i h e same = ground (arith, ap (index_of files) same, h, e)

  write-Untouched :
      (t s : S) (f : Staged) (files : List Staged)
      → index_of files f.path ≡ none
      → Untouched t s (f ∷ files)
      → Untouched t (fs.write_atomic s f.path f.content f.mode).1 files
  write-Untouched t s f files h u q i e =
      fs.read-write_other s f.path f.content f.mode q (other-path files f.path q i h e)
      ∙ Untouched-rest t s f files h u q i e

  remove-Untouched :
      (t s : S) (f : Staged) (files : List Staged)
      → index_of files f.path ≡ none
      → Untouched t s (f ∷ files)
      → Untouched t (fs.remove s f.path).1 files
  remove-Untouched t s f files h u q i e =
      fs.read-remove_other s f.path q (other-path files f.path q i h e)
      ∙ Untouched-rest t s f files h u q i e

  exists-written : (f : Staged) → (not f.exists_ || unchanged f) ≡ false → f.exists_ ≡ true
  exists-written f c = ground (arith, c)

  -- A file that is not written holds what it is to hold.
  skipped :
      (t s : S) (f : Staged)
      → f.previous ≡ holds fs t f.path
      → holds fs s f.path ≡ holds fs t f.path
      → (not f.exists_ || unchanged f) ≡ true
      → holds fs s f.path ≡ (if f.exists_ then some f.content else holds fs s f.path)
  unfolding unchanged
  skipped t s f r u c = elim (Bool-cases f.exists_) [
    | inr x ↦ rw x refl
    | inl x ↦ elim (Option-cases f.previous) [
      | inl e ↦ absurd (ground (arith, c, x, e))
      | inr (b, e) ↦
          rw x (u ∙ (sym r ∙ (e ∙ ap some (eq_of_text_eq b f.content (ground (arith, c, x, e))))))
    ]
  ]

  write_files-holds :
      (t s : S) (done files : List Staged)
      → WellStaged fs t files
      → Untouched t s files
      → (write_files fs s done files).0 ≡ none
      → (q : Text) → holds fs (write_files fs s done files).1 q ≡ after_write files q (holds fs s q)
  unfolding write_files WellStaged after_write
  write_files-holds t s done [] k u = λ n q. refl
  write_files-holds t s done (f ∷ files) k u =
      let w = fs.write_atomic s f.path f.content f.mode in
      let rest = Untouched-rest t s f files k.0 u in
      elim (Bool-cases (not f.exists_ || unchanged f)) [
        | inl c ↦ rw c (λ n q.
            write_files-holds t s done files k.2 rest n q ∙ (elim (Bool-cases (text_eq f.path q)) [
              | inr e ↦ rw e refl
              | inl e ↦
                  rw (e, sym ((text_eq_iff f.path q).0 e))
                    (after_write-absent files f.path (holds fs s f.path) k.0
                      ∙ skipped t s f k.1 (u f.path 0 (index_of_self f files)) c)
            ]))
        | inr c ↦ elim (Bool-cases w.0) [
          | inr o ↦ rw (c, o) (λ n. absurd (ground (arith, n)))
          | inl o ↦
              rw (c, o)
                (λ n q.
                  write_files-holds t w.1 (f ∷ done) files k.2 (write-Untouched t s f files k.0 u) n
                    q
                  ∙ (elim (Bool-cases (text_eq f.path q)) [
                    | inr e ↦ rw e (
                        ap (after_write files q) (
                          fs.read-write_other s f.path f.content f.mode q
                            (λ d. ground (arith, text_eq_refl f.path, e, d))))
                    | inl e ↦
                        rw (e, sym ((text_eq_iff f.path q).0 e))
                          (after_write-absent files f.path (holds fs w.1 f.path) k.0
                            ∙ (fs.read-write s f.path f.content f.mode o
                                ∙ rw (exists-written f c) refl))
                  ]))
        ]
      ]

  Distinct : List Staged → Type 0
  Distinct [] = Unit
  Distinct (f ∷ files) = (index_of files f.path ≡ none) × Distinct files

  remove_files-holds :
      (s : S) (files : List Staged)
      → Distinct files
      → (remove_files fs s files).0 ≡ none
      → (q : Text) → holds fs (remove_files fs s files).1 q ≡ after_remove files q (holds fs s q)
  unfolding remove_files Distinct after_remove
  remove_files-holds s [] k = λ n q. refl
  remove_files-holds s (f ∷ files) k =
      let w = fs.remove s f.path in
      elim (Bool-cases (is_removed f)) [
        | inr c ↦ rw c (λ n q.
            remove_files-holds s files k.1 n q ∙ (elim (Bool-cases (text_eq f.path q)) [
              | inr e ↦ rw e refl
              | inl e ↦
                  rw (e, sym ((text_eq_iff f.path q).0 e))
                    (after_remove-absent files f.path (holds fs s f.path) k.0)
            ]))
        | inl c ↦ elim (Bool-cases w.0) [
          | inr o ↦ rw (c, o) (λ n. absurd (ground (arith, n)))
          | inl o ↦
              rw (c, o)
                (λ n q.
                  remove_files-holds w.1 files k.1 n q ∙ (elim (Bool-cases (text_eq f.path q)) [
                    | inr e ↦ rw e (
                        ap (after_remove files q) (
                          fs.read-remove_other s f.path q
                            (λ d. ground (arith, text_eq_refl f.path, e, d))))
                    | inl e ↦
                        rw (e, sym ((text_eq_iff f.path q).0 e))
                          (after_remove-absent files f.path (holds fs w.1 f.path) k.0
                            ∙ fs.read-remove s f.path o)
                  ]))
        ]
      ]

  WellStaged-Distinct : (t : S) (files : List Staged) → WellStaged fs t files → Distinct files
  unfolding WellStaged Distinct
  WellStaged-Distinct t [] k = tt
  WellStaged-Distinct t (f ∷ files) k = (k.0, WellStaged-Distinct t files k.2)

  -- Writes and removals together leave what the staged files show.
  both-overlay :
      (t : S) (files : List Staged) (q : Text)
      → WellStaged fs t files
      → after_remove files q (after_write files q (holds fs t q))
        ≡ entry_content (overlay files q (entry (fs.open_read t q)))
  unfolding after_remove after_write overlay WellStaged
  both-overlay t [] q k = content-entry (fs.open_read t q)
  both-overlay t (f ∷ files) q k = elim (Bool-cases (text_eq f.path q)) [
    | inr e ↦ rw e (both-overlay t files q k.2)
    | inl e ↦ rw (e, sym ((text_eq_iff f.path q).0 e), sym k.1) (staged-content f)
  ]

  -- After a write without an error every path holds what the plan shows.
  pub write-holds :
      (s : S) (files : List Staged) (q : Text)
      → WellStaged fs s files
      → (write fs s files).0 ≡ none
      → holds fs (write fs s files).1 q ≡ entry_content (overlay files q (entry (fs.open_read s q)))
  unfolding write
  write-holds s files q k = elim (Option-cases (write_files fs s [] files).0) [
    | inr (e, w) ↦ rw (w, write) (λ n. absurd (ground (arith, n)))
    | inl w ↦
        rw (w, write)
          (λ n.
            remove_files-holds (write_files fs s [] files).1 files (WellStaged-Distinct s files k) n
              q
            ∙ (ap (after_remove files q) (write_files-holds s s [] files k (λ q i e. refl) w q)
                ∙ both-overlay s files q k))
  ]
