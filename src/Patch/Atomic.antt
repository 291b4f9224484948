-- ===== src/Patch/Atomic.antt =====
-- What `Plan::write` of src/toolpatch.rs leaves on the disk.
use mathlib.Core.Path.{subst}
use stavlos.Common.{
  ◌≤◌, Text, text_eq, text_eq_iff, text_eq_refl, Bool, true, false, not, ◌||◌, Option, none, List,
  [], ◌∷◌, ◌≡◌, ◌⊎◌, ◌≢◌, refl, sym, ◌∙◌, arith, inl, inr, Bool-cases, Option-cases,
}
use stavlos.Common.Bytes.{Bytes}
use stavlos.Patch.Types.{Staged}
use stavlos.Patch.Disk.{Filesystem, content}
use stavlos.Patch.Write.{unchanged, put_back, roll_back, write_files}

module _ {ℓ} {S : Type ℓ} (fs : Filesystem S) where
  -- What a path holds.
  abbrev pub holds : S → Text → Option Bytes
  holds s q = content (fs.open_read s q)

  -- Two disks that hold the same at every path.
  abbrev pub Same : S → S → Type 0
  Same s t = (q : Text) → holds t q ≡ holds s q

  -- A file among those written.
  abbrev pub is_written : List Staged → Text → Bool
  is_written [] q = false
  is_written (f ∷ done) q = text_eq f.path q || is_written done q

  -- What is to be put back is what the disk `t` held.
  unfoldable pub Recorded : S → List Staged → Type 0
  Recorded t [] = Unit
  Recorded t (f ∷ files) = (f.previous ≡ holds t f.path) × Recorded t files

  -- Putting a file back succeeds where no call is going to fail.
  put_back-holds :
      (t s : S) (f : Staged)
      → fs.faults s ≡ 0
      → f.previous ≡ holds t f.path
      → holds (put_back fs s f) f.path ≡ holds t f.path
  unfolding put_back
  put_back-holds t s f z r = elim (Option-cases f.previous) [
    | inr (b, e) ↦ elim (Bool-cases (fs.write_atomic s f.path b f.mode).0) [
      | inl w ↦ rw (e, put_back) (fs.read-write s f.path b f.mode w ∙ (sym e ∙ r))
      | inr w ↦ absurd (ground (arith, fs.faults-write_failed s f.path b f.mode w))
    ]
    | inl e ↦ elim (Bool-cases (fs.remove s f.path).0) [
      | inl w ↦ rw (e, put_back) (fs.read-remove s f.path w ∙ (sym e ∙ r))
      | inr w ↦ elim (Option-cases (holds s f.path)) [
        | inl n ↦ rw (e, put_back) (fs.read-remove_failed s f.path f.path w ∙ (n ∙ (sym e ∙ r)))
        | inr (b, n) ↦ absurd (ground (arith, fs.faults-remove_failed s f.path b n w))
      ]
    ]
  ]

  put_back-other :
      (s : S) (f : Staged) (q : Text)
      → text_eq f.path q ≡ false
      → holds (put_back fs s f) q ≡ holds s q
  unfolding put_back
  put_back-other s f q n =
      let apart : q ≢ f.path = λ e. ground (arith, text_eq_refl f.path, n, e) in
      elim (Option-cases f.previous) [
        | inr (b, e) ↦ rw (e, put_back) (fs.read-write_other s f.path b f.mode q apart)
        | inl e ↦ rw (e, put_back) (fs.read-remove_other s f.path q apart)
      ]

  put_back-faults : (s : S) (f : Staged) → fs.faults s ≡ 0 → fs.faults (put_back fs s f) ≡ 0
  unfolding put_back
  put_back-faults s f z = elim (Option-cases f.previous) [
    | inr (b, e) ↦ rw (e, put_back) (ground (arith, fs.faults-write s f.path b f.mode))
    | inl e ↦ rw (e, put_back) (ground (arith, fs.faults-remove s f.path))
  ]

  -- What differs from the disk `t` is only what was written.
  abbrev pub Undoable : S → S → List Staged → Type 0
  Undoable t s done = (q : Text) → (is_written done q ≡ true) ⊎ (holds s q ≡ holds t q)

  put_back-Undoable :
      (t s : S) (f : Staged) (done : List Staged)
      → fs.faults s ≡ 0
      → f.previous ≡ holds t f.path
      → Undoable t s (f ∷ done)
      → Undoable t (put_back fs s f) done
  put_back-Undoable t s f done z r u q = elim (Bool-cases (text_eq f.path q)) [
    | inl e ↦ inr (
        subst (λ x. holds (put_back fs s f) x ≡ holds t x) ((text_eq_iff f.path q).0 e)
          (put_back-holds t s f z r))
    | inr e ↦ elim (u q) [
      | inl w ↦ inl (ground (arith, w, e))
      | inr h ↦ inr (put_back-other s f q e ∙ h)
    ]
  ]

  roll_back-Same :
      (t s : S) (done : List Staged)
      → fs.faults s ≡ 0
      → Recorded t done
      → Undoable t s done
      → Same t (roll_back fs s done)
  unfolding roll_back Recorded
  roll_back-Same t s [] z r u = λ q. elim (u q) [ inl w ↦ absurd (ground (arith, w)) | inr h ↦ h ]
  roll_back-Same t s (f ∷ done) z r u =
      roll_back-Same t (put_back fs s f) done (put_back-faults s f z) r.1
        (put_back-Undoable t s f done z r.0 u)

  -- A successful write is recorded before the next one.
  write-Undoable :
      (t s : S) (f : Staged) (done : List Staged)
      → Undoable t s done
      → Undoable t (fs.write_atomic s f.path f.content f.mode).1 (f ∷ done)
  write-Undoable t s f done u q = elim (Bool-cases (text_eq f.path q)) [
    | inl e ↦ inl (rw e refl)
    | inr e ↦
        let apart : q ≢ f.path = λ d. ground (arith, text_eq_refl f.path, e, d) in
        elim (u q) [
          | inl w ↦ inl (rw e w)
          | inr h ↦ inr (fs.read-write_other s f.path f.content f.mode q apart ∙ h)
        ]
  ]

  pub write_files-Same :
      (t s : S) (done files : List Staged)
      → fs.faults s ≤ 1
      → Recorded t done
      → Recorded t files
      → Undoable t s done
      → (write_files fs s done files).0 ≢ none
      → Same t (write_files fs s done files).1
  unfolding write_files Recorded
  write_files-Same t s done [] z r k u = λ n. absurd (n refl)
  write_files-Same t s done (f ∷ files) z r k u =
      let w = fs.write_atomic s f.path f.content f.mode in
      elim (Bool-cases (not f.exists_ || unchanged f)) [
        | inl c ↦ rw c (write_files-Same t s done files z r k.1 u)
        | inr c ↦ elim (Bool-cases w.0) [
          | inl o ↦
              rw (c, o)
                (write_files-Same t w.1 (f ∷ done) files
                  (ground (arith, fs.faults-write s f.path f.content f.mode)) (k.0, r) k.1
                  (write-Undoable t s f done u))
          | inr o ↦
              rw (c, o)
                (λ n.
                  roll_back-Same t w.1 done
                    (ground (arith, fs.faults-write_failed s f.path f.content f.mode o)) r
                    (λ q. elim (u q) [
                      | inl x ↦ inl x
                      | inr h ↦ inr (fs.read-write_failed s f.path f.content f.mode q o ∙ h)
                    ]))
        ]
      ]
