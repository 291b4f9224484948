-- ===== src/Patch/Shows.antt =====
-- Plans that show a map of paths to files, and the staging of one path (`Plan::file` of
-- src/toolpatch.rs).
use stavlos.Common.{
  ℕ, zero, suc, Text, text_eq, text_eq_iff, text_eq_refl, none, some, List, [], ◌∷◌, ◌++◌, length,
  get_elem?, ◌≡◌, ◌⊎◌, refl, sym, ap, ◌∙◌, arith, inl, inr, Bool-cases, Option-cases,
}
use mathlib.Core.Path.{subst}
use stavlos.Common.Map.{get, get-insert}
use stavlos.Common.Bytes.{Bytes}
use stavlos.Patch.Types.{
  Kind, add, delete, update, Failure, Result, ok, err, Staged, Plan, Read, found, missing, failed,
  unreadable,
}
use stavlos.Patch.Disk.{Filesystem, content}
use stavlos.Patch.Stage.{update_at, set_file, push_file, staged_new, plan_file}
use stavlos.Patch.Spec.{broken, View, entry, put}
use stavlos.Patch.Index.{
  index_of, staged_entry, overlay, IsIndexed, overlay-absent, index_of-update_at, overlay-update_at,
  index_of-push, overlay-push,
}

pub Result-cases {ℓ} :
    {A : Type ℓ} (r : Result A) → ((a : A) × (r ≡ ok a)) ⊎ ((e : Failure) × (r ≡ err e))
Result-cases (ok a) = inl (a, refl)
Result-cases (err e) = inr (e, refl)

pub Kind-cases : (k : Kind) → (k ≡ add) ⊎ ((k ≡ delete) ⊎ (k ≡ update))
Kind-cases add = inl refl
Kind-cases delete = inr (inl refl)
Kind-cases update = inr (inr refl)

pub Read-cases :
    (r : Read) → ((b : Bytes) × (m : ℕ) × (r ≡ found b m)) ⊎ ((r ≡ missing) ⊎ (r ≡ failed))
Read-cases (found b m) = inl (b, m, refl)
Read-cases missing = inr (inl refl)
Read-cases failed = inr (inr refl)

pub subst2 {ℓ κ μ} :
    {A : Type ℓ} {B : Type κ} (P : A → B → Type μ) {a c : A} {b d : B}
    → a ≡ c
    → b ≡ d
    → P a b
    → P c d
subst2 P {a} {c} {b} {d} e f x = subst (λ y. P c y) f (subst (λ y. P y b) e x)

module _ {ℓ} {S : Type ℓ} (fs : Filesystem S) (s : S) where
  -- No path is staged twice, and each file knows what the disk holds.
  unfoldable pub WellStaged : List Staged → Type 0
  WellStaged [] = Unit
  WellStaged (f ∷ files) =
      (index_of files f.path ≡ none)
      × (f.previous ≡ content (fs.open_read s f.path))
      × WellStaged files

  -- A plan is well formed, and laid over the disk it shows the map `v`.
  pub record Shows (p : Plan) (v : View) : Type 0 where
    pub indexed : IsIndexed p
    pub well : WellStaged p.files
    pub shown : (q : Text) → overlay p.files q (entry (fs.open_read s q)) ≡ v q

  pub well-update_at :
      (files : List Staged) (i : ℕ) (g : Staged → Staged)
      → ((f : Staged) → (g f).path ≡ f.path)
      → ((f : Staged) → (g f).previous ≡ f.previous)
      → WellStaged files
      → WellStaged (update_at files i g)
  unfolding WellStaged update_at
  well-update_at [] i g k l h = h
  well-update_at (f ∷ files) zero g k l h = (rw (k f) h.0, rw (l f, k f) h.1, h.2)
  well-update_at (f ∷ files) (suc i) g k l h =
      (rw (index_of-update_at files i g f.path k) h.0, h.1, well-update_at files i g k l h.2)

  pub well-push :
      (files : List Staged) (f : Staged)
      → index_of files f.path ≡ none
      → f.previous ≡ content (fs.open_read s f.path)
      → WellStaged files
      → WellStaged (files ++ (f ∷ []))
  unfolding WellStaged index_of
  well-push [] f a e h = (refl, e, tt)
  well-push (x ∷ files) f a e h = (
    ground
        (arith, index_of-push files f x.path, text_eq_iff f.path x.path, text_eq_refl x.path, h.0),
    h.1,
    well-push files f (ground (arith, a)) e h.2,
  )

  -- A change to the file of a path changes that path in the map.
  pub Shows-set_file :
      (p : Plan) (v : View) (path : Text) (i : ℕ) (f : Staged) (g : Staged → Staged)
      → ((f : Staged) → (g f).path ≡ f.path)
      → ((f : Staged) → (g f).previous ≡ f.previous)
      → index_of p.files path ≡ some i
      → get_elem? p.files i ≡ some f
      → Shows p v
      → Shows (set_file p i g) (put v path (staged_entry (g f)))
  unfolding set_file put IsIndexed
  Shows-set_file p v path i f g k l at e h = record {
    indexed = λ q. h.indexed q ∙ sym (index_of-update_at p.files i g q k);
    well = well-update_at p.files i g k l h.well;
    shown = λ q.
        rw (overlay-update_at p.files i g f path q (entry (fs.open_read s q)) k at e, h.shown q)
          refl;
  }

  -- What `plan_file` answers for a path of the map.
  unfoldable pub FileStaged : Plan → View → Text → Result (Plan × ℕ) → Type 0
  FileStaged p v name (ok (q, i)) =
      Shows q v
      × (index_of q.files (fs.resolve name) ≡ some i)
      × ((r : Text) (j : ℕ) → index_of p.files r ≡ some j → index_of q.files r ≡ some j)
  FileStaged p v name (err e) = (v (fs.resolve name) ≡ broken) × (e ≡ unreadable name)

  pub shown-push :
      (p : Plan) (v : View) (f : Staged)
      → index_of p.files f.path ≡ none
      → staged_entry f ≡ entry (fs.open_read s f.path)
      → Shows p v
      → (q : Text) → overlay (p.files ++ (f ∷ [])) q (entry (fs.open_read s q)) ≡ v q
  shown-push p v f a g h q =
      let d = entry (fs.open_read s q) in
      overlay-push p.files f q d a ∙ (elim (Bool-cases (text_eq f.path q)) [
        | inr n ↦ rw n (h.shown q)
        | inl e ↦
            let same = (text_eq_iff f.path q).0 e in
            rw e (
              g
              ∙ (ap (λ x. entry (fs.open_read s x)) same
                  ∙ (sym (overlay-absent p.files q d (sym (ap (index_of p.files) same) ∙ a))
                      ∙ h.shown q)))
      ])

  pub Shows-push_file :
      (p : Plan) (v : View) (f : Staged)
      → index_of p.files f.path ≡ none
      → f.previous ≡ content (fs.open_read s f.path)
      → staged_entry f ≡ entry (fs.open_read s f.path)
      → Shows p v
      → Shows (push_file p f.path f).0 v
  unfolding push_file IsIndexed
  Shows-push_file p v f a e g h = record {
    indexed = λ q. ground (
      arith,
      get-insert p.indices f.path q (length p.files),
      h.indexed q,
      index_of-push p.files f q,
      text_eq_iff f.path q,
    );
    well = well-push p.files f a e h.well;
    shown = shown-push p v f a g h;
  }

  pub push_file-stages :
      (p : Plan) (v : View) (f : Staged)
      → index_of p.files f.path ≡ none
      → f.previous ≡ content (fs.open_read s f.path)
      → staged_entry f ≡ entry (fs.open_read s f.path)
      → Shows p v
      → Shows (push_file p f.path f).0 v
        × (index_of (push_file p f.path f).0.files f.path ≡ some (push_file p f.path f).1)
        × ((r : Text) (j : ℕ)
            → index_of p.files r ≡ some j
            → index_of (push_file p f.path f).0.files r ≡ some j)
  unfolding push_file
  push_file-stages p v f a e g h = (
    Shows-push_file p v f a e g h,
    ground (arith, index_of-push p.files f f.path, a, text_eq_refl f.path),
    λ r j k. ground (arith, index_of-push p.files f r, k),
  )

  pub plan_file-FileStaged :
      (p : Plan) (v : View) (name : Text) → Shows p v → FileStaged p v name (plan_file fs s p name)
  unfolding plan_file FileStaged IsIndexed staged_new staged_entry entry content
  plan_file-FileStaged p v name h =
      let path = fs.resolve name in
      elim (Option-cases (get p.indices path)) [
        | inr (i, e) ↦ rw (e, plan_file, FileStaged) (h, sym (h.indexed path) ∙ e, λ r j k. k)
        | inl e ↦
            let a = sym (h.indexed path) ∙ e in
            elim (Read-cases (fs.open_read s path)) [
              | inl (b, m, r) ↦
                  rw (e, r, plan_file, FileStaged)
                    (push_file-stages p v (staged_new path (some b) m) a (rw r refl) (rw r refl) h)
              | inr (inl r) ↦
                  rw (e, r, plan_file, FileStaged)
                    (push_file-stages p v (staged_new path none 0o644) a (rw r refl) (rw r refl) h)
              | inr (inr r) ↦
                  rw (e, r, plan_file, FileStaged)
                    (
                      sym (h.shown path)
                          ∙ (overlay-absent p.files path (entry (fs.open_read s path)) a
                              ∙ ap entry r),
                      refl,
                    )
            ]
      ]
