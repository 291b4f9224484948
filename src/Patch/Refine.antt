-- ===== src/Patch/Refine.antt =====
-- Staging a patch (`Plan::stage` of src/toolpatch.rs) against what its operations mean.
use stavlos.Common.{
  ℕ, Text, is_empty, true, false, some, List, [], ◌∷◌, get_elem?, if◌then◌else◌, ◌≡◌, ◌⊎◌, refl,
  sym, ◌∙◌, arith, inl, inr, Bool-cases,
}
use mathlib.Core.Path.{subst}
use stavlos.Common.Map.{get}
use stavlos.Common.Bytes.{Bytes}
use stavlos.Patch.Types.{
  add, delete, update, Operation, Result, ok, err, and_then, Staged, Plan, unreadable, cannot_move,
}
use stavlos.Patch.Lines.{apply_hunks}
use stavlos.Patch.Disk.{Filesystem}
use stavlos.Patch.Stage.{
  set_file, staged_exists, staged_content, staged_mode, create, drop_file, rewrite_file, move_onto,
  added_bytes, plan_file, stage_add, stage_delete, stage_move, stage_update, stage_operation,
  stage_from, stage,
}
use stavlos.Patch.Spec.{
  file, nothing, broken, View, entry, put, spec_add, spec_delete, spec_move, spec_update,
  spec_operation, spec,
}
use stavlos.Patch.Index.{
  index_of, staged_entry, overlay, IsIndexed, get_elem-index_of, index_of-update_at,
}
use stavlos.Patch.Shows.{
  Result-cases, Kind-cases, subst2, WellStaged, Shows, Shows-set_file, FileStaged,
  plan_file-FileStaged,
}

module _ {ℓ} {S : Type ℓ} (fs : Filesystem S) (s : S) where
  -- Both answer alike: a plan that shows the map, or the same failure.
  unfoldable pub Implements : Result Plan → Result View → Type 0
  Implements (ok p) (ok v) = Shows fs s p v
  Implements (err e) (err d) = e ≡ d
  Implements _ _ = ⊥

  -- A staged file exists in the plan and in the map, or in neither.
  staged-cases :
      (p : Plan) (v : View) (path : Text) (i : ℕ)
      → index_of p.files path ≡ some i
      → Shows fs s p v
      → (f : Staged) × (get_elem? p.files i ≡ some f)
        × (((staged_exists p i ≡ true) × (v path ≡ file (staged_content p i)))
            ⊎ ((staged_exists p i ≡ false) × (v path ≡ nothing)))
  unfolding staged_exists staged_content staged_entry
  staged-cases p v path i at h =
      let (f, e, same, d) = get_elem-index_of p.files path i at in
      let shown : v path ≡ staged_entry f = sym (h.shown path) ∙ d (entry (fs.open_read s path)) in
      (
        f,
        e,
        elim (Bool-cases f.exists_) [
          | inl x ↦
              inl (rw (e, staged_exists) x, shown ∙ rw (e, x, staged_content, staged_entry) refl)
          | inr x ↦ inr (rw (e, staged_exists) x, shown ∙ rw (x, staged_entry) refl)
        ],
      )

  stage_add-Implements :
      (p : Plan) (v : View) (op : Operation) (i : ℕ)
      → index_of p.files (fs.resolve op.path) ≡ some i
      → Shows fs s p v
      → Implements (stage_add fs s p i op) (spec_add fs.resolve v op)
  unfolding stage_add spec_add create staged_entry Implements
  stage_add-Implements p v op i at h =
      let path = fs.resolve op.path in
      let (f, e, c) = staged-cases p v path i at h in
      elim c [
        | inl (x, d) ↦ rw (x, d, stage_add, spec_add) refl
        | inr (x, d) ↦
            rw (x, d, stage_add, spec_add)
              (Shows-set_file fs s p v path i f (create (added_bytes op)) (λ f. refl) (λ f. refl) at
                e h)
      ]

  stage_delete-Implements :
      (p : Plan) (v : View) (op : Operation) (i : ℕ)
      → index_of p.files (fs.resolve op.path) ≡ some i
      → Shows fs s p v
      → Implements (stage_delete fs s p i op) (spec_delete fs.resolve v op)
  unfolding stage_delete spec_delete drop_file staged_entry Implements
  stage_delete-Implements p v op i at h =
      let path = fs.resolve op.path in
      let (f, e, c) = staged-cases p v path i at h in
      elim c [
        | inr (x, d) ↦ rw (x, d, stage_delete, spec_delete) refl
        | inl (x, d) ↦
            rw (x, d, stage_delete, spec_delete)
              (Shows-set_file fs s p v path i f drop_file (λ f. refl) (λ f. refl) at e h)
      ]

  moved :
      (q : Plan) (v : View) (op : Operation) (i j : ℕ) (output : Bytes)
      → index_of q.files (fs.resolve op.path) ≡ some i
      → index_of q.files (fs.resolve op.move_to) ≡ some j
      → Shows fs s q v
      → Implements
          (if staged_exists q j
            then err (cannot_move op.path)
            else ok (set_file (set_file q i drop_file) j (move_onto output (staged_mode q i))))
          (spec_move fs.resolve v op output)
  unfolding spec_move drop_file move_onto staged_entry Implements set_file
  moved q v op i j output at to h =
      let path = fs.resolve op.path in
      let target = fs.resolve op.move_to in
      let (f, e, c) = staged-cases q v path i at h in
      let (f2, e2, c2) = staged-cases q v target j to h in
      let h2 = Shows-set_file fs s q v path i f drop_file (λ f. refl) (λ f. refl) at e h in
      let p2 = set_file q i drop_file in
      let to2 : index_of p2.files target ≡ some j =
        index_of-update_at q.files i drop_file target (λ f. refl) ∙ to in
      let (f3, e3, same3, d3) = get_elem-index_of p2.files target j to2 in
      let g = move_onto output (staged_mode q i) in
      elim c2 [
        | inl (x, d) ↦ rw (x, d, spec_move) refl
        | inr (x, d) ↦
            rw (x, d, spec_move)
              (Shows-set_file fs s p2 (put v path nothing) target j f3 g (λ f. refl) (λ f. refl) to2
                e3 h2)
      ]

  -- The second path of a move is staged after the first, and the first keeps its index.
  stage_move-Implements :
      (p : Plan) (v : View) (op : Operation) (i : ℕ) (output : Bytes)
      → index_of p.files (fs.resolve op.path) ≡ some i
      → Shows fs s p v
      → Implements (stage_move fs s p i op output) (spec_move fs.resolve v op output)
  unfolding stage_move spec_move Implements FileStaged and_then
  stage_move-Implements p v op i output at h =
      let path = fs.resolve op.path in
      let to = fs.resolve op.move_to in
      let h2 = plan_file-FileStaged fs s p v op.move_to h in
      elim (Result-cases (plan_file fs s p op.move_to)) [
        | inr (e, r) ↦
            let h3 : FileStaged fs s p v op.move_to (err e) =
              subst (FileStaged fs s p v op.move_to) r h2 in
            rw (r, h3.0, stage_move, spec_move, and_then) h3.1
        | inl ((q, j), r) ↦
            let h3 : FileStaged fs s p v op.move_to (ok (q, j)) =
              subst (FileStaged fs s p v op.move_to) r h2 in
            rw (r, stage_move, and_then) (moved q v op i j output (h3.2 path i at) h3.1 h3.0)
      ]

  exists-of :
      (p : Plan) (i : ℕ) (f : Staged)
      → staged_exists p i ≡ true
      → get_elem? p.files i ≡ some f
      → f.exists_ ≡ true
  unfolding staged_exists
  exists-of p i f x e = ground (arith, x, e)

  stage_update-Implements :
      (p : Plan) (v : View) (op : Operation) (i : ℕ)
      → index_of p.files (fs.resolve op.path) ≡ some i
      → Shows fs s p v
      → Implements (stage_update fs s p i op) (spec_update fs.resolve v op)
  unfolding stage_update spec_update rewrite_file staged_entry Implements and_then staged_content
  stage_update-Implements p v op i at h =
      let path = fs.resolve op.path in
      let (f, e, c) = staged-cases p v path i at h in
      elim c [
        | inr (x, d) ↦ rw (x, d, stage_update, spec_update) refl
        | inl (x, d) ↦
            rw (x, d, stage_update, spec_update)
              (elim (Result-cases (apply_hunks (staged_content p i) op.hunks)) [
                | inr (b, r) ↦ rw (r, and_then) refl
                | inl (output, r) ↦
                    rw (r, and_then)
                      (elim (Bool-cases (is_empty op.move_to)) [
                        | inr m ↦ rw m (stage_move-Implements p v op i output at h)
                        | inl m ↦ rw m (
                            subst
                              (λ w.
                                Shows fs s (set_file p i (rewrite_file output))
                                  (put v path (if w then file output else nothing)))
                              (exists-of p i f x e)
                              (Shows-set_file fs s p v path i f (rewrite_file output) (λ f. refl)
                                (λ f. refl) at e h))
                      ])
              ])
      ]

  staged_kind :
      (p : Plan) (v : View) (op : Operation) (i : ℕ)
      → index_of p.files (fs.resolve op.path) ≡ some i
      → Shows fs s p v
      → Implements
          (elim op.kind [
            | add ↦ stage_add fs s p i op
            | delete ↦ stage_delete fs s p i op
            | update ↦ stage_update fs s p i op
          ])
          (spec_operation fs.resolve v op)
  unfolding spec_operation
  staged_kind p v op i at h = elim (Kind-cases op.kind) [
    | inl k ↦ rw (k, spec_operation) (stage_add-Implements p v op i at h)
    | inr (inl k) ↦ rw (k, spec_operation) (stage_delete-Implements p v op i at h)
    | inr (inr k) ↦ rw (k, spec_operation) (stage_update-Implements p v op i at h)
  ]

  unread :
      (v : View) (op : Operation)
      → v (fs.resolve op.path) ≡ broken
      → spec_operation fs.resolve v op ≡ err (unreadable op.path)
  unfolding spec_operation spec_add spec_delete spec_update
  unread v op b = elim (Kind-cases op.kind) [
    | inl k ↦ rw (k, b, spec_operation, spec_add) refl
    | inr (inl k) ↦ rw (k, b, spec_operation, spec_delete) refl
    | inr (inr k) ↦ rw (k, b, spec_operation, spec_update) refl
  ]

  pub stage_operation-Implements :
      (p : Plan) (v : View) (op : Operation)
      → Shows fs s p v
      → Implements (stage_operation fs s p op) (spec_operation fs.resolve v op)
  unfolding stage_operation Implements FileStaged and_then
  stage_operation-Implements p v op h =
      let h2 = plan_file-FileStaged fs s p v op.path h in
      elim (Result-cases (plan_file fs s p op.path)) [
        | inr (e, r) ↦
            let h3 : FileStaged fs s p v op.path (err e) =
              subst (FileStaged fs s p v op.path) r h2 in
            rw (r, stage_operation, and_then, unread v op h3.0) h3.1
        | inl ((q, j), r) ↦
            let h3 : FileStaged fs s p v op.path (ok (q, j)) =
              subst (FileStaged fs s p v op.path) r h2 in
            rw (r, stage_operation, and_then) (staged_kind q v op j h3.1 h3.0)
      ]

  pub stage_from-Implements :
      (p : Plan) (v : View) (ops : List Operation)
      → Shows fs s p v
      → Implements (stage_from fs s p ops) (spec fs.resolve v ops)
  unfolding stage_from spec Implements and_then
  stage_from-Implements p v [] h = h
  stage_from-Implements p v (op ∷ ops) h =
      let h2 = stage_operation-Implements p v op h in
      elim (Result-cases (stage_operation fs s p op)) [
        | inr (e, r) ↦ elim (Result-cases (spec_operation fs.resolve v op)) [
          | inr (d, t) ↦ rw (r, t, and_then) (subst2 Implements r t h2)
          | inl (w, t) ↦ absurd (subst2 Implements r t h2)
        ]
        | inl (q, r) ↦ elim (Result-cases (spec_operation fs.resolve v op)) [
          | inr (d, t) ↦ absurd (subst2 Implements r t h2)
          | inl (w, t) ↦
              rw (r, t, and_then) (stage_from-Implements q w ops (subst2 Implements r t h2))
        ]
      ]

-- Staging a patch against a disk has the outcome that the meaning of its operations has, laid over
-- what the disk holds: where the operations make sense one after the other, the plan shows every
-- path as they leave it, and no path is staged twice; where one does not, the failure is the same.
pub stage-Implements {ℓ} :
    {S : Type ℓ} (fs : Filesystem S) (s : S) (ops : List Operation)
    → Implements fs s (stage fs s ops) (spec fs.resolve (λ q. entry (fs.open_read s q)) ops)
unfolding stage IsIndexed index_of get overlay WellStaged
stage-Implements fs s ops =
    stage_from-Implements fs s (record { files = []; indices = [] }) (λ q. entry (fs.open_read s q))
      ops (record { indexed = λ q. refl; well = tt; shown = λ q. refl })
