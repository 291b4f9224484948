-- ===== src/Patch/Stage.antt =====
-- A patch's operations staged in memory (`Plan::file` and `Plan::stage` of src/toolpatch.rs).
use stavlos.Common.{
  ℕ, zero, suc, Text, is_empty, Bool, true, false, Option, none, some, List, [], ◌∷◌, ◌++◌, length,
  get_elem?, if◌then◌else◌,
}
use stavlos.Common.Map.{get, insert}
use stavlos.Common.Bytes.{Bytes, as_bytes, join_on}
use stavlos.Patch.Types.{
  add, delete, update, Operation, Result, ok, err, and_then, Staged, Plan, found, missing, failed,
  unreadable, already_exists, no_such_file, cannot_move,
}
use stavlos.Patch.Lines.{apply_hunks}
use stavlos.Patch.Disk.{Filesystem}

-- A write through `plan.files[index]`
unfoldable pub update_at : List Staged → ℕ → (Staged → Staged) → List Staged
update_at [] i g = []
update_at (f ∷ fs) zero g = g f ∷ fs
update_at (f ∷ fs) (suc i) g = f ∷ update_at fs i g

unfoldable pub set_file : Plan → ℕ → (Staged → Staged) → Plan
set_file p i g = record p { files = update_at p.files i g }

-- A file as it is first staged: its bytes and bits, or 0o644 for one that is not there
unfoldable pub staged_new : Text → Option Bytes → ℕ → Staged
staged_new path none mode = record {
  path = path;
  exists_ = false;
  content = [];
  mode = mode;
  previous = none;
}
staged_new path (some bytes) mode = record {
  path = path;
  exists_ = true;
  content = bytes;
  mode = mode;
  previous = some bytes;
}

unfoldable pub push_file : Plan → Text → Staged → Plan × ℕ
push_file p path f = (
  record { files = p.files ++ (f ∷ []); indices = insert p.indices path (length p.files) },
  length p.files,
)

unfoldable pub staged_exists : Plan → ℕ → Bool
staged_exists p i = elim (get_elem? p.files i) [ none ↦ false | some f ↦ f.exists_ ]

unfoldable pub staged_content : Plan → ℕ → Bytes
staged_content p i = elim (get_elem? p.files i) [ none ↦ [] | some f ↦ f.content ]

unfoldable pub staged_mode : Plan → ℕ → ℕ
staged_mode p i = elim (get_elem? p.files i) [ none ↦ 0 | some f ↦ f.mode ]

unfoldable pub create : Bytes → Staged → Staged
create bytes f = record f { exists_ = true; content = bytes }

unfoldable pub drop_file : Staged → Staged
drop_file f = record f { exists_ = false }

unfoldable pub rewrite_file : Bytes → Staged → Staged
rewrite_file bytes f = record f { content = bytes }

unfoldable pub move_onto : Bytes → ℕ → Staged → Staged
move_onto bytes mode f = record f { exists_ = true; content = bytes; mode = mode }

-- `op.added.join("\n") + "\n"`
unfoldable pub added_bytes : Operation → Bytes
added_bytes op = as_bytes (join_on 10 op.added ++ (10 ∷ []))

module _ {ℓ} {S : Type ℓ} (fs : Filesystem S) (s : S) where
  -- `Plan::file`: the index of a file, which is read when it is first named.
  unfoldable pub plan_file : Plan → Text → Result (Plan × ℕ)
  plan_file p shown =
      let path = fs.resolve shown in
      elim (get p.indices path) [
        | some i ↦ ok (p, i)
        | none ↦ elim (fs.open_read s path) [
          | found bytes mode ↦ ok (push_file p path (staged_new path (some bytes) mode))
          | missing ↦ ok (push_file p path (staged_new path none 0o644))
          | failed ↦ err (unreadable shown)
        ]
      ]

  unfoldable pub stage_add : Plan → ℕ → Operation → Result Plan
  stage_add p i op =
      if staged_exists p i
      then err (already_exists op.path)
      else ok (set_file p i (create (added_bytes op)))

  unfoldable pub stage_delete : Plan → ℕ → Operation → Result Plan
  stage_delete p i op =
      if staged_exists p i then ok (set_file p i drop_file) else err (no_such_file op.path)

  unfoldable pub stage_move : Plan → ℕ → Operation → Bytes → Result Plan
  stage_move p i op output = and_then (plan_file p op.move_to) (λ r.
      if staged_exists r.0 r.1
      then err (cannot_move op.path)
      else ok (set_file (set_file r.0 i drop_file) r.1 (move_onto output (staged_mode r.0 i))))

  unfoldable pub stage_update : Plan → ℕ → Operation → Result Plan
  stage_update p i op =
      if staged_exists p i
      then and_then (apply_hunks (staged_content p i) op.hunks) (λ output.
        if is_empty op.move_to
        then ok (set_file p i (rewrite_file output))
        else stage_move p i op output)
      else err (no_such_file op.path)

  unfoldable pub stage_operation : Plan → Operation → Result Plan
  stage_operation p op = and_then (plan_file p op.path) (λ r. elim op.kind [
    | add ↦ stage_add r.0 r.1 op
    | delete ↦ stage_delete r.0 r.1 op
    | update ↦ stage_update r.0 r.1 op
  ])

  unfoldable pub stage_from : Plan → List Operation → Result Plan
  stage_from p [] = ok p
  stage_from p (op ∷ ops) = and_then (stage_operation p op) (λ q. stage_from q ops)

  unfoldable pub stage : List Operation → Result Plan
  stage ops = stage_from (record { files = []; indices = [] }) ops
