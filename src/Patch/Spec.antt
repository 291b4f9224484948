-- ===== src/Patch/Spec.antt =====
-- What a patch means: each operation changes a map from paths to files, and nothing else.
use stavlos.Common.{Text, text_eq, is_empty, Option, none, some, List, [], ◌∷◌, if◌then◌else◌}
use stavlos.Common.Bytes.{Bytes}
use stavlos.Patch.Types.{
  add, delete, update, Operation, Result, ok, err, and_then, Read, found, missing, failed,
  unreadable, already_exists, no_such_file, cannot_move,
}
use stavlos.Patch.Lines.{apply_hunks}
use stavlos.Patch.Stage.{added_bytes}

-- A path of the map: a file, nothing, or something that cannot be read as a file.
pub data Entry : Type 0 where
  file : Bytes → Entry
  nothing broken : Entry

abbrev pub View : Type 0
View = Text → Entry

unfoldable pub entry : Read → Entry
entry (found bytes mode) = file bytes
entry missing = nothing
entry failed = broken

unfoldable pub entry_content : Entry → Option Bytes
entry_content (file bytes) = some bytes
entry_content nothing = none
entry_content broken = none

unfoldable pub put : View → Text → Entry → View
put v p e q = if text_eq p q then e else v q

-- The rules of the four changes, by what the paths hold. `resolve` names the file that a path means.
module _ (resolve : Text → Text) where
  unfoldable pub spec_add : View → Operation → Result View
  spec_add v op = elim (v (resolve op.path)) [
    | nothing ↦ ok (put v (resolve op.path) (file (added_bytes op)))
    | file bytes ↦ err (already_exists op.path)
    | broken ↦ err (unreadable op.path)
  ]

  unfoldable pub spec_delete : View → Operation → Result View
  spec_delete v op = elim (v (resolve op.path)) [
    | nothing ↦ err (no_such_file op.path)
    | file bytes ↦ ok (put v (resolve op.path) nothing)
    | broken ↦ err (unreadable op.path)
  ]

  unfoldable pub spec_move : View → Operation → Bytes → Result View
  spec_move v op output = elim (v (resolve op.move_to)) [
    | nothing ↦ ok (put (put v (resolve op.path) nothing) (resolve op.move_to) (file output))
    | file bytes ↦ err (cannot_move op.path)
    | broken ↦ err (unreadable op.move_to)
  ]

  unfoldable pub spec_update : View → Operation → Result View
  spec_update v op = elim (v (resolve op.path)) [
    | nothing ↦ err (no_such_file op.path)
    | broken ↦ err (unreadable op.path)
    | file bytes ↦ and_then (apply_hunks bytes op.hunks) (λ output.
        if is_empty op.move_to
        then ok (put v (resolve op.path) (file output))
        else spec_move v op output)
  ]

  unfoldable pub spec_operation : View → Operation → Result View
  spec_operation v op = elim op.kind [
    | add ↦ spec_add v op
    | delete ↦ spec_delete v op
    | update ↦ spec_update v op
  ]

  unfoldable pub spec : View → List Operation → Result View
  spec v [] = ok v
  spec v (op ∷ ops) = and_then (spec_operation v op) (λ w. spec w ops)
