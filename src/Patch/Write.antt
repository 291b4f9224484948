-- ===== src/Patch/Write.antt =====
-- The staged files written to disk (`Plan::write` and `run` of src/toolpatch.rs). A failed write
-- puts the files that were written before it back, in reverse order; what that answers is ignored.
use stavlos.Common.{
  Text, text_eq, is_empty, Bool, false, not, ◌||◌, Option, none, some, List, [], ◌∷◌, if◌then◌else◌,
}
use stavlos.Patch.Types.{
  Operation, Result, ok, err, Failure, Staged, not_written, not_removed, no_sections,
}
use stavlos.Patch.Parse.{parse}
use stavlos.Patch.Disk.{Filesystem}
use stavlos.Patch.Stage.{stage}

-- `file.previous.as_ref() == Some(&file.content)`
unfoldable pub unchanged : Staged → Bool
unchanged f = elim f.previous [ none ↦ false | some bytes ↦ text_eq bytes f.content ]

unfoldable pub is_removed : Staged → Bool
is_removed f = elim f.previous [ none ↦ false | some bytes ↦ not f.exists_ ]

module _ {ℓ} {S : Type ℓ} (fs : Filesystem S) where
  unfoldable pub put_back : S → Staged → S
  put_back s f = elim f.previous [
    | some bytes ↦ (fs.write_atomic s f.path bytes f.mode).1
    | none ↦ (fs.remove s f.path).1
  ]

  -- `done.into_iter().rev()`: `done` has the latest file first.
  unfoldable pub roll_back : S → List Staged → S
  roll_back s [] = s
  roll_back s (f ∷ done) = roll_back (put_back s f) done

  -- `none` stands for `Ok(())`.
  unfoldable pub write_files : S → List Staged → List Staged → Option Failure × S
  write_files s done [] = (none, s)
  write_files s done (f ∷ files) =
      let skip = write_files s done files in
      let written = fs.write_atomic s f.path f.content f.mode in
      let next = write_files written.1 (f ∷ done) files in
      if not f.exists_ || unchanged f
      then skip
      else if written.0
      then next
      else (some (not_written f.path), roll_back written.1 done)

  unfoldable pub remove_files : S → List Staged → Option Failure × S
  remove_files s [] = (none, s)
  remove_files s (f ∷ files) =
      let skip = remove_files s files in
      let removed = fs.remove s f.path in
      let next = remove_files removed.1 files in
      if is_removed f
      then (if removed.0 then next else (some (not_removed f.path), removed.1))
      else skip

  unfoldable pub write : S → List Staged → Option Failure × S
  write s files =
      let written = write_files s [] files in
      elim written.0 [ some e ↦ (some e, written.1) | none ↦ remove_files written.1 files ]

  -- `run`, with the answer's summary left to its operations
  unfoldable pub run : S → Text → Result (List Operation) × S
  run s text = elim (parse text) [
    | err e ↦ (err e, s)
    | ok ops ↦ if is_empty ops then (err no_sections, s) else elim (stage fs s ops) [
      | err e ↦ (err e, s)
      | ok plan ↦
          (elim (write s plan.files).0 [ some e ↦ err e | none ↦ ok ops ], (write s plan.files).1)
    ]
  ]
