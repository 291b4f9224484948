-- ===== src/Patch/Types.antt =====
-- The data of src/toolpatch.rs: operations, hunks, staged files, and what a step can answer.
use stavlos.Common.{ℕ, Text, Bool, Option, List}
use stavlos.Common.Map.{Map}
use stavlos.Common.Bytes.{Bytes}

-- `op.kind`: the parser only makes these three of its strings.
pub data Kind : Type 0 where
  add delete update : Kind

-- A hunk's lines carry their mark: a blank, `-` or `+`.
pub record Hunk : Type 0 where
  pub anchor : Text
  pub lines : List (ℕ × Text)
  pub eof : Bool

pub record Operation : Type 0 where
  pub kind : Kind
  pub path : Text
  pub move_to : Text
  pub added : List Text
  pub hunks : List Hunk

-- What makes a patch fail; the texts of the messages are left out.
pub data Failure : Type 0 where
  missing_begin missing_end misplaced_move hunk_outside : Failure
  missing_plus unexpected_content unexpected_line names_no_file no_hunks no_sections : Failure
  anchor_not_found context_not_found : ℕ → Failure
  unreadable already_exists no_such_file cannot_move : Text → Failure
  not_written not_removed : Text → Failure

pub data Result {ℓ} (A : Type ℓ) : Type ℓ where
  ok : A → Result A
  err : Failure → Result A

-- `?`
unfoldable pub and_then {ℓ κ} : {A : Type ℓ} {B : Type κ} → Result A → (A → Result B) → Result B
and_then (ok a) f = f a
and_then (err e) f = err e

pub record Staged : Type 0 where
  pub path : Text
  pub exists_ : Bool
  pub content : Bytes
  pub mode : ℕ
  pub previous : Option Bytes

-- The plan without its file system, which the operations take as an argument.
pub record Plan : Type 0 where
  pub files : List Staged
  pub indices : Map ℕ

-- What a file system answers to a read: the bytes and the permission bits, `NotFound`, or another
-- error.
pub data Read : Type 0 where
  found : Bytes → ℕ → Read
  missing failed : Read
