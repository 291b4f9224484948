-- ===== src/Patch/Disk.antt =====
-- The file system that a patch works on, as an interface. src/toolfs.rs implements it on the
-- operating system: `write_atomic` writes a temporary file and renames it, so that a call that
-- fails leaves the file as it was, and `remove` either removes the file or leaves it. Directories
-- that a write creates hold no content of their own. Two paths stand for two files: where a symbolic
-- link makes them one file, the laws do not hold, and the theorems on a patch say nothing.
use stavlos.Common.{ℕ, ◌≤◌, ◌<◌, ◌≡◌, ◌≢◌, Text, Bool, true, false, Option, none, some}
use stavlos.Common.Bytes.{Bytes}
use stavlos.Patch.Types.{Read, found, missing, failed}

-- What a file holds, for those who do not look at the permission bits.
unfoldable pub content : Read → Option Bytes
content (found bytes mode) = some bytes
content missing = none
content failed = none

-- `S` is the state of the disk. A write or a removal answers whether it succeeded. `faults` counts
-- the calls that are still going to fail although their file is there to be changed; no operation
-- of the program can see it.
pub record Filesystem {ℓ} (S : Type ℓ) : Type ℓ where
  pub resolve : Text → Text
  pub open_read : S → Text → Read
  pub write_atomic : S → Text → Bytes → ℕ → Bool × S
  pub remove : S → Text → Bool × S
  pub faults : S → ℕ
  pub read-write :
      (s : S) (p : Text) (b : Bytes) (m : ℕ)
      → (write_atomic s p b m).0 ≡ true
      → content (open_read (write_atomic s p b m).1 p) ≡ some b
  pub read-write_other :
      (s : S) (p : Text) (b : Bytes) (m : ℕ) (q : Text)
      → q ≢ p
      → content (open_read (write_atomic s p b m).1 q) ≡ content (open_read s q)
  pub read-write_failed :
      (s : S) (p : Text) (b : Bytes) (m : ℕ) (q : Text)
      → (write_atomic s p b m).0 ≡ false
      → content (open_read (write_atomic s p b m).1 q) ≡ content (open_read s q)
  pub read-remove :
      (s : S) (p : Text) → (remove s p).0 ≡ true → content (open_read (remove s p).1 p) ≡ none
  pub read-remove_other :
      (s : S) (p q : Text) → q ≢ p → content (open_read (remove s p).1 q) ≡ content (open_read s q)
  pub read-remove_failed :
      (s : S) (p q : Text)
      → (remove s p).0 ≡ false
      → content (open_read (remove s p).1 q) ≡ content (open_read s q)
  pub faults-write :
      (s : S) (p : Text) (b : Bytes) (m : ℕ) → faults (write_atomic s p b m).1 ≤ faults s
  pub faults-write_failed :
      (s : S) (p : Text) (b : Bytes) (m : ℕ)
      → (write_atomic s p b m).0 ≡ false
      → faults (write_atomic s p b m).1 < faults s
  pub faults-remove : (s : S) (p : Text) → faults (remove s p).1 ≤ faults s
  pub faults-remove_failed :
      (s : S) (p : Text) (b : Bytes)
      → content (open_read s p) ≡ some b
      → (remove s p).0 ≡ false
      → faults (remove s p).1 < faults s
