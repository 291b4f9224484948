-- ===== src/Permission/Types.antt =====
-- What the admission of src/agent/permission.rs reads, and its decision.
use stavlos.Common.{Bool, true, false, Option, none, some, List, [], Text}
use stavlos.Policy.{Verb, Subject, Set, Layered}
use stavlos.Security.{Permits}

-- `sandbox::Level`
pub data Level : Type 0 where
  no_sandbox landlock full : Level

abbrev pub is_full : Level → Bool
is_full full = true
is_full _ = false

-- A tool call with its input's fields and the subject that `tools::subject` reads from it.
pub record Call : Type 0 where
  pub name : Text
  pub fields : List (Text × Option Text)
  pub subject : Subject

-- The parts of `Scope` that the decision reads.
pub record Scope : Type 0 where
  pub directory : Text
  pub directories : List Text
  pub parent : Text
  pub mode : Text
  pub permits : Permits

-- The role, the configuration and the machine.
pub record Setting : Type 0 where
  pub read_only : Bool
  pub overlay : Option Set
  pub policy : Layered
  pub hosts : List Text
  pub sandbox_enabled : Bool
  pub level : Level

-- `control_file`, `outside_directory` and `hidden_from`, as they answer for the call.
pub record Paths : Type 0 where
  pub control : Option Text
  pub outside : Option Text
  pub hidden : Option Text

pub record Decision : Type 0 where
  pub subject : Subject
  pub argument : Text
  pub verb : Verb
  pub boundary : Text
  pub control : Text
  pub egress : Bool
  pub bare : Bool
  pub bare_why : Text
  pub why : Text

abbrev pub or_empty : Option Text → Text
or_empty none = []
or_empty (some t) = t

abbrev pub is_some {ℓ} : {A : Type ℓ} → Option A → Bool
is_some none = false
is_some (some a) = true
