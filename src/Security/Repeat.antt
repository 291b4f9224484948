-- ===== src/Security/Repeat.antt =====
-- `RepeatCall` of src/agent/security.rs: the third equal call in a row asks the human.
use stavlos.Common.{
  ℕ, ◌+◌, ltb, if◌then◌else◌, Bool, true, false, not, ◌&&◌, ◌||◌, [], Text, text_eq, text_eq_iff,
  text_eq_refl, arith, ◌≡◌, ◌≢◌, ◌⊎◌,
}
use stavlos.Security.{mode_yolo, call_key}

pub record RepeatCall : Type 0 where
  pub key : Text
  pub count : ℕ

-- `RepeatCall::default()`, and what `reset` leaves
abbrev pub no_call : RepeatCall
no_call = record { key = []; count = 0 }

-- The first `if` of `repeated`
unfoldable pub counted : RepeatCall → Text → RepeatCall
counted r key =
    if text_eq key r.key then record r { count = r.count + 1 } else record { key = key; count = 1 }

unfoldable pub repeated : RepeatCall → Text → Text → Text → RepeatCall × Bool
unfolding counted
repeated r name input mode =
    let c = counted r (call_key name input) in
    if ltb c.count 3 || text_eq mode mode_yolo then (c, false) else (record c { count = 0 }, true)

-- Outside yolo mode, of three equal calls in a row at least one asks; after a different call it is
-- the third, and the two calls before it run.
pub repeated_third :
    (r : RepeatCall) (name input mode : Text)
    → mode ≢ mode_yolo
    → let one = repeated r name input mode in
      let two = repeated one.0 name input mode in
      let three = repeated two.0 name input mode in
      ((one.1 || (two.1 || three.1)) ≡ true)
      × ((text_eq (call_key name input) r.key || (not one.1 && (not two.1 && three.1))) ≡ true)
unfolding repeated
repeated_third r name input mode h =
    ground (arith, text_eq_iff mode mode_yolo, text_eq_refl (call_key name input))

-- In yolo mode no call asks, and a call that differs from the one before it never does.
pub repeated_runs :
    (r : RepeatCall) (name input mode : Text)
    → (mode ≡ mode_yolo) ⊎ (text_eq (call_key name input) r.key ≡ false)
    → (repeated r name input mode).1 ≡ false
unfolding repeated
repeated_runs r name input mode h = ground (arith, text_eq_iff mode mode_yolo)
