-- ===== src/Security/Verdict.antt =====
-- When the verdict of src/agent/security.rs is `allow`, and when it is `deny`.
use stavlos.Common.{◌≡◌, ◌≢◌, ◌⊎◌, ◌↔◌, true, false, Text, text_eq, text_eq_iff, arith}
use stavlos.Policy.{allow, deny}
use stavlos.Security.{Facts, mode_auto, mode_yolo, judge}

auto_not_yolo : (mode : Text) → text_eq mode mode_auto ≡ true → text_eq mode mode_yolo ≡ false
auto_not_yolo mode h = ground (arith, text_eq_iff mode mode_auto, text_eq_iff mode mode_yolo)

-- A call is allowed without a prompt exactly if nothing hidden, unsandboxed or controlling is
-- involved, no rule denies it, and it stays inside with a grant or a rule that allows it as one
-- simple command, or the mode is yolo, or the mode is auto and it stays inside and local.
pub judge_allow :
    (f : Facts)
    → (judge f ≡ allow) ↔ (
        (f.hidden ≡ false)
        × (f.bare ≡ false)
        × (f.control ≡ false)
        × (f.ruled ≢ deny)
        × (((f.outside ≡ false)
              × ((f.permitted ≡ true) ⊎ ((f.ruled ≡ allow) × (f.compound ≡ false))))
            ⊎ (f.mode ≡ mode_yolo)
            ⊎ ((f.mode ≡ mode_auto) × (f.outside ≡ false) × (f.egress ≡ false))))
unfolding judge
judge_allow f =
    ground (arith, text_eq_iff f.mode mode_auto, text_eq_iff f.mode mode_yolo, auto_not_yolo f.mode)

-- A call is denied outright exactly if it touches something hidden, a rule denies it, or it leaves
-- the channel's directories in auto mode.
pub judge_deny :
    (f : Facts)
    → (judge f ≡ deny)
      ↔ ((f.hidden ≡ true) ⊎ (f.ruled ≡ deny) ⊎ ((f.mode ≡ mode_auto) × (f.outside ≡ true)))
unfolding judge
judge_deny f =
    ground (arith, text_eq_iff f.mode mode_auto, text_eq_iff f.mode mode_yolo, auto_not_yolo f.mode)
