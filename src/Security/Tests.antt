-- ===== src/Security/Tests.antt =====
-- The verdict and the permits at concrete inputs.
use stavlos.Common.{
  not, ◌&&◌, ◌||◌, ◌≡◌, refl, arith, true, false, [], ◌∷◌, codes, inl, inr, text_eq,
}
use stavlos.Common.Map.{get}
use stavlos.Policy.{allow, ask, deny, command}
use stavlos.Shell.Words.{words}
use stavlos.Shell.Prefix.{covers, covers_words, begins_with}
use stavlos.Security.{
  Facts, Web, Permits, PermitPayload, mode_ask, mode_auto, call_key, judge, covers_value,
  permits_cover, prefix_covers, url_host, host_allowed,
}
use stavlos.Security.Repeat.{no_call, repeated, repeated_third}
use stavlos.Security.Verdict.{judge_allow, judge_deny}

-- A URL parser that takes every text, and letters as they are.
abbrev any_web : Web
any_web = record { parses = λ u. true; lower = λ c. c }

host_of_url : url_host any_web (codes " https://user@crates.io:443/x") ≡ codes "crates.io"
unfolding url_host
host_of_url = refl

host_under_domain : host_allowed any_web (codes "docs.rs") (codes "*.rs") ≡ true
unfolding host_allowed text_eq
host_under_domain = refl

host_beside_domain : host_allowed any_web (codes "rs") (codes "*.rs") ≡ false
unfolding host_allowed text_eq
host_beside_domain = refl

abbrev granted_call : Facts
granted_call = record {
  bare = false;
  hidden = false;
  ruled = ask;
  compound = true;
  control = false;
  permitted = true;
  mode = mode_ask;
  egress = false;
  outside = false;
}

judge_allow_example : judge granted_call ≡ allow
judge_allow_example =
    (judge_allow granted_call).1 (refl, refl, refl, (λ e. ground arith), inl (refl, inl refl))

abbrev leaving_call : Facts
leaving_call = record {
  bare = false;
  hidden = false;
  ruled = allow;
  compound = false;
  control = false;
  permitted = true;
  mode = mode_auto;
  egress = false;
  outside = true;
}

judge_deny_example : judge leaving_call ≡ deny
judge_deny_example = (judge_deny leaving_call).1 (inr (inr (refl, refl)))

abbrev git_permits : Permits
git_permits = record { calls = []; prefixes = (codes "shell", codes "git status" ∷ []) ∷ [] }

abbrev curl_grant : PermitPayload
curl_grant = record { tool = codes "shell"; call = []; prefix = codes "curl" }

git_covered :
    permits_cover any_web git_permits
      (codes "shell")
      (record { kind = command; values = codes "git status -s" ∷ [] })
    ≡ true
unfolding permits_cover covers_value prefix_covers get covers words covers_words begins_with text_eq
git_covered = refl

repeated_third_example :
    let one = repeated no_call (codes "read") (codes "{}") mode_ask in
    let two = repeated one.0 (codes "read") (codes "{}") mode_ask in
    let three = repeated two.0 (codes "read") (codes "{}") mode_ask in
    ((one.1 || (two.1 || three.1)) ≡ true)
    × ((text_eq (call_key (codes "read") (codes "{}")) no_call.key
          || (not one.1 && (not two.1 && three.1)))
        ≡ true)
repeated_third_example =
    repeated_third no_call (codes "read") (codes "{}") mode_ask (λ e. ground arith)
