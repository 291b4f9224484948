-- ===== src/Shell/Refusal.antt =====
-- What `words` of src/shellcmd.rs refuses.
use mathlib.Core.Path.{subst}
use stavlos.Common.{
  ℕ, ◌≡◌, ◌∙◌, refl, Bool, true, false, not, Option, none, [], ◌∷◌, ◌++◌, Text, codes, all, arith,
  &&-eq-true,
}
use stavlos.Common.Str.{has_char}
use stavlos.Shell.Words.{
  Scan, Action, bare, refuse, one, two, step, scan, start, words, simple, operator,
}
use stavlos.Shell.Grants.{first_of, scan_one}

-- Neither a quotation mark nor a backslash.
unfoldable pub unquoted : ℕ → Bool
unquoted c = not (has_char (codes "'\"\\") c)

abbrev StaysBare : Action → Type 0
StaysBare refuse = Unit
StaysBare (one s) = s.quote ≡ bare
StaysBare (two s) = ⊥

step-unquoted :
    (s : Scan) (c : ℕ) (next : Option ℕ)
    → s.quote ≡ bare
    → unquoted c ≡ true
    → StaysBare (step s c next)
unfolding step unquoted
step-unquoted s c next b h = ground arith

step-operator :
    (s : Scan) (c : ℕ) (next : Option ℕ)
    → s.quote ≡ bare
    → operator c ≡ true
    → step s c next ≡ refuse
unfolding step operator
step-operator s c next b h = ground arith

scan_refuses :
    (s : Scan) (c : ℕ) (rest : Text) → step s c (first_of rest) ≡ refuse → scan s (c ∷ rest) ≡ none
unfolding scan
scan_refuses s c [] h = rw (h, scan)
scan_refuses s c (d ∷ rest) h = rw (h, scan)

scan_continues :
    (s : Scan) (x : ℕ) (rest : Text)
    → s.quote ≡ bare
    → unquoted x ≡ true
    → ((t : Scan) → t.quote ≡ bare → scan t rest ≡ none)
    → scan s (x ∷ rest) ≡ none
scan_continues s x rest q h later = go (step s x (first_of rest)) refl
  where
    go : (act : Action) → step s x (first_of rest) ≡ act → scan s (x ∷ rest) ≡ none
    go refuse e = scan_refuses s x rest e
    go (one t) e =
        scan_one s t x rest e ∙ later t (subst StaysBare e (step-unquoted s x (first_of rest) q h))
    go (two t) e = absurd (subst StaysBare e (step-unquoted s x (first_of rest) q h))

scan-operator :
    (s : Scan) (a b : Text) (c : ℕ)
    → s.quote ≡ bare
    → all unquoted a ≡ true
    → operator c ≡ true
    → scan s (a ++ (c ∷ b)) ≡ none
scan-operator s [] b c q h o = scan_refuses s c b (step-operator s c (first_of b) q o)
scan-operator s (x ∷ a) b c q h o =
    let (plain, more) = &&-eq-true (unquoted x) (all unquoted a) h in
    scan_continues s x (a ++ (c ∷ b)) q plain (λ t e. scan-operator t a b c e more o)

-- A line with an operator that no quotation mark and no backslash stands before is not read as one
-- command, whatever follows the operator: `words` refuses it, and it is not `simple`.
pub words-operator :
    (a b : Text) (c : ℕ)
    → all unquoted a ≡ true
    → operator c ≡ true
    → (words (a ++ (c ∷ b)) ≡ none) × (simple (a ++ (c ∷ b)) ≡ false)
unfolding words simple
words-operator a b c h o =
    let refused = scan-operator start a b c refl h o in (refused, rw (refused, simple))
