-- ===== src/Patch/Identity.antt =====
-- Patches that change nothing (`apply_hunks` of src/toolpatch.rs), and lines split and joined.
use mathlib.Core.List.{append_assoc, append-nil}
use stavlos.Common.{
  ℕ, suc, true, false, List, [], ◌∷◌, ◌++◌, all, ◌==◌, ==_iff, ◌≡◌, refl, sym, ap, ◌∙◌, arith, inl,
  inr, Bool-cases,
}
use stavlos.Common.Bytes.{Bytes, split_from_sep, split_on, join_on}
use stavlos.Patch.Types.{Hunk, ok, and_then}
use stavlos.Patch.Lines.{
  apply_hunk, apply_each, apply_hunks, has_crlf, ends_with_newline, strip_newline, to_lines,
  from_lines,
}
use stavlos.Patch.Shows.{Result-cases}
use stavlos.Patch.Hunks.{context_only, apply_hunk-context, ok_inj}

apply_each-context :
    (index : ℕ) (lines : List Bytes) (from : ℕ) (hs : List Hunk) (r : List Bytes)
    → all (λ h. context_only h.lines) hs ≡ true
    → apply_each index lines from hs ≡ ok r
    → r ≡ lines
unfolding apply_each and_then
apply_each-context index lines from [] r c = λ k. sym (ok_inj k)
apply_each-context index lines from (h ∷ hs) r c =
    elim (Result-cases (apply_hunk index lines from h)) [
      | inr (e, a) ↦ rw a (λ k. ground (arith, k))
      | inl (q, a) ↦ rw a (λ k.
          apply_each-context (suc index) q.0 q.1 hs r (ground (arith, c)) k
          ∙ apply_hunk-context index lines from h q (ground (arith, c)) a)
    ]

split-nonempty :
    (d : ℕ) (part s : Bytes) → (w : Bytes) × (ws : List Bytes) × (split_from_sep d part s ≡ w ∷ ws)
unfolding split_from_sep
split-nonempty d part [] = (part, [], refl)
split-nonempty d part (c ∷ s) = elim (Bool-cases (c == d)) [
  | inl e ↦ (part, split_from_sep d [] s, rw e refl)
  | inr e ↦ rw e (split-nonempty d (part ++ (c ∷ [])) s)
]

-- Joining what was split gives it back.
pub join-split : (d : ℕ) (part s : Bytes) → join_on d (split_from_sep d part s) ≡ part ++ s
unfolding split_from_sep join_on
join-split d part [] = sym (append-nil part)
join-split d part (c ∷ s) = elim (Bool-cases (c == d)) [
  | inl e ↦
      let (w, ws, k) = split-nonempty d [] s in
      rw (e, k)
        (ap (λ r. part ++ (d ∷ r)) (sym (ap (join_on d) k) ∙ join-split d [] s)
          ∙ ap (λ x. part ++ (x ∷ s)) (sym ((==_iff c d).0 e)))
  | inr e ↦ rw e (join-split d (part ++ (c ∷ [])) s ∙ append_assoc part (c ∷ []) s)
]

strip-newline : (s : Bytes) → ends_with_newline s ≡ true → strip_newline s ++ (10 ∷ []) ≡ s
unfolding strip_newline ends_with_newline
strip-newline [] h = ground (arith, h)
strip-newline (b ∷ []) h = ground (arith, h)
strip-newline (b ∷ c ∷ s) h = ap (λ r. b ∷ r) (strip-newline (c ∷ s) h)

from_lines-to_lines : (s : Bytes) → ends_with_newline s ≡ true → from_lines true (to_lines s) ≡ s
unfolding from_lines to_lines split_on ends_with_newline
from_lines-to_lines [] h = ground (arith, h)
from_lines-to_lines (b ∷ s) h =
    ap (λ r. r ++ (10 ∷ [])) (join-split 10 [] (strip_newline (b ∷ s))) ∙ strip-newline (b ∷ s) h

-- A patch whose hunks are all context leaves a file as it is, byte for byte, however the search
-- found the lines, when it applies at all; the file ends with a newline and has no carriage return
-- before one.
pub apply_hunks-context :
    (s : Bytes) (hs : List Hunk) (r : Bytes)
    → all (λ h. context_only h.lines) hs ≡ true
    → ends_with_newline s ≡ true
    → has_crlf s ≡ false
    → apply_hunks s hs ≡ ok r
    → r ≡ s
unfolding apply_hunks and_then
apply_hunks-context s hs r c n x = elim (Result-cases (apply_each 1 (to_lines s) 0 hs)) [
  | inr (e, a) ↦ rw (x, apply_hunks, a, and_then) (λ k. ground (arith, k))
  | inl (lines, a) ↦
      rw (x, apply_hunks, a, and_then, n)
        (λ k.
          sym (ok_inj k)
          ∙ (ap (from_lines true) (apply_each-context 1 (to_lines s) 0 hs lines c a)
              ∙ from_lines-to_lines s n))
]
