-- ===== src/Patch/Hunks.antt =====
-- What a hunk does to the lines of a file (`apply_hunks` of src/toolpatch.rs).

use mathlib.Core.List.{reverse}
use stavlos.Common.{
  ℕ, suc, ◌+◌, ◌-◌, ◌≤◌, Text, is_empty, empty-nil, Bool, true, false, List, [], ◌∷◌, ◌++◌, length,
  take, drop, all, ltb, ◌==◌, if◌then◌else◌, ◌≡◌, refl, sym, ap, ◌∙◌, arith, inl, inr, Bool-cases,
}
use stavlos.Common.Slices.{length-reverse, take-drop, take-eq, drop-eq, drop-drop, drop-get_elem}
use stavlos.Common.Bytes.{Bytes}
use stavlos.Patch.Types.{Hunk, ok, err, and_then}
use stavlos.Patch.Lines.{
  old_lines, new_lines, pop_blank, old_new, rebuild, splice, locate, apply_hunk,
}
use stavlos.Patch.Shows.{Result-cases}
use stavlos.Patch.Search.{locate-fits}

-- All lines of a hunk are context.
abbrev pub context_only : List (ℕ × Text) → Bool
context_only ls = all (λ l. l.0 == b' ') ls

old_lines-context : (ls : List (ℕ × Text)) → context_only ls ≡ true → old_lines ls ≡ new_lines ls
unfolding old_lines new_lines
old_lines-context [] h = refl
old_lines-context ((op, text) ∷ ls) h = ground (arith, h, old_lines-context ls)

length-old_lines : (ls : List (ℕ × Text)) → length (old_lines ls) ≤ length ls
unfolding old_lines
length-old_lines [] = omega arith
length-old_lines ((op, text) ∷ ls) = ground (arith, length-old_lines ls)

pop_blank-same :
    (xs : List Bytes)
    → ((pop_blank xs xs).0 ≡ (pop_blank xs xs).1) × (length (pop_blank xs xs).0 ≤ length xs)
unfolding pop_blank
pop_blank-same [] = (refl, omega arith)
pop_blank-same ([] ∷ xs) = ((pop_blank-same xs).0, omega (arith, (pop_blank-same xs).1))
pop_blank-same ((b ∷ bs) ∷ xs) = (refl, omega arith)

-- The lines that are rebuilt from context are those of the file.
rebuild-context :
    (lines : List Bytes) (at n oi : ℕ) (ls : List (ℕ × Text))
    → context_only ls ≡ true
    → at + n ≤ length lines
    → n ≤ oi + length ls
    → rebuild lines at n oi ls ≡ take (n - oi) (drop (at + oi) lines)
unfolding rebuild
rebuild-context lines at n oi [] h b c =
    take-eq 0 (n - oi) (drop (at + oi) lines) (omega (arith, c))
rebuild-context lines at n oi ((op, text) ∷ ls) h b c =
    let mark : op ≡ b' ' = ground (arith, h) in
    let rest = rebuild-context lines at n (suc oi) ls (ground (arith, h)) b (omega (arith, c)) in
    elim (Bool-cases (ltb oi n)) [
      | inr o ↦
          let none_left = take-eq (n - oi) 0 (drop (at + oi) lines) (ground (arith, o)) in
          let none_next = take-eq (n - suc oi) 0 (drop (at + suc oi) lines) (ground (arith, o)) in
          ground (arith, mark, o, rest, none_left, none_next)
      | inl o ↦
          let (x, e, d) = drop-get_elem (at + oi) lines (ground (arith, o, b)) in
          let one_more =
            take-eq (n - oi) (suc (n - suc oi)) (drop (at + oi) lines) (ground (arith, o)) in
          let taken = ap (take (suc (n - suc oi))) d in
          let next =
            ap (take (n - suc oi)) (drop-eq (at + suc oi) (suc (at + oi)) lines (omega arith)) in
          ground (arith, mark, o, e, rest, one_more, taken, next)
    ]

splice_self : (lines : List Bytes) (at n : ℕ) → splice lines at n (take n (drop at lines)) ≡ lines
unfolding splice
splice_self lines at n =
    ap (λ r. take at lines ++ (take n (drop at lines) ++ r)) (sym (drop-drop at n lines))
    ∙ (ap (λ r. take at lines ++ r) (take-drop n (drop at lines)) ∙ take-drop at lines)

-- The two sides of a hunk that is all context are the same, and no longer than the hunk.
old_new-context :
    (h : Hunk)
    → context_only h.lines ≡ true
    → ((old_new h).0 ≡ (old_new h).1) × (length (old_new h).0 ≤ length h.lines)
unfolding old_new
old_new-context h c =
    let old = reverse (old_lines h.lines) in
    let (a, b) = pop_blank-same old in
    let same = ap reverse (sym (old_lines-context h.lines c)) in
    let popped = ap (λ r. pop_blank old r) same in
    (
      ap reverse (ap (λ r. r.0) popped ∙ (a ∙ sym (ap (λ r. r.1) (sym (sym popped))))),
      omega (
        arith,
        b,
        length-reverse (pop_blank old (reverse (new_lines h.lines))).0,
        ap (λ r. length r.0) popped,
        length-reverse (old_lines h.lines),
        length-old_lines h.lines,
      ),
    )

-- The new lines of a hunk that is all context are those that it replaces.
fresh-context :
    (lines : List Bytes) (h : Hunk) (at : ℕ)
    → context_only h.lines ≡ true
    → (is_empty (old_new h).0 ≡ false → at + length (old_new h).0 ≤ length lines)
    → splice lines at (length (old_new h).0) (
        if is_empty (old_new h).0
        then (old_new h).1
        else rebuild lines at (length (old_new h).0) 0 h.lines)
      ≡ lines
fresh-context lines h at c b =
    let (same, short) = old_new-context h c in
    elim (Bool-cases (is_empty (old_new h).0)) [
      | inl e ↦ rw (e, sym same, empty-nil (old_new h).0 e) (splice_self lines at 0)
      | inr e ↦
          rw
            (
              e,
              rebuild-context lines at (length (old_new h).0) 0 h.lines c (b e)
                  (omega (arith, short)),
              drop-eq (at + 0) at lines (omega arith),
              take-eq (length (old_new h).0 - 0) (length (old_new h).0) (drop at lines)
                  (omega arith),
            )
            (splice_self lines at (length (old_new h).0))
    ]

pub ok_inj {ℓ} : {A : Type ℓ} {a b : A} → ok a ≡ ok b → a ≡ b
ok_inj {a} e = ap (λ r. elim r [ ok x ↦ x | err d ↦ a ]) e

pub apply_hunk-context :
    (index : ℕ) (lines : List Bytes) (from : ℕ) (h : Hunk) (r : List Bytes × ℕ)
    → context_only h.lines ≡ true
    → apply_hunk index lines from h ≡ ok r
    → r.0 ≡ lines
unfolding apply_hunk and_then
apply_hunk-context index lines from h r c =
    elim (Result-cases (locate index h lines (old_new h).0 from)) [
      | inr (e, l) ↦ rw (apply_hunk, l, and_then) (λ k. ground (arith, k))
      | inl (at, l) ↦
          rw (apply_hunk, l, and_then)
            (λ k.
              let new =
                fresh-context lines h at c
                  (λ n. locate-fits index h lines (old_new h).0 from at n l) in
              sym (ap (λ x. x.0) (ok_inj k)) ∙ new)
    ]
