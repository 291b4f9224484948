-- ===== src/Patch/Lines.antt =====
-- Hunks applied to the lines of a file (`apply_hunks` of src/toolpatch.rs). Lines are byte strings.
use stavlos.Common.{
  ℕ, zero, suc, ◌+◌, ◌-◌, Text, text_eq, starts_with, is_empty, Bool, true, false, not, ◌&&◌, ◌||◌,
  Option, none, some, List, [], ◌∷◌, ◌++◌, length, get_elem?, take, drop, ltb, leb, ◌==◌,
  if◌then◌else◌,
}
use stavlos.Common.Str.{trim, trim_matches, trim_end_matches}
use stavlos.Common.Bytes.{Bytes, as_bytes, from_utf8, split_on, join_on}
use stavlos.Patch.Types.{Hunk, Result, ok, err, and_then, anchor_not_found, context_not_found}
use mathlib.Core.List.{reverse}

-- `is_ascii_whitespace`
unfoldable pub is_ascii_whitespace : ℕ → Bool
is_ascii_whitespace b = b == 32 || b == 9 || b == 10 || b == 12 || b == 13

unfoldable pub trim_ascii_end_matches : Bytes → Bytes
trim_ascii_end_matches bytes = trim_end_matches (λ b. b == 32 || b == 9) bytes

-- Three passes, from the exact line to one that only differs in surrounding white space.
unfoldable pub trimmed : Bytes → ℕ → Bytes
trimmed bytes zero = bytes
trimmed bytes (suc zero) = trim_ascii_end_matches bytes
trimmed bytes (suc (suc pass)) = elim (from_utf8 bytes) [
  | some text ↦ as_bytes (trim text)
  | none ↦ trim_matches is_ascii_whitespace bytes
]

unfoldable pub same_line : ℕ → Bytes → Bytes → Bool
same_line pass a b = text_eq (trimmed a pass) (trimmed b pass)

-- `old.iter().enumerate().all(..)` at one position
unfoldable pub all_match : ℕ → List Bytes → ℕ → List Bytes → Bool
all_match pass lines at [] = true
all_match pass lines at (value ∷ old) = elim (get_elem? lines at) [
  | none ↦ false
  | some line ↦ same_line pass line value && all_match pass lines (suc at) old
]

-- `(from..from + n).find(p)`
unfoldable pub find : (ℕ → Bool) → ℕ → ℕ → Option ℕ
find p from zero = none
find p from (suc n) = let later = find p (suc from) n in if p from then some from else later

-- `(0..3).find_map(f)`
unfoldable pub find_pass : (ℕ → Option ℕ) → Option ℕ
find_pass f = elim (f 0) [
  | some at ↦ some at
  | none ↦ elim (f 1) [ some at ↦ some at | none ↦ f 2 ]
]

unfoldable pub fits : List Bytes → List Bytes → ℕ → ℕ → Bool
fits lines old pass at = leb (at + length old) (length lines) && all_match pass lines at old

unfoldable pub find_run : List Bytes → List Bytes → ℕ → Option ℕ
find_run lines old from =
    find_pass (λ pass. find (fits lines old pass) from (suc (length lines - length old) - from))

-- The lines that the hunk replaces: all but the added ones.
unfoldable pub old_lines : List (ℕ × Text) → List Bytes
old_lines [] = []
old_lines ((op, text) ∷ ls) = if op == b'+' then old_lines ls else as_bytes text ∷ old_lines ls

unfoldable pub new_lines : List (ℕ × Text) → List Bytes
new_lines [] = []
new_lines ((op, text) ∷ ls) = if op == b'-' then new_lines ls else as_bytes text ∷ new_lines ls

-- The loop that pops blank lines off both ends, on the reversed lists.
unfoldable pub pop_blank : List Bytes → List Bytes → List Bytes × List Bytes
pop_blank ([] ∷ old) ([] ∷ new) = pop_blank old new
pop_blank old new = (old, new)

unfoldable pub old_new : Hunk → List Bytes × List Bytes
old_new h =
    let popped = pop_blank (reverse (old_lines h.lines)) (reverse (new_lines h.lines)) in
    (reverse popped.0, reverse popped.1)

-- The line that the anchor names, `None` for an empty anchor
unfoldable pub anchor_at : Hunk → List Bytes → ℕ → Option ℕ
anchor_at h lines from =
    if is_empty h.anchor
    then none
    else find_pass (λ pass.
      find
        (λ i. elim (get_elem? lines i) [
          | none ↦ false
          | some line ↦ same_line pass line (as_bytes h.anchor)
        ])
        from (length lines - from))

-- The search from the anchor, and again from the top when that was not the top.
unfoldable pub search_run : List Bytes → List Bytes → ℕ → Option ℕ
search_run lines old from = elim (find_run lines old from) [
  | some at ↦ some at
  | none ↦ if ltb 0 from then find_run lines old 0 else none
]

-- `if self.eof && ..`: the run at the end of the file is taken instead, where there is one.
unfoldable pub at_end : Hunk → List Bytes → List Bytes → ℕ → ℕ
at_end h lines old at =
    if h.eof && (not (at + length old == length lines) && leb (length old) (length lines))
    then elim (find_run lines old (length lines - length old)) [ some other ↦ other | none ↦ at ]
    else at

-- `index` is the hunk's number, for the message.
unfoldable pub locate : ℕ → Hunk → List Bytes → List Bytes → ℕ → Result ℕ
locate index h lines old from =
    let anchor = anchor_at h lines from in
    if is_empty old
    then (if is_empty h.anchor
        then ok (length lines)
        else elim anchor [ some i ↦ ok (suc i) | none ↦ err (anchor_not_found index) ])
    else elim (search_run lines old (elim anchor [ some i ↦ i | none ↦ from ])) [
      | none ↦ err (context_not_found index)
      | some at ↦ ok (at_end h lines old at)
    ]

-- The new lines of a hunk that replaces some: a context line is the file's own line. `n` is
-- `old.len()`; `oi` counts the old lines passed.
unfoldable pub rebuild : List Bytes → ℕ → ℕ → ℕ → List (ℕ × Text) → List Bytes
rebuild lines at n oi [] = []
rebuild lines at n oi ((op, text) ∷ ls) =
    let next = rebuild lines at n (suc oi) ls in
    let same = rebuild lines at n oi ls in
    if op == b' '
    then (if ltb oi n
        then elim (get_elem? lines (at + oi)) [ some line ↦ line ∷ next | none ↦ next ]
        else next)
    else if op == b'-'
    then next
    else as_bytes text ∷ same

-- `lines.splice(at..at + n, new)`
unfoldable pub splice : List Bytes → ℕ → ℕ → List Bytes → List Bytes
splice lines at n new = take at lines ++ (new ++ drop (at + n) lines)

-- One turn of the loop over the hunks, on the lines and `from`
unfoldable pub apply_hunk : ℕ → List Bytes → ℕ → Hunk → Result (List Bytes × ℕ)
apply_hunk index lines from h =
    let (old, fresh) = old_new h in
    and_then (locate index h lines old from) (λ at.
      let new = if is_empty old then fresh else rebuild lines at (length old) 0 h.lines in
      ok (splice lines at (length old) new, at + length new))

unfoldable pub apply_each : ℕ → List Bytes → ℕ → List Hunk → Result (List Bytes)
apply_each index lines from [] = ok lines
apply_each index lines from (h ∷ hs) =
    and_then (apply_hunk index lines from h) (λ r. apply_each (suc index) r.0 r.1 hs)

-- `windows(2).any(..)`
unfoldable pub has_crlf : Bytes → Bool
has_crlf [] = false
has_crlf (a ∷ bs) = starts_with (a ∷ bs) (13 ∷ 10 ∷ []) || has_crlf bs

unfoldable pub replace_crlf : Bytes → Bytes
replace_crlf [] = []
replace_crlf (a ∷ bs) =
    if starts_with (a ∷ bs) (13 ∷ 10 ∷ []) then replace_crlf bs else a ∷ replace_crlf bs

unfoldable pub ends_with_newline : Bytes → Bool
ends_with_newline [] = false
ends_with_newline (b ∷ []) = b == 10
ends_with_newline (b ∷ c ∷ bs) = ends_with_newline (c ∷ bs)

-- `strip_suffix(b"\n").unwrap_or(..)`
unfoldable pub strip_newline : Bytes → Bytes
strip_newline [] = []
strip_newline (b ∷ []) = if b == 10 then [] else b ∷ []
strip_newline (b ∷ c ∷ bs) = b ∷ strip_newline (c ∷ bs)

-- A carriage return before each line feed
unfoldable pub restore_crlf : Bytes → Bytes
restore_crlf [] = []
restore_crlf (b ∷ bs) = if b == 10 then 13 ∷ b ∷ restore_crlf bs else b ∷ restore_crlf bs

unfoldable pub to_lines : Bytes → List Bytes
to_lines bytes = if is_empty bytes then [] else split_on 10 (strip_newline bytes)

-- `lines.join`, with the newline at the end
unfoldable pub from_lines : Bool → List Bytes → Bytes
from_lines trailing lines =
    let result = join_on 10 lines in
    if trailing || not (is_empty result) then result ++ (10 ∷ []) else result

unfoldable pub apply_hunks : Bytes → List Hunk → Result Bytes
apply_hunks content hunks =
    let crlf = has_crlf content in
    let normalized = if crlf then replace_crlf content else content in
    and_then (apply_each 1 (to_lines normalized) 0 hunks) (λ lines.
      let result = from_lines (ends_with_newline normalized) lines in
      ok (if crlf then restore_crlf result else result))
