-- ===== src/Patch/Parse.antt =====
-- The text of a patch, read into operations (`parse` and `flush` of src/toolpatch.rs).
use stavlos.Common.{
  ℕ, suc, ◌-◌, Text, codes, starts_with, text_eq, is_empty, Bool, true, false, not, ◌||◌, Option,
  none, some, List, [], ◌∷◌, ◌++◌, length, take, drop, leb, ◌==◌, if◌then◌else◌,
}
use stavlos.Common.Str.{trim, replace}
use stavlos.Common.Bytes.{split_on}
use stavlos.Patch.Types.{
  Kind, add, delete, update, Hunk, Operation, Result, ok, err, and_then, missing_begin, missing_end,
  misplaced_move, hunk_outside, missing_plus, unexpected_content, unexpected_line, names_no_file,
  no_hunks,
}

unfoldable pub strip_prefix : Text → Text → Option Text
strip_prefix s p = if starts_with s p then some (drop (length p) s) else none

unfoldable pub is_update : Kind → Bool
is_update update = true
is_update add = false
is_update delete = false

abbrev pub new_operation : Kind → Text → Operation
new_operation kind path = record { kind = kind; path = path; move_to = []; added = []; hunks = [] }

abbrev pub new_hunk : Text → Hunk
new_hunk anchor = record { anchor = anchor; lines = []; eof = false }

-- What the loop over the lines keeps.
pub record Parser : Type 0 where
  pub operations : List Operation
  pub current : Option Operation
  pub hunk : Option Hunk

-- `flush`: the hunk is taken in any case, and kept where there is an operation and it has lines.
unfoldable pub flush : Option Operation → Option Hunk → Option Operation × Option Hunk
flush none hunk = (none, none)
flush (some op) none = (some op, none)
flush (some op) (some h) =
    (some (if is_empty h.lines then op else record op { hunks = op.hunks ++ (h ∷ []) }), none)

unfoldable pub push_current : List Operation → Option Operation → List Operation
push_current ops none = ops
push_current ops (some op) = ops ++ (op ∷ [])

-- The three file headers, with the kind and the rest of the line
unfoldable pub header : Text → Option (Kind × Text)
header line = elim (strip_prefix line (codes "*** Add File: ")) [
  | some path ↦ some (add, path)
  | none ↦ elim (strip_prefix line (codes "*** Delete File: ")) [
    | some path ↦ some (delete, path)
    | none ↦ elim (strip_prefix line (codes "*** Update File: ")) [
      | some path ↦ some (update, path)
      | none ↦ none
    ]
  ]
]

unfoldable pub on_header : Parser → Kind → Text → Parser
on_header p kind path =
    let (current, hunk) = flush p.current p.hunk in
    record {
      operations = push_current p.operations current;
      current = some (new_operation kind (trim path));
      hunk = hunk;
    }

unfoldable pub on_move : Parser → Text → Result Parser
on_move p path = elim p.current [
  | none ↦ err misplaced_move
  | some op ↦
      if is_update op.kind
      then ok (record p { current = some (record op { move_to = trim path }) })
      else err misplaced_move
]

unfoldable pub on_end_of_file : Parser → Parser
on_end_of_file p = elim p.hunk [
  | none ↦ p
  | some h ↦ record p { hunk = some (record h { eof = true }) }
]

unfoldable pub on_anchor : Parser → Text → Result Parser
on_anchor p anchor =
    if elim p.current [ none ↦ false | some op ↦ is_update op.kind ]
    then ok
        (record p { current = (flush p.current p.hunk).0; hunk = some (new_hunk (trim anchor)) })
    else err hunk_outside

-- A line of an update's hunk: a line without a mark counts as context.
unfoldable pub hunk_line : Text → ℕ × Text
hunk_line [] = (b' ', [])
hunk_line (c ∷ s) = if c == b' ' || (c == b'-' || c == b'+') then (c, s) else (b' ', c ∷ s)

unfoldable pub push_line : Option Hunk → ℕ × Text → Hunk
push_line none l = record { anchor = []; lines = l ∷ []; eof = false }
push_line (some h) l = record h { lines = h.lines ++ (l ∷ []) }

unfoldable pub on_body : Parser → Operation → Text → Result Parser
on_body p op line = elim op.kind [
  | add ↦ elim (strip_prefix line (codes "+")) [
    | some text ↦ ok (record p { current = some (record op { added = op.added ++ (text ∷ []) }) })
    | none ↦ if is_empty (trim line) then ok p else err missing_plus
  ]
  | delete ↦ if is_empty (trim line) then ok p else err unexpected_content
  | update ↦ ok (record p { hunk = some (push_line p.hunk (hunk_line line)) })
]

unfoldable pub parse_line : Parser → Text → Result Parser
parse_line p line = elim (header line) [
  | some (kind, path) ↦ ok (on_header p kind path)
  | none ↦ elim (strip_prefix line (codes "*** Move to: ")) [
    | some path ↦ on_move p path
    | none ↦
        if text_eq (trim line) (codes "*** End of File")
        then ok (on_end_of_file p)
        else elim (strip_prefix line (codes "@@")) [
          | some anchor ↦ on_anchor p anchor
          | none ↦ elim p.current [
            | some op ↦ on_body p op line
            | none ↦ if is_empty (trim line) then ok p else err unexpected_line
          ]
        ]
  ]
]

unfoldable pub parse_lines : Parser → List Text → Result Parser
parse_lines p [] = ok p
parse_lines p (l ∷ ls) = and_then (parse_line p l) (λ q. parse_lines q ls)

-- `position` and `rposition` of the line that trims to the mark
unfoldable pub position : Text → List Text → Option ℕ
position mark [] = none
position mark (l ∷ ls) =
    if text_eq (trim l) mark
    then some 0
    else elim (position mark ls) [ none ↦ none | some i ↦ some (suc i) ]

unfoldable pub rposition : Text → List Text → Option ℕ
rposition mark [] = none
rposition mark (l ∷ ls) = elim (rposition mark ls) [
  | some i ↦ some (suc i)
  | none ↦ if text_eq (trim l) mark then some 0 else none
]

-- The lines between the marks. Where both marks are on one line, the source's slice
-- `lines[start + 1..end]` would start behind its end; one line cannot be both.
unfoldable pub between_marks : List Text → Result (List Text)
between_marks lines = elim (position (codes "*** Begin Patch") lines) [
  | none ↦ err missing_begin
  | some start ↦ elim (rposition (codes "*** End Patch") lines) [
    | none ↦ err missing_end
    | some end ↦
        if leb start end
        then ok (take (end - suc start) (drop (suc start) lines))
        else err missing_end
  ]
]

-- The checks on the finished operations
unfoldable pub check_operations : List Operation → Result (List Operation)
check_operations [] = ok []
check_operations (op ∷ ops) =
    if is_empty op.path
    then err names_no_file
    else if not (is_update op.kind) || (not (is_empty op.hunks) || not (is_empty op.move_to))
    then and_then (check_operations ops) (λ rest. ok (op ∷ rest))
    else err no_hunks

unfoldable pub finish : Parser → List Operation
finish p = push_current p.operations (flush p.current p.hunk).0

unfoldable pub parse : Text → Result (List Operation)
parse text =
    and_then (between_marks (split_on 10 (replace text (codes "\r\n") (codes "\n")))) (λ lines.
      and_then (parse_lines (record { operations = []; current = none; hunk = none }) lines)
        (λ p. check_operations (finish p)))
