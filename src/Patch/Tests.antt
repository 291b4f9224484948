-- ===== src/Patch/Tests.antt =====
-- Runs of src/toolpatch.rs at concrete patches, on a disk that is an association list.
use stavlos.Common.{
  ◌⊎◌, starts_with, text_lt, ℕ, suc, ◌≤◌, Text, codes, text_eq, text_eq_iff, text_eq_refl, Bool,
  true, false, Option, none, some, List, [], ◌∷◌, ◌<◌, ◌∙◌, sym, Option-cases, ◌≡◌, ◌≢◌, refl,
  arith, if◌then◌else◌, inl, inr, Bool-cases,
}
use stavlos.Common.Str.{
  trim, trim_matches, trim_end_matches, trim_start_matches, is_whitespace, replace, replace_from,
}
use stavlos.Common.Map.{Map, get, insert, remove, get-insert, get-remove}
use stavlos.Common.Bytes.{
  Bytes, as_bytes, encode_char, is_char, decode_byte, decode, from_utf8, split_from_sep, split_on,
  join_on,
}
use stavlos.Patch.Types.{
  and_then, Read, found, missing, Hunk, Operation, ok, err, add, update, not_written,
}
use stavlos.Patch.Parse.{
  parse, strip_prefix, is_update, flush, push_current, header, on_header, on_move, on_end_of_file,
  on_anchor, hunk_line, push_line, on_body, parse_line, parse_lines, position, rposition,
  between_marks, check_operations, finish,
}
use stavlos.Patch.Lines.{
  apply_hunks, is_ascii_whitespace, trim_ascii_end_matches, trimmed, same_line, all_match, find,
  find_pass, fits, find_run, old_lines, new_lines, pop_blank, old_new, anchor_at, search_run,
  at_end, locate, rebuild, splice, apply_hunk, apply_each, has_crlf, replace_crlf,
  ends_with_newline, strip_newline, restore_crlf, to_lines, from_lines,
}
use stavlos.Patch.Disk.{Filesystem, content}
use stavlos.Patch.Write.{
  run, unchanged, is_removed, put_back, roll_back, write_files, remove_files, write,
}
use stavlos.Patch.Run.{run-Same, run-Implements}
use stavlos.Patch.Identity.{apply_hunks-context}
use stavlos.Patch.Search.{NoRun, FirstRun, find_run-FirstRun}
use stavlos.Patch.Refine.{stage-Implements, Implements}
use stavlos.Patch.Atomic.{Same, holds}
use stavlos.Patch.Spec.{View, spec, entry, entry_content}
use stavlos.Patch.Stage.{
  stage, update_at, set_file, staged_new, push_file, staged_exists, staged_content, staged_mode,
  create, drop_file, rewrite_file, move_onto, added_bytes, plan_file, stage_add, stage_delete,
  stage_move, stage_update, stage_operation, stage_from,
}

-- Files, and the outcome of the calls to come: `false` for one that fails.
record Store : Type 0 where
  files : Map Bytes
  calls : List Bool

read_store : Map Bytes → Text → Read
read_store m p = elim (get m p) [ none ↦ missing | some b ↦ found b 0o644 ]

answers : List Bool → Bool
answers [] = true
answers (b ∷ bs) = b

later : List Bool → List Bool
later [] = []
later (b ∷ bs) = bs

failures : List Bool → ℕ
failures [] = 0
failures (true ∷ bs) = failures bs
failures (false ∷ bs) = suc (failures bs)

write_store : Store → Text → Bytes → Bool × Store
write_store s p b = (
  answers s.calls,
  record { files = if answers s.calls then insert s.files p b else s.files; calls = later s.calls },
)

remove_store : Store → Text → Bool × Store
remove_store s p = (
  answers s.calls,
  record { files = if answers s.calls then remove s.files p else s.files; calls = later s.calls },
)

content-read_store : (m : Map Bytes) (p : Text) → content (read_store m p) ≡ get m p
unfolding content read_store
content-read_store m p = elim (Option-cases (get m p)) [
  | inl e ↦ rw (e, read_store) refl
  | inr (b, e) ↦ rw (e, read_store) refl
]

abbrev store_get : Store → Text → Option Bytes
store_get s q = content (read_store s.files q)

apart : (p q : Text) → q ≢ p → text_eq p q ≡ false
apart p q n = elim (Bool-cases (text_eq p q)) [
  | inr e ↦ e
  | inl e ↦ absurd (n (sym ((text_eq_iff p q).0 e)))
]

write_store-same :
    (s : Store) (p : Text) (b : Bytes)
    → (write_store s p b).0 ≡ true
    → store_get (write_store s p b).1 p ≡ some b
unfolding write_store
write_store-same s p b h = rw h (
    content-read_store (insert s.files p b) p
    ∙ ground (arith, get-insert s.files p p b, text_eq_refl p))

write_store-other :
    (s : Store) (p : Text) (b : Bytes) (q : Text)
    → q ≢ p
    → store_get (write_store s p b).1 q ≡ store_get s q
unfolding write_store
write_store-other s p b q n = elim (Bool-cases (answers s.calls)) [
  | inr e ↦ rw e refl
  | inl e ↦ rw e (
      content-read_store (insert s.files p b) q
      ∙ (get-insert s.files p q b ∙ (rw (apart p q n) refl ∙ sym (content-read_store s.files q))))
]

write_store-failed :
    (s : Store) (p : Text) (b : Bytes) (q : Text)
    → (write_store s p b).0 ≡ false
    → store_get (write_store s p b).1 q ≡ store_get s q
unfolding write_store
write_store-failed s p b q h = rw h refl

remove_store-same :
    (s : Store) (p : Text) → (remove_store s p).0 ≡ true → store_get (remove_store s p).1 p ≡ none
unfolding remove_store
remove_store-same s p h = rw h (
    content-read_store (remove s.files p) p
    ∙ ground (arith, get-remove s.files p p, text_eq_refl p))

remove_store-other :
    (s : Store) (p q : Text) → q ≢ p → store_get (remove_store s p).1 q ≡ store_get s q
unfolding remove_store
remove_store-other s p q n = elim (Bool-cases (answers s.calls)) [
  | inr e ↦ rw e refl
  | inl e ↦ rw e (
      content-read_store (remove s.files p) q
      ∙ (get-remove s.files p q ∙ (rw (apart p q n) refl ∙ sym (content-read_store s.files q))))
]

remove_store-failed :
    (s : Store) (p q : Text)
    → (remove_store s p).0 ≡ false
    → store_get (remove_store s p).1 q ≡ store_get s q
unfolding remove_store
remove_store-failed s p q h = rw h refl

failures-later : (bs : List Bool) → failures (later bs) ≤ failures bs
unfolding failures later
failures-later [] = omega arith
failures-later (true ∷ bs) = omega arith
failures-later (false ∷ bs) = omega arith

failures-fail : (bs : List Bool) → answers bs ≡ false → failures (later bs) < failures bs
unfolding failures later answers
failures-fail [] h = ground (arith, h)
failures-fail (true ∷ bs) h = ground (arith, h)
failures-fail (false ∷ bs) h = omega arith

faults-write_store :
    (s : Store) (p : Text) (b : Bytes) → failures (write_store s p b).1.calls ≤ failures s.calls
unfolding write_store
faults-write_store s p b = failures-later s.calls

faults-write_store_failed :
    (s : Store) (p : Text) (b : Bytes)
    → (write_store s p b).0 ≡ false
    → failures (write_store s p b).1.calls < failures s.calls
unfolding write_store
faults-write_store_failed s p b h = failures-fail s.calls h

faults-remove_store :
    (s : Store) (p : Text) → failures (remove_store s p).1.calls ≤ failures s.calls
unfolding remove_store
faults-remove_store s p = failures-later s.calls

faults-remove_store_failed :
    (s : Store) (p : Text)
    → (remove_store s p).0 ≡ false
    → failures (remove_store s p).1.calls < failures s.calls
unfolding remove_store
faults-remove_store_failed s p h = failures-fail s.calls h

abbrev store_fs : Filesystem Store
store_fs = record {
  resolve = λ p. p;
  open_read = λ s p. read_store s.files p;
  write_atomic = λ s p b m. write_store s p b;
  remove = remove_store;
  faults = λ s. failures s.calls;
  read-write = λ s p b m h. write_store-same s p b h;
  read-write_other = λ s p b m q n. write_store-other s p b q n;
  read-write_failed = λ s p b m q h. write_store-failed s p b q h;
  read-remove = λ s p h. remove_store-same s p h;
  read-remove_other = λ s p q n. remove_store-other s p q n;
  read-remove_failed = λ s p q h. remove_store-failed s p q h;
  faults-write = λ s p b m. faults-write_store s p b;
  faults-write_failed = λ s p b m h. faults-write_store_failed s p b h;
  faults-remove = λ s p. faults-remove_store s p;
  faults-remove_failed = λ s p b e h. faults-remove_store_failed s p h;
}

abbrev patch_text : Text
patch_text =
    codes
      "*** Begin Patch\n*** Add File: b\n+new\n*** Update File: a\n@@\n-one\n+two\n*** End Patch"

abbrev on_disk : List Bool → Store
on_disk calls = record { files = (codes "a", codes "one\nrest\n") ∷ []; calls = calls }

-- The patch creates `b` and changes `a`.
patched :
    ((run store_fs (on_disk []) patch_text).1).files
    ≡ (codes "a", codes "two\nrest\n") ∷ (codes "b", codes "new\n") ∷ []
unfolding is_ascii_whitespace trim_ascii_end_matches trimmed same_line all_match find find_pass fits
    find_run old_lines new_lines pop_blank old_new anchor_at search_run at_end locate rebuild splice
    apply_hunk apply_each has_crlf replace_crlf ends_with_newline strip_newline restore_crlf
    to_lines from_lines apply_hunks strip_prefix is_update flush push_current header on_header
    on_move on_end_of_file on_anchor hunk_line push_line on_body parse_line parse_lines position
    rposition between_marks check_operations finish parse update_at set_file staged_new push_file
    staged_exists staged_content staged_mode create drop_file rewrite_file move_onto added_bytes
    plan_file stage_add stage_delete stage_move stage_update stage_operation stage_from stage
    unchanged is_removed put_back roll_back write_files remove_files write run encode_char as_bytes
    is_char decode_byte decode from_utf8 split_from_sep split_on join_on trim trim_matches
    trim_end_matches trim_start_matches is_whitespace replace replace_from and_then starts_with
    text_eq text_lt get insert remove read_store write_store remove_store answers later
patched = refl

-- The second write fails, and the first file is removed again.
undone :
    run store_fs (on_disk (true ∷ false ∷ [])) patch_text
    ≡ (err (not_written (codes "a")), on_disk [])
unfolding is_ascii_whitespace trim_ascii_end_matches trimmed same_line all_match find find_pass fits
    find_run old_lines new_lines pop_blank old_new anchor_at search_run at_end locate rebuild splice
    apply_hunk apply_each has_crlf replace_crlf ends_with_newline strip_newline restore_crlf
    to_lines from_lines apply_hunks strip_prefix is_update flush push_current header on_header
    on_move on_end_of_file on_anchor hunk_line push_line on_body parse_line parse_lines position
    rposition between_marks check_operations finish parse update_at set_file staged_new push_file
    staged_exists staged_content staged_mode create drop_file rewrite_file move_onto added_bytes
    plan_file stage_add stage_delete stage_move stage_update stage_operation stage_from stage
    unchanged is_removed put_back roll_back write_files remove_files write run encode_char as_bytes
    is_char decode_byte decode from_utf8 split_from_sep split_on join_on trim trim_matches
    trim_end_matches trim_start_matches is_whitespace replace replace_from and_then starts_with
    text_eq text_lt get insert remove read_store write_store remove_store answers later
undone = refl

-- Two lines, the second one blank, are replaced by two such lines, and a blank line is left over.
blank_kept :
    apply_hunks (codes "b\n\nz\n") (
      record {
        anchor = [];
        lines = (b'-', codes "b") ∷ (b'-', []) ∷ (b'+', codes "c") ∷ (b'+', []) ∷ [];
        eof = false;
      }
      ∷ [])
    ≡ ok (codes "c\n\n\nz\n")
unfolding is_ascii_whitespace trim_ascii_end_matches trimmed same_line all_match find find_pass fits
    find_run old_lines new_lines pop_blank old_new anchor_at search_run at_end locate rebuild splice
    apply_hunk apply_each has_crlf replace_crlf ends_with_newline strip_newline restore_crlf
    to_lines from_lines apply_hunks strip_prefix is_update flush push_current header on_header
    on_move on_end_of_file on_anchor hunk_line push_line on_body parse_line parse_lines position
    rposition between_marks check_operations finish parse update_at set_file staged_new push_file
    staged_exists staged_content staged_mode create drop_file rewrite_file move_onto added_bytes
    plan_file stage_add stage_delete stage_move stage_update stage_operation stage_from stage
    unchanged is_removed put_back roll_back write_files remove_files write run encode_char as_bytes
    is_char decode_byte decode from_utf8 split_from_sep split_on join_on trim trim_matches
    trim_end_matches trim_start_matches is_whitespace replace replace_from and_then starts_with
    text_eq text_lt get insert remove read_store write_store remove_store answers later
blank_kept = refl

run-Same_example : Same store_fs (on_disk (true ∷ false ∷ [])) (on_disk [])
unfolding is_ascii_whitespace trim_ascii_end_matches trimmed same_line all_match find find_pass fits
    find_run old_lines new_lines pop_blank old_new anchor_at search_run at_end locate rebuild splice
    apply_hunk apply_each has_crlf replace_crlf ends_with_newline strip_newline restore_crlf
    to_lines from_lines apply_hunks strip_prefix is_update flush push_current header on_header
    on_move on_end_of_file on_anchor hunk_line push_line on_body parse_line parse_lines position
    rposition between_marks check_operations finish parse update_at set_file staged_new push_file
    staged_exists staged_content staged_mode create drop_file rewrite_file move_onto added_bytes
    plan_file stage_add stage_delete stage_move stage_update stage_operation stage_from stage
    unchanged is_removed put_back roll_back write_files remove_files write run encode_char as_bytes
    is_char decode_byte decode from_utf8 split_from_sep split_on join_on trim trim_matches
    trim_end_matches trim_start_matches is_whitespace replace replace_from and_then starts_with
    text_eq text_lt get insert remove read_store write_store remove_store answers later failures
run-Same_example =
    run-Same store_fs (on_disk (true ∷ false ∷ [])) patch_text (not_written (codes "a"))
      (omega arith) (λ p e. ground (arith, e)) refl

abbrev add_b : Operation
add_b = record { kind = add; path = codes "b"; move_to = []; added = codes "new" ∷ []; hunks = [] }

abbrev update_a : Operation
update_a = record {
  kind = update;
  path = codes "a";
  move_to = [];
  added = [];
  hunks =
      record { anchor = []; lines = (b'-', codes "one") ∷ (b'+', codes "two") ∷ []; eof = false }
      ∷ [];
}

run-Implements_example :
    (parse patch_text ≡ ok (add_b ∷ update_a ∷ []))
    × (v : View) × (spec store_fs.resolve
          (λ q. entry (store_fs.open_read (on_disk []) q))
          (add_b ∷ update_a ∷ [])
        ≡ ok v)
    × ((q : Text) → holds store_fs (run store_fs (on_disk []) patch_text).1 q ≡ entry_content (v q))
unfolding is_ascii_whitespace trim_ascii_end_matches trimmed same_line all_match find find_pass fits
    find_run old_lines new_lines pop_blank old_new anchor_at search_run at_end locate rebuild splice
    apply_hunk apply_each has_crlf replace_crlf ends_with_newline strip_newline restore_crlf
    to_lines from_lines apply_hunks strip_prefix is_update flush push_current header on_header
    on_move on_end_of_file on_anchor hunk_line push_line on_body parse_line parse_lines position
    rposition between_marks check_operations finish parse update_at set_file staged_new push_file
    staged_exists staged_content staged_mode create drop_file rewrite_file move_onto added_bytes
    plan_file stage_add stage_delete stage_move stage_update stage_operation stage_from stage
    unchanged is_removed put_back roll_back write_files remove_files write run encode_char as_bytes
    is_char decode_byte decode from_utf8 split_from_sep split_on join_on trim trim_matches
    trim_end_matches trim_start_matches is_whitespace replace replace_from and_then starts_with
    text_eq text_lt get insert remove read_store write_store remove_store answers later
run-Implements_example =
    run-Implements store_fs (on_disk []) patch_text (add_b ∷ update_a ∷ []) refl

stage-Implements_example :
    Implements store_fs (on_disk []) (stage store_fs (on_disk []) (add_b ∷ update_a ∷ [])) (
      spec store_fs.resolve
        (λ q. entry (store_fs.open_read (on_disk []) q))
        (add_b ∷ update_a ∷ []))
stage-Implements_example = stage-Implements store_fs (on_disk []) (add_b ∷ update_a ∷ [])

abbrev context_hunk : Hunk
context_hunk = record { anchor = []; lines = (b' ', codes " rest") ∷ (b' ', []) ∷ []; eof = true }

apply_hunks-context_example : codes "one\nrest\n" ≡ codes "one\nrest\n"
unfolding is_ascii_whitespace trim_ascii_end_matches trimmed same_line all_match find find_pass fits
    find_run old_lines new_lines pop_blank old_new anchor_at search_run at_end locate rebuild splice
    apply_hunk apply_each has_crlf replace_crlf ends_with_newline strip_newline restore_crlf
    to_lines from_lines apply_hunks strip_prefix is_update flush push_current header on_header
    on_move on_end_of_file on_anchor hunk_line push_line on_body parse_line parse_lines position
    rposition between_marks check_operations finish parse update_at set_file staged_new push_file
    staged_exists staged_content staged_mode create drop_file rewrite_file move_onto added_bytes
    plan_file stage_add stage_delete stage_move stage_update stage_operation stage_from stage
    unchanged is_removed put_back roll_back write_files remove_files write run encode_char as_bytes
    is_char decode_byte decode from_utf8 split_from_sep split_on join_on trim trim_matches
    trim_end_matches trim_start_matches is_whitespace replace replace_from and_then starts_with
    text_eq text_lt get insert remove read_store write_store remove_store answers later
apply_hunks-context_example =
    apply_hunks-context (codes "one\nrest\n") (context_hunk ∷ []) (codes "one\nrest\n") refl refl
      refl refl

abbrev two_lines : List Bytes
two_lines = codes "y" ∷ codes " x\t" ∷ []

find_run-FirstRun_example :
    ((find_run two_lines (codes "x" ∷ []) 0 ≡ none)
      × ((r : ℕ) → r < 3 → NoRun two_lines (codes "x" ∷ []) 0 r))
    ⊎ ((at : ℕ) × (find_run two_lines (codes "x" ∷ []) 0 ≡ some at)
        × FirstRun two_lines (codes "x" ∷ []) 0 at)
find_run-FirstRun_example = find_run-FirstRun two_lines (codes "x" ∷ []) 0

found_by_trim : find_run two_lines (codes "x" ∷ []) 0 ≡ some 1
unfolding is_ascii_whitespace trim_ascii_end_matches trimmed same_line all_match find find_pass fits
    find_run old_lines new_lines pop_blank old_new anchor_at search_run at_end locate rebuild splice
    apply_hunk apply_each has_crlf replace_crlf ends_with_newline strip_newline restore_crlf
    to_lines from_lines apply_hunks strip_prefix is_update flush push_current header on_header
    on_move on_end_of_file on_anchor hunk_line push_line on_body parse_line parse_lines position
    rposition between_marks check_operations finish parse update_at set_file staged_new push_file
    staged_exists staged_content staged_mode create drop_file rewrite_file move_onto added_bytes
    plan_file stage_add stage_delete stage_move stage_update stage_operation stage_from stage
    unchanged is_removed put_back roll_back write_files remove_files write run encode_char as_bytes
    is_char decode_byte decode from_utf8 split_from_sep split_on join_on trim trim_matches
    trim_end_matches trim_start_matches is_whitespace replace replace_from and_then starts_with
    text_eq text_lt get insert remove read_store write_store remove_store answers later
found_by_trim = refl
