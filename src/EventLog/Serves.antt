-- ===== src/EventLog/Serves.antt =====
-- Which requests `commit` of src/eventlog.rs cannot refuse.
use stavlos.Common.{ℕ, ◌+◌, Bool, true, false, Option, none, some, List, [], ◌∷◌, length, ◌≡◌}
use stavlos.Common.Map.{Map}
use stavlos.EventLog.Store.{
  Event, Commit, committed, uncertain_kept, uncertain_lost, Outcome, numbered, refused, Written,
  written, uncertain, failed, Log, concat,
}
use stavlos.EventLog.Numbers.{IsNumbered, Remembers}

-- Every `COMMIT` to come succeeds.
unfoldable pub reliable : List Commit → Bool
reliable [] = true
reliable (committed ∷ cs) = reliable cs
reliable (uncertain_kept ∷ cs) = false
reliable (uncertain_lost ∷ cs) = false

-- No answer is an error.
unfoldable pub served : List Outcome → Bool
served [] = true
served (numbered es ∷ os) = served os
served (refused ∷ os) = false

-- The events of a request got in: so many rows more, numbered.
WroteEvents : List Event → List Event → Option (List Event × (Map ℕ × List Event)) → Type 0
WroteEvents rows inputs none = ⊥
WroteEvents rows inputs (some (t, (n, out))) =
    (length t ≡ length rows + length inputs) × IsNumbered t × Remembers t n

WroteRequests : List Event → List (List Event) → Option (List Event × List (List Event)) → Type 0
WroteRequests rows requests none = ⊥
WroteRequests rows requests (some (t, outs)) =
    (length t ≡ length rows + length (concat requests)) × IsNumbered t

unfoldable pub Wrote : Log → List (List Event) → Log × Written → Type 0
Wrote log requests (after, written outs) =
    (length after.rows ≡ length log.rows + length (concat requests))
    × IsNumbered after.rows
    × (reliable after.commits ≡ true)
Wrote log requests (after, uncertain) = ⊥
Wrote log requests (after, failed) = ⊥
