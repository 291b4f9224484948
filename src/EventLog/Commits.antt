-- ===== src/EventLog/Commits.antt =====
-- What a commit of src/eventlog.rs adds to the table, answers and hands on.
use stavlos.Common.{true, List, [], ◌∷◌, ◌++◌, ◌≡◌}
use stavlos.EventLog.Store.{Event, Outcome, numbered, refused, Log, concat}
use stavlos.EventLog.Numbers.{IsNumbered}
use stavlos.EventLog.Transactions.{certain, Renumbered}

-- The events of the requests that were answered with their numbers.
unfoldable pub acknowledged : List Outcome → List Event
acknowledged [] = []
acknowledged (numbered es ∷ os) = es ++ acknowledged os
acknowledged (refused ∷ os) = acknowledged os

-- Each request has one answer: an error, or its own events with their numbers.
unfoldable pub Answered : List (List Event) → List Outcome → Type 0
Answered [] [] = Unit
Answered [] (o ∷ os) = ⊥
Answered (r ∷ requests) [] = ⊥
Answered (r ∷ requests) (numbered es ∷ os) = Renumbered r es × Answered requests os
Answered (r ∷ requests) (refused ∷ os) = Answered requests os

-- After `r` the log has numbered rows, has handed on what it acknowledged, and, where no commit
-- keeps rows in secret, has added just that; what it acknowledged are events of the requests.
pub record Commits (log : Log) (requests : List (List Event)) (r : Log × List Outcome)
    : Type 0 where
  pub numbers : IsNumbered r.0.rows
  pub answers : Answered requests r.1
  pub handed : concat r.0.called ≡ concat log.called ++ acknowledged r.1
  pub certain_after : certain log.commits ≡ true → certain r.0.commits ≡ true
  pub added : certain log.commits ≡ true → r.0.rows ≡ log.rows ++ acknowledged r.1
