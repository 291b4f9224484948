-- ===== src/EventLog/Store.antt =====
-- The writer of the event log (src/eventlog.rs): requests are numbered and written in one
-- transaction, and, where that fails, one by one. SQLite is a parameter: it says which rows it
-- accepts, and how each `COMMIT` ends.
use stavlos.Common.{
  ℕ, suc, ◌-◌, ◌^◌, max, Text, text_eq, Bool, ◌&&◌, Option, none, some, List, [], ◌∷◌, ◌++◌, length,
  is_empty, take, filter, leb, ◌==◌, if◌then◌else◌,
}
use stavlos.Common.Map.{Map, get, insert}

-- A row of the table `events`. The row id that SQLite gives is left out; `kind` and `payload` are
-- what the caller gave.
pub record Event : Type 0 where
  pub channel : Text
  pub seq : ℕ
  pub agent : Text
  pub kind : Text
  pub payload : Text

-- How a `COMMIT` ends: the rows are there; they are not, and the call says so; or the call fails
-- and the caller cannot know (`CommitUncertain`), whether they are there or not.
pub data Commit : Type 0 where
  committed uncertain_kept uncertain_lost : Commit

-- The answer to one request: its numbered events, or an error.
pub data Outcome : Type 0 where
  numbered : List Event → Outcome
  refused : Outcome

-- What one transaction did.
pub data Written : Type 0 where
  written : List (List Event) → Written
  uncertain failed : Written

-- The table, how the commits to come end, and the batches that `on_commit` was called with so far.
pub record Log : Type 0 where
  pub rows : List Event
  pub commits : List Commit
  pub called : List (List Event)

unfoldable pub next_commit : List Commit → Commit
next_commit [] = committed
next_commit (c ∷ cs) = c

unfoldable pub later_commits : List Commit → List Commit
later_commits [] = []
later_commits (c ∷ cs) = cs

-- `SELECT coalesce(max(seq),0) FROM events WHERE channel=?1`
unfoldable pub max_seq : List Event → Text → ℕ
max_seq [] c = 0
max_seq (e ∷ es) c = let rest = max_seq es c in if text_eq e.channel c then max e.seq rest else rest

-- `WHERE channel=?1 AND seq>=?2 ORDER BY seq LIMIT ?3`, for a table whose rows of a channel are in
-- the order of `seq`
unfoldable pub read : List Event → Text → ℕ → ℕ → List Event
read rows channel from limit =
    take limit (filter (λ e. text_eq e.channel channel && leb from e.seq) rows)

-- `last.checked_add(1)` on an `i64`
unfoldable pub checked_next : ℕ → Option ℕ
checked_next last = if last == 2 ^ 63 - 1 then none else some (suc last)

unfoldable pub last_number : List Event → Map ℕ → Text → ℕ
last_number rows next channel = elim (get next channel) [
  | some last ↦ last
  | none ↦ max_seq rows channel
]

unfoldable pub concat : List (List Event) → List Event
concat [] = []
concat (es ∷ ess) = es ++ concat ess

unfoldable pub call_back : Log → List Event → Log
call_back log batch = record log { called = log.called ++ (batch ∷ []) }

unfoldable pub refuse_all : List (List Event) → List Outcome
refuse_all [] = []
refuse_all (r ∷ requests) = refused ∷ refuse_all requests

unfoldable pub number_all : List (List Event) → List Outcome
number_all [] = []
number_all (out ∷ outs) = numbered out ∷ number_all outs

-- One turn of the loop of `commit` that writes each request in a transaction of its own; the
-- request is the only one of its group, so that `numbered[0]` is its answer.
unfoldable pub settle_one : Log × Written → Log × Outcome
settle_one (log, written []) = (log, refused)
settle_one (log, written (out ∷ outs)) = (call_back log out, numbered out)
settle_one (log, uncertain) = (log, refused)
settle_one (log, failed) = (log, refused)

-- `deliver`: one call for all events, and none where there are none
unfoldable pub deliver_all : Log → List (List Event) → Log
deliver_all log outs =
    let batch = concat outs in if is_empty batch then log else call_back log batch

-- `accepts` says whether the row and its index entries can be inserted into the table so far.
module _ (accepts : List Event → Event → Bool) where
  -- The inner loop of `write`: the table and `next` after the events, with the numbered events
  unfoldable pub write_events :
      List Event → Map ℕ → List Event → Option (List Event × (Map ℕ × List Event))
  write_events rows next [] = some (rows, (next, []))
  write_events rows next (input ∷ inputs) =
      elim (checked_next (last_number rows next input.channel)) [
        | none ↦ none
        | some seq ↦
            let event = record input { seq = seq } in
            if accepts rows event
            then elim (write_events (rows ++ (event ∷ [])) (insert next input.channel seq) inputs) [
              | none ↦ none
              | some (t, (n, out)) ↦ some (t, (n, event ∷ out))
            ]
            else none
      ]

  -- The outer loop, over the requests
  unfoldable pub write_requests :
      List Event → Map ℕ → List (List Event) → Option (List Event × List (List Event))
  write_requests rows next [] = some (rows, [])
  write_requests rows next (events ∷ requests) = elim (write_events rows next events) [
    | none ↦ none
    | some (t, (n, out)) ↦ elim (write_requests t n requests) [
      | none ↦ none
      | some (u, rest) ↦ some (u, out ∷ rest)
    ]
  ]

  -- `write`: a transaction that fails before its `COMMIT` leaves the table as it was.
  unfoldable pub write : Log → List (List Event) → Log × Written
  write log requests =
      let rest = later_commits log.commits in
      elim (write_requests log.rows [] requests) [
        | none ↦ (log, failed)
        | some (rows, out) ↦ elim (next_commit log.commits) [
          | committed ↦ (record log { rows = rows; commits = rest }, written out)
          | uncertain_kept ↦ (record log { rows = rows; commits = rest }, uncertain)
          | uncertain_lost ↦ (record log { commits = rest }, uncertain)
        ]
      ]

  unfoldable pub commit_each : Log → List (List Event) → Log × List Outcome
  commit_each log [] = (log, [])
  commit_each log (events ∷ requests) =
      let one = settle_one (write log (events ∷ [])) in
      let rest = commit_each one.0 requests in (rest.0, one.1 ∷ rest.1)

  unfoldable pub settle_group : Log → List (List Event) → Log × Written → Log × List Outcome
  settle_group log requests (after, written outs) = (deliver_all after outs, number_all outs)
  settle_group log requests (after, uncertain) = (after, refuse_all requests)
  settle_group log requests (after, failed) = commit_each log requests

  -- `commit`, with the answers in the order of the requests
  unfoldable pub commit : Log → List (List Event) → Log × List Outcome
  commit log requests =
      if leb (length requests) 1
      then commit_each log requests
      else settle_group log requests (write log requests)
