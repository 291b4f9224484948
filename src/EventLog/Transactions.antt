-- ===== src/EventLog/Transactions.antt =====
-- What one transaction of src/eventlog.rs does to the log.
use mathlib.Core.Path.{subst}
use stavlos.Common.{
  ℕ, Bool, true, false, some, List, [], ◌∷◌, ◌++◌, ◌≡◌, ◌⊎◌, refl, sym, arith, inl, inr,
  Option-cases, Bool-cases,
}
use stavlos.Common.Map.{Map, get, insert}
use stavlos.EventLog.Store.{
  Event, Commit, committed, uncertain_kept, uncertain_lost, Written, written, uncertain, failed,
  Log, checked_next, last_number, next_commit, later_commits, write_events, write_requests, write,
  concat,
}
use stavlos.EventLog.Numbers.{IsNumbered, Grown, GrownRequests, write_requests-Grown}

-- No commit to come keeps its rows while its caller is told that it failed.
unfoldable pub certain : List Commit → Bool
certain [] = true
certain (committed ∷ cs) = certain cs
certain (uncertain_lost ∷ cs) = certain cs
certain (uncertain_kept ∷ cs) = false

-- What one transaction did to the log.
unfoldable pub Transaction : Log → Log × Written → Type 0
Transaction log (after, written outs) =
    Grown log.rows after.rows (concat outs)
    × (after.called ≡ log.called)
    × (certain log.commits ≡ true → certain after.commits ≡ true)
Transaction log (after, failed) = after ≡ log
Transaction log (after, uncertain) =
    IsNumbered after.rows
    × (after.called ≡ log.called)
    × (certain log.commits ≡ true → certain after.commits ≡ true)
    × (certain log.commits ≡ true → after.rows ≡ log.rows)

Commit-cases : (c : Commit) → (c ≡ committed) ⊎ ((c ≡ uncertain_kept) ⊎ (c ≡ uncertain_lost))
Commit-cases committed = inl refl
Commit-cases uncertain_kept = inr (inl refl)
Commit-cases uncertain_lost = inr (inr refl)

certain-later : (cs : List Commit) → certain cs ≡ true → certain (later_commits cs) ≡ true
unfolding certain later_commits
certain-later [] h = refl
certain-later (committed ∷ cs) h = h
certain-later (uncertain_lost ∷ cs) h = h
certain-later (uncertain_kept ∷ cs) h = ground (arith, h)

certain-next : (cs : List Commit) → next_commit cs ≡ uncertain_kept → certain cs ≡ false
unfolding certain next_commit
certain-next [] e = ground (arith, e)
certain-next (committed ∷ cs) e = ground (arith, e)
certain-next (uncertain_lost ∷ cs) e = ground (arith, e)
certain-next (uncertain_kept ∷ cs) e = refl

-- The second list has the events of the first in their order, and only `seq` may differ.
unfoldable pub Renumbered : List Event → List Event → Type 0
Renumbered [] [] = Unit
Renumbered [] (e ∷ es) = ⊥
Renumbered (i ∷ inputs) [] = ⊥
Renumbered (i ∷ inputs) (e ∷ es) = (e ≡ record i { seq = e.seq }) × Renumbered inputs es

-- Each list of the second is a renumbered request.
unfoldable pub AllRenumbered : List (List Event) → List (List Event) → Type 0
AllRenumbered [] [] = Unit
AllRenumbered [] (out ∷ outs) = ⊥
AllRenumbered (r ∷ requests) [] = ⊥
AllRenumbered (r ∷ requests) (out ∷ outs) = Renumbered r out × AllRenumbered requests outs

-- A transaction that was committed has numbered the events of its requests.
unfoldable pub Answers : List (List Event) → Log × Written → Type 0
Answers requests (after, written outs) = AllRenumbered requests outs
Answers requests (after, uncertain) = Unit
Answers requests (after, failed) = Unit

module _ (accepts : List Event → Event → Bool) where
  pub write-Transaction :
      (log : Log) (requests : List (List Event))
      → IsNumbered log.rows
      → Transaction log (write accepts log requests)
  unfolding write Transaction GrownRequests get
  write-Transaction log requests h =
      let grown =
        write_requests-Grown accepts log.rows [] requests h (λ c last e. ground (arith, e)) in
      elim (Option-cases (write_requests accepts log.rows [] requests)) [
        | inl w ↦
            let same : write accepts log requests ≡ (log, failed) = rw (w, write) refl in
            subst (Transaction log) (sym same) refl
        | inr ((rows, outs), w) ↦
            let more : GrownRequests log.rows (some (rows, outs)) =
              subst (GrownRequests log.rows) w grown in
            let kept : Log = record log { rows = rows; commits = later_commits log.commits } in
            let lost : Log = record log { commits = later_commits log.commits } in
            elim (Commit-cases (next_commit log.commits)) [
              | inl c ↦
                  let same : write accepts log requests ≡ (kept, written outs) =
                    rw (w, c, write) refl in
                  subst (Transaction log) (sym same) (more, refl, certain-later log.commits)
              | inr (inl c) ↦
                  let same : write accepts log requests ≡ (kept, uncertain) =
                    rw (w, c, write) refl in
                  subst (Transaction log) (sym same) (
                    more.1,
                    refl,
                    certain-later log.commits,
                    λ k. absurd (ground (arith, k, certain-next log.commits c)),
                  )
              | inr (inr c) ↦
                  let same : write accepts log requests ≡ (lost, uncertain) =
                    rw (w, c, write) refl in
                  subst (Transaction log) (sym same) (h, refl, certain-later log.commits, λ k. refl)
            ]
      ]

  write_events-Renumbered :
      (inputs rows : List Event) (next : Map ℕ) (t : List Event) (n : Map ℕ) (out : List Event)
      → write_events accepts rows next inputs ≡ some (t, (n, out))
      → Renumbered inputs out
  unfolding write_events Renumbered
  write_events-Renumbered [] rows next t n [] = λ h. tt
  write_events-Renumbered [] rows next t n (e ∷ es) = λ h. ground (arith, h)
  write_events-Renumbered (input ∷ inputs) rows next t n out =
      elim (Option-cases (checked_next (last_number rows next input.channel))) [
        | inl k ↦ rw (k, write_events) (λ h. ground (arith, h))
        | inr (seq, k) ↦
            let event = record input { seq = seq } in
            elim (Bool-cases (accepts rows event)) [
              | inr a ↦ rw (k, a, write_events) (λ h. ground (arith, h))
              | inl a ↦
                  let grown = rows ++ (event ∷ []) in
                  let later = insert next input.channel seq in
                  elim (Option-cases (write_events accepts grown later inputs)) [
                    | inl w ↦ rw (k, a, w, write_events) (λ h. ground (arith, h))
                    | inr ((u, (m, rest)), w) ↦
                        let tail = write_events-Renumbered inputs grown later u m rest w in
                        let all_of : Renumbered (input ∷ inputs) (event ∷ rest) = (refl, tail) in
                        rw (k, a, w, write_events)
                          (λ h.
                            let same : event ∷ rest ≡ out = ground (arith, h) in
                            subst (Renumbered (input ∷ inputs)) same all_of)
                  ]
            ]
      ]

  write_requests-Renumbered :
      (requests : List (List Event)) (rows : List Event) (next : Map ℕ) (t : List Event)
      (outs : List (List Event))
      → write_requests accepts rows next requests ≡ some (t, outs)
      → AllRenumbered requests outs
  unfolding write_requests AllRenumbered
  write_requests-Renumbered [] rows next t [] = λ h. tt
  write_requests-Renumbered [] rows next t (o ∷ outs) = λ h. ground (arith, h)
  write_requests-Renumbered (es ∷ rs) rows next t outs =
      elim (Option-cases (write_events accepts rows next es)) [
        | inl w ↦ rw (w, write_requests) (λ h. ground (arith, h))
        | inr ((t1, (n, out)), w) ↦ elim (Option-cases (write_requests accepts t1 n rs)) [
          | inl v ↦ rw (w, v, write_requests) (λ h. ground (arith, h))
          | inr ((u, rest), v) ↦
              let tail = write_requests-Renumbered rs t1 n u rest v in
              let head = write_events-Renumbered es rows next t1 n out w in
              let all_of : AllRenumbered (es ∷ rs) (out ∷ rest) = (head, tail) in
              rw (w, v, write_requests)
                (λ h.
                  let same : out ∷ rest ≡ outs = ground (arith, h) in
                  subst (AllRenumbered (es ∷ rs)) same all_of)
        ]
      ]

  answered :
      (log : Log) (requests : List (List Event)) (rows : List Event) (outs : List (List Event))
      → write_requests accepts log.rows [] requests ≡ some (rows, outs)
      → Answers requests (write accepts log requests)
  unfolding Answers write
  answered log requests rows outs w =
      let kept : Log = record log { rows = rows; commits = later_commits log.commits } in
      let lost : Log = record log { commits = later_commits log.commits } in
      let P = Answers requests in
      elim (Commit-cases (next_commit log.commits)) [
        | inl c ↦
            let same : write accepts log requests ≡ (kept, written outs) = rw (w, c, write) refl in
            subst P (sym same) (write_requests-Renumbered requests log.rows [] rows outs w)
        | inr (inl c) ↦
            let same : write accepts log requests ≡ (kept, uncertain) = rw (w, c, write) refl in
            subst P (sym same) tt
        | inr (inr c) ↦
            let same : write accepts log requests ≡ (lost, uncertain) = rw (w, c, write) refl in
            subst P (sym same) tt
      ]

  pub write-Answers :
      (log : Log) (requests : List (List Event)) → Answers requests (write accepts log requests)
  unfolding Answers write
  write-Answers log requests = elim (Option-cases (write_requests accepts log.rows [] requests)) [
    | inl w ↦
        let same : write accepts log requests ≡ (log, failed) = rw (w, write) refl in
        subst (Answers requests) (sym same) tt
    | inr ((rows, outs), w) ↦ answered log requests rows outs w
  ]
