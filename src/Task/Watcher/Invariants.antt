-- ===== src/Task/Watcher/Invariants.antt =====
-- internal/task/watcher.go: what a scan keeps of the runs.
use go_chatgpt_tasks.Base.{ℕ, ◌≡◌, ◌⊎◌, true, inl, inr, List, [], ◌∷◌, map, All, arith}
use go_chatgpt_tasks.Base.Int.{ℤ}
use go_chatgpt_tasks.Clock.{Time, time_to_pg}
use go_chatgpt_tasks.Task.Domain.{pending, queued, JobRun}
use go_chatgpt_tasks.Task.Transitions.{Outcome, mark_queued, mark_pending}
use go_chatgpt_tasks.Task.Rows.{JobRunRow, job_run_from_row}
use go_chatgpt_tasks.Sql.Tables.Laws.{All-select, All-take, All-order_by}
use go_chatgpt_tasks.Sql.Runs.{find_due_job_runs, is_due}
use go_chatgpt_tasks.Task.Effect.{World, Result, ok, err}
use go_chatgpt_tasks.Task.Effect.Keeps.{
  Any, Keeps, keeps_pure, keeps_bind, keeps_then, keeps_lift, keeps_context, keeps_quietly,
  keeps_try, keeps_now, keeps_send, keeps_query,
}
use go_chatgpt_tasks.Task.Repo.{update_run_status, find_due_runs}
use go_chatgpt_tasks.Task.Repo.Keeps.{update_run_status-Keeps}
use go_chatgpt_tasks.Task.Worker.Calls.{append_event_of-Keeps, msg_of-Keeps}
use go_chatgpt_tasks.Task.Worker.Budget.{RunsInBudget, RowInBudget, InBudget, Updates-RunsInBudget}
use go_chatgpt_tasks.Task.Watcher.{
  enqueued, scan_run, scan_runs, scan_bucket, scan_buckets, scan_once,
}

-- What is known of a run that is due, and of its row.
abbrev Due : JobRun → Type 0
Due r = InBudget r.status r.attempts × (r.status ≡ pending)

abbrev DueRow : JobRunRow → Type 0
DueRow r = RowInBudget r × (r.status ≡ pending)

All-from_rows : (rows : List JobRunRow) → All DueRow rows → All Due (map job_run_from_row rows)
unfolding job_run_from_row
All-from_rows [] h = tt
All-from_rows (r ∷ rs) h = (h.0, All-from_rows rs h.1)

due-DueRow :
    (bucket : ℤ) (before : Time) (r : JobRunRow)
    → is_due bucket before r ≡ true
    → RowInBudget r
    → DueRow r
due-DueRow bucket before r e h = (h, ground arith)

find_due_runs-Keeps :
    (bucket : ℤ) (before : Time) (limit : ℕ)
    → Keeps RunsInBudget (find_due_runs bucket before limit) (All Due)
unfolding find_due_runs find_due_job_runs
find_due_runs-Keeps bucket before limit =
    keeps_bind RunsInBudget {Q = All DueRow} _ _
      (keeps_context _ _ _ (
        keeps_query _ _ λ t h. All-take DueRow limit _ (
          All-order_by DueRow _ _ (
            All-select RowInBudget DueRow _ t.job_runs (due-DueRow bucket (time_to_pg before)) h))))
      (λ rows h. keeps_pure _ _ (All-from_rows rows h))

queued-Held :
    (now : Time) (r s : JobRun)
    → Due r
    → mark_queued now r ≡ Outcome.ok s
    → (s.status ≡ queued) × (s.attempts ≡ 0)
unfolding mark_queued
queued-Held now r s h e = ground arith

pending-Held :
    (now : Time) (r s : JobRun)
    → (r.status ≡ queued) × (r.attempts ≡ 0)
    → mark_pending now r ≡ Outcome.ok s
    → (s.status ≡ pending) × (s.attempts ≡ 0)
unfolding mark_pending
pending-Held now r s h e = ground arith

-- The writes of a scan are of pending and queued runs without attempts.
update-Keeps :
    (r : JobRun)
    → (r.status ≡ pending) ⊎ (r.status ≡ queued)
    → r.attempts ≡ 0
    → Keeps RunsInBudget (update_run_status r) Any
update-Keeps r s a = update_run_status-Keeps _ r (Updates-RunsInBudget r (ground arith))

enqueued-Keeps :
    (r : JobRun)
    → (r.status ≡ queued) × (r.attempts ≡ 0)
    → (x : Result (Unit {0})) → Keeps RunsInBudget (enqueued r x) Any
enqueued-Keeps r h (ok u) = append_event_of-Keeps RunsInBudget (λ t es h. h) r _ _
enqueued-Keeps r h (err e) = keeps_bind _ _ _ (keeps_now _) λ now _.
    keeps_bind _ _ _ (keeps_lift _ (mark_pending now r)) λ s f.
      let (status, attempts) = pending-Held now r s h f in update-Keeps s (inl status) attempts

scan_run-Keeps : (r : JobRun) → Due r → Keeps RunsInBudget (scan_run r) Any
unfolding scan_run
scan_run-Keeps r h = keeps_bind _ _ _ (keeps_now _) λ now _.
    keeps_bind _ _ _ (keeps_lift _ (mark_queued now r)) λ s f.
      let held = queued-Held now r s h f in
      keeps_then _ _ _ (update-Keeps s (inr held.0) held.1) (
        keeps_bind _ _ _ (msg_of-Keeps _ s s.attempts)
          λ msg _. keeps_bind _ _ _ (keeps_try _ _ (keeps_send _ _)) λ x _. enqueued-Keeps s held x)

scan_runs-Keeps : (rs : List JobRun) → All Due rs → Keeps RunsInBudget (scan_runs rs) Any
unfolding scan_runs
scan_runs-Keeps [] h = keeps_pure _ tt tt
scan_runs-Keeps (r ∷ rs) h =
    keeps_then _ _ _ (keeps_quietly _ _ (scan_run-Keeps r h.0)) (scan_runs-Keeps rs h.1)

scan_buckets-Keeps : (before : Time) (bs : List ℤ) → Keeps RunsInBudget (scan_buckets before bs) Any
unfolding scan_buckets scan_bucket
scan_buckets-Keeps before [] = keeps_pure _ tt tt
scan_buckets-Keeps before (b ∷ bs) =
    keeps_then _ _ _
      (keeps_quietly _ _ (keeps_bind _ _ _ (find_due_runs-Keeps b before _) scan_runs-Keeps))
      (scan_buckets-Keeps before bs)

-- A scan, whatever calls of it fail, keeps the bounds on the failed attempts that every run has
-- behind it.
pub scan_once-RunsInBudget :
    (w : World) → RunsInBudget w.tables → RunsInBudget (scan_once w).1.tables
unfolding scan_once
scan_once-RunsInBudget w h =
    ((keeps_bind RunsInBudget {Q = Any} {R = Any} _ _ (keeps_now _)
        (λ now _. scan_buckets-Keeps _ _)).apply
      w h).0
