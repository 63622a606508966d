-- ===== src/Task/System/Finished/Scans.antt =====
-- internal/task/watcher.go: a scan and the runs that have ended.
use go_chatgpt_tasks.Base.{ℕ, map, select, ◌≢◌, List, [], ◌∷◌, All, arith}
use go_chatgpt_tasks.Base.Int.{ℤ}
use go_chatgpt_tasks.Clock.{Time, time_to_pg}
use go_chatgpt_tasks.Task.Domain.{Uuid, JobRun}
use go_chatgpt_tasks.Task.Transitions.{mark_queued, mark_pending}
use go_chatgpt_tasks.Task.Rows.{JobRunRow, job_run_from_row}
use go_chatgpt_tasks.Sql.Tables.Laws.{All-select, All-take, All-order_by}
use go_chatgpt_tasks.Sql.Runs.{is_due, find_due_job_runs}
use go_chatgpt_tasks.Task.Repo.Keeps.{update_run_status-Keeps}
use go_chatgpt_tasks.Task.Effect.{World, Result, ok, err}
use go_chatgpt_tasks.Task.Effect.Keeps.{
  Any, Keeps, keeps_pure, keeps_bind, keeps_then, keeps_lift, keeps_context, keeps_quietly,
  keeps_try, keeps_now, keeps_send, keeps_query,
}
use go_chatgpt_tasks.Task.Repo.{update_run_status, find_due_runs}
use go_chatgpt_tasks.Task.Worker.Calls.{append_event_of-Keeps, msg_of-Keeps}
use go_chatgpt_tasks.Task.Watcher.{
  enqueued, scan_run, scan_runs, scan_bucket, scan_buckets, scan_once,
}
use go_chatgpt_tasks.Task.System.Finished.{FinishedRow, Finished, Updates-Finished}

module _ (id : Uuid) (row : JobRunRow) where
  -- The watcher reads pending runs, which are others.
  Other : JobRun → Type 0
  Other r = r.id ≢ id

  due-Other :
      (bucket : ℤ) (before : Time) (rows : List JobRunRow)
      → All (FinishedRow id row) rows
      → All (λ (r : JobRunRow). (r.id ≢ id)) (select (is_due bucket before) rows)
  due-Other bucket before rows f =
      All-select (FinishedRow id row) (λ (r : JobRunRow). r.id ≢ id) (is_due bucket before) rows
        (λ r e g. ground arith) f

  All-from_rows :
      (rows : List JobRunRow)
      → All (λ (r : JobRunRow). r.id ≢ id) rows
      → All Other (map job_run_from_row rows)
  unfolding job_run_from_row Other
  All-from_rows [] h = tt
  All-from_rows (r ∷ rs) h = (h.0, All-from_rows rs h.1)

  find_due_runs-Other :
      (bucket : ℤ) (before : Time) (limit : ℕ)
      → Keeps (Finished id row) (find_due_runs bucket before limit) (All Other)
  unfolding find_due_runs find_due_job_runs Finished
  find_due_runs-Other bucket before limit =
      keeps_bind (Finished id row) {Q = All (λ (r : JobRunRow). r.id ≢ id)} _ _
        (keeps_context _ _ _ (
          keeps_query _ _ λ t h.
            All-take _ limit _
              (All-order_by _ _ _ (due-Other bucket (time_to_pg before) t.job_runs h.1))))
        (λ rows h. keeps_pure _ _ (All-from_rows rows h))

  update-Finished : (r : JobRun) → Other r → Keeps (Finished id row) (update_run_status r) Any
  unfolding Other
  update-Finished r apart =
      update_run_status-Keeps (Finished id row) r (Updates-Finished id row r apart)

  enqueued-Finished :
      (r : JobRun) → Other r → (x : Result (Unit {0})) → Keeps (Finished id row) (enqueued r x) Any
  unfolding Other mark_pending Finished
  enqueued-Finished r apart (ok u) = append_event_of-Keeps (Finished id row) (λ t es h. h) r _ _
  enqueued-Finished r apart (err e) = keeps_bind _ _ _ (keeps_now _) λ now _.
      keeps_bind _ _ _ (keeps_lift _ (mark_pending now r)) λ s f. update-Finished s (ground arith)

  scan_run-Finished : (r : JobRun) → Other r → Keeps (Finished id row) (scan_run r) Any
  unfolding scan_run Other mark_queued
  scan_run-Finished r apart = keeps_bind _ _ _ (keeps_now _) λ now _.
      keeps_bind _ _ _ (keeps_lift _ (mark_queued now r)) λ s f.
        keeps_then _ _ _ (update-Finished s (ground arith)) (
          keeps_bind _ _ _ (msg_of-Keeps _ s s.attempts) λ msg _.
            keeps_bind _ _ _ (keeps_try _ _ (keeps_send _ _))
              λ x _. enqueued-Finished s (ground arith) x)

  scan_runs-Finished :
      (rs : List JobRun) → All Other rs → Keeps (Finished id row) (scan_runs rs) Any
  unfolding scan_runs
  scan_runs-Finished [] h = keeps_pure _ tt tt
  scan_runs-Finished (r ∷ rs) h =
      keeps_then _ _ _ (keeps_quietly _ _ (scan_run-Finished r h.0)) (scan_runs-Finished rs h.1)

  scan_buckets-Finished :
      (before : Time) (bs : List ℤ) → Keeps (Finished id row) (scan_buckets before bs) Any
  unfolding scan_buckets scan_bucket
  scan_buckets-Finished before [] = keeps_pure _ tt tt
  scan_buckets-Finished before (b ∷ bs) =
      keeps_then _ _ _
        (keeps_quietly _ _ (keeps_bind _ _ _ (find_due_runs-Other b before _) scan_runs-Finished))
        (scan_buckets-Finished before bs)

  pub scans-Finished :
      (w : World) → Finished id row w.tables → Finished id row (scan_once w).1.tables
  unfolding scan_once
  scans-Finished w h =
      ((keeps_bind (Finished id row) {Q = Any} {R = Any} _ _ (keeps_now _)
          (λ now _. scan_buckets-Finished _ _)).apply
        w h).0
