-- ===== src/Task/System/Finished.antt =====
-- The program as a whole: a run that has ended is never written again.
pub mod Scans
pub mod Always
use go_chatgpt_tasks.Base.{
  ℕ, map, select, ◌≡◌, ◌≢◌, refl, subst, inl, inr, ◌==◌, Bool, true, false, List, [], ◌∷◌, ◌++◌,
  All, Option, some, none, Text, Bool-cases, arith,
}
use go_chatgpt_tasks.Base.Int.{ℤ}
use go_chatgpt_tasks.Clock.{Time, time_to_pg}
use go_chatgpt_tasks.Task.Domain.{Uuid, Job, JobRun, is_terminal, is_terminal_status}
use go_chatgpt_tasks.Task.Transitions.{
  Outcome, mark_running, mark_success, mark_retry, mark_failed, set_error, mark_queued,
  mark_pending,
}
use go_chatgpt_tasks.Task.Rows.{
  JobRunRow, job_run_from_row, job_run_to_insert_params, job_run_to_update_status_params,
}
use go_chatgpt_tasks.Sql.Tables.{Tables, find_where, exists_where}
use go_chatgpt_tasks.Sql.Tables.Laws.{
  All-append, All-update_where, All-select, All-take, All-order_by,
}
use go_chatgpt_tasks.Sql.Runs.Laws.{insert_job_run-some, try_mark_cases}
use go_chatgpt_tasks.Sql.Runs.{
  update_job_run_status, get_job_run_by_id, has_id, apply_status, startable_id, mark_row, is_due,
  find_due_job_runs,
}
use go_chatgpt_tasks.Task.Repo.Keeps.{Inserts, Updates, Claims, Reads, update_run_status-Keeps}
use go_chatgpt_tasks.Task.Effect.{World, Result, ok, err}
use go_chatgpt_tasks.Task.Effect.Keeps.{
  Any, Any-On, Keeps, keeps_pure, keeps_bind, keeps_then, keeps_lift, keeps_context, keeps_quietly,
  keeps_try, keeps_now, keeps_send, keeps_query,
}
use go_chatgpt_tasks.Task.Repo.{update_run_status, find_due_runs}
use go_chatgpt_tasks.Task.Worker.Calls.{append_event_of-Keeps, msg_of-Keeps}
use go_chatgpt_tasks.Task.Watcher.{
  enqueued, scan_run, scan_runs, scan_bucket, scan_buckets, scan_once,
}
use go_chatgpt_tasks.Task.Worker.{Worker, QueuedMessage, process}
use go_chatgpt_tasks.Task.Worker.Invariants.{Laws, LeavesRuns, LeavesRuns-Keeps, process-Keeps}
use go_chatgpt_tasks.Task.Worker.Terminal.{
  Stored, Inserts-Stored, Updates-Stored, Claims-Stored, reads-Stored,
}

found-exists :
    (p : JobRunRow → Bool) (rows : List JobRunRow) (row : JobRunRow)
    → find_where p rows ≡ some row
    → exists_where p rows ≡ true
found-exists p [] row h = ground arith
found-exists p (r ∷ rs) row h = ground (arith, found-exists p rs row)

module _ (id : Uuid) (row : JobRunRow) where
  abbrev pub FinishedRow : JobRunRow → Type 0
  FinishedRow r = r.id ≡ id → is_terminal_status r.status ≡ true

  -- The table has the row, and no row of its identifier that has not ended.
  unfoldable pub Finished : Tables → Type 0
  Finished t = Stored id row t × All FinishedRow t.job_runs

  -- An identifier that no run had is another one.
  pub unused-other :
      (new : Uuid) (t : Tables)
      → Stored id row t
      → exists_where (has_id new) t.job_runs ≡ false
      → new ≢ id
  unfolding get_job_run_by_id
  unused-other new t h unused same =
      let found = found-exists (has_id id) t.job_runs row h in
      let unused' = subst (λ i. exists_where (has_id i) t.job_runs ≡ false) same unused in
      ground (arith, found, unused')

  Inserts-Finished : (r : JobRun) → Inserts Finished r
  unfolding Finished job_run_to_insert_params
  Inserts-Finished r t runs e (h, f) =
      let (added, unused, _) =
        insert_job_run-some t.jobs (job_run_to_insert_params r) t.job_runs runs e in
      (
        Inserts-Stored id row r t runs e h,
        rw added (
            All-append FinishedRow t.job_runs _ f
              (λ same. absurd (unused-other r.id t h unused same), tt)),
      )

  pub Updates-Finished : (r : JobRun) → r.id ≢ id → Updates Finished r
  unfolding Finished update_job_run_status job_run_to_update_status_params
  Updates-Finished r apart t (h, f) = (
    Updates-Stored id row r apart t h,
    All-update_where FinishedRow (has_id r.id) (apply_status (job_run_to_update_status_params r))
        t.job_runs (λ x e g. ground arith) f,
  )

  Claims-Finished : (r : JobRun) (limit : ℤ) → r.id ≢ id → Claims Finished r limit
  unfolding Finished
  Claims-Finished r limit apart t (h, f) = (
    Claims-Stored id row r limit apart t h,
    elim (try_mark_cases r.tenant_id (time_to_pg r.started_at) (time_to_pg r.updated_at) r.id limit
        t.job_runs t.job_runs) [
          | inl same ↦ rw same f
          | inr (_, claimed) ↦ rw claimed (
              All-update_where FinishedRow (startable_id r.id)
                (mark_row (time_to_pg r.started_at) (time_to_pg r.updated_at)) t.job_runs
                (λ x e g. ground arith) f)
        ],
  )

  reads-Finished :
      is_terminal (job_run_from_row row) ≡ true
      → Reads Finished (λ r. r.id ≡ id → is_terminal r ≡ true)
  unfolding Finished
  reads-Finished done t i found (h, f) e = reads-Stored id row done t i found h e

  module _ (k : Worker) (done : is_terminal (job_run_from_row row) ≡ true)
      (leaves : LeavesRuns k) where
    laws : Laws k Finished
    unfolding mark_running mark_success mark_retry mark_failed set_error Finished
    laws = record {
      Held = λ r. r.id ≡ id → is_terminal r ≡ true;
      Active = λ r. r.id ≢ id;
      Writable = λ r. r.id ≢ id;
      Fits = λ _ _. Unit;
      free = λ t es h. h;
      inserts = λ r s a. Inserts-Finished r;
      updates = Updates-Finished;
      claims = λ r limit a f. Claims-Finished r limit a;
      limits = λ t tenant defaults e h. tt;
      begins = λ now r s h e same. ground (arith, h);
      resumes = λ r h e same. ground (arith, h same);
      unlimited = λ r e a. a;
      succeeds = λ now r s a e. ground arith;
      fails = λ now code msg r s a e f. ground arith;
      retries = λ now code msg r s a e f. ground arith;
      executes = λ r a.
          LeavesRuns-Keeps k
            (λ runs _. (get_job_run_by_id id runs ≡ some row) × All FinishedRow runs) leaves r;
    }

    pub messages-Finished :
        (qm : QueuedMessage) (reclaimed : Bool) (w : World)
        → Finished w.tables
        → Finished (process k qm reclaimed w).1.tables
    unfolding laws
    messages-Finished qm reclaimed w h =
        ((process-Keeps k Finished laws (reads-Finished done) qm reclaimed).apply w h).0
