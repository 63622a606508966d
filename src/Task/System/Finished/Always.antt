-- ===== src/Task/System/Finished/Always.antt =====
-- The program as a whole: what it does to a run that has ended.
use go_chatgpt_tasks.Base.{◌≡◌, refl, true, false, inl, inr, List, [], ◌∷◌, ◌++◌, All, Option, Text}
use go_chatgpt_tasks.Clock.{time_to_pg}
use go_chatgpt_tasks.Task.Domain.{Uuid, JobRun, is_terminal_status}
use go_chatgpt_tasks.Task.Rows.{JobRunRow, job_run_from_row, job_run_to_insert_params}
use go_chatgpt_tasks.Sql.Tables.{Tables, exists_where}
use go_chatgpt_tasks.Sql.Tables.Laws.{All-append, All-update_where, find_where-append}
use go_chatgpt_tasks.Sql.Runs.{
  get_job_run_by_id, has_id, cancel_pending_job_runs, to_cancel, cancel_row,
}
use go_chatgpt_tasks.Task.Effect.{World, Result, ok, err}
use go_chatgpt_tasks.Task.Effect.Keeps.{
  Any, Any-On, Keeps, keeps_pure, keeps_bind, keeps_context, keeps_now, keeps_statement,
}
use go_chatgpt_tasks.Task.Effect.Atomic.{AllOrNothing}
use go_chatgpt_tasks.Task.Repo.{cancel_pending_runs_by_job}
use go_chatgpt_tasks.Task.Recurrence.Location.{Zone}
use go_chatgpt_tasks.Task.RecurringWatcher.{scan_recurring}
use go_chatgpt_tasks.Task.RecurringWatcher.Grows.{Follows, scan_recurring-Grown}
use go_chatgpt_tasks.Task.Service.{Identity, Service}
use go_chatgpt_tasks.Task.Service.Tenants.{find_where-update_where_same, not_to_cancel}
use go_chatgpt_tasks.Task.Service.Create.{CreateInput, create}
use go_chatgpt_tasks.Task.Service.Create.Atomic.{Creation, create-AllOrNothing}
use go_chatgpt_tasks.Task.Worker.Invariants.{LeavesRuns}
use go_chatgpt_tasks.Task.Worker.Terminal.{Stored}
use go_chatgpt_tasks.Task.System.{Config, Steps}
use go_chatgpt_tasks.Task.System.Cancels.{cancel_job-Keeps}
use go_chatgpt_tasks.Task.System.Preserved.{Preserved, steps-Kept}
use go_chatgpt_tasks.Task.System.Finished.{FinishedRow, Finished, unused-other, messages-Finished}
use go_chatgpt_tasks.Task.System.Finished.Scans.{scans-Finished}

module _ (id : Uuid) (row : JobRunRow) where
  -- Rows are added whose identifiers no run had.
  added-Finished :
      (t t' : Tables) (added : List JobRunRow)
      → t'.job_runs ≡ t.job_runs ++ added
      → All (λ (r : JobRunRow). exists_where (has_id r.id) t.job_runs ≡ false) added
      → Finished id row t
      → Finished id row t'
  unfolding Finished get_job_run_by_id
  added-Finished t t' added grown unused (h, f) = (
    rw grown (find_where-append (has_id id) t.job_runs added row h),
    rw grown (All-append (FinishedRow id row) t.job_runs added f (others added unused)),
  )
    where
      others :
          (rows : List JobRunRow)
          → All (λ (r : JobRunRow). exists_where (has_id r.id) t.job_runs ≡ false) rows
          → All (FinishedRow id row) rows
      others [] u = tt
      others (r ∷ rs) u =
          ((λ same. absurd (unused-other id row r.id t h (u.0) same)), others rs (u.1))

  creates-Finished :
      (load_location : Text → Option Zone) (s : Service) (user : Identity) (x : CreateInput)
      → Keeps (Finished id row) (create load_location s user x) Any
  unfolding job_run_to_insert_params
  creates-Finished load_location s user x = record {
    apply = λ w h. (
      go w h (create load_location s user x w) (create-AllOrNothing load_location s user x w),
      Any-On _,
    );
  }
    where
      made :
          (w : World) (t : Tables)
          → Finished id row w.tables
          → Creation load_location user w.tables t
          → Finished id row t
      made w t h c =
          added-Finished w.tables t (job_run_to_insert_params c.run ∷ []) (rw (c.stored) refl)
            (c.unused, tt) h

      go :
          (w : World)
          → Finished id row w.tables
          → (y : Result JobRun × World)
          → AllOrNothing w.tables (Creation load_location user w.tables) y
          → Finished id row y.1.tables
      go w h (ok r, v) c = made w v.tables h c
      go w h (err e, v) (inl same) = rw same h
      go w h (err e, v) (inr c) = made w v.tables h c

  recurring-Finished :
      (load_location : Text → Option Zone) (w : World)
      → Finished id row w.tables
      → Finished id row (scan_recurring load_location w).1.tables
  recurring-Finished load_location w h =
      let (added, (grown, follow)) = scan_recurring-Grown load_location w in
      added-Finished w.tables _ added grown (unused added follow) h
    where
      unused :
          (rows : List JobRunRow)
          → All (Follows w.tables) rows
          → All (λ (r : JobRunRow). exists_where (has_id r.id) w.tables.job_runs ≡ false) rows
      unused [] u = tt
      unused (r ∷ rs) u = (u.0.0, unused rs (u.1))

  pending-Finished :
      is_terminal_status row.status ≡ true
      → (tenant job_id : Uuid)
      → Keeps (Finished id row) (cancel_pending_runs_by_job tenant job_id) Any
  unfolding cancel_pending_runs_by_job cancel_pending_job_runs Finished get_job_run_by_id
  pending-Finished done tenant job_id = keeps_bind _ _ _ (keeps_now _) λ now _.
      keeps_bind _ {Q = Any} _ _
        (keeps_context _ _ _ (
          keeps_statement _ _ λ t (h, f). (
            (
              find_where-update_where_same (to_cancel tenant job_id) (has_id id)
                  (cancel_row (time_to_pg now) (time_to_pg now)) t.job_runs row (λ y. refl)
                  (not_to_cancel tenant job_id row (inr done)) h,
              All-update_where (FinishedRow id row) (to_cancel tenant job_id)
                  (cancel_row (time_to_pg now) (time_to_pg now)) t.job_runs (λ x e g same. refl) f,
            ),
            tt,
          )))
        (λ rows _. keeps_pure _ _ tt)

  Finished-Preserved :
      (g : Config)
      → LeavesRuns g.worker
      → is_terminal_status row.status ≡ true
      → Preserved g (Finished id row)
  unfolding Finished job_run_from_row
  Finished-Preserved g leaves done = record {
    messages = messages-Finished id row g.worker done leaves;
    scans = scans-Finished id row;
    recurring_scans = recurring-Finished g.load_location;
    creates = λ load_location. creates-Finished load_location g.handler.svc;
    cancels = cancel_job-Keeps (Finished id row) (λ t es h. h) (pending-Finished done);
    saves = λ u t valid h. (h, tt);
  }

  -- Whatever the program does, in whatever order and whatever calls fail, the row of a run that has
  -- succeeded, failed or been cancelled stays as it is, if no row of its identifier that has not ended
  -- is there before, and the executor writes no runs and no quotas.
  pub Steps-Stored :
      (g : Config) (v w : World)
      → LeavesRuns g.worker
      → is_terminal_status row.status ≡ true
      → Steps g v w
      → Stored id row v.tables
      → All (λ (r : JobRunRow). r.id ≡ id → is_terminal_status r.status ≡ true) v.tables.job_runs
      → Stored id row w.tables
  unfolding Finished
  Steps-Stored g v w leaves done steps h f =
      (steps-Kept g (Finished id row) (Finished-Preserved g leaves done) v w steps (h, f)).0
