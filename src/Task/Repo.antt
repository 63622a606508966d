-- ===== src/Task/Repo.antt =====
-- internal/task/repo_postgres.go: the Repo port on the tables.
pub mod Keeps
pub mod Atomic
pub use go_chatgpt_tasks.Shared.{Pagination}
use go_chatgpt_tasks.Base.{
  ℕ, zero, suc, ◌+◌, ◌/◌, Bool, true, false, ◌==◌, if◌then◌else◌, List, [], ◌∷◌, map, Option, none,
  some, Text, codes, length,
}
use go_chatgpt_tasks.Base.Int.{negsuc, pos, wrap_int32, ℤ}
use go_chatgpt_tasks.Clock.{Time, time_to_pg}
use go_chatgpt_tasks.Task.Errors.{Error, Sentinel, sentinel, job_not_found, job_run_not_found}
use go_chatgpt_tasks.Task.Domain.{Uuid, Status, Job, JobRun, Payload, PayloadValue, RunEvent}
use go_chatgpt_tasks.Task.Rows.{
  JobRow, JobRunRow, job_to_insert_params, job_from_sqlc, job_run_to_insert_params,
  job_run_to_update_status_params, job_run_from_row, status_ptr,
}
use go_chatgpt_tasks.Sql.Tables.{Tables, RunEventRow}
use go_chatgpt_tasks.Sql.Runs.{
  insert_job_run, insert_job_run_if_absent, update_job_run_status, try_mark_job_run_running,
  get_job_run_by_id, list_job_runs, count_job_runs, list_job_runs_by_job, count_job_runs_by_job,
  find_due_job_runs, cancel_pending_job_runs,
}
use go_chatgpt_tasks.Sql.Records.{
  insert_job, get_job_by_id, find_child_jobs, insert_run_event, list_run_events_by_run,
}
use go_chatgpt_tasks.Task.Effect.{
  M, ◌>>=◌, ◌>>◌, pure, fail, with_context, time_now, statement, query, End, commit, rollback,
  transaction,
}

-- The statements, each as a call that replaces its table.
abbrev with_jobs : Tables → Option (List JobRow) → Option (Unit {0} × Tables)
with_jobs t none = none
with_jobs t (some jobs) = some (tt, record t { jobs = jobs })

abbrev with_runs : Tables → Option (List JobRunRow) → Option (Unit {0} × Tables)
with_runs t none = none
with_runs t (some runs) = some (tt, record t { job_runs = runs })

abbrev with_events : Tables → Option (List RunEventRow) → Option (Unit {0} × Tables)
with_events t none = none
with_events t (some events) = some (tt, record t { run_events = events })

abbrev pub with_counted {ℓ} :
    {A : Type ℓ} → Tables → Option (A × List JobRunRow) → Option (A × Tables)
with_counted t none = none
with_counted t (some (a, runs)) = some (a, record t { job_runs = runs })

-- payloadToJSON, with the JSON object as its members: nil becomes {}.
abbrev payload_to_json : Payload → List (Text × PayloadValue)
payload_to_json none = []
payload_to_json (some members) = members

-- payloadFromJSON of such a column, which is never empty bytes.
abbrev payload_from_json : List (Text × PayloadValue) → Payload
payload_from_json members = some members

unfoldable pub run_event_to_insert_params : RunEvent → RunEventRow
run_event_to_insert_params e = record {
  id = e.id;
  tenant_id = e.tenant_id;
  job_id = e.job_id;
  job_run_id = e.job_run_id;
  status = e.status;
  event_type = e.event_type;
  event_payload = payload_to_json e.payload;
  created_at = time_to_pg e.created_at;
}

unfoldable pub run_event_from_sqlc : RunEventRow → RunEvent
run_event_from_sqlc r = record {
  id = r.id;
  tenant_id = r.tenant_id;
  job_id = r.job_id;
  job_run_id = r.job_run_id;
  status = r.status;
  event_type = r.event_type;
  payload = payload_from_json r.event_payload;
  created_at = r.created_at;
}

abbrev insert_job_stmt : Job → M (Unit {0})
insert_job_stmt j =
    with_context (codes "insert job")
      (statement (λ t. with_jobs t (insert_job (job_to_insert_params j) t.jobs)))

abbrev insert_run_stmt : JobRun → M (Unit {0})
insert_run_stmt r =
    with_context (codes "insert job run")
      (statement (λ t. with_runs t (insert_job_run t.jobs (job_run_to_insert_params r) t.job_runs)))

abbrev insert_event_stmt : Text → RunEvent → M (Unit {0})
insert_event_stmt context e = with_context context (
    statement (λ t.
      with_events t (insert_run_event t.job_runs (run_event_to_insert_params e) t.run_events)))

abbrev update_status_stmt : Text → JobRun → M ℕ
update_status_stmt context r = with_context context (
    statement (λ t.
      with_counted t (some (update_job_run_status (job_run_to_update_status_params r) t.job_runs))))

unfoldable pub save_job : Job → M (Unit {0})
save_job = insert_job_stmt

unfoldable pub save_run : JobRun → M (Unit {0})
save_run = insert_run_stmt

unfoldable pub insert_events : List RunEvent → M (Unit {0})
insert_events [] = pure tt
insert_events (e ∷ es) = insert_event_stmt (codes "insert run event") e >> insert_events es

unfoldable pub create_job_with_run : Job → JobRun → List RunEvent → M (Unit {0})
create_job_with_run j run events =
    transaction (codes "begin create job") (codes "commit create job")
      (insert_job_stmt j >> insert_run_stmt run >> insert_events events >> pure (commit tt))

-- `if rows == 0 { return ErrJobRunNotFound }`.
abbrev found : ℕ → M (Unit {0})
found zero = fail (sentinel job_run_not_found)
found (suc n) = pure tt

unfoldable pub update_run_status : JobRun → M (Unit {0})
update_run_status run = update_status_stmt (codes "update job run") run >>= found

unfoldable pub persist_run_transition : JobRun → RunEvent → M (Unit {0})
persist_run_transition run event =
    transaction (codes "begin run transition") (codes "commit run transition") (
      (update_status_stmt (codes "update job run transition") run >>= found)
      >> insert_event_stmt (codes "insert run transition event") event
      >> pure (commit tt))

abbrev claim_event : RunEvent → Bool → M (End Bool)
claim_event event false = pure (rollback false)
claim_event event true =
    insert_event_stmt (codes "insert job run started event") event >> pure (commit true)

-- The statement's snapshot is the table as it is: no other claim of the tenant is under way.
unfoldable pub try_mark_run_running : JobRun → RunEvent → ℤ → M Bool
try_mark_run_running run event limit =
    transaction (codes "begin run slot claim") (codes "commit run slot claim") (
      with_context (codes "try mark job run running") (
        statement (λ t. with_counted t (
          some (
            try_mark_job_run_running run.tenant_id (time_to_pg run.started_at)
              (time_to_pg run.updated_at) run.id limit t.job_runs t.job_runs))))
      >>= claim_event event)

abbrev pub or_missing : {A B : Type 0} → Sentinel → (A → B) → Option A → M B
or_missing s f none = fail (sentinel s)
or_missing s f (some a) = pure (f a)

unfoldable pub find_run_by_id : Uuid → M JobRun
find_run_by_id id =
    with_context (codes "query job run") (query (λ t. get_job_run_by_id id t.job_runs))
    >>= or_missing job_run_not_found job_run_from_row

unfoldable pub find_job : Uuid → M Job
find_job id =
    with_context (codes "query job") (query (λ t. get_job_by_id id t.jobs))
    >>= or_missing job_not_found job_from_sqlc

-- PageOffset: int32(p.Offset). The server refuses an OFFSET that is negative.
abbrev pub page_at : {A : Type 0} → ℤ → (ℕ → A) → Tables → Option (A × Tables)
page_at (pos n) f t = some (f n, t)
page_at (negsuc n) f t = none

abbrev pub paged : {A : Type 0} → Pagination → (Tables → ℕ → A) → M A
paged p f = statement (λ t. page_at (wrap_int32 (pos p.offset)) (f t) t)

unfoldable pub list_runs : Uuid → Pagination → M (List JobRun × ℕ)
list_runs tenant p = do
  rows ←
      with_context (codes "list job runs")
        (paged p (λ t n. list_job_runs tenant p.limit n t.job_runs))
  total ← with_context (codes "count job runs") (query (λ t. count_job_runs tenant t.job_runs))
  pure (map job_run_from_row rows, total)

unfoldable pub list_runs_by_job : Uuid → Uuid → Pagination → M (List JobRun × ℕ)
list_runs_by_job tenant job_id p = do
  rows ←
      with_context (codes "list job runs by job")
        (paged p (λ t n. list_job_runs_by_job tenant job_id p.limit n t.job_runs))
  total ←
      with_context (codes "count job runs by job")
        (query (λ t. count_job_runs_by_job tenant job_id t.job_runs))
  pure (map job_run_from_row rows, total)

unfoldable pub append_event : RunEvent → M (Unit {0})
append_event = insert_event_stmt (codes "insert run event")

unfoldable pub list_events : Uuid → Uuid → M (List RunEvent)
list_events tenant run_id = do
  rows ←
      with_context (codes "list run events")
        (query (λ t. list_run_events_by_run tenant run_id t.run_events))
  pure (map run_event_from_sqlc rows)

unfoldable pub find_due_runs : ℤ → Time → ℕ → M (List JobRun)
find_due_runs bucket before limit = do
  rows ←
      with_context (codes "find due job runs")
        (query (λ t. find_due_job_runs bucket (time_to_pg before) limit t.job_runs))
  pure (map job_run_from_row rows)

unfoldable pub cancel_pending_runs_by_job : Uuid → Uuid → M (List JobRun)
cancel_pending_runs_by_job tenant job_id = do
  now ← time_now
  rows ← with_context (codes "cancel pending job runs") (
      statement (λ t. with_counted t (
        some (cancel_pending_job_runs (time_to_pg now) (time_to_pg now) tenant job_id t.job_runs))))
  pure (map job_run_from_row rows)

unfoldable pub find_children : Uuid → Status → M (List Job)
find_children job_id status = do
  rows ←
      with_context (codes "find child jobs")
        (query (λ t. find_child_jobs job_id (status_ptr status) t.jobs))
  pure (map job_from_sqlc rows)

abbrev pub positive : ℕ → Bool
positive zero = false
positive (suc n) = true

unfoldable pub insert_run_if_absent : JobRun → M Bool
insert_run_if_absent run = do
  rows ← with_context (codes "insert job run if absent") (
      statement (λ t.
        with_counted t (insert_job_run_if_absent t.jobs (job_run_to_insert_params run) t.job_runs)))
  pure (positive rows)
