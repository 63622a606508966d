-- ===== src/Sql/Runs.antt =====
-- internal/platform/postgres/sqlc/task.sql.go: the statements on job_runs. A statement that a
-- constraint of the table refuses returns `none`, and the table stays.
pub mod Laws
pub mod Distinct
use go_chatgpt_tasks.Base.{
  ℕ, suc, ◌+◌, Bool, true, false, not, ◌&&◌, ◌||◌, ◌==◌, leb, if◌then◌else◌, List, [], ◌∷◌, ◌++◌,
  map, Option, none, some, select, count, take, drop,
}
use go_chatgpt_tasks.Base.Int.{ℤ, pos, leb_ℤ, ltb_ℤ}
use go_chatgpt_tasks.Clock.{Time}
use go_chatgpt_tasks.Task.Domain.{
  Uuid, Status, pending, queued, running, retry, cancelled, is_running,
}
use go_chatgpt_tasks.Task.Rows.{JobRow, JobRunRow, UpdateStatusParams}
use go_chatgpt_tasks.Sql.Tables.{update_where, find_where, exists_where, order_by}

abbrev pub is_pending : Status → Bool
is_pending pending = true
is_pending _ = false

-- status IN ('queued', 'retry')
abbrev pub is_startable : Status → Bool
is_startable queued = true
is_startable retry = true
is_startable _ = false

-- status IN ('pending', 'queued', 'retry')
abbrev pub is_cancellable : Status → Bool
is_cancellable pending = true
is_cancellable queued = true
is_cancellable retry = true
is_cancellable _ = false

-- status IN ('queued', 'running', 'retry')
abbrev pub is_in_flight : Status → Bool
is_in_flight queued = true
is_in_flight running = true
is_in_flight retry = true
is_in_flight _ = false

-- The CHECK on job_runs.status.
abbrev pub is_known : Status → Bool
is_known (Status.other s) = false
is_known _ = true

abbrev pub has_id : Uuid → JobRunRow → Bool
has_id id r = r.id == id

abbrev pub same_sequence : Uuid → ℕ → JobRunRow → Bool
same_sequence job_id n r = r.job_id == job_id && r.sequence == n

-- INSERT INTO job_runs: the primary key, UNIQUE (job_id, sequence), the reference to jobs and the
-- CHECK on the status can refuse the row.
unfoldable pub insert_job_run : List JobRow → JobRunRow → List JobRunRow → Option (List JobRunRow)
insert_job_run jobs row runs =
    if exists_where (has_id row.id) runs
      || exists_where (same_sequence row.job_id row.sequence) runs
      || not (exists_where (λ (j : JobRow). j.id == row.job_id) jobs)
      || not (is_known row.status)
    then none
    else some (runs ++ row ∷ [])

-- The columns that InsertJobRunIfAbsent sets itself.
abbrev pub fresh_row : JobRunRow → JobRunRow
fresh_row row = record row {
  status = pending;
  attempts = 0;
  error_code = none;
  error_message = none;
  started_at = none;
  completed_at = none;
  failed_at = none;
}

-- InsertJobRunIfAbsent writes a fresh pending run, and nothing ON CONFLICT (job_id, sequence).
-- The result is the number of rows written.
unfoldable pub insert_job_run_if_absent :
    List JobRow → JobRunRow → List JobRunRow → Option (ℕ × List JobRunRow)
insert_job_run_if_absent jobs row runs =
    if exists_where (same_sequence row.job_id row.sequence) runs
    then some (0, runs)
    else if exists_where (has_id row.id) runs
        || not (exists_where (λ (j : JobRow). j.id == row.job_id) jobs)
    then none
    else some (1, runs ++ fresh_row row ∷ [])

abbrev pub apply_status : UpdateStatusParams → JobRunRow → JobRunRow
apply_status p r = record r {
  status = p.status;
  attempts = p.attempts;
  error_code = p.error_code;
  error_message = p.error_message;
  started_at = p.started_at;
  completed_at = p.completed_at;
  failed_at = p.failed_at;
  updated_at = p.updated_at;
}

-- UPDATE job_runs … WHERE id: the number of rows, and the table.
unfoldable pub update_job_run_status : UpdateStatusParams → List JobRunRow → ℕ × List JobRunRow
update_job_run_status p runs =
    (count (has_id p.id) runs, update_where (has_id p.id) (apply_status p) runs)

abbrev pub runs_of : Uuid → JobRunRow → Bool
runs_of tenant r = r.tenant_id == tenant && is_running r.status

-- SELECT COUNT(*) … status = 'running' of a tenant.
abbrev pub count_running : Uuid → List JobRunRow → ℕ
count_running tenant = count (runs_of tenant)

abbrev pub startable_id : Uuid → JobRunRow → Bool
startable_id id r = r.id == id && is_startable r.status

abbrev pub mark_row : Time → Time → JobRunRow → JobRunRow
mark_row started_at updated_at r = record r {
  status = running;
  started_at = some started_at;
  updated_at = updated_at;
}

-- TryMarkJobRunRunning: the row is taken only if it is queued or to be retried, and fewer than
-- `limit` runs of the tenant are running. The count is read from the statement's snapshot, which is
-- taken before the statement waits for the advisory lock; the rows are updated as they then are.
unfoldable pub try_mark_job_run_running :
    Uuid → Time → Time → Uuid → ℤ → List JobRunRow → List JobRunRow → Bool × List JobRunRow
try_mark_job_run_running tenant started_at updated_at id limit snapshot runs =
    if ltb_ℤ (pos (count_running tenant snapshot)) limit
    then (
      exists_where (startable_id id) runs,
      update_where (startable_id id) (mark_row started_at updated_at) runs,
    )
    else (false, runs)

unfoldable pub get_job_run_by_id : Uuid → List JobRunRow → Option JobRunRow
get_job_run_by_id id = find_where (has_id id)

abbrev newest_first : JobRunRow → JobRunRow → Bool
newest_first a b = leb b.created_at a.created_at

abbrev highest_first : JobRunRow → JobRunRow → Bool
highest_first a b = leb b.sequence a.sequence

abbrev earliest_first : JobRunRow → JobRunRow → Bool
earliest_first a b = leb a.scheduled_at b.scheduled_at

unfoldable pub list_job_runs : Uuid → ℕ → ℕ → List JobRunRow → List JobRunRow
list_job_runs tenant limit offset runs =
    take limit
      (drop offset (order_by newest_first (select (λ (r : JobRunRow). r.tenant_id == tenant) runs)))

unfoldable pub count_job_runs : Uuid → List JobRunRow → ℕ
count_job_runs tenant = count (λ (r : JobRunRow). r.tenant_id == tenant)

abbrev pub of_job : Uuid → Uuid → JobRunRow → Bool
of_job tenant job_id r = r.tenant_id == tenant && r.job_id == job_id

unfoldable pub list_job_runs_by_job : Uuid → Uuid → ℕ → ℕ → List JobRunRow → List JobRunRow
list_job_runs_by_job tenant job_id limit offset runs =
    take limit (drop offset (order_by highest_first (select (of_job tenant job_id) runs)))

unfoldable pub count_job_runs_by_job : Uuid → Uuid → List JobRunRow → ℕ
count_job_runs_by_job tenant job_id = count (of_job tenant job_id)

abbrev pub is_due : ℤ → Time → JobRunRow → Bool
is_due bucket before r =
    leb_ℤ r.time_bucket bucket && (is_pending r.status && leb r.scheduled_at before)

unfoldable pub find_due_job_runs : ℤ → Time → ℕ → List JobRunRow → List JobRunRow
find_due_job_runs bucket before limit runs =
    take limit (order_by earliest_first (select (is_due bucket before) runs))

abbrev pub cancel_row : Time → Time → JobRunRow → JobRunRow
cancel_row completed_at updated_at r = record r {
  status = cancelled;
  completed_at = some completed_at;
  updated_at = updated_at;
}

abbrev pub to_cancel : Uuid → Uuid → JobRunRow → Bool
to_cancel tenant job_id r = of_job tenant job_id r && is_cancellable r.status

-- UPDATE … RETURNING: the rows as they were written, and the table.
unfoldable pub cancel_pending_job_runs :
    Time → Time → Uuid → Uuid → List JobRunRow → List JobRunRow × List JobRunRow
cancel_pending_job_runs completed_at updated_at tenant job_id runs = (
  map (cancel_row completed_at updated_at) (select (to_cancel tenant job_id) runs),
  update_where (to_cancel tenant job_id) (cancel_row completed_at updated_at) runs,
)

-- CountActiveRuns.
unfoldable pub count_active_runs : Uuid → List JobRunRow → ℕ
count_active_runs tenant = count (λ (r : JobRunRow). r.tenant_id == tenant && is_in_flight r.status)
