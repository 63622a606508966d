-- ===== src/Sql/Records.antt =====
-- internal/platform/postgres/sqlc/task.sql.go: the statements on the other tables. A statement that
-- a constraint refuses returns `none`, and the table stays.
use go_chatgpt_tasks.Base.{
  ℕ, Bool, true, false, not, ◌&&◌, ◌||◌, ◌==◌, leb, if◌then◌else◌, List, [], ◌∷◌, ◌++◌, Option,
  none, some, Text, text_eq, select, count,
}
use go_chatgpt_tasks.Base.Int.{ℤ, ◌+ℤ◌, leb_ℤ}
use go_chatgpt_tasks.Clock.{Time}
use go_chatgpt_tasks.Task.Domain.{Uuid, Kind, recurring, Status, status_eq, is_terminal_status}
use go_chatgpt_tasks.Task.Rows.{JobRow, JobRunRow}
use go_chatgpt_tasks.Sql.Tables.{
  RunEventRow, QuotaRow, in_progress, completed, IdempotencyRow, CostRow, update_where, find_where,
  exists_where, order_by,
}

abbrev pub is_recurring : Kind → Bool
is_recurring recurring = true
is_recurring _ = false

-- The CHECK on jobs.kind.
abbrev is_known_kind : Kind → Bool
is_known_kind (Kind.other s) = false
is_known_kind _ = true

abbrev has_job_id : Uuid → JobRow → Bool
has_job_id id j = j.id == id

-- The references: parent_job_id to jobs.
abbrev has_parent : Option Uuid → List JobRow → Bool
has_parent none jobs = true
has_parent (some id) jobs = exists_where (has_job_id id) jobs

abbrev is_nonnegative : ℤ → Bool
is_nonnegative n = leb_ℤ (ℤ.pos 0) n

-- INSERT INTO jobs, with the table's primary key, reference and CHECKs.
unfoldable pub insert_job : JobRow → List JobRow → Option (List JobRow)
insert_job row jobs =
    if exists_where (has_job_id row.id) jobs
      || not (has_parent row.parent_job_id jobs)
      || not (is_known_kind row.kind)
      || not (is_nonnegative row.interval_seconds)
    then none
    else some (jobs ++ row ∷ [])

unfoldable pub get_job_by_id : Uuid → List JobRow → Option JobRow
get_job_by_id id = find_where (has_job_id id)

abbrev opt_uuid_eq : Option Uuid → Uuid → Bool
opt_uuid_eq none id = false
opt_uuid_eq (some p) id = p == id

-- `trigger_on_parent_status = $2`: a comparison with NULL does not hold.
abbrev opt_status_eq : Option Status → Option Status → Bool
opt_status_eq (some s) (some t) = status_eq s t
opt_status_eq _ _ = false

abbrev oldest_job_first : JobRow → JobRow → Bool
oldest_job_first a b = leb a.created_at b.created_at

abbrev pub is_child : Uuid → Option Status → JobRow → Bool
is_child parent trigger j =
    opt_uuid_eq j.parent_job_id parent && opt_status_eq j.trigger_on_parent_status trigger

unfoldable pub find_child_jobs : Uuid → Option Status → List JobRow → List JobRow
find_child_jobs parent trigger jobs =
    order_by oldest_job_first (select (is_child parent trigger) jobs)

unfoldable pub count_jobs_created_since : Uuid → Time → List JobRow → ℕ
count_jobs_created_since tenant since =
    count (λ (j : JobRow). j.tenant_id == tenant && leb since j.created_at)

-- CountActiveRecurringJobs: recurring jobs with a run that is not terminal.
unfoldable pub count_active_recurring_jobs : Uuid → List JobRow → List JobRunRow → ℕ
count_active_recurring_jobs tenant jobs runs =
    count
      (λ (j : JobRow).
        j.tenant_id == tenant
        && (is_recurring j.kind
            && exists_where
                (λ (r : JobRunRow). r.job_id == j.id && not (is_terminal_status r.status)) runs))
      jobs

-- INSERT INTO run_events, with its primary key and its reference to job_runs.
unfoldable pub insert_run_event :
    List JobRunRow → RunEventRow → List RunEventRow → Option (List RunEventRow)
insert_run_event runs row events =
    if exists_where (λ (e : RunEventRow). e.id == row.id) events
      || not (exists_where (λ (r : JobRunRow). r.id == row.job_run_id) runs)
    then none
    else some (events ++ row ∷ [])

abbrev pub oldest_event_first : RunEventRow → RunEventRow → Bool
oldest_event_first a b = leb a.created_at b.created_at

unfoldable pub list_run_events_by_run : Uuid → Uuid → List RunEventRow → List RunEventRow
list_run_events_by_run tenant run_id events =
    order_by oldest_event_first
      (select (λ (e : RunEventRow). e.tenant_id == tenant && e.job_run_id == run_id) events)

unfoldable pub get_tenant_quota : Uuid → List QuotaRow → Option QuotaRow
get_tenant_quota tenant = find_where (λ (q : QuotaRow). q.tenant_id == tenant)

abbrev pub of_day : Uuid → ℕ → CostRow → Bool
of_day tenant day c = c.tenant_id == tenant && c.cost_date == day

abbrev pub add_cost : ℤ → CostRow → CostRow
add_cost cents c = record c { cost_cents = c.cost_cents +ℤ cents }

-- The stored total of a tenant's day, if there is a row.
unfoldable pub cost_of_day : Uuid → ℕ → List CostRow → Option ℤ
cost_of_day tenant day [] = none
cost_of_day tenant day (c ∷ cs) =
    if of_day tenant day c then some c.cost_cents else cost_of_day tenant day cs

-- ReserveDailyLLMCost: a first row is inserted as it is; a row that is there grows only within the
-- limit. `none` is the result without a row, pgx.ErrNoRows.
abbrev pub reserve_on : Uuid → ℕ → ℤ → ℤ → List CostRow → Option ℤ → Option (List CostRow)
reserve_on tenant day cents limit costs none =
    some (costs ++ record { tenant_id = tenant; cost_date = day; cost_cents = cents } ∷ [])
reserve_on tenant day cents limit costs (some total) =
    if leb_ℤ (total +ℤ cents) limit
    then some (update_where (of_day tenant day) (add_cost cents) costs)
    else none

unfoldable pub reserve_daily_llm_cost : Uuid → ℕ → ℤ → ℤ → List CostRow → Option (List CostRow)
reserve_daily_llm_cost tenant day cents limit costs =
    reserve_on tenant day cents limit costs (cost_of_day tenant day costs)

unfoldable pub adjust_daily_llm_cost : ℤ → Uuid → ℕ → List CostRow → List CostRow
adjust_daily_llm_cost delta tenant day = update_where (of_day tenant day) (add_cost delta)

abbrev pub has_key : Text → IdempotencyRow → Bool
has_key key r = text_eq r.idempotency_key key

-- BeginIdempotency: nothing ON CONFLICT (idempotency_key). The number of rows, and the table.
unfoldable pub begin_idempotency :
    Text → Uuid → Text → Time → Time → List IdempotencyRow → ℕ × List IdempotencyRow
begin_idempotency key run_id handler created_at updated_at records =
    if exists_where (has_key key) records then (0, records) else (
      1,
      records
          ++ record {
            idempotency_key = key;
            job_run_id = run_id;
            handler_name = handler;
            status = in_progress;
            response_hash = none;
            created_at = created_at;
            updated_at = updated_at;
          }
            ∷ [],
    )

unfoldable pub get_idempotency : Text → List IdempotencyRow → Option IdempotencyRow
get_idempotency key = find_where (has_key key)

abbrev complete_row : Option Text → Time → IdempotencyRow → IdempotencyRow
complete_row hash updated_at r = record r {
  status = completed;
  response_hash = hash;
  updated_at = updated_at;
}

unfoldable pub complete_idempotency :
    Text → Option Text → Time → List IdempotencyRow → ℕ × List IdempotencyRow
complete_idempotency key hash updated_at records =
    (count (has_key key) records, update_where (has_key key) (complete_row hash updated_at) records)
