-- ===== src/Task/Quotas.antt =====
-- internal/task/repo_quota_postgres.go: the QuotaRepo port on the tables. `defaults` is the quota of
-- a tenant without a row. A cost is stored as an int32.
pub mod Daily
use go_chatgpt_tasks.Base.{
  ℕ, zero, suc, ◌*◌, ◌/◌, Bool, true, false, if◌then◌else◌, List, Option, none, some, codes,
}
use go_chatgpt_tasks.Base.Int.{ℤ, leb_ℤ, pos, negsuc, wrap_int32}
use go_chatgpt_tasks.Clock.{Time, hour, time_to_pg}
use go_chatgpt_tasks.Task.Domain.{Uuid, Quota}
use go_chatgpt_tasks.Sql.Tables.{Tables, QuotaRow, CostRow}
use go_chatgpt_tasks.Sql.Runs.{count_active_runs}
use go_chatgpt_tasks.Sql.Records.{
  count_jobs_created_since, count_active_recurring_jobs, get_tenant_quota, reserve_daily_llm_cost,
  adjust_daily_llm_cost,
}
use go_chatgpt_tasks.Task.Effect.{M, ◌>>=◌, pure, with_context, time_now, statement, query}

abbrev pub quota_of_row : Quota → Option QuotaRow → Quota
quota_of_row defaults none = defaults
quota_of_row defaults (some row) = record {
  max_jobs_per_hour = row.max_jobs_per_hour;
  max_active_recurring = row.max_active_recurring_jobs;
  max_concurrent_runs = row.max_concurrent_runs;
  max_daily_llm_cost_cents = row.max_daily_llm_cost_cents;
}

unfoldable pub get : Quota → Uuid → M Quota
get defaults tenant =
    with_context (codes "get tenant quota")
      (query (λ t. quota_of_row defaults (get_tenant_quota tenant t.tenant_quotas)))

unfoldable pub count_jobs_since : Uuid → Time → M ℕ
count_jobs_since tenant since =
    with_context (codes "count jobs created since")
      (query (λ t. count_jobs_created_since tenant (time_to_pg since) t.jobs))

unfoldable pub count_active_recurring : Uuid → M ℕ
count_active_recurring tenant =
    with_context (codes "count active recurring jobs")
      (query (λ t. count_active_recurring_jobs tenant t.jobs t.job_runs))

unfoldable pub count_active_runs_of : Uuid → M ℕ
count_active_runs_of tenant =
    with_context (codes "count active runs") (query (λ t. count_active_runs tenant t.job_runs))

-- The UTC day whose date is `Format(time.DateOnly)`.
abbrev pub cost_day : Time → ℕ
cost_day t = t / (24 * hour)

-- What ReserveDailyLLMCost answers, and pgx.ErrNoRows as false.
abbrev pub reserved : Tables → Option (List CostRow) → Bool × Tables
reserved t none = (false, t)
reserved t (some costs) = (true, record t { tenant_llm_daily_cost = costs })

unfoldable pub reserve_daily_cost : Uuid → ℤ → ℤ → M Bool
reserve_daily_cost tenant cents limit =
    if leb_ℤ cents limit
    then (do
      now ← time_now
      with_context (codes "reserve daily llm cost") (
          statement (λ t. some (
            reserved t (
              reserve_daily_llm_cost tenant (cost_day now) (wrap_int32 cents) (wrap_int32 limit)
                t.tenant_llm_daily_cost)))))
    else pure false

abbrev pub adjusted : ℤ → Uuid → ℕ → Tables → Tables
adjusted delta tenant day t = record t {
  tenant_llm_daily_cost = adjust_daily_llm_cost delta tenant day t.tenant_llm_daily_cost;
}

abbrev pub adjust_on : Uuid → ℤ → M (Unit {0})
adjust_on tenant delta = do
  now ← time_now
  with_context (codes "adjust daily llm cost")
      (statement (λ t. some (tt, adjusted (wrap_int32 delta) tenant (cost_day now) t)))

unfoldable pub adjust_daily_cost : Uuid → ℤ → M (Unit {0})
adjust_daily_cost tenant (pos zero) = pure tt
adjust_daily_cost tenant (pos (suc n)) = adjust_on tenant (pos (suc n))
adjust_daily_cost tenant (negsuc n) = adjust_on tenant (negsuc n)
