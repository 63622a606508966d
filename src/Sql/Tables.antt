-- ===== src/Sql/Tables.antt =====
-- migrations/ and internal/platform/postgres/sqlc/models.go: the tables. A table is the list of its
-- rows, oldest first; the columns of jobs and job_runs are those of Task.Rows.
pub mod Laws
use go_chatgpt_tasks.Base.{ℕ, suc, Bool, true, false, if◌then◌else◌, List, [], ◌∷◌, Option, Text}
use go_chatgpt_tasks.Base.Int.{ℤ}
use go_chatgpt_tasks.Clock.{Time}
use go_chatgpt_tasks.Task.Domain.{Uuid, Status, EventType, PayloadValue}
use go_chatgpt_tasks.Task.Rows.{JobRow, JobRunRow}

pub record RunEventRow : Type 0 where
  pub id : Uuid
  pub tenant_id : Uuid
  pub job_id : Uuid
  pub job_run_id : Uuid
  pub status : Status
  pub event_type : EventType
  pub event_payload : List (Text × PayloadValue)
  pub created_at : Time

pub record QuotaRow : Type 0 where
  pub tenant_id : Uuid
  pub max_jobs_per_hour : ℤ
  pub max_active_recurring_jobs : ℤ
  pub max_concurrent_runs : ℤ
  pub max_daily_llm_cost_cents : ℤ

-- The two texts that the column `status` of idempotency_records is given.
pub data RecordStatus : Type 0 where
  in_progress completed : RecordStatus

pub record IdempotencyRow : Type 0 where
  pub idempotency_key : Text
  pub job_run_id : Uuid
  pub handler_name : Text
  pub status : RecordStatus
  pub response_hash : Option Text
  pub created_at : Time
  pub updated_at : Time

-- `cost_date` is the number of the UTC day that the text "2006-01-02" names.
pub record CostRow : Type 0 where
  pub tenant_id : Uuid
  pub cost_date : ℕ
  pub cost_cents : ℤ

pub record UserRow : Type 0 where
  pub id : Uuid
  pub email : Text
  pub password_hash : Text
  pub display_name : Text
  pub created_at : Time
  pub updated_at : Time

pub record Tables : Type 0 where
  pub users : List UserRow
  pub jobs : List JobRow
  pub job_runs : List JobRunRow
  pub run_events : List RunEventRow
  pub tenant_quotas : List QuotaRow
  pub idempotency_records : List IdempotencyRow
  pub tenant_llm_daily_cost : List CostRow

module _ {ℓ} {A : Type ℓ} where
  -- UPDATE … WHERE: the rows that pass the test are replaced.
  abbrev pub update_where : (A → Bool) → (A → A) → List A → List A
  update_where p f [] = []
  update_where p f (x ∷ xs) = (if p x then f x else x) ∷ update_where p f xs

  -- The first row that passes: SELECT … WHERE on a key.
  abbrev pub find_where : (A → Bool) → List A → Option A
  find_where p [] = Option.none
  find_where p (x ∷ xs) = if p x then Option.some x else find_where p xs

  abbrev pub exists_where : (A → Bool) → List A → Bool
  exists_where p [] = false
  exists_where p (x ∷ xs) = if p x then true else exists_where p xs

  -- ORDER BY: a stable insertion sort. `before a b` says that `a` may stand in front of `b`.
  unfoldable pub insert_by : (A → A → Bool) → A → List A → List A
  insert_by before a [] = a ∷ []
  insert_by before a (x ∷ xs) = if before a x then a ∷ x ∷ xs else x ∷ insert_by before a xs

  unfoldable pub order_by : (A → A → Bool) → List A → List A
  unfolding insert_by
  order_by before [] = []
  order_by before (x ∷ xs) = insert_by before x (order_by before xs)
