-- ===== src/Task/Idempotency.antt =====
-- internal/task/idempotency_postgres.go: the IdempotencyStore port on the tables.
use go_chatgpt_tasks.Base.{ℕ, zero, suc, Bool, ◌==◌, Option, none, some, List, Text, codes}
use go_chatgpt_tasks.Clock.{time_to_pg}
use go_chatgpt_tasks.Task.Errors.{foreign}
use go_chatgpt_tasks.Task.Domain.{Uuid}
use go_chatgpt_tasks.Task.Rows.{string_ptr, string_value}
use go_chatgpt_tasks.Sql.Tables.{RecordStatus, IdempotencyRow, Tables}
use go_chatgpt_tasks.Sql.Records.{begin_idempotency, get_idempotency, complete_idempotency}
use go_chatgpt_tasks.Task.Effect.{M, ◌>>=◌, pure, fail, with_context, time_now, statement, query}

-- IdempotencyRecord of ports.go.
pub record IdempotencyRecord : Type 0 where
  pub key : Text
  pub handler : Text
  pub status : RecordStatus
  pub response_hash : Text

abbrev record_of_row : Option IdempotencyRow → Option IdempotencyRecord
record_of_row none = none
record_of_row (some row) = some record {
  key = row.idempotency_key;
  handler = row.handler_name;
  status = row.status;
  response_hash = string_value row.response_hash;
}

abbrev with_records : Tables → ℕ × List IdempotencyRow → ℕ × Tables
with_records t (n, records) = (n, record t { idempotency_records = records })

unfoldable pub lookup : Text → M (Option IdempotencyRecord)
lookup key =
    with_context (codes "get idempotency record")
      (query (λ t. record_of_row (get_idempotency key t.idempotency_records)))

-- The rows that BeginIdempotency inserts, and the tables after it.
abbrev pub begun : Text → Text → Uuid → ℕ → Tables → ℕ × Tables
begun key handler run_id now t =
    with_records t
      (begin_idempotency key run_id handler (time_to_pg now) (time_to_pg now) t.idempotency_records)

unfoldable pub begin_record : Text → Text → Uuid → M Bool
begin_record key handler run_id = do
  now ← time_now
  rows ←
      with_context (codes "begin idempotency")
        (statement (λ t. some (begun key handler run_id now t)))
  pure (rows == 1)

abbrev pub completed_rows : ℕ → M (Unit {0})
completed_rows zero = fail (foreign (codes "complete idempotency: record not found"))
completed_rows (suc n) = pure tt

unfoldable pub complete_record : Text → Text → M (Unit {0})
complete_record key response_hash = do
  now ← time_now
  rows ← with_context (codes "complete idempotency") (
      statement (λ t. some (
        with_records t (
          complete_idempotency key (string_ptr response_hash) (time_to_pg now)
            t.idempotency_records))))
  completed_rows rows
