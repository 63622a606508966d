-- ===== src/Task/Executor.antt =====
-- internal/task/executor.go: IdempotentExecutor, which runs a job with side effects once for each
-- idempotency key. What it logs is left out.
pub mod Once
pub mod Stuck
pub mod Leaves
use go_chatgpt_tasks.Base.{
  Bool, true, false, if◌then◌else◌, List, [], ◌∷◌, Option, none, some, Text, codes,
}
use go_chatgpt_tasks.Task.Errors.{sentinel, execution_in_progress}
use go_chatgpt_tasks.Task.Domain.{Job, JobRun, duplicate_detected, text}
use go_chatgpt_tasks.Sql.Tables.{in_progress, completed}
use go_chatgpt_tasks.Task.Effect.{M, ◌>>=◌, ◌>>◌, fail, quietly, with_context}
use go_chatgpt_tasks.Task.Repo.{find_job}
use go_chatgpt_tasks.Task.Idempotency.{IdempotencyRecord, lookup, begin_record, complete_record}
use go_chatgpt_tasks.Task.Worker.{append_event_of}

abbrev pub handler : Text
handler = codes "task.default"

abbrev is_completed : IdempotencyRecord → Bool
is_completed r = elim r.status [ in_progress ↦ false | completed ↦ true ]

-- `found && record.Status == "completed"`.
abbrev found_completed : Option IdempotencyRecord → Bool
found_completed none = false
found_completed (some r) = is_completed r

-- The branch `!acquired`.
unfoldable pub duplicate : JobRun → M (Unit {0})
duplicate run = do
  found ← lookup run.idempotency_key
  (if found_completed found
      then quietly (
          append_event_of run duplicate_detected
            (some ((codes "idempotency_key", text run.idempotency_key) ∷ [])))
      else fail (sentinel execution_in_progress))

-- `response_hash` is hex.EncodeToString of sha256.Sum256, and `next` the executor that is wrapped.
module _ (response_hash : Text → Text) (next : JobRun → M (Unit {0})) where
  unfoldable pub execute_acquired : JobRun → Bool → M (Unit {0})
  execute_acquired run acquired =
      if acquired
      then (next run >> complete_record run.idempotency_key (response_hash run.idempotency_key))
      else duplicate run

  unfoldable pub execute_job : JobRun → Job → M (Unit {0})
  execute_job run job =
      if job.side_effecting
      then (begin_record run.idempotency_key handler run.id >>= execute_acquired run)
      else next run

  -- IdempotentExecutor.Execute.
  unfoldable pub execute : JobRun → M (Unit {0})
  execute run =
      with_context (codes "find job for execution") (find_job run.job_id) >>= execute_job run
