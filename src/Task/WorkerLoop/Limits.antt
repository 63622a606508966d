-- ===== src/Task/WorkerLoop/Limits.antt =====
-- internal/task/worker.go: a tenant's limit on concurrent runs, over all rounds of Run.
use go_chatgpt_tasks.Base.{ℕ, ◌≤◌, ◌≡◌, List, Option, some, Text}
use go_chatgpt_tasks.Base.Int.{pos_part}
use go_chatgpt_tasks.Task.Domain.{Uuid, Quota}
use go_chatgpt_tasks.Task.Effect.{World}
use go_chatgpt_tasks.Task.Worker.{Worker}
use go_chatgpt_tasks.Task.Worker.Invariants.{LeavesRuns}
use go_chatgpt_tasks.Task.Worker.Concurrency.{Within, process-running_le}
use go_chatgpt_tasks.Task.Queue.{StreamEntry, MsgCodec, RedisReply}
use go_chatgpt_tasks.Task.WorkerLoop.{run_worker}
use go_chatgpt_tasks.Task.WorkerLoop.Processed.{Processed-keeps, run_worker-Processed}

-- However many rounds a worker makes, whatever messages Redis hands it, fresh or reclaimed, and whatever
-- calls fail, no more than `cap` runs of a tenant run at the same time: with a quota repository that
-- allows the tenant `cap` runs at once, if the identifiers of the runs are distinct, no more than `cap`
-- run before, and the executor writes no runs and no quotas.
pub run_worker-running_le :
    (k : Worker) (defaults : Quota) (tenant : Uuid) (cap : ℕ)
    → k.quota ≡ some defaults
    → pos_part defaults.max_concurrent_runs ≤ cap
    → LeavesRuns k
    → (c : MsgCodec) (group : Option Text)
      (rounds : List (RedisReply (List StreamEntry) × RedisReply (List (List StreamEntry))))
      (w : World)
    → Within tenant cap w.tables.job_runs w.tables.tenant_quotas
    → let t = (run_worker k c group rounds w).1.tables in
      Within tenant cap t.job_runs t.tenant_quotas
run_worker-running_le k defaults tenant cap limited low leaves c group rounds w h =
    Processed-keeps k (λ v. Within tenant cap v.tables.job_runs v.tables.tenant_quotas)
      (process-running_le k defaults tenant cap limited low leaves)
      (run_worker-Processed k c group rounds w) h
