-- ===== src/Tests/WorkerLoopTests.antt =====
-- The worker's loop on concrete streams.
use go_chatgpt_tasks.Base.{◌≡◌, ◌↔◌, refl, List, [], ◌∷◌, none, Text, codes, arith}
use go_chatgpt_tasks.Task.Effect.{JobRunMsg, ok}
use go_chatgpt_tasks.Task.Worker.{QueuedMessage}
use go_chatgpt_tasks.Task.Worker.Concurrency.{Within}
use go_chatgpt_tasks.Task.Queue.{
  string, StreamEntry, MsgCodec, RedisReply, replied, nothing, queued_messages,
}
use go_chatgpt_tasks.Task.Queue.Batch.{Decodes, queued_messages-ok_iff}
use go_chatgpt_tasks.Task.WorkerLoop.{run_worker}
use go_chatgpt_tasks.Task.WorkerLoop.Limits.{run_worker-running_le}
use go_chatgpt_tasks.Tests.Sample.{one_char, two_at_once}
use go_chatgpt_tasks.Tests.WorkerTests.{failing, failing-LeavesRuns, start_world}

-- A message is stored as the identifier of its run.
abbrev run_only : Text → JobRunMsg
run_only s = record { job_run_id = s; tenant_id = one_char 7; idempotency_key = []; attempts = 0 }

abbrev short : MsgCodec
short = record { marshal = λ m. ok m.job_run_id; unmarshal = λ s. ok (run_only s) }

abbrev entries : List StreamEntry
entries =
    record { id = codes "1-0"; field = string (one_char 11) }
    ∷ record { id = codes "2-0"; field = string (one_char 12) }
    ∷ []

abbrev read_messages : List QueuedMessage
read_messages =
    record { stream_id = codes "1-0"; msg = run_only (one_char 11) }
    ∷ record { stream_id = codes "2-0"; msg = run_only (one_char 12) }
    ∷ []

queued_messages-ok_iff_example :
    (queued_messages short entries ≡ ok read_messages) ↔ Decodes short entries read_messages
queued_messages-ok_iff_example = queued_messages-ok_iff short entries read_messages

-- A fresh batch, and then the same entries reclaimed.
abbrev two_rounds : List (RedisReply (List StreamEntry) × RedisReply (List (List StreamEntry)))
two_rounds = (nothing, replied (entries ∷ [])) ∷ (replied entries, nothing) ∷ []

run_worker-running_le_example :
    let t = (run_worker failing short none two_rounds start_world).1.tables in
    Within 7 2 t.job_runs t.tenant_quotas
run_worker-running_le_example =
    run_worker-running_le failing two_at_once 7 2 refl (omega arith) failing-LeavesRuns short none
      two_rounds start_world ((refl, (refl, tt)), omega arith, tt)
