-- ===== src/Task/WorkerLoop.antt =====
-- internal/task/worker.go: Run and processReclaimed. A round of Run is a function of what Redis
-- answers to its two calls; the cancellation of the context, which ends Run, is left out.
pub mod Processed
pub mod Limits
use go_chatgpt_tasks.Base.{Bool, true, false, List, [], ◌∷◌, Option, none, some, Text, codes}
use go_chatgpt_tasks.Task.Errors.{Error}
use go_chatgpt_tasks.Task.Effect.{
  World, Result, ok, err, M, ◌>>=◌, ◌>>◌, pure, fail, quietly, with_context, lift_result,
}
use go_chatgpt_tasks.Task.Worker.{Worker, QueuedMessage, process}
use go_chatgpt_tasks.Task.FairOrder.{fair_order}
use go_chatgpt_tasks.Task.Queue.{StreamEntry, MsgCodec, RedisReply, read, reclaim, ensure_group}

-- `for _, msg := range … { w.process(ctx, msg, reclaimed) }`.
unfoldable pub process_each : Worker → Bool → List QueuedMessage → M (Unit {0})
process_each k reclaimed [] = pure tt
process_each k reclaimed (m ∷ ms) = quietly (process k m reclaimed) >> process_each k reclaimed ms

-- fairOrder is total: `none`, its fuel used up, does not come out.
abbrev pub in_order : List QueuedMessage → Option (List QueuedMessage) → List QueuedMessage
in_order ms none = ms
in_order ms (some ordered) = ordered

abbrev pub process_batch : Worker → Bool → List QueuedMessage → M (Unit {0})
process_batch k reclaimed ms = process_each k reclaimed (in_order ms (fair_order ms))

unfoldable pub process_reclaimed : Worker → MsgCodec → RedisReply (List StreamEntry) → M (Unit {0})
process_reclaimed k c reply = lift_result (reclaim c reply) >>= process_batch k true

-- A batch that cannot be read is only logged.
abbrev pub process_read : Worker → Result (List QueuedMessage) → M (Unit {0})
process_read k (ok ms) = process_batch k false ms
process_read k (err e) = pure tt

-- The body of Run's loop.
unfoldable pub run_round :
    Worker
    → MsgCodec
    → RedisReply (List StreamEntry)
    → RedisReply (List (List StreamEntry))
    → M (Unit {0})
run_round k c reclaimed fresh =
    quietly (process_reclaimed k c reclaimed) >> process_read k (read c fresh)

-- Run, for as many rounds as there are answers of Redis.
unfoldable pub run_rounds :
    Worker
    → MsgCodec
    → List (RedisReply (List StreamEntry) × RedisReply (List (List StreamEntry)))
    → M (Unit {0})
run_rounds k c [] = pure tt
run_rounds k c ((reclaimed, fresh) ∷ rest) = run_round k c reclaimed fresh >> run_rounds k c rest

unfoldable pub run_worker :
    Worker
    → MsgCodec
    → Option Text
    → List (RedisReply (List StreamEntry) × RedisReply (List (List StreamEntry)))
    → M (Unit {0})
run_worker k c group rounds =
    with_context (codes "ensure group") (lift_result (ensure_group group)) >> run_rounds k c rounds
