-- ===== src/Task/WorkerLoop/Processed.antt =====
-- internal/task/worker.go: what Run comes to.
use go_chatgpt_tasks.Base.{Bool, true, false, List, [], ◌∷◌, Option, Text, codes}
use go_chatgpt_tasks.Task.Effect.{
  World, Result, ok, err, M, ◌>>=◌, ◌>>◌, with_context, lift_result, after,
}
use go_chatgpt_tasks.Task.Worker.{Worker, QueuedMessage, process}
use go_chatgpt_tasks.Task.Queue.{StreamEntry, MsgCodec, RedisReply, read, reclaim, ensure_group}
use go_chatgpt_tasks.Task.WorkerLoop.{
  process_each, process_batch, process_reclaimed, process_read, run_round, run_rounds, run_worker,
}

module _ (k : Worker) where
  -- What the worker comes to by processing messages one after the other.
  pub data Processed (u : World) : World → Type 0 where
    idle : Processed u u
    processed :
        {v : World}
        → Processed u v
        → (qm : QueuedMessage) (reclaimed : Bool) → Processed u (process k qm reclaimed v).1

  Processed-trans : {u v w : World} → Processed u v → Processed v w → Processed u w
  Processed-trans a idle = a
  Processed-trans a (processed b qm reclaimed) = processed (Processed-trans a b) qm reclaimed

  process_each-Processed :
      (reclaimed : Bool) (ms : List QueuedMessage) (w : World)
      → Processed w (process_each k reclaimed ms w).1
  unfolding process_each
  process_each-Processed reclaimed [] w = idle
  process_each-Processed reclaimed (m ∷ ms) w =
      let v = (process k m reclaimed w).1 in
      Processed-trans (processed idle m reclaimed) (process_each-Processed reclaimed ms v)

  process_reclaimed-Processed :
      (c : MsgCodec) (x : RedisReply (List StreamEntry)) (w : World)
      → Processed w (process_reclaimed k c x w).1
  unfolding process_reclaimed
  process_reclaimed-Processed c x w = go (reclaim c x)
    where
      go :
          (r : Result (List QueuedMessage))
          → Processed w ((lift_result r >>= process_batch k true) w).1
      go (ok ms) = process_each-Processed true _ w
      go (err e) = idle

  run_round-Processed :
      (c : MsgCodec) (x : RedisReply (List StreamEntry)) (y : RedisReply (List (List StreamEntry)))
      (w : World)
      → Processed w (run_round k c x y w).1
  unfolding run_round
  run_round-Processed c x y w =
      let v = (process_reclaimed k c x w).1 in
      Processed-trans (process_reclaimed-Processed c x w) (go (read c y) v)
    where
      go : (r : Result (List QueuedMessage)) (v : World) → Processed v (process_read k r v).1
      go (ok ms) v = process_each-Processed false _ v
      go (err e) v = idle

  after-Processed :
      (m : M (Unit {0}))
      → ((v : World) → Processed v (m v).1)
      → (r : Result (Unit {0}) × World) → Processed r.1 (after (λ _. m) r).1
  after-Processed m h (ok a, v) = h v
  after-Processed m h (err e, v) = idle

  run_rounds-Processed :
      (c : MsgCodec)
      (rounds : List (RedisReply (List StreamEntry) × RedisReply (List (List StreamEntry))))
      (w : World)
      → Processed w (run_rounds k c rounds w).1
  unfolding run_rounds
  run_rounds-Processed c [] w = idle
  run_rounds-Processed c ((x, y) ∷ rounds) w = Processed-trans (run_round-Processed c x y w) (
      after-Processed (run_rounds k c rounds) (run_rounds-Processed c rounds) (run_round k c x y w))

  pub run_worker-Processed :
      (c : MsgCodec) (group : Option Text)
      (rounds : List (RedisReply (List StreamEntry) × RedisReply (List (List StreamEntry))))
      (w : World)
      → Processed w (run_worker k c group rounds w).1
  unfolding run_worker
  run_worker-Processed c group rounds w = go (ensure_group group)
    where
      go :
          (r : Result (Unit {0}))
          → Processed w
              ((with_context (codes "ensure group") (lift_result r) >> run_rounds k c rounds) w).1
      go (ok a) = run_rounds-Processed c rounds w
      go (err e) = idle

  -- What every message keeps of the world, the rounds keep.
  pub Processed-keeps :
      (P : World → Type 0)
      → ((qm : QueuedMessage) (reclaimed : Bool) (v : World) → P v → P (process k qm reclaimed v).1)
      → {u w : World} → Processed u w
      → P u
      → P w
  Processed-keeps P step idle h = h
  Processed-keeps P step (processed {v} b qm reclaimed) h =
      step qm reclaimed v (Processed-keeps P step b h)
