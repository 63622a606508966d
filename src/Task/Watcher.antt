-- ===== src/Task/Watcher.antt =====
-- internal/task/watcher.go: one scan, which queues the runs that fall due. Where the source logs an
-- error and continues, the model drops it.
pub mod Buckets
pub mod Invariants
use go_chatgpt_tasks.Base.{
  ℕ, zero, suc, ◌+◌, ◌-◌, ◌*◌, ◌/◌, ltb, leb, if◌then◌else◌, List, [], ◌∷◌, Option, none, some,
}
use go_chatgpt_tasks.Base.Int.{ℤ}
use go_chatgpt_tasks.Clock.{Time, hour, minute, unix, truncate_hour}
use go_chatgpt_tasks.Task.Domain.{Uuid, JobRun, job_run_enqueued}
use go_chatgpt_tasks.Task.Transitions.{mark_queued, mark_pending}
use go_chatgpt_tasks.Task.Effect.{
  M, Result, ok, err, ◌>>=◌, ◌>>◌, pure, try, quietly, lift, time_now, send, enqueue,
}
use go_chatgpt_tasks.Task.Repo.{update_run_status, find_due_runs}
use go_chatgpt_tasks.Task.Worker.{msg_of, append_event_of}

-- `for t := from; !t.After(to); t = t.Add(time.Hour)`. The fuel is one more than the hours left.
unfoldable pub buckets_from : ℕ → Time → Time → List ℤ
buckets_from zero t to = []
buckets_from (suc f) t to =
    let rest = buckets_from f (t + hour) to in if ltb to t then [] else unix t ∷ rest

unfoldable pub buckets_in_range : Time → Time → List ℤ
buckets_in_range from to =
    let from' = truncate_hour from in
    let to' = truncate_hour to in
    if ltb to' from' then unix from' ∷ [] else buckets_from ((to' - from') / hour + 1) from' to'

abbrev pub horizon : Time
horizon = 5 * minute

abbrev pub scan_limit : ℕ
scan_limit = 100

-- After `w.queue.Enqueue`: an error puts the run back, success is noted in an event.
abbrev pub enqueued : JobRun → Result (Unit {0}) → M (Unit {0})
enqueued r (ok _) = append_event_of r job_run_enqueued none
enqueued r (err e) = do now ← time_now; r ← lift (mark_pending now r); update_run_status r

-- One round of the inner loop.
unfoldable pub scan_run : JobRun → M (Unit {0})
scan_run r = do
  now ← time_now
  r ← lift (mark_queued now r)
  update_run_status r
  msg ← msg_of r r.attempts
  sent ← try (send (enqueue msg))
  enqueued r sent

unfoldable pub scan_runs : List JobRun → M (Unit {0})
scan_runs [] = pure tt
scan_runs (r ∷ rs) = quietly (scan_run r) >> scan_runs rs

unfoldable pub scan_bucket : Time → ℤ → M (Unit {0})
scan_bucket before bucket = find_due_runs bucket before scan_limit >>= scan_runs

unfoldable pub scan_buckets : Time → List ℤ → M (Unit {0})
scan_buckets before [] = pure tt
scan_buckets before (b ∷ bs) = quietly (scan_bucket before b) >> scan_buckets before bs

-- scanOnce.
unfoldable pub scan_once : M (Unit {0})
scan_once = do now ← time_now; scan_buckets (now + horizon) (buckets_in_range now (now + horizon))
