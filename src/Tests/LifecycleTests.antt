-- ===== src/Tests/LifecycleTests.antt =====
-- The methods of a run at concrete runs.
use go_chatgpt_tasks.Base.{◌+◌, ◌≡◌, refl, [], ◌∷◌}
use go_chatgpt_tasks.Task.Domain.{Status, queued, running, success, JobRun}
use go_chatgpt_tasks.Task.Rows.{job_run_from_row}
use go_chatgpt_tasks.Task.Transitions.{ok, mark_running}
use go_chatgpt_tasks.Task.Lifecycle.{
  starts, retries, cancels, Move, start, SameRun, apply, apply-Move, Move-apply, replay,
  replay-terminal,
}
use go_chatgpt_tasks.Tests.Sample.{run_row, noon}

abbrev sample : Status → JobRun
unfolding job_run_from_row
sample s = job_run_from_row (run_row 11 s 1)

Move-apply_example :
    (s : JobRun) × (apply starts noon (sample queued) ≡ ok s) × (s.status ≡ running)
unfolding sample
Move-apply_example = Move-apply starts noon (sample queued) start refl

apply-Move_example :
    let s = record (sample queued) { status = running; started_at = noon; updated_at = noon } in
    Move starts queued running
    × (s.attempts ≡ 1 + 0)
    × (s.updated_at ≡ noon)
    × SameRun (sample queued) s
unfolding sample apply mark_running
apply-Move_example = apply-Move starts noon (sample queued) refl

replay-terminal_example :
    replay ((noon, cancels) ∷ (noon, retries) ∷ []) (sample success) ≡ sample success
unfolding sample
replay-terminal_example =
    replay-terminal ((noon, cancels) ∷ (noon, retries) ∷ []) (sample success) refl
