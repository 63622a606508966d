-- ===== src/Task/RecurringWatcher.antt =====
-- internal/task/recurring_watcher.go: one scan, which creates the run that follows a recurring run
-- that has ended, with FindTerminalRecurringRuns of internal/task/repo_postgres.go. Where the source
-- logs an error and continues, the model drops it. time.LoadLocation is a parameter.
mod Ended
pub mod Grows
pub mod Creates
use go_chatgpt_tasks.Base.{
  ℕ, ◌+◌, ◌-◌, Bool, true, false, List, [], ◌∷◌, map, Option, none, some, Text, codes,
}
use go_chatgpt_tasks.Clock.{Time, hour, time_to_pg}
use go_chatgpt_tasks.Task.Errors.{Error, foreign, sentinel}
use go_chatgpt_tasks.Task.Domain.{Uuid, JobRun, job_run_created, Payload, text}
use go_chatgpt_tasks.Task.Transitions.{new_job_run}
use go_chatgpt_tasks.Task.Rows.{string_value}
use go_chatgpt_tasks.Task.Keys.{run_key}
use go_chatgpt_tasks.Sql.Recurring.{TerminalRunRow, list_terminal_recurring_runs}
use go_chatgpt_tasks.Task.Effect.{
  M, ◌>>=◌, ◌>>◌, pure, fail, quietly, with_context, lift, time_now, new_id, query,
}
use go_chatgpt_tasks.Task.Repo.{insert_run_if_absent}
use go_chatgpt_tasks.Task.Worker.{append_event_of}
use go_chatgpt_tasks.Task.Recurrence.Location.{Zone}
use go_chatgpt_tasks.Task.Recurrence.{
  DstNote, no_note, shifted_forward, ambiguous_first, parse_rule, next_occurrence,
}

pub record NextRunSpec : Type 0 where
  pub tenant_id : Uuid
  pub job_id : Uuid
  pub sequence : ℕ
  pub scheduled_at : Time
  pub timezone_id : Text
  pub recurrence_rule : Text
  pub local_time : Text

unfoldable pub next_run_spec_from_sqlc : TerminalRunRow → NextRunSpec
next_run_spec_from_sqlc r = record {
  tenant_id = r.tenant_id;
  job_id = r.job_id;
  sequence = r.sequence;
  scheduled_at = r.scheduled_at;
  timezone_id = r.timezone_id;
  recurrence_rule = string_value r.recurrence_rule;
  local_time = string_value r.local_time;
}

unfoldable pub find_terminal_recurring_runs : Time → ℕ → M (List NextRunSpec)
find_terminal_recurring_runs since limit = do
  rows ← with_context (codes "list terminal recurring runs") (
      query
        (λ t. list_terminal_recurring_runs (time_to_pg since) limit t.jobs t.job_runs t.run_events))
  pure (map next_run_spec_from_sqlc rows)

-- string(note), where there is a note.
abbrev note_text : DstNote → Option Text
note_text no_note = none
note_text shifted_forward = some (codes "shifted_forward")
note_text ambiguous_first = some (codes "ambiguous_first")

abbrev pub note_event : JobRun → Option Text → M (Unit {0})
note_event next none = pure tt
note_event next (some note) =
    quietly (append_event_of next job_run_created (some ((codes "dst_note", text note) ∷ [])))

-- `if created`.
abbrev pub created_run : JobRun → DstNote → Bool → M (Unit {0})
created_run next note true = note_event next (note_text note)
created_run next note false = pure tt

unfoldable pub loaded : {A : Type 0} → Option A → M A
loaded none = fail (foreign (codes "unknown time zone"))
loaded (some z) = pure z

-- One round of the loop.
unfoldable pub scan_spec : (Text → Option Zone) → NextRunSpec → M (Unit {0})
scan_spec load_location spec = do
  rule ← lift (parse_rule spec.recurrence_rule)
  tz ← loaded (load_location spec.timezone_id)
  found ← lift (next_occurrence rule spec.local_time (some tz) spec.scheduled_at)
  id ← new_id
  now ← time_now
  key ← run_key
  next ← lift (new_job_run key id now spec.tenant_id spec.job_id (spec.sequence + 1) found.0)
  created ← insert_run_if_absent next
  created_run next found.1 created

unfoldable pub scan_specs : (Text → Option Zone) → List NextRunSpec → M (Unit {0})
scan_specs load_location [] = pure tt
scan_specs load_location (s ∷ ss) =
    quietly (scan_spec load_location s) >> scan_specs load_location ss

abbrev pub lookback : Time
lookback = hour

abbrev pub find_limit : ℕ
find_limit = 100

-- scanOnce.
unfoldable pub scan_recurring : (Text → Option Zone) → M (Unit {0})
scan_recurring load_location = do
  now ← time_now
  specs ← find_terminal_recurring_runs (now - lookback) find_limit
  scan_specs load_location specs
