-- ===== src/Sql/Recurring.antt =====
-- internal/platform/postgres/sqlc/task.sql.go: ListTerminalRecurringRuns, a join of three tables on
-- their primary keys.
use go_chatgpt_tasks.Base.{
  ℕ, ◌+◌, Bool, true, false, not, ◌&&◌, ◌==◌, leb, if◌then◌else◌, List, [], ◌∷◌, Option, none, some,
  Text, select, take,
}
use go_chatgpt_tasks.Clock.{Time}
use go_chatgpt_tasks.Task.Domain.{Uuid, Status, success, failed}
use go_chatgpt_tasks.Task.Rows.{JobRow, JobRunRow}
use go_chatgpt_tasks.Sql.Tables.{RunEventRow, find_where, exists_where, order_by}
use go_chatgpt_tasks.Sql.Records.{is_recurring, oldest_event_first}
use go_chatgpt_tasks.Sql.Runs.{has_id, same_sequence}

pub record TerminalRunRow : Type 0 where
  pub id : Uuid
  pub tenant_id : Uuid
  pub job_id : Uuid
  pub sequence : ℕ
  pub scheduled_at : Time
  pub timezone_id : Text
  pub recurrence_rule : Option Text
  pub local_time : Option Text

-- e.status IN ('success','failed')
abbrev pub is_ended : Status → Bool
is_ended success = true
is_ended failed = true
is_ended _ = false

abbrev pub ended_since : Time → RunEventRow → Bool
ended_since since e = is_ended e.status && leb since e.created_at

abbrev pub terminal_row : JobRunRow → JobRow → TerminalRunRow
terminal_row r j = record {
  id = r.id;
  tenant_id = r.tenant_id;
  job_id = r.job_id;
  sequence = r.sequence;
  scheduled_at = r.scheduled_at;
  timezone_id = j.timezone_id;
  recurrence_rule = j.recurrence_rule;
  local_time = j.local_time;
}

-- The row that joins an event, a run and a job, if there is one and no run follows it.
abbrev pub joined_job : List JobRunRow → JobRunRow → Option JobRow → Option TerminalRunRow
joined_job runs r none = none
joined_job runs r (some j) =
    if is_recurring j.kind && not (exists_where (same_sequence r.job_id (r.sequence + 1)) runs)
    then some (terminal_row r j)
    else none

abbrev pub joined_run : List JobRow → List JobRunRow → Option JobRunRow → Option TerminalRunRow
joined_run jobs runs none = none
joined_run jobs runs (some r) =
    joined_job runs r (find_where (λ (j : JobRow). j.id == r.job_id) jobs)

abbrev pub cons_some : Option TerminalRunRow → List TerminalRunRow → List TerminalRunRow
cons_some none rows = rows
cons_some (some row) rows = row ∷ rows

unfoldable pub joined : List JobRow → List JobRunRow → List RunEventRow → List TerminalRunRow
joined jobs runs [] = []
joined jobs runs (e ∷ es) =
    cons_some (joined_run jobs runs (find_where (has_id e.job_run_id) runs)) (joined jobs runs es)

unfoldable pub list_terminal_recurring_runs :
    Time → ℕ → List JobRow → List JobRunRow → List RunEventRow → List TerminalRunRow
list_terminal_recurring_runs since limit jobs runs events =
    take limit (joined jobs runs (order_by oldest_event_first (select (ended_since since) events)))
