-- ===== src/Mcp/Tenants.antt =====
-- internal/task/mcp/tools.go: the tools and the runs of other tenants.
use go_chatgpt_tasks.Base.{◌≡◌, ◌≢◌, ◌⊎◌, inl, inr, true, some, Option, Text}
use go_chatgpt_tasks.Task.Domain.{Uuid, JobRun, is_terminal_status}
use go_chatgpt_tasks.Task.Rows.{JobRunRow}
use go_chatgpt_tasks.Sql.Tables.{Tables}
use go_chatgpt_tasks.Sql.Tables.Laws.{find_where-append}
use go_chatgpt_tasks.Sql.Runs.{get_job_run_by_id, has_id}
use go_chatgpt_tasks.Task.Effect.{World, Result, ok, err}
use go_chatgpt_tasks.Task.Effect.Keeps.{Any, Any-On, Keeps}
use go_chatgpt_tasks.Task.Effect.Atomic.{AllOrNothing}
use go_chatgpt_tasks.Task.Recurrence.Location.{Zone}
use go_chatgpt_tasks.Task.Worker.Terminal.{Stored}
use go_chatgpt_tasks.Task.Service.{Identity, Service}
use go_chatgpt_tasks.Task.Service.Tenants.{cancel_job-Stored}
use go_chatgpt_tasks.Task.Service.Create.{CreateInput, create}
use go_chatgpt_tasks.Task.Service.Create.Atomic.{Creation, create-AllOrNothing}
use go_chatgpt_tasks.Mcp.{Codec, Tool, call_tool}
use go_chatgpt_tasks.Mcp.Keeps.{call_tool-Keeps}

create-Stored :
    (load_location : Text → Option Zone) (s : Service) (user : Identity) (x : CreateInput)
    (id : Uuid) (row : JobRunRow)
    → Keeps (Stored id row) (create load_location s user x) Any
unfolding get_job_run_by_id
create-Stored load_location s user x id row = record {
  apply = λ w h. (go w h _ (create-AllOrNothing load_location s user x w), Any-On _);
}
  where
    added :
        (before t : Tables)
        → Stored id row before
        → Creation load_location user before t
        → Stored id row t
    added before t h c = rw c.stored (find_where-append (has_id id) before.job_runs _ row h)

    go :
        (w : World)
        → Stored id row w.tables
        → (y : Result JobRun × World)
        → AllOrNothing w.tables (Creation load_location user w.tables) y
        → Stored id row y.1.tables
    go w h (ok r, v) c = added w.tables v.tables h c
    go w h (err e, v) (inl same) = rw same h
    go w h (err e, v) (inr c) = added w.tables v.tables h c

-- Whatever tool is called with whatever arguments, and whatever calls fail, the row of a run of another
-- tenant than the server's, or of a run that is finished, stays as it is.
pub call_tool-Stored :
    (c : Codec) (load_location : Text → Option Zone) (svc : Service) (ident : Identity)
    (tool : Tool) (raw : Text) (id : Uuid) (row : JobRunRow) (w : World)
    → (row.tenant_id ≢ ident.tenant_id) ⊎ (is_terminal_status row.status ≡ true)
    → get_job_run_by_id id w.tables.job_runs ≡ some row
    → get_job_run_by_id id (call_tool c load_location svc ident tool raw w).1.tables.job_runs
      ≡ some row
call_tool-Stored c load_location svc ident tool raw id row w safe h =
    ((call_tool-Keeps c load_location svc ident (Stored id row)
        (λ x. create-Stored load_location svc ident x id row)
        (λ job_id. record {
          apply = λ v k. ((cancel_job-Stored ident job_id id row v safe k).0, Any-On _);
        })
        tool raw).apply
      w h).0
