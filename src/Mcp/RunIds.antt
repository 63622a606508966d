-- ===== src/Mcp/RunIds.antt =====
-- internal/task/mcp/tools.go: the identifiers that the tools show and those that they ask for.
use go_chatgpt_tasks.Base.{
  ◌≡◌, refl, true, false, List, [], ◌∷◌, All, Option, some, Text, ℕ, zero, suc, is_empty, select,
  arith, ◌≢◌,
}
use go_chatgpt_tasks.Base.Int.{pos, wrap_int32}
use go_chatgpt_tasks.Shared.{new_pagination}
use go_chatgpt_tasks.Shared.Ids.{parse_id}
use go_chatgpt_tasks.Task.Errors.{sentinel, job_run_not_found}
use go_chatgpt_tasks.Task.Domain.{Uuid, JobRun}
use go_chatgpt_tasks.Task.Rows.{JobRunRow}
use go_chatgpt_tasks.Sql.Tables.{order_by}
use go_chatgpt_tasks.Sql.Runs.{of_job, list_job_runs_by_job}
use go_chatgpt_tasks.Task.Effect.{World, ok, err, done, tock, query, statement}
use go_chatgpt_tasks.Task.Repo.{list_runs_by_job}
use go_chatgpt_tasks.Task.Recurrence.Location.{Zone}
use go_chatgpt_tasks.Task.Service.{Identity, Service, valid, as_owner, status_of_job}
use go_chatgpt_tasks.Mcp.{
  Codec, JobRef, run_to_response, decode_args, task_status, status_tool, call_tool,
}

not_of_job :
    (tenant id : Uuid) (rows : List JobRunRow)
    → All (λ (r : JobRunRow). r.job_id ≢ id) rows
    → select (of_job tenant id) rows ≡ []
not_of_job tenant id [] h = refl
not_of_job tenant id (r ∷ rs) h = ground (arith, not_of_job tenant id rs h.1)

none_listed :
    (tenant id : Uuid) (limit offset : ℕ) (rows : List JobRunRow)
    → All (λ (r : JobRunRow). r.job_id ≢ id) rows
    → list_job_runs_by_job tenant id limit offset rows ≡ []
unfolding list_job_runs_by_job order_by
none_listed tenant id zero offset rows h = refl
none_listed tenant id (suc limit) zero rows h = rw (not_of_job tenant id rows h) refl
none_listed tenant id (suc limit) (suc offset) rows h = rw (not_of_job tenant id rows h) refl

status_absent :
    (ident : Identity) (id : Uuid) (w : World)
    → All (λ (x : JobRunRow). x.job_id ≢ id) w.tables.job_runs
    → valid ident ≡ true
    → w.env.reply w.tick ≡ done
    → w.env.reply (suc w.tick) ≡ done
    → status_of_job ident id w ≡ (err (sentinel job_run_not_found), tock (tock w))
unfolding status_of_job as_owner list_runs_by_job query statement wrap_int32 new_pagination
status_absent ident id w apart owner first second =
    let page = new_pagination (pos 1) (pos 0) in
    rw
      (
        owner,
        first,
        none_listed ident.tenant_id id page.limit page.offset w.tables.job_runs apart,
        second,
      )
      refl

-- The argument job_id of task.status is looked up as that of a job, while the tools show the run's
-- identifier under this name: asked with the job_id that is shown for a run, task.status ends with
-- ErrJobRunNotFound, if no stored run is of a job with the run's identifier, identifiers are read
-- back as printed, the server's identity is valid, and the database answers.
pub status-run_to_response :
    (c : Codec) (load_location : Text → Option Zone) (svc : Service) (ident : Identity) (r : JobRun)
    (raw : Text) (ref : JobRef) (w : World)
    → is_empty raw ≡ false
    → c.job_ref raw ≡ ok ref
    → ref.job_id ≡ (run_to_response w.env.uuid_string c.format_time r).job_id
    → w.env.uuid_parse (w.env.uuid_string r.id) ≡ some r.id
    → All (λ (x : JobRunRow). x.job_id ≢ r.id) w.tables.job_runs
    → valid ident ≡ true
    → w.env.reply w.tick ≡ done
    → w.env.reply (suc w.tick) ≡ done
    → (call_tool c load_location svc ident status_tool raw w).0 ≡ err (sentinel job_run_not_found)
unfolding call_tool task_status decode_args parse_id run_to_response
status-run_to_response c load_location svc ident r raw ref w filled decoded shows printed apart
      owner first second =
    rw (filled, decoded, shows, printed, status_absent ident r.id w apart owner first second) refl
