-- ===== src/Task/Worker/Terminal.antt =====
-- internal/task/repo_postgres.go: the row of a run under the statements on other runs.
use go_chatgpt_tasks.Base.{◌≡◌, ◌∙◌, ◌≢◌, inl, inr, true, some, arith}
use go_chatgpt_tasks.Base.Int.{ℤ}
use go_chatgpt_tasks.Clock.{time_to_pg}
use go_chatgpt_tasks.Task.Domain.{Uuid, JobRun, is_terminal}
use go_chatgpt_tasks.Task.Rows.{
  JobRunRow, job_run_to_insert_params, job_run_to_update_status_params, job_run_from_row,
}
use go_chatgpt_tasks.Sql.Tables.{Tables}
use go_chatgpt_tasks.Sql.Tables.Laws.{
  find_where-append, find_where-update_where_other, find_where_sound,
}
use go_chatgpt_tasks.Sql.Runs.Laws.{insert_job_run-some, try_mark_cases}
use go_chatgpt_tasks.Sql.Runs.{
  update_job_run_status, get_job_run_by_id, has_id, apply_status, startable_id, mark_row,
}
use go_chatgpt_tasks.Task.Repo.Keeps.{Inserts, Updates, Claims, Reads}

-- The table has this row under this identifier.
abbrev pub Stored : Uuid → JobRunRow → Tables → Type 0
Stored id row t = get_job_run_by_id id t.job_runs ≡ some row

module _ (id : Uuid) (row : JobRunRow) where
  pub Inserts-Stored : (r : JobRun) → Inserts (Stored id row) r
  unfolding get_job_run_by_id
  Inserts-Stored r t runs e h =
      let (added, _, _) =
        insert_job_run-some t.jobs (job_run_to_insert_params r) t.job_runs runs e in
      rw added (find_where-append (has_id id) t.job_runs _ row h)

  pub Updates-Stored : (r : JobRun) → r.id ≢ id → Updates (Stored id row) r
  unfolding get_job_run_by_id update_job_run_status job_run_to_update_status_params
  Updates-Stored r apart t h =
      find_where-update_where_other (has_id r.id) (has_id id)
        (apply_status (job_run_to_update_status_params r)) t.job_runs (λ x e. ground arith)
        (λ x e. ground arith)
      ∙ h

  pub Claims-Stored : (r : JobRun) (limit : ℤ) → r.id ≢ id → Claims (Stored id row) r limit
  unfolding get_job_run_by_id
  Claims-Stored r limit apart t h =
      elim (try_mark_cases r.tenant_id (time_to_pg r.started_at) (time_to_pg r.updated_at) r.id
        limit t.job_runs t.job_runs) [
          | inl same ↦ rw same h
          | inr (_, claimed) ↦ rw claimed (
              find_where-update_where_other (startable_id r.id) (has_id id)
                (mark_row (time_to_pg r.started_at) (time_to_pg r.updated_at)) t.job_runs
                (λ x e. ground arith) (λ x e. ground arith)
              ∙ h)
        ]

  -- A run that is read is another one, or the stored one, which is finished.
  pub reads-Stored :
      is_terminal (job_run_from_row row) ≡ true
      → Reads (Stored id row) (λ r. r.id ≡ id → is_terminal r ≡ true)
  unfolding job_run_from_row get_job_run_by_id
  reads-Stored done t i found h e same =
      ground (arith, find_where_sound (has_id i) t.job_runs found e)
