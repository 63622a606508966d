-- ===== src/Sql/Runs/Laws.antt =====
-- What the writing statements on job_runs come to.
use go_chatgpt_tasks.Base.{
  ◌≡◌, ◌⊎◌, inl, inr, true, false, List, [], ◌∷◌, ◌++◌, some, arith, Bool-cases,
}
use go_chatgpt_tasks.Base.Int.{ℤ, pos, ltb_ℤ}
use go_chatgpt_tasks.Clock.{Time}
use go_chatgpt_tasks.Task.Domain.{Uuid}
use go_chatgpt_tasks.Task.Rows.{JobRow, JobRunRow}
use go_chatgpt_tasks.Sql.Tables.{exists_where, update_where}
use go_chatgpt_tasks.Sql.Runs.{
  has_id, same_sequence, insert_job_run, startable_id, mark_row, count_running,
  try_mark_job_run_running,
}

pub insert_job_run-some :
    (jobs : List JobRow) (row : JobRunRow) (runs runs' : List JobRunRow)
    → insert_job_run jobs row runs ≡ some runs'
    → (runs' ≡ runs ++ row ∷ [])
      × (exists_where (has_id row.id) runs ≡ false)
      × (exists_where (same_sequence row.job_id row.sequence) runs ≡ false)
unfolding insert_job_run
insert_job_run-some jobs row runs runs' e = ground arith

-- A claim leaves the table, or it read fewer running runs than the limit and starts the run.
pub try_mark_cases :
    (tenant : Uuid) (started_at updated_at : Time) (id : Uuid) (limit : ℤ)
    (snapshot runs : List JobRunRow)
    → let after = try_mark_job_run_running tenant started_at updated_at id limit snapshot runs in
      (after ≡ (false, runs))
      ⊎ ((ltb_ℤ (pos (count_running tenant snapshot)) limit ≡ true)
          × (after.1 ≡ update_where (startable_id id) (mark_row started_at updated_at) runs))
unfolding try_mark_job_run_running
try_mark_cases tenant started_at updated_at id limit snapshot runs =
    elim (Bool-cases (ltb_ℤ (pos (count_running tenant snapshot)) limit)) [
      | inl e ↦ inr (e, rw e)
      | inr e ↦ inl (rw e)
    ]
