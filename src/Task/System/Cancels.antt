-- ===== src/Task/System/Cancels.antt =====
-- internal/task/service.go: Cancel keeps what its statement on the runs keeps.
use go_chatgpt_tasks.Base.{inl, inr, ◌==◌, List, [], ◌∷◌, ◌++◌, Bool-cases}
use go_chatgpt_tasks.Task.Domain.{Uuid, Job, JobRun}
use go_chatgpt_tasks.Sql.Tables.{Tables}
use go_chatgpt_tasks.Task.Effect.Keeps.{
  Any, Keeps, keeps_pure, keeps_fail, keeps_bind, keeps_then, keeps_context, keeps_now, keeps_id,
}
use go_chatgpt_tasks.Task.Repo.{cancel_pending_runs_by_job}
use go_chatgpt_tasks.Task.Repo.Keeps.{EventsFree, find_job-Keeps, append_event-Keeps}
use go_chatgpt_tasks.Task.Service.{
  Identity, note_cancelled, cancel_job_runs, cancel_children, cancel_found, cancel_job,
}
use go_chatgpt_tasks.Task.Service.Tenants.{as_owner-Keeps, find_all_children-Keeps}

module _ (P : Tables → Type 0) (free : EventsFree P)
    (pending : (tenant job_id : Uuid)
      → Keeps P (cancel_pending_runs_by_job tenant job_id) Any) where
  note_cancelled-Keeps : (rs : List JobRun) → Keeps P (note_cancelled rs) Any
  unfolding note_cancelled
  note_cancelled-Keeps [] = keeps_pure _ tt tt
  note_cancelled-Keeps (r ∷ rs) = keeps_bind _ _ _ (keeps_id _) λ id _.
      keeps_bind _ _ _ (keeps_now _) λ now _.
        keeps_then _ _ _ (keeps_context _ _ _ (append_event-Keeps P free _))
          (note_cancelled-Keeps rs)

  cancel_job_runs-Keeps : (tenant job_id : Uuid) → Keeps P (cancel_job_runs tenant job_id) Any
  unfolding cancel_job_runs
  cancel_job_runs-Keeps tenant job_id =
      keeps_bind _ _ _ (pending tenant job_id)
        λ rs _. keeps_then _ _ _ (note_cancelled-Keeps rs) (keeps_pure _ rs tt)

  cancel_children-Keeps :
      (tenant : Uuid) (js : List Job) (rs : List JobRun)
      → Keeps P (cancel_children tenant js rs) Any
  unfolding cancel_children
  cancel_children-Keeps tenant [] rs = keeps_pure _ rs tt
  cancel_children-Keeps tenant (j ∷ js) rs =
      keeps_bind _ _ _ (cancel_job_runs-Keeps tenant j.id)
        λ more _. cancel_children-Keeps tenant js (rs ++ more)

  pub cancel_job-Keeps : (user : Identity) (job_id : Uuid) → Keeps P (cancel_job user job_id) Any
  unfolding cancel_job cancel_found
  cancel_job-Keeps user job_id = as_owner-Keeps _ user _ (
      keeps_bind _ _ _ (find_job-Keeps _ job_id) λ job _.
        elim (Bool-cases (job.tenant_id == user.tenant_id)) [
          | inl e ↦ rw e (
              keeps_bind _ _ _ (cancel_job_runs-Keeps _ job_id) λ rs _.
                keeps_bind _ _ _ (find_all_children-Keeps _ job_id)
                  λ js _. cancel_children-Keeps _ js rs)
          | inr e ↦ rw e (keeps_fail _ _)
        ])
