-- ===== src/Task/Service/Reads.antt =====
-- internal/task/service.go: List, Status, RunsForJob and EventsForRun, and the tenants.
use go_chatgpt_tasks.Base.{ℕ, ◌≡◌, refl, inl, inr, ◌==◌, List, [], ◌∷◌, map, All, Bool-cases, arith}
use go_chatgpt_tasks.Task.Domain.{Uuid, JobRun, RunEvent}
use go_chatgpt_tasks.Task.Transitions.{set_schedule, set_children}
use go_chatgpt_tasks.Task.Rows.{JobRunRow, job_run_from_row}
use go_chatgpt_tasks.Sql.Tables.{Tables, RunEventRow}
use go_chatgpt_tasks.Sql.Tables.Laws.{All-select, All-take, All-drop, All-order_by}
use go_chatgpt_tasks.Sql.Runs.{list_job_runs, list_job_runs_by_job}
use go_chatgpt_tasks.Sql.Records.{list_run_events_by_run}
use go_chatgpt_tasks.Task.Effect.{World}
use go_chatgpt_tasks.Task.Effect.Keeps.{
  On, Any, Keeps, keeps_pure, keeps_fail, keeps_bind, keeps_context, keeps_query,
}
use go_chatgpt_tasks.Task.Repo.{
  Pagination, list_runs, list_runs_by_job, list_events, run_event_from_sqlc,
}
use go_chatgpt_tasks.Task.Repo.Keeps.{
  paged-Keeps, list_runs_by_job-Keeps, find_run_by_id-Keeps, find_job-Keeps,
}
use go_chatgpt_tasks.Task.Service.{
  Identity, list, runs_for_job, events_of_run, events_for_run, status_of_run, status_of_first,
  status_of_job,
}
use go_chatgpt_tasks.Task.Service.Tenants.{as_owner-Keeps, find_all_children-Keeps}

All-trivial : {A : Type 0} (xs : List A) → All (λ _. Unit {0}) xs
All-trivial [] = tt
All-trivial (x ∷ xs) = (tt, All-trivial xs)

from_rows-owned :
    (tenant : Uuid) (rows : List JobRunRow)
    → All (λ (r : JobRunRow). r.tenant_id ≡ tenant) rows
    → All (λ (r : JobRun). r.tenant_id ≡ tenant) (map job_run_from_row rows)
unfolding job_run_from_row
from_rows-owned tenant [] h = tt
from_rows-owned tenant (r ∷ rs) h = (h.0, from_rows-owned tenant rs h.1)

from_events-owned :
    (tenant : Uuid) (rows : List RunEventRow)
    → All (λ (e : RunEventRow). e.tenant_id ≡ tenant) rows
    → All (λ (e : RunEvent). e.tenant_id ≡ tenant) (map run_event_from_sqlc rows)
unfolding run_event_from_sqlc
from_events-owned tenant [] h = tt
from_events-owned tenant (r ∷ rs) h = (h.0, from_events-owned tenant rs h.1)

module _ (P : Tables → Type 0) (user : Identity) where
  list_runs-Keeps :
      (p : Pagination)
      → Keeps P
          (list_runs user.tenant_id p)
          (λ x. All (λ (r : JobRun). r.tenant_id ≡ user.tenant_id) x.0)
  unfolding list_runs list_job_runs
  list_runs-Keeps p =
      keeps_bind P {Q = All (λ (r : JobRunRow). r.tenant_id ≡ user.tenant_id)} _ _
        (keeps_context P _ _ (
          paged-Keeps P p _ λ t n h. All-take _ p.limit _ (
            All-drop _ n _ (
              All-order_by _ _ _ (
                All-select (λ _. Unit) _ _ t.job_runs (λ x e _. ground arith)
                  (All-trivial t.job_runs))))))
        λ rows owned.
          keeps_bind P {Q = Any} _ _ (keeps_context P _ _ (keeps_query P _ (λ t h. tt)))
            λ total _. keeps_pure P _ (from_rows-owned user.tenant_id rows owned)

  job_runs-Keeps :
      (job_id : Uuid) (p : Pagination)
      → Keeps P
          (list_runs_by_job user.tenant_id job_id p)
          (λ x. All (λ (r : JobRun). r.tenant_id ≡ user.tenant_id) x.0)
  unfolding list_runs_by_job list_job_runs_by_job
  job_runs-Keeps job_id p =
      keeps_bind P {Q = All (λ (r : JobRunRow). r.tenant_id ≡ user.tenant_id)} _ _
        (keeps_context P _ _ (
          paged-Keeps P p _ λ t n h. All-take _ p.limit _ (
            All-drop _ n _ (
              All-order_by _ _ _ (
                All-select (λ _. Unit) _ _ t.job_runs (λ x e _. ground arith)
                  (All-trivial t.job_runs))))))
        λ rows owned.
          keeps_bind P {Q = Any} _ _ (keeps_context P _ _ (keeps_query P _ (λ t h. tt)))
            λ total _. keeps_pure P _ (from_rows-owned user.tenant_id rows owned)

  list_events-Keeps :
      (run_id : Uuid)
      → Keeps P
          (list_events user.tenant_id run_id)
          (All (λ (e : RunEvent). e.tenant_id ≡ user.tenant_id))
  unfolding list_events list_run_events_by_run
  list_events-Keeps run_id =
      keeps_bind P {Q = All (λ (e : RunEventRow). e.tenant_id ≡ user.tenant_id)} _ _
        (keeps_context P _ _ (
          keeps_query P _ λ t h. All-order_by _ _ _ (
            All-select (λ _. Unit) _ _ t.run_events (λ x e _. ground arith)
              (All-trivial t.run_events))))
        λ rows owned. keeps_pure P _ (from_events-owned user.tenant_id rows owned)

  events_of_run-Keeps :
      (r : JobRun)
      → Keeps P (events_of_run user r) (All (λ (e : RunEvent). e.tenant_id ≡ user.tenant_id))
  unfolding events_of_run
  events_of_run-Keeps r = elim (Bool-cases (r.tenant_id == user.tenant_id)) [
    | inl e ↦ rw e (keeps_context P _ _ (list_events-Keeps r.id))
    | inr e ↦ rw e (keeps_fail P _)
  ]

  status_of_run-Keeps :
      (job_id : Uuid) (r : JobRun)
      → Keeps P (status_of_run user job_id r) (λ s. s.tenant_id ≡ user.tenant_id)
  unfolding status_of_run set_children set_schedule
  status_of_run-Keeps job_id r = elim (Bool-cases (r.tenant_id == user.tenant_id)) [
    | inl e ↦ rw e (
        keeps_bind P {Q = Any} _ _ (keeps_context P _ _ (find_job-Keeps P job_id)) λ job _.
          elim (Bool-cases (job.tenant_id == user.tenant_id)) [
            | inl f ↦ rw f (
                keeps_bind P _ _ (find_all_children-Keeps P job_id)
                  λ js _. keeps_pure P _ (ground arith))
            | inr f ↦ rw f (keeps_fail P _)
          ])
    | inr e ↦ rw e (keeps_fail P _)
  ]

  status_of_first-Keeps :
      (job_id : Uuid) (x : List JobRun × ℕ)
      → Keeps P (status_of_first user job_id x) (λ s. s.tenant_id ≡ user.tenant_id)
  status_of_first-Keeps job_id ([], n) = keeps_fail P _
  status_of_first-Keeps job_id (r ∷ rs, n) = status_of_run-Keeps job_id r

-- Listing changes no table, whatever calls fail, and returns runs of the user's tenant only.
pub list-owned :
    (user : Identity) (p : Pagination) (w : World)
    → ((list user p w).1.tables ≡ w.tables)
      × On (λ x. All (λ (r : JobRun). r.tenant_id ≡ user.tenant_id) x.0) (list user p w).0
unfolding list
list-owned user p w =
    (as_owner-Keeps (λ t. t ≡ w.tables) user _
        (keeps_context _ _ _ (list_runs-Keeps _ user p))).apply
      w refl

-- The same for RunsForJob.
pub runs_for_job-owned :
    (user : Identity) (job_id : Uuid) (p : Pagination) (w : World)
    → ((runs_for_job user job_id p w).1.tables ≡ w.tables)
      × On
          (λ x. All (λ (r : JobRun). r.tenant_id ≡ user.tenant_id) x.0)
          (runs_for_job user job_id p w).0
unfolding runs_for_job
runs_for_job-owned user job_id p w =
    (as_owner-Keeps (λ t. t ≡ w.tables) user _
        (keeps_context _ _ _ (job_runs-Keeps _ user job_id p))).apply
      w refl

-- Status changes no table, whatever calls fail, and returns a run of the user's tenant only.
pub status_of_job-owned :
    (user : Identity) (job_id : Uuid) (w : World)
    → ((status_of_job user job_id w).1.tables ≡ w.tables)
      × On (λ (r : JobRun). r.tenant_id ≡ user.tenant_id) (status_of_job user job_id w).0
unfolding status_of_job
status_of_job-owned user job_id w =
    (as_owner-Keeps (λ t. t ≡ w.tables) user _
        (keeps_bind _ _ _ (keeps_context _ _ _ (list_runs_by_job-Keeps _ _ _ _))
          λ x _. status_of_first-Keeps _ user job_id x)).apply
      w refl

-- EventsForRun changes no table, whatever calls fail, and returns events of the user's tenant only.
pub events_for_run-owned :
    (user : Identity) (run_id : Uuid) (w : World)
    → ((events_for_run user run_id w).1.tables ≡ w.tables)
      × On (All (λ (e : RunEvent). e.tenant_id ≡ user.tenant_id)) (events_for_run user run_id w).0
unfolding events_for_run
events_for_run-owned user run_id w =
    (as_owner-Keeps (λ t. t ≡ w.tables) user _
        (keeps_bind _ {Q = Any} _ _ (find_run_by_id-Keeps _ Any (λ t id row h e. tt) run_id)
          λ r _. events_of_run-Keeps _ user r)).apply
      w refl
