-- ===== src/Task/Service/Tenants.antt =====
-- internal/task/service.go: Cancel and the tenants.
use go_chatgpt_tasks.Base.{
  ℕ, ◌≡◌, ◌≢◌, ◌⊎◌, refl, inl, inr, Bool, true, false, List, [], ◌∷◌, ◌++◌, some, map, All, select,
  Bool-cases, arith, ◌==◌,
}
use go_chatgpt_tasks.Clock.{time_to_pg}
use go_chatgpt_tasks.Task.Domain.{Uuid, Job, JobRun, is_terminal_status}
use go_chatgpt_tasks.Task.Rows.{JobRunRow, job_run_from_row}
use go_chatgpt_tasks.Sql.Tables.{Tables, find_where, update_where}
use go_chatgpt_tasks.Sql.Tables.Laws.{All-append}
use go_chatgpt_tasks.Sql.Runs.{
  get_job_run_by_id, has_id, to_cancel, cancel_row, cancel_pending_job_runs,
}
use go_chatgpt_tasks.Task.Effect.{World, M}
use go_chatgpt_tasks.Task.Effect.Keeps.{
  On, Any, Keeps, keeps_pure, keeps_fail, keeps_bind, keeps_then, keeps_context, keeps_now,
  keeps_id, keeps_statement,
}
use go_chatgpt_tasks.Task.Repo.{cancel_pending_runs_by_job}
use go_chatgpt_tasks.Task.Repo.Keeps.{append_event-Keeps, find_children-Keeps, find_job-Keeps}
use go_chatgpt_tasks.Task.Worker.Terminal.{Stored}
use go_chatgpt_tasks.Task.Service.{
  Identity, valid, as_owner, find_all_children, note_cancelled, cancel_job_runs, cancel_children,
  cancel_found, cancel_job,
}

-- An update that leaves the row found alone, and keeps the keys, does not change what is found.
pub find_where-update_where_same :
    {A : Type 0} (p q : A → Bool) (f : A → A) (xs : List A) (x : A)
    → ((y : A) → q (f y) ≡ q y)
    → p x ≡ false
    → find_where q xs ≡ some x
    → find_where q (update_where p f xs) ≡ some x
find_where-update_where_same p q f [] x k e h = ground arith
find_where-update_where_same p q f (y ∷ ys) x k e h =
    ground (arith, k y, find_where-update_where_same p q f ys x k e)

abbrev Owned : Uuid → List JobRun → Type 0
Owned tenant = All (λ (r : JobRun). r.tenant_id ≡ tenant)

cancelled-Owned :
    (tenant job_id : Uuid) (s u : ℕ) (rows : List JobRunRow)
    → Owned tenant
        (map job_run_from_row (map (cancel_row s u) (select (to_cancel tenant job_id) rows)))
unfolding job_run_from_row
cancelled-Owned tenant job_id s u [] = tt
cancelled-Owned tenant job_id s u (r ∷ rs) = elim (Bool-cases (to_cancel tenant job_id r)) [
  | inl e ↦ rw e (ground arith, cancelled-Owned tenant job_id s u rs)
  | inr e ↦ rw e (cancelled-Owned tenant job_id s u rs)
]

pub as_owner-Keeps :
    {A : Type 0} {Q : A → Type 0} (P : Tables → Type 0) (id : Identity) (m : M A)
    → Keeps P m Q
    → Keeps P (as_owner id m) Q
unfolding as_owner
as_owner-Keeps P id m k = elim (Bool-cases (valid id)) [
  | inl e ↦ rw e k
  | inr e ↦ rw e (keeps_fail P _)
]

pub find_all_children-Keeps : (P : Tables → Type 0) (id : Uuid) → Keeps P (find_all_children id) Any
unfolding find_all_children
find_all_children-Keeps P id =
    keeps_bind P _ _ (keeps_context P _ _ (find_children-Keeps P id _)) λ a _.
      keeps_bind P _ _ (keeps_context P _ _ (find_children-Keeps P id _)) λ b _.
        keeps_bind P _ _ (keeps_context P _ _ (find_children-Keeps P id _)) λ c _. keeps_pure P _ tt

-- A row that a cancellation of the tenant's runs must leave alone.
abbrev pub Safe : Uuid → JobRunRow → Type 0
Safe tenant row = (row.tenant_id ≢ tenant) ⊎ (is_terminal_status row.status ≡ true)

pub not_to_cancel :
    (tenant job_id : Uuid) (row : JobRunRow) → Safe tenant row → to_cancel tenant job_id row ≡ false
not_to_cancel tenant job_id row (inl apart) = ground arith
not_to_cancel tenant job_id row (inr finished) = ground arith

module _ (tenant id : Uuid) (row : JobRunRow) (safe : Safe tenant row) where
  cancel_pending-Keeps :
      (job_id : Uuid)
      → Keeps (Stored id row) (cancel_pending_runs_by_job tenant job_id) (Owned tenant)
  unfolding cancel_pending_runs_by_job cancel_pending_job_runs get_job_run_by_id
  cancel_pending-Keeps job_id = keeps_bind _ _ _ (keeps_now _) λ now _.
      keeps_bind _ {Q = λ rows. Owned tenant (map job_run_from_row rows)} _ _
        (keeps_context _ _ _ (
          keeps_statement _ _ λ t h. (
            find_where-update_where_same (to_cancel tenant job_id) (has_id id)
                (cancel_row (time_to_pg now) (time_to_pg now)) t.job_runs row (λ y. refl)
                (not_to_cancel tenant job_id row safe) h,
            cancelled-Owned tenant job_id (time_to_pg now) (time_to_pg now) t.job_runs,
          )))
        (λ rows owned. keeps_pure _ _ owned)

  note_cancelled-Keeps : (rs : List JobRun) → Keeps (Stored id row) (note_cancelled rs) Any
  unfolding note_cancelled
  note_cancelled-Keeps [] = keeps_pure _ _ tt
  note_cancelled-Keeps (r ∷ rs) = keeps_bind _ _ _ (keeps_id _) λ e _.
      keeps_bind _ _ _ (keeps_now _) λ now _.
        keeps_then _ _ _ (keeps_context _ _ _ (append_event-Keeps _ (λ t es h. h) _))
          (note_cancelled-Keeps rs)

  cancel_job_runs-Keeps :
      (job_id : Uuid) → Keeps (Stored id row) (cancel_job_runs tenant job_id) (Owned tenant)
  unfolding cancel_job_runs
  cancel_job_runs-Keeps job_id =
      keeps_bind _ _ _ (cancel_pending-Keeps job_id)
        λ rs owned. keeps_then _ _ _ (note_cancelled-Keeps rs) (keeps_pure _ _ owned)

  cancel_children-Keeps :
      (js : List Job) (rs : List JobRun)
      → Owned tenant rs
      → Keeps (Stored id row) (cancel_children tenant js rs) (Owned tenant)
  unfolding cancel_children
  cancel_children-Keeps [] rs owned = keeps_pure _ _ owned
  cancel_children-Keeps (j ∷ js) rs owned =
      keeps_bind _ _ _ (cancel_job_runs-Keeps j.id)
        λ more owned'. cancel_children-Keeps js (rs ++ more) (All-append _ rs more owned owned')

cancel_found-Keeps :
    (user : Identity) (id : Uuid) (row : JobRunRow) (safe : Safe user.tenant_id row) (job_id : Uuid)
    (job : Job)
    → Keeps (Stored id row) (cancel_found user job_id job) (Owned user.tenant_id)
unfolding cancel_found
cancel_found-Keeps user id row safe job_id job =
    elim (Bool-cases (job.tenant_id == user.tenant_id)) [
      | inl e ↦ rw e (
          keeps_bind _ _ _ (cancel_job_runs-Keeps user.tenant_id id row safe job_id) λ rs owned.
            keeps_bind _ _ _ (find_all_children-Keeps _ job_id)
              λ js _. cancel_children-Keeps user.tenant_id id row safe js rs owned)
      | inr e ↦ rw e (keeps_fail _ _)
    ]

-- Whatever calls fail, Cancel leaves the row of a run of another tenant, or of a run that is
-- finished, as it is, and returns runs of the user's own tenant only.
pub cancel_job-Stored :
    (user : Identity) (job_id id : Uuid) (row : JobRunRow) (w : World)
    → (row.tenant_id ≢ user.tenant_id) ⊎ (is_terminal_status row.status ≡ true)
    → Stored id row w.tables
    → Stored id row (cancel_job user job_id w).1.tables
      × On (All (λ (r : JobRun). r.tenant_id ≡ user.tenant_id)) (cancel_job user job_id w).0
unfolding cancel_job
cancel_job-Stored user job_id id row w safe h =
    (as_owner-Keeps (Stored id row) user _ (
        keeps_bind _ _ _ (find_job-Keeps _ job_id)
          λ job _. cancel_found-Keeps user id row safe job_id job)).apply
      w h
