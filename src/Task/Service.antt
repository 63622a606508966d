-- ===== src/Task/Service.antt =====
-- internal/task/service.go: what a user asks of the jobs. Create is in the child module of that name;
-- its quota check is here.
pub mod Tenants
pub mod Reads
pub mod Admission
pub mod Create
use go_chatgpt_tasks.Base.{
  ℕ, ◌-◌, Bool, not, ◌&&◌, ◌==◌, if◌then◌else◌, List, [], ◌∷◌, ◌++◌, Option, none, some, Text,
  codes,
}
use go_chatgpt_tasks.Base.Int.{pos, leb_ℤ}
use go_chatgpt_tasks.Clock.{hour}
use go_chatgpt_tasks.Shared.{new_pagination}
use go_chatgpt_tasks.Task.Errors.{
  sentinel, detail, invalid_owner, job_run_not_found, job_not_found, quota_exceeded,
}
use go_chatgpt_tasks.Task.Domain.{
  Uuid, uuid_nil, Kind, recurring, success, failed, cancelled, job_cancelled, Quota, Job, JobRun,
  RunEvent,
}
use go_chatgpt_tasks.Task.Transitions.{new_run_event, set_schedule, set_children}
use go_chatgpt_tasks.Sql.Records.{is_recurring}
use go_chatgpt_tasks.Task.Effect.{
  M, ◌>>=◌, ◌>>◌, pure, fail, with_context, time_now, new_id, quota_rejected, record_metric,
}
use go_chatgpt_tasks.Task.Repo.{
  Pagination, find_job, find_run_by_id, list_runs, list_runs_by_job, list_events, append_event,
  find_children, cancel_pending_runs_by_job,
}
use go_chatgpt_tasks.Task.Quotas.{
  get, count_jobs_since, count_active_runs_of, count_active_recurring,
}

pub record Identity : Type 0 where
  pub tenant_id : Uuid
  pub user_id : Uuid

-- The ports that may be nil: the quota repository with its defaults, and the rejections' recorder.
pub record Service : Type 0 where
  pub quota : Option Quota
  pub records_rejections : Bool

abbrev pub valid : Identity → Bool
valid id = not (id.tenant_id == uuid_nil) && not (id.user_id == uuid_nil)

-- `if !id.valid() { return ErrInvalidOwner }`, then the rest.
unfoldable pub as_owner : {A : Type 0} → Identity → M A → M A
as_owner id m = if valid id then m else fail (sentinel invalid_owner)

unfoldable pub list : Identity → Pagination → M (List JobRun × ℕ)
list id p = as_owner id (with_context (codes "list runs") (list_runs id.tenant_id p))

unfoldable pub runs_for_job : Identity → Uuid → Pagination → M (List JobRun × ℕ)
runs_for_job id job_id p =
    as_owner id (with_context (codes "list runs for job") (list_runs_by_job id.tenant_id job_id p))

unfoldable pub events_of_run : Identity → JobRun → M (List RunEvent)
events_of_run id run =
    if run.tenant_id == id.tenant_id
    then with_context (codes "list events") (list_events id.tenant_id run.id)
    else fail (sentinel job_run_not_found)

unfoldable pub events_for_run : Identity → Uuid → M (List RunEvent)
events_for_run id run_id = as_owner id (find_run_by_id run_id >>= events_of_run id)

abbrev has_child : Uuid → List Job → Bool
has_child id [] = Bool.false
has_child id (j ∷ js) = if j.id == id then Bool.true else has_child id js

-- The inner loop of findAllChildren: `seen` has the identifiers of `out`.
abbrev add_unseen : List Job → List Job → List Job
add_unseen out [] = out
add_unseen out (j ∷ js) = add_unseen (if has_child j.id out then out else out ++ j ∷ []) js

unfoldable pub find_all_children : Uuid → M (List Job)
find_all_children parent_id = do
  succeeded ← with_context (codes "find child jobs") (find_children parent_id success)
  after_failure ← with_context (codes "find child jobs") (find_children parent_id failed)
  after_cancel ← with_context (codes "find child jobs") (find_children parent_id cancelled)
  pure (add_unseen (add_unseen (add_unseen [] succeeded) after_failure) after_cancel)

-- The rest of Status, from the latest run on.
unfoldable pub status_of_run : Identity → Uuid → JobRun → M JobRun
status_of_run id job_id run =
    if run.tenant_id == id.tenant_id
    then (do
      job ← with_context (codes "find job schedule") (find_job job_id)
      (if job.tenant_id == id.tenant_id
          then (do
            children ← find_all_children job_id
            pure (set_children children (set_schedule job run)))
          else fail (sentinel job_run_not_found)))
    else fail (sentinel job_run_not_found)

abbrev status_of_first : Identity → Uuid → List JobRun × ℕ → M JobRun
status_of_first id job_id ([], n) = fail (sentinel job_run_not_found)
status_of_first id job_id (r ∷ rs, n) = status_of_run id job_id r

-- Status.
unfoldable pub status_of_job : Identity → Uuid → M JobRun
status_of_job id job_id = as_owner id (
    with_context (codes "list latest job run")
      (list_runs_by_job id.tenant_id job_id (new_pagination (pos 1) (pos 0)))
    >>= status_of_first id job_id)

unfoldable pub note_cancelled : List JobRun → M (Unit {0})
note_cancelled [] = pure tt
note_cancelled (r ∷ rs) = do
  event_id ← new_id
  now ← time_now
  with_context (codes "append job cancelled event") (
      append_event
        (new_run_event event_id now r.tenant_id r.job_id r.id cancelled job_cancelled none))
  note_cancelled rs

unfoldable pub cancel_job_runs : Uuid → Uuid → M (List JobRun)
cancel_job_runs tenant job_id = do
  runs ← cancel_pending_runs_by_job tenant job_id
  note_cancelled runs
  pure runs

-- The loop over the children.
unfoldable pub cancel_children : Uuid → List Job → List JobRun → M (List JobRun)
cancel_children tenant [] runs = pure runs
cancel_children tenant (j ∷ js) runs = do
  more ← cancel_job_runs tenant j.id
  cancel_children tenant js (runs ++ more)

unfoldable pub cancel_found : Identity → Uuid → Job → M (List JobRun)
cancel_found id job_id job =
    if job.tenant_id == id.tenant_id
    then (do
      runs ← cancel_job_runs id.tenant_id job_id
      children ← find_all_children job_id
      cancel_children id.tenant_id children runs)
    else fail (sentinel job_not_found)

-- Cancel.
unfoldable pub cancel_job : Identity → Uuid → M (List JobRun)
cancel_job id job_id = as_owner id (find_job job_id >>= cancel_found id job_id)

abbrev recorded : Service → Text → M (Unit {0})
recorded s reason = if s.records_rejections then record_metric (quota_rejected reason) else pure tt

unfoldable pub reject_quota : Service → Text → M (Unit {0})
reject_quota s reason = recorded s reason >> fail (detail (sentinel quota_exceeded) reason)

unfoldable pub check_recurring : Service → Quota → Uuid → M (Unit {0})
check_recurring s quota tenant = do
  active ←
      with_context (codes "count active recurring jobs for quota") (count_active_recurring tenant)
  (if leb_ℤ quota.max_active_recurring (pos active)
      then reject_quota s (codes "max_active_recurring_jobs")
      else pure tt)

unfoldable pub check_runs : Service → Quota → Uuid → Kind → M (Unit {0})
check_runs s quota tenant kind = do
  active ← with_context (codes "count active runs for quota") (count_active_runs_of tenant)
  (if leb_ℤ quota.max_concurrent_runs (pos active)
      then reject_quota s (codes "max_concurrent_runs_admission")
      else (if is_recurring kind then check_recurring s quota tenant else pure tt))

unfoldable pub check_quota_with : Service → Quota → Uuid → Kind → M (Unit {0})
check_quota_with s defaults tenant kind = do
  quota ← with_context (codes "get tenant quota") (get defaults tenant)
  now ← time_now
  jobs ← with_context (codes "count jobs for quota") (count_jobs_since tenant (now - hour))
  (if leb_ℤ quota.max_jobs_per_hour (pos jobs)
      then reject_quota s (codes "max_jobs_per_hour")
      else check_runs s quota tenant kind)

abbrev check_quota_if : Service → Option Quota → Uuid → Kind → M (Unit {0})
check_quota_if s none tenant kind = pure tt
check_quota_if s (some defaults) tenant kind = check_quota_with s defaults tenant kind

-- checkQuota.
unfoldable pub check_quota : Service → Uuid → Kind → M (Unit {0})
check_quota s tenant kind = check_quota_if s s.quota tenant kind
