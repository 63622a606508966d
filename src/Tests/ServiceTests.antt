-- ===== src/Tests/ServiceTests.antt =====
-- A user's requests on concrete worlds.
use go_chatgpt_tasks.Base.{◌≡◌, refl, inr, Bool, [], ◌∷◌, some, All}
use go_chatgpt_tasks.Task.Domain.{recurring, success, pending, JobRun}
use go_chatgpt_tasks.Sql.Runs.{get_job_run_by_id}
use go_chatgpt_tasks.Task.Effect.{World}
use go_chatgpt_tasks.Task.Effect.Keeps.{On}
use go_chatgpt_tasks.Task.Worker.Terminal.{Stored}
use go_chatgpt_tasks.Task.Service.{Identity, Service, cancel_job, check_quota}
use go_chatgpt_tasks.Task.Service.Tenants.{cancel_job-Stored}
use go_chatgpt_tasks.Task.Service.Admission.{Admitted, quota_in, check_quota-Admitted}
use go_chatgpt_tasks.Tests.Sample.{run_row, world_of, all_done, two_at_once}

abbrev pub owner : Identity
owner = record { tenant_id = 7; user_id = 8 }

abbrev pub quota_service : Service
quota_service = record { quota = some two_at_once; records_rejections = Bool.true }

abbrev pub two_runs : World
two_runs = world_of all_done (run_row 11 pending 0 ∷ run_row 12 success 1 ∷ [])

cancel_job-Stored_example :
    Stored 12 (run_row 12 success 1) (cancel_job owner 5 two_runs).1.tables
    × On (All (λ (r : JobRun). r.tenant_id ≡ 7)) (cancel_job owner 5 two_runs).0
unfolding get_job_run_by_id
cancel_job-Stored_example =
    cancel_job-Stored owner 5 12 (run_row 12 success 1) two_runs (inr refl) refl

check_quota-Admitted_example :
    ((check_quota quota_service 7 recurring two_runs).1.tables ≡ two_runs.tables)
    × On
        (λ _. Admitted (quota_in two_at_once 7 two_runs.tables) 7 recurring two_runs.tables)
        (check_quota quota_service 7 recurring two_runs).0
check_quota-Admitted_example =
    check_quota-Admitted quota_service two_at_once 7 recurring two_runs refl
