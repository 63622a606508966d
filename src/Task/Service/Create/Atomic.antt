-- ===== src/Task/Service/Create/Atomic.antt =====
-- internal/task/service.go: what Create leaves in the tables.
use go_chatgpt_tasks.Base.{
  ℕ, ◌≡◌, refl, ap, subst, inl, inr, [], ◌∷◌, map, Option, none, some, Text, codes, Bool-cases,
  arith,
}
use go_chatgpt_tasks.Clock.{Time, is_zero_time}
use go_chatgpt_tasks.Task.Domain.{
  Uuid, pending, EventType, job_created, job_run_created, ScheduleSpec, Job, JobRun, RunEvent,
}
use go_chatgpt_tasks.Task.Transitions.{Outcome, new_job_run, new_run_event, set_schedule}
use go_chatgpt_tasks.Task.Rows.{job_to_insert_params, job_run_to_insert_params}
use go_chatgpt_tasks.Sql.Tables.{Tables}
use go_chatgpt_tasks.Task.Effect.{World}
use go_chatgpt_tasks.Task.Effect.Keeps.{
  Any, Keeps, keeps_pure, keeps_fail, keeps_bind, keeps_lift, keeps_now, keeps_id,
}
use go_chatgpt_tasks.Task.Effect.Atomic.{
  AllOrNothing, AllOrNothing-weaken, Same, then-AllOrNothing, context-AllOrNothing,
}
use go_chatgpt_tasks.Task.Repo.{create_job_with_run, run_event_to_insert_params}
use go_chatgpt_tasks.Task.Repo.Atomic.{with_created, IsNew, create_job_with_run-AllOrNothing}
use go_chatgpt_tasks.Task.Worker.Calls.{run_key-Keeps}
use go_chatgpt_tasks.Task.Recurrence.Location.{Zone}
use go_chatgpt_tasks.Task.NewJob.Valid.{ValidJob, new_job-ValidJob}
use go_chatgpt_tasks.Task.Service.{Identity, Service, valid, as_owner}
use go_chatgpt_tasks.Task.Service.Admission.{check_quota-Keeps}
use go_chatgpt_tasks.Task.Service.Create.{
  CreateInput, is_one_off, spec_of, with_defaults, zone_or_fail, schedule_recurring,
  schedule_from_input, event_for, create_run, create_scheduled, create,
}

-- What Create adds to the tables: a valid job of the user, its first run, with an identifier that no
-- run had, and the two events.
pub record Creation (load_location : Text → Option Zone) (id : Identity) (t t' : Tables)
    : Type 0 where
  pub job : Job
  pub run : JobRun
  pub created : RunEvent
  pub run_created : RunEvent
  pub stored :
      t'
      ≡ with_created t
          (job_to_insert_params job)
          (job_run_to_insert_params run)
          (map run_event_to_insert_params (created ∷ run_created ∷ []))
  pub unused : IsNew run t.job_runs
  pub valid : ValidJob load_location job
  pub of_tenant : job.tenant_id ≡ id.tenant_id
  pub of_user : job.user_id ≡ id.user_id
  pub first : (run.job_id ≡ job.id) × (run.sequence ≡ 1)
  pub waiting : (run.status ≡ pending) × (run.tenant_id ≡ id.tenant_id)
  pub unstarted : run.attempts ≡ 0
  pub noted :
      (created.job_run_id ≡ run.id)
      × (created.event_type ≡ job_created)
      × ((run_created.job_run_id ≡ run.id) × (run_created.event_type ≡ job_run_created))

-- Reading the schedule.
module _ (P : Tables → Type 0) where
  zone-Keeps : (o : Option Zone) → Keeps P (zone_or_fail o) Any
  unfolding zone_or_fail
  zone-Keeps none = keeps_fail P _
  zone-Keeps (some z) = keeps_pure P z tt

  recurring-Keeps :
      (load_location : Text → Option Zone) (spec : ScheduleSpec)
      → Keeps P (schedule_recurring load_location spec) Any
  unfolding schedule_recurring
  recurring-Keeps load_location spec = keeps_bind P _ _ (keeps_lift P _) λ rule _.
      keeps_bind P _ _ (zone-Keeps _) λ z _.
        keeps_bind P _ _ (keeps_now P)
          λ now _. keeps_bind P _ _ (keeps_lift P _) λ next _. keeps_pure P _ tt

event_for-Keeps :
    (before : Tables) (tenant : Uuid) (j : Job) (r : JobRun) (t : EventType)
    → Keeps
        (Same before (λ _. Unit))
        (event_for tenant j r t)
        (λ (e : RunEvent). (e.job_run_id ≡ r.id) × (e.event_type ≡ t))
unfolding event_for new_run_event
event_for-Keeps before tenant j r t =
    keeps_bind _ _ _ (keeps_id _)
      λ id _. keeps_bind _ _ _ (keeps_now _) λ now _. keeps_pure _ _ (refl, refl)

new_job_run-fields :
    (key : Uuid → ℕ → Text) (id : Uuid) (now : Time) (tenant job_id : Uuid) (n : ℕ) (at : Time)
    (r : JobRun)
    → new_job_run key id now tenant job_id n at ≡ Outcome.ok r
    → ((r.job_id ≡ job_id) × (r.sequence ≡ n))
      × ((r.status ≡ pending) × ((r.tenant_id ≡ tenant) × (r.attempts ≡ 0)))
unfolding new_job_run
new_job_run-fields key id now tenant job_id n at r e = ground arith

module _ (load_location : Text → Option Zone) (id : Identity) (before : Tables) where
  abbrev New : Tables → Type 0
  New = Creation load_location id before

  run-AllOrNothing :
      (j : Job) (at : Time) (w : World)
      → ValidJob load_location j
      → j.tenant_id ≡ id.tenant_id
      → j.user_id ≡ id.user_id
      → w.tables ≡ before
      → AllOrNothing before New (create_run id j at w)
  unfolding create_run
  run-AllOrNothing j at w v p q e =
      then-AllOrNothing before New _ _ (keeps_id _)
        (λ run_id _. then-AllOrNothing before New _ _ (keeps_now _) λ now _.
          then-AllOrNothing before New _ _ (run_key-Keeps _) λ key _.
            then-AllOrNothing before New _ _ (keeps_lift _ _) λ run made.
              then-AllOrNothing before New _ _ (event_for-Keeps before _ j run _) λ a fa.
                then-AllOrNothing before New _ _ (event_for-Keeps before _ j run _) λ b fb w' e'.
                  context-AllOrNothing before New (codes "create job")
                    (create_job_with_run j run (a ∷ b ∷ [])) (set_schedule j run) w'
                    (stores run a b w' e' (new_job_run-fields key run_id now _ _ _ _ run made) fa
                      fb))
        w e
    where
      stores :
          (run : JobRun) (a b : RunEvent) (w' : World)
          → w'.tables ≡ before
          → ((run.job_id ≡ j.id) × (run.sequence ≡ 1))
            × ((run.status ≡ pending) × ((run.tenant_id ≡ id.tenant_id) × (run.attempts ≡ 0)))
          → (a.job_run_id ≡ run.id) × (a.event_type ≡ job_created)
          → (b.job_run_id ≡ run.id) × (b.event_type ≡ job_run_created)
          → AllOrNothing before New (create_job_with_run j run (a ∷ b ∷ []) w')
      stores run a b w' e' f fa fb =
          AllOrNothing-weaken before
            (λ t'.
              (t'
                ≡ with_created before (job_to_insert_params j) (job_run_to_insert_params run)
                    (map run_event_to_insert_params (a ∷ b ∷ [])))
              × IsNew run before.job_runs)
            New _
            (λ t' s. record {
              job = j;
              run = run;
              created = a;
              run_created = b;
              stored = s.0;
              unused = s.1;
              valid = v;
              of_tenant = p;
              of_user = q;
              first = f.0;
              waiting = (f.1.0, f.1.1.0);
              unstarted = f.1.1.1;
              noted = (fa.0, fa.1, fb);
            })
            (subst
              (λ t.
                AllOrNothing t
                  (λ t'.
                    (t'
                      ≡ with_created t (job_to_insert_params j) (job_run_to_insert_params run)
                          (map run_event_to_insert_params (a ∷ b ∷ [])))
                    × IsNew run t.job_runs)
                  (create_job_with_run j run (a ∷ b ∷ []) w'))
              e' (create_job_with_run-AllOrNothing j run (a ∷ b ∷ []) w'))

  scheduled-AllOrNothing :
      (s : Service) (x : CreateInput) (spec : ScheduleSpec × Time) (w : World)
      → w.tables ≡ before
      → AllOrNothing before New (create_scheduled load_location s id x spec w)
  unfolding create_scheduled
  scheduled-AllOrNothing s x (spec, at) w e =
      then-AllOrNothing before New _ _ (keeps_id _)
        (λ job_id _. then-AllOrNothing before New _ _ (keeps_now _) λ now _.
          then-AllOrNothing before New _ _ (keeps_lift _ _) λ j made.
            then-AllOrNothing before New _ _ (check_quota-Keeps before s id.tenant_id spec.type)
              λ u _ w' e'.
                let v = new_job-ValidJob load_location job_id now _ _ x.description spec j made in
                run-AllOrNothing j at w' v.0 (ap (λ (y : Job). y.tenant_id) v.1)
                  (ap (λ (y : Job). y.user_id) v.1) e')
        w e

  schedule-Keeps :
      (x : CreateInput) → Keeps (Same before New) (schedule_from_input load_location x) Any
  unfolding schedule_from_input
  schedule-Keeps x = elim (Bool-cases (is_one_off (spec_of x).type)) [
    | inl e ↦ rw e (elim (Bool-cases (is_zero_time x.scheduled_at)) [
      | inl f ↦ rw f (keeps_fail _ _)
      | inr f ↦ rw f (keeps_pure _ _ tt)
    ])
    | inr e ↦ rw e (recurring-Keeps _ load_location (with_defaults x (spec_of x)))
  ]

-- If Create succeeds, the tables have a valid job of the user, its first run, which is pending and has
-- an identifier that no run had, and the two events that note them, and have not changed otherwise. If it fails, whatever call failed,
-- the tables are as before, or, where the answer of the commit is lost, have all of these rows.
pub create-AllOrNothing :
    (load_location : Text → Option Zone) (s : Service) (id : Identity) (x : CreateInput) (w : World)
    → AllOrNothing w.tables (Creation load_location id w.tables) (create load_location s id x w)
unfolding create as_owner
create-AllOrNothing load_location s id x w = elim (Bool-cases (valid id)) [
  | inl e ↦ rw e (
      then-AllOrNothing w.tables _ _ _ (schedule-Keeps load_location id w.tables x)
        (λ spec _. scheduled-AllOrNothing load_location id w.tables s x spec) w refl)
  | inr e ↦ rw e (inl refl)
]
