-- ===== src/Task/Worker/Concurrency.antt =====
-- The cap on the runs of a tenant that run at the same time.
use go_chatgpt_tasks.Base.{
  ℕ, ◌≤◌, ◌≡◌, refl, ◌∙◌, sym, subst, ==_iff, ◌≢◌, inl, inr, Bool, true, false, List, ℕ_discrete,
  [], ◌∷◌, Option, none, some, All, arith,
}
use go_chatgpt_tasks.Base.Int.{ℤ, pos, pos_part, ltb_ℤ}
use go_chatgpt_tasks.Clock.{time_to_pg}
use go_chatgpt_tasks.Task.Domain.{Uuid, Status, queued, running, Quota, JobRun, is_running}
use go_chatgpt_tasks.Task.Transitions.{
  mark_running, mark_success, mark_retry, mark_failed, set_error,
}
use go_chatgpt_tasks.Task.Rows.{
  JobRunRow, job_run_to_insert_params, job_run_to_update_status_params, job_run_from_row,
}
use go_chatgpt_tasks.Sql.Tables.{Tables, QuotaRow, exists_where, update_where}
use go_chatgpt_tasks.Sql.Tables.Laws.{
  All-append, All-update_where, count-append, count-update_where_le, find_where_sound,
}
use go_chatgpt_tasks.Sql.Records.{get_tenant_quota}
use go_chatgpt_tasks.Sql.Runs.Laws.{insert_job_run-some, try_mark_cases}
use go_chatgpt_tasks.Sql.Runs.Distinct.{
  Distinct, Distinct-update, Distinct-append, OwnedBy, OwnedBy-found, count-claim,
  count-claim_other, exists-update, exists-append, exists_of_find,
}
use go_chatgpt_tasks.Sql.Runs.{
  update_job_run_status, get_job_run_by_id, has_id, apply_status, startable_id, mark_row,
  count_running, runs_of,
}
use go_chatgpt_tasks.Task.Effect.{World}
use go_chatgpt_tasks.Task.Effect.Keeps.{Any, Keeps, keeps_quietly, keeps_send}
use go_chatgpt_tasks.Task.Repo.Keeps.{Inserts, Updates, Claims, find_run_then-Keeps}
use go_chatgpt_tasks.Task.Quotas.{quota_of_row}
use go_chatgpt_tasks.Task.Worker.{Worker, QueuedMessage, process_run, process_id, process}
use go_chatgpt_tasks.Task.Worker.Invariants.{Laws, process_run-Keeps, LeavesRuns, LeavesRuns-Keeps}

-- The quotas of a tenant allow at most `cap` runs at once.
abbrev pub CappedBy : Uuid → ℕ → List QuotaRow → Type 0
CappedBy tenant cap =
    All (λ (q : QuotaRow). q.tenant_id ≡ tenant → pos_part q.max_concurrent_runs ≤ cap)

-- Distinct identifiers, and at most `cap` running runs.
abbrev pub Within : Uuid → ℕ → List JobRunRow → List QuotaRow → Type 0
Within tenant cap runs quotas =
    Distinct runs × (count_running tenant runs ≤ cap) × CappedBy tenant cap quotas

-- The same while the run `id` of `owner` is processed, with its row at hand.
abbrev Busy : Uuid → ℕ → Uuid → Uuid → List JobRunRow → List QuotaRow → Type 0
Busy tenant cap id owner runs quotas =
    Distinct runs
    × (count_running tenant runs ≤ cap)
    × CappedBy tenant cap quotas
    × OwnedBy id owner runs
    × (exists_where (has_id id) runs ≡ true)

not-running : (s : Status) → s ≢ running → is_running s ≡ false
not-running running h = absurd (h refl)
not-running _ h = refl

module _ (tenant : Uuid) (cap : ℕ) (id owner : Uuid) where
  abbrev BusyTables : Tables → Type 0
  BusyTables t = Busy tenant cap id owner t.job_runs t.tenant_quotas

  Inserts-BusyTables : (r : JobRun) → r.status ≡ queued → Inserts BusyTables r
  unfolding job_run_to_insert_params
  Inserts-BusyTables r s t runs e h =
      let row = job_run_to_insert_params r in
      let (added, fresh, _) = insert_job_run-some t.jobs row t.job_runs runs e in
      rw added (
        Distinct-append t.job_runs row h.0 fresh,
        ground (arith, count-append (runs_of tenant) t.job_runs (row ∷ [])),
        h.2,
        All-append _ t.job_runs (row ∷ []) h.3
            (λ (same : row.id ≡ id). absurd (clash (rw same at fresh) h.4), tt),
        exists-append id t.job_runs (row ∷ []) h.4,
      )
    where
      clash : {b : Bool} → b ≡ false → b ≡ true → ⊥
      clash p q = cc

  Updates-BusyTables : (r : JobRun) → r.status ≢ running → Updates BusyTables r
  unfolding update_job_run_status job_run_to_update_status_params
  Updates-BusyTables r s t h =
      let p = job_run_to_update_status_params r in
      (
        Distinct-update (has_id p.id) (apply_status p) t.job_runs (λ x. refl) h.0,
        omega (
          arith,
          count-update_where_le (has_id p.id) (runs_of tenant) (apply_status p) t.job_runs
              (λ x e g. ground (arith, not-running r.status s)),
        ),
        h.2,
        All-update_where _ (has_id p.id) (apply_status p) t.job_runs (λ x e g. g) h.3,
        exists-update id (has_id p.id) (apply_status p) t.job_runs (λ x. refl) ∙ h.4,
      )

  claimed-count :
      (r : JobRun) (limit : ℤ) (runs : List JobRunRow)
      → (r.tenant_id ≡ tenant → pos_part limit ≤ cap)
      → Distinct runs
      → count_running tenant runs ≤ cap
      → OwnedBy r.id r.tenant_id runs
      → ltb_ℤ (pos (count_running r.tenant_id runs)) limit ≡ true
      → count_running tenant (
          update_where
            (startable_id r.id)
            (mark_row (time_to_pg r.started_at) (time_to_pg r.updated_at))
            runs)
        ≤ cap
  claimed-count r limit runs fits d c o low = elim (ℕ_discrete r.tenant_id tenant) [
    | yes e ↦ omega (
      arith,
      fits e,
      count-claim tenant r.id (time_to_pg r.started_at) (time_to_pg r.updated_at) limit runs d
          (rw e at low),
    )
    | no e ↦ omega (
      arith,
      count-claim_other tenant r.tenant_id r.id (time_to_pg r.started_at) (time_to_pg r.updated_at)
          runs e o,
    )
  ]

  Claims-BusyTables :
      (r : JobRun) (limit : ℤ)
      → r.id ≡ id
      → r.tenant_id ≡ owner
      → (r.tenant_id ≡ tenant → pos_part limit ≤ cap)
      → Claims BusyTables r limit
  Claims-BusyTables r limit same own fits t h =
      elim (try_mark_cases r.tenant_id (time_to_pg r.started_at) (time_to_pg r.updated_at) r.id
        limit t.job_runs t.job_runs) [
          | inl still ↦ rw still h
          | inr (low, claimed) ↦ rw claimed (
            Distinct-update (startable_id r.id)
                (mark_row (time_to_pg r.started_at) (time_to_pg r.updated_at)) t.job_runs
                (λ x. refl) h.0,
            claimed-count r limit t.job_runs fits h.0 h.1 (rw (same, own) h.3) low,
            h.2,
            All-update_where _ (startable_id r.id)
                (mark_row (time_to_pg r.started_at) (time_to_pg r.updated_at)) t.job_runs
                (λ x e g. g) h.3,
            exists-update id (startable_id r.id)
                  (mark_row (time_to_pg r.started_at) (time_to_pg r.updated_at)) t.job_runs
                  (λ x. refl)
                ∙ h.4,
          )
        ]

-- The row that a run is read from, and no other, has the run's identifier.
opened :
    (tenant : Uuid) (cap : ℕ) (id : Uuid) (t : Tables) (row : JobRunRow)
    → Within tenant cap t.job_runs t.tenant_quotas
    → get_job_run_by_id id t.job_runs ≡ some row
    → BusyTables tenant cap (job_run_from_row row).id (job_run_from_row row).tenant_id t
unfolding get_job_run_by_id job_run_from_row
opened tenant cap id t row h found =
    let same : row.id ≡ id =
      (==_iff row.id id).0 (find_where_sound (has_id id) t.job_runs row found) in
    (
      h.0,
      h.1,
      h.2,
      subst (λ i. OwnedBy i row.tenant_id t.job_runs) (sym same)
          (OwnedBy-found id t.job_runs row h.0 found),
      subst (λ i. exists_where (has_id i) t.job_runs ≡ true) (sym same)
          (exists_of_find id t.job_runs row found),
    )

module _ (k : Worker) (defaults : Quota) (tenant : Uuid) (cap : ℕ)
    (limited : k.quota ≡ some defaults) (low : pos_part defaults.max_concurrent_runs ≤ cap)
    (leaves : LeavesRuns k) where
  limit_of :
      (quotas : List QuotaRow)
      → CappedBy tenant cap quotas
      → pos_part (quota_of_row defaults (get_tenant_quota tenant quotas)).max_concurrent_runs ≤ cap
  unfolding get_tenant_quota
  limit_of [] c = low
  limit_of (q ∷ qs) c = ground (arith, c.0, limit_of qs c.1)

  laws : (id owner : Uuid) → Laws k (BusyTables tenant cap id owner)
  unfolding mark_running mark_success mark_retry mark_failed set_error
  laws id owner = record {
    Held = λ r. (r.id ≡ id) × (r.tenant_id ≡ owner);
    Active = λ r. (r.id ≡ id) × (r.tenant_id ≡ owner);
    Writable = λ r. r.status ≢ running;
    Fits = λ u limit. u ≡ tenant → pos_part limit ≤ cap;
    free = λ t es h. h;
    inserts = λ r s a. Inserts-BusyTables tenant cap id owner r s;
    updates = Updates-BusyTables tenant cap id owner;
    claims = λ r limit a fits. Claims-BusyTables tenant cap id owner r limit a.0 a.1 fits;
    limits = λ t u d e h same.
        let agree : d ≡ defaults = cc in rw (same, agree) (limit_of t.tenant_quotas h.2);
    begins = λ now r s h e. ground arith;
    resumes = λ r h e. h;
    unlimited = λ r e a. absurd (cc);
    succeeds = λ now r s a e same. ground arith;
    fails = λ now code msg r s a e f same. ground arith;
    retries = λ now code msg r s a e f same. ground arith;
    executes = λ r a. LeavesRuns-Keeps k (Busy tenant cap id owner) leaves r;
  }

  Within-process :
      (qm : QueuedMessage) (reclaimed : Bool) (o : Option Uuid)
      → Keeps (λ t. Within tenant cap t.job_runs t.tenant_quotas) (process_id k qm reclaimed o) Any
  unfolding laws
  Within-process qm reclaimed none =
      keeps_quietly (λ t. Within tenant cap t.job_runs t.tenant_quotas) _ (keeps_send _ _)
  Within-process qm reclaimed (some id) =
      find_run_then-Keeps (λ t. Within tenant cap t.job_runs t.tenant_quotas)
        (λ r. BusyTables tenant cap r.id r.tenant_id) id (process_run k qm reclaimed)
        (opened tenant cap id)
        (λ r. process_run-Keeps k _ (laws r.id r.tenant_id) qm reclaimed r (refl, refl))
        (λ r t h. (h.0, h.1, h.2))

  -- With a quota repository that allows a tenant `cap` runs at once, no message makes more than
  -- `cap` runs of the tenant run at the same time, whatever calls fail, if the identifiers of the
  -- runs are distinct, no more than `cap` run before, and the executor writes no runs and no
  -- quotas. The identifiers stay distinct.
  pub process-running_le :
      (qm : QueuedMessage) (reclaimed : Bool) (w : World)
      → Within tenant cap w.tables.job_runs w.tables.tenant_quotas
      → let t = (process k qm reclaimed w).1.tables in Within tenant cap t.job_runs t.tenant_quotas
  unfolding process
  process-running_le qm reclaimed w h =
      ((Within-process qm reclaimed (w.env.uuid_parse qm.msg.job_run_id)).apply w h).0
