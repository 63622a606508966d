-- ===== src/Task/Service/Admission.antt =====
-- internal/task/service.go: what a creation that passes checkQuota says of the tables.
use go_chatgpt_tasks.Base.{
  ◌&&◌, ◌≡◌, refl, sym, subst, inl, inr, true, false, Option, none, some, Text, Bool-cases, arith,
  if◌then◌else◌, ◌⊎◌,
}
use go_chatgpt_tasks.Base.Int.{pos, ltb_ℤ, leb_ℤ}
use go_chatgpt_tasks.Task.Domain.{Uuid, Kind, Quota}
use go_chatgpt_tasks.Sql.Tables.{Tables}
use go_chatgpt_tasks.Sql.Runs.{count_active_runs}
use go_chatgpt_tasks.Sql.Records.{count_active_recurring_jobs, get_tenant_quota, is_recurring}
use go_chatgpt_tasks.Task.Effect.{World, pure}
use go_chatgpt_tasks.Task.Effect.Keeps.{
  On, Any, Any-On, Keeps, keeps_pure, keeps_fail, keeps_bind, keeps_then, keeps_context,
  keeps_query, keeps_now, keeps_metric,
}
use go_chatgpt_tasks.Task.Quotas.{
  quota_of_row, get, count_jobs_since, count_active_runs_of, count_active_recurring,
}
use go_chatgpt_tasks.Task.Service.{
  Service, reject_quota, check_recurring, check_runs, check_quota_with, check_quota_if, check_quota,
}

abbrev pub quota_in : Quota → Uuid → Tables → Quota
quota_in defaults tenant t = quota_of_row defaults (get_tenant_quota tenant t.tenant_quotas)

-- The tenant is below its limits: in runs that are queued, running or to be retried, and, for a
-- recurring job, in recurring jobs with a run that is not finished.
pub record Admitted (q : Quota) (tenant : Uuid) (kind : Kind) (t : Tables) : Type 0 where
  pub runs : ltb_ℤ (pos (count_active_runs tenant t.job_runs)) q.max_concurrent_runs ≡ true
  pub recurring_jobs :
      (is_recurring kind
        && leb_ℤ q.max_active_recurring
            (pos (count_active_recurring_jobs tenant t.jobs t.job_runs)))
      ≡ false

-- The tables are still these.
abbrev Same : Tables → Tables → Type 0
Same before t = t ≡ before

module _ (before : Tables) (s : Service) where
  reject-Keeps :
      (Q : Unit {0} → Type 0) (reason : Text) → Keeps (Same before) (reject_quota s reason) Q
  unfolding reject_quota
  reject-Keeps Q reason = elim (Bool-cases s.records_rejections) [
    | inl e ↦
        rw e
          (keeps_then (Same before) _ _ (keeps_metric (Same before) _) (keeps_fail (Same before) _))
    | inr e ↦ rw e (
        keeps_then (Same before) {Q = Any} _ _ (keeps_pure (Same before) tt tt)
          (keeps_fail (Same before) _))
  ]

  module _ (q : Quota) (tenant : Uuid) (kind : Kind) where
    recurring-Keeps :
        ltb_ℤ (pos (count_active_runs tenant before.job_runs)) q.max_concurrent_runs ≡ true
        → Keeps (Same before) (check_recurring s q tenant) (λ _. Admitted q tenant kind before)
    unfolding check_recurring count_active_recurring
    recurring-Keeps runs =
        keeps_bind (Same before)
          {Q = λ n. n ≡ count_active_recurring_jobs tenant before.jobs before.job_runs} _ _
          (keeps_context (Same before) _ _
            (keeps_context (Same before) _ _ (keeps_query (Same before) _ (λ t h. rw h refl))))
          λ n e. elim (Bool-cases (leb_ℤ q.max_active_recurring (pos n))) [
            | inl over ↦ rw over (reject-Keeps _ _)
            | inr under ↦
                rw under
                  (keeps_pure (Same before) _ record { runs = runs; recurring_jobs = ground arith })
          ]

    runs-Keeps :
        Keeps (Same before) (check_runs s q tenant kind) (λ _. Admitted q tenant kind before)
    unfolding check_runs count_active_runs_of
    runs-Keeps =
        keeps_bind (Same before) {Q = λ n. n ≡ count_active_runs tenant before.job_runs} _ _
          (keeps_context (Same before) _ _
            (keeps_context (Same before) _ _ (keeps_query (Same before) _ (λ t h. rw h refl))))
          λ n e. elim (Bool-cases (leb_ℤ q.max_concurrent_runs (pos n))) [
            | inl over ↦ rw over (reject-Keeps _ _)
            | inr under ↦ rw under (kind_branch (ground arith) (Bool-cases (is_recurring kind)))
          ]
      where
        kind_branch :
            ltb_ℤ (pos (count_active_runs tenant before.job_runs)) q.max_concurrent_runs ≡ true
            → (is_recurring kind ≡ true) ⊎ (is_recurring kind ≡ false)
            → Keeps
                (Same before)
                (if is_recurring kind then check_recurring s q tenant else pure tt)
                (λ _. Admitted q tenant kind before)
        kind_branch runs (inl e) = rw e (recurring-Keeps runs)
        kind_branch runs (inr e) =
            rw e (keeps_pure (Same before) _ record { runs = runs; recurring_jobs = ground arith })

  check-Keeps :
      (defaults : Quota) (tenant : Uuid) (kind : Kind)
      → Keeps
          (Same before)
          (check_quota_with s defaults tenant kind)
          (λ _. Admitted (quota_in defaults tenant before) tenant kind before)
  unfolding check_quota_with get count_jobs_since
  check-Keeps defaults tenant kind =
      keeps_bind (Same before) {Q = λ q. q ≡ quota_in defaults tenant before} _ _
        (keeps_context (Same before) _ _
          (keeps_context (Same before) _ _ (keeps_query (Same before) _ (λ t h. rw h refl))))
        λ q same. keeps_bind (Same before) _ _ (keeps_now (Same before)) λ now _.
          keeps_bind (Same before) {Q = Any} _ _
            (keeps_context (Same before) _ _
              (keeps_context (Same before) _ _ (keeps_query (Same before) _ (λ t h. tt))))
            λ n _. elim (Bool-cases (leb_ℤ q.max_jobs_per_hour (pos n))) [
              | inl over ↦ rw over (reject-Keeps _ _)
              | inr under ↦ rw under (
                  subst
                    (λ l.
                      Keeps (Same before) (check_runs s q tenant kind)
                        (λ _. Admitted l tenant kind before))
                    same (runs-Keeps q tenant kind))
            ]

-- With or without a quota repository.
pub check_quota-Keeps :
    (before : Tables) (s : Service) (tenant : Uuid) (kind : Kind)
    → Keeps (λ t. t ≡ before) (check_quota s tenant kind) Any
unfolding check_quota
check_quota-Keeps before s tenant kind = go s.quota
  where
    go : (o : Option Quota) → Keeps (λ t. t ≡ before) (check_quota_if s o tenant kind) Any
    go none = keeps_pure _ tt tt
    go (some defaults) = record {
      apply = λ w h. (((check-Keeps before s defaults tenant kind).apply w h).0, Any-On _);
    }

-- The quota check changes no table, whatever calls fail; if it lets a creation pass, then the tenant
-- is below its limit in runs that are queued, running or to be retried, and, for a recurring job,
-- below its limit in recurring jobs with a run that is not finished.
pub check_quota-Admitted :
    (s : Service) (defaults : Quota) (tenant : Uuid) (kind : Kind) (w : World)
    → s.quota ≡ some defaults
    → ((check_quota s tenant kind w).1.tables ≡ w.tables)
      × On
          (λ _. Admitted (quota_in defaults tenant w.tables) tenant kind w.tables)
          (check_quota s tenant kind w).0
unfolding check_quota
check_quota-Admitted s defaults tenant kind w e =
    subst
      (λ o.
        ((check_quota_if s o tenant kind w).1.tables ≡ w.tables)
        × On (λ _. Admitted (quota_in defaults tenant w.tables) tenant kind w.tables)
            (check_quota_if s o tenant kind w).0)
      (sym e) ((check-Keeps w.tables s defaults tenant kind).apply w refl)
