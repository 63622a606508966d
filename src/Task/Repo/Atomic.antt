-- ===== src/Task/Repo/Atomic.antt =====
-- internal/task/repo_postgres.go: CreateJobWithRun leaves all of its rows or none.
use go_chatgpt_tasks.Base.{
  ◌≡◌, refl, ap, sym, ◌∙◌, List, [], ◌∷◌, ◌++◌, map, append_assoc, append-nil, Option, none, some,
  false, Text, arith,
}
use go_chatgpt_tasks.Task.Domain.{Job, JobRun, RunEvent}
use go_chatgpt_tasks.Task.Rows.{JobRow, JobRunRow, job_to_insert_params, job_run_to_insert_params}
use go_chatgpt_tasks.Sql.Tables.{Tables, RunEventRow, exists_where}
use go_chatgpt_tasks.Sql.Runs.{has_id}
use go_chatgpt_tasks.Sql.Runs.Laws.{insert_job_run-some}
use go_chatgpt_tasks.Sql.Records.{insert_job, insert_run_event}
use go_chatgpt_tasks.Task.Effect.{World}
use go_chatgpt_tasks.Task.Effect.Atomic.{
  Leads, OnSome, leads_then, leads_frame, leads_statement, leads_weaken, leads-Commits,
  AllOrNothing, transaction-AllOrNothing,
}
use go_chatgpt_tasks.Task.Repo.{
  with_jobs, with_runs, with_events, insert_job_stmt, insert_run_stmt, insert_event_stmt,
  run_event_to_insert_params, insert_events, create_job_with_run,
}

-- The tables with a job, its run and events behind the rows that were there.
abbrev pub with_created : Tables → JobRow → JobRunRow → List RunEventRow → Tables
with_created t j r es = record t {
  jobs = t.jobs ++ j ∷ [];
  job_runs = t.job_runs ++ r ∷ [];
  run_events = t.run_events ++ es;
}

insert_job-some :
    (row : JobRow) (jobs jobs' : List JobRow)
    → insert_job row jobs ≡ some jobs'
    → jobs' ≡ jobs ++ row ∷ []
unfolding insert_job
insert_job-some row jobs jobs' e = ground arith

insert_run_event-some :
    (runs : List JobRunRow) (row : RunEventRow) (events events' : List RunEventRow)
    → insert_run_event runs row events ≡ some events'
    → events' ≡ events ++ row ∷ []
unfolding insert_run_event
insert_run_event-some runs row events events' e = ground arith

-- The three statements, from tables that are known.
abbrev Is : Tables → Tables → Type 0
Is t t' = t' ≡ t

job-Leads :
    (t : Tables) (j : Job)
    → Leads
        (Is t)
        (insert_job_stmt j)
        (Is (record t { jobs = t.jobs ++ job_to_insert_params j ∷ [] }))
job-Leads t j =
    leads_statement _ _
      λ t' e. rw e (go (insert_job (job_to_insert_params j) t.jobs) (insert_job-some _ t.jobs))
  where
    go :
        (o : Option (List JobRow))
        → ((jobs : List JobRow) → o ≡ some jobs → jobs ≡ t.jobs ++ job_to_insert_params j ∷ [])
        → OnSome (Is (record t { jobs = t.jobs ++ job_to_insert_params j ∷ [] })) (with_jobs t o)
    go none h = tt
    go (some jobs) h = rw (h jobs refl) refl

-- No row has the identifier of the run.
abbrev pub IsNew : JobRun → List JobRunRow → Type 0
IsNew r runs = exists_where (has_id r.id) runs ≡ false

run-Leads :
    (t : Tables) (r : JobRun)
    → Leads (Is t) (insert_run_stmt r) (λ t'.
      Is (record t { job_runs = t.job_runs ++ job_run_to_insert_params r ∷ [] }) t'
      × IsNew r t.job_runs)
unfolding job_run_to_insert_params
run-Leads t r = leads_statement _ _ λ t' e. rw e (
    go _ λ runs f.
      let (added, unused, _) = insert_job_run-some t.jobs _ t.job_runs runs f in (added, unused))
  where
    go :
        (o : Option (List JobRunRow))
        → ((runs : List JobRunRow)
            → o ≡ some runs
            → (runs ≡ t.job_runs ++ job_run_to_insert_params r ∷ []) × IsNew r t.job_runs)
        → OnSome
            (λ t'.
              Is (record t { job_runs = t.job_runs ++ job_run_to_insert_params r ∷ [] }) t'
              × IsNew r t.job_runs)
            (with_runs t o)
    go none h = tt
    go (some runs) h = let (added, unused) = h runs refl in (rw added refl, unused)

event-Leads :
    (t : Tables) (c : Text) (e : RunEvent)
    → Leads
        (Is t)
        (insert_event_stmt c e)
        (Is (record t { run_events = t.run_events ++ run_event_to_insert_params e ∷ [] }))
event-Leads t c e =
    leads_statement _ _ λ t' f. rw f (go _ (insert_run_event-some t.job_runs _ t.run_events))
  where
    go :
        (o : Option (List RunEventRow))
        → ((es : List RunEventRow)
            → o ≡ some es
            → es ≡ t.run_events ++ run_event_to_insert_params e ∷ [])
        → OnSome
            (Is (record t { run_events = t.run_events ++ run_event_to_insert_params e ∷ [] }))
            (with_events t o)
    go none h = tt
    go (some es) h = rw (h es refl) refl

events-Leads :
    (t : Tables) (es : List RunEvent)
    → Leads
        (Is t)
        (insert_events es)
        (Is (record t { run_events = t.run_events ++ map run_event_to_insert_params es }))
unfolding insert_events
events-Leads t [] = record {
  apply = λ w e. e ∙ ap (λ xs. record t { run_events = xs }) (sym (append-nil t.run_events));
}
events-Leads t (e ∷ es) = leads_then _ _ (event-Leads t _ e) (
    leads_weaken _ (events-Leads (record t { run_events = t.run_events ++ row ∷ [] }) es) (λ t' f.
      f
      ∙ ap (λ xs. record t { run_events = xs })
          (append_assoc t.run_events (row ∷ []) (map run_event_to_insert_params es))))
  where
    row : RunEventRow
    row = run_event_to_insert_params e

-- CreateJobWithRun: if it succeeds, the job, the run and the events are in the tables, and if it
-- fails, all of them are, or none; they are only if the run's identifier was not taken.
pub create_job_with_run-AllOrNothing :
    (j : Job) (r : JobRun) (es : List RunEvent) (w : World)
    → AllOrNothing w.tables
        (λ t.
          (t
            ≡ with_created w.tables
                (job_to_insert_params j)
                (job_run_to_insert_params r)
                (map run_event_to_insert_params es))
          × IsNew r w.tables.job_runs)
        (create_job_with_run j r es w)
unfolding create_job_with_run
create_job_with_run-AllOrNothing j r es w = transaction-AllOrNothing _ _ _ _ w (
    leads-Commits _ (
      leads_then _ _ (leads_then _ _ (job-Leads w.tables j) (run-Leads _ r))
        (leads_frame _ (events-Leads _ es))))
