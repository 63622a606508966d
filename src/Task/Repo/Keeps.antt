-- ===== src/Task/Repo/Keeps.antt =====
-- What each call of the repository keeps: a property of the tables survives it if it survives the
-- statements that the call makes.
use go_chatgpt_tasks.Base.{
  ℕ, zero, suc, ◌≡◌, refl, Bool, true, false, List, Option, none, some, Text, codes,
}
use go_chatgpt_tasks.Base.Int.{ℤ, pos, negsuc, wrap_int32}
use go_chatgpt_tasks.Clock.{Time, time_to_pg}
use go_chatgpt_tasks.Task.Errors.{Sentinel, job_run_not_found, job_not_found}
use go_chatgpt_tasks.Task.Domain.{Uuid, Status, JobRun, RunEvent}
use go_chatgpt_tasks.Task.Rows.{
  JobRow, job_from_sqlc, JobRunRow, job_run_to_insert_params, job_run_to_update_status_params,
  job_run_from_row,
}
use go_chatgpt_tasks.Sql.Tables.{Tables, RunEventRow}
use go_chatgpt_tasks.Sql.Runs.{
  insert_job_run, update_job_run_status, try_mark_job_run_running, get_job_run_by_id,
  cancel_pending_job_runs,
}
use go_chatgpt_tasks.Task.Effect.{
  World, Reply, done, refused, lost, M, ◌>>=◌, query, statement, settle, tock, wrapped, after,
}
use go_chatgpt_tasks.Task.Effect.Keeps.{
  Any, Any-On, OnStatement, OnEnd, Keeps, keeps_pure, keeps_fail, keeps_bind, keeps_then,
  keeps_context, keeps_statement, keeps_query, keeps_transaction,
}
use go_chatgpt_tasks.Task.Repo.{
  paged, page_at, Pagination, with_runs, with_events, insert_event_stmt, update_status_stmt, found,
  claim_event, or_missing, save_run, update_run_status, persist_run_transition,
  try_mark_run_running, find_run_by_id, list_runs_by_job, append_event, find_children, find_job,
}

abbrev pub EventsFree : (Tables → Type 0) → Type 0
EventsFree P = (t : Tables) (es : List RunEventRow) → P t → P (record t { run_events = es })

abbrev pub Inserts : (Tables → Type 0) → JobRun → Type 0
Inserts P r =
    (t : Tables) (runs : List JobRunRow)
    → insert_job_run t.jobs (job_run_to_insert_params r) t.job_runs ≡ some runs
    → P t
    → P (record t { job_runs = runs })

abbrev pub Updates : (Tables → Type 0) → JobRun → Type 0
Updates P r =
    (t : Tables)
    → P t
    → P (record t {
      job_runs = (update_job_run_status (job_run_to_update_status_params r) t.job_runs).1;
    })

abbrev pub Claims : (Tables → Type 0) → JobRun → ℤ → Type 0
Claims P r limit =
    (t : Tables)
    → P t
    → P (record t {
      job_runs =
          (try_mark_job_run_running r.tenant_id (time_to_pg r.started_at) (time_to_pg r.updated_at)
            r.id limit t.job_runs t.job_runs).1;
    })

abbrev pub Cancels : (Tables → Type 0) → Uuid → Uuid → Type 0
Cancels P tenant job_id =
    (t : Tables) (now : Time)
    → P t
    → P (record t { job_runs = (cancel_pending_job_runs now now tenant job_id t.job_runs).1 })

abbrev pub Reads : (Tables → Type 0) → (JobRun → Type 0) → Type 0
Reads P Q =
    (t : Tables) (id : Uuid) (row : JobRunRow)
    → P t
    → get_job_run_by_id id t.job_runs ≡ some row
    → Q (job_run_from_row row)

module _ (P : Tables → Type 0) where
  found-Keeps : (n : ℕ) → Keeps P (found n) Any
  found-Keeps zero = keeps_fail P _
  found-Keeps (suc n) = keeps_pure P tt tt

  with_events-P :
      EventsFree P
      → (t : Tables) (o : Option (List RunEventRow)) → P t
      → OnStatement P Any (with_events t o)
  with_events-P free t none h = tt
  with_events-P free t (some es) h = (free t es h, tt)

  insert_event-Keeps :
      EventsFree P → (c : Text) (e : RunEvent) → Keeps P (insert_event_stmt c e) Any
  insert_event-Keeps free c e =
      keeps_context P c _ (keeps_statement P _ (λ t h. with_events-P free t _ h))

  update-Keeps : (r : JobRun) → Updates P r → (c : Text) → Keeps P (update_status_stmt c r) Any
  update-Keeps r u c = keeps_context P c _ (keeps_statement P _ (λ t h. (u t h, tt)))

  with_runs-P :
      (t : Tables) (o : Option (List JobRunRow))
      → ((runs : List JobRunRow) → o ≡ some runs → P (record t { job_runs = runs }))
      → OnStatement P Any (with_runs t o)
  with_runs-P t none h = tt
  with_runs-P t (some runs) h = (h runs refl, tt)

  pub append_event-Keeps : EventsFree P → (e : RunEvent) → Keeps P (append_event e) Any
  unfolding append_event
  append_event-Keeps free e = insert_event-Keeps free _ e

  pub save_run-Keeps : (r : JobRun) → Inserts P r → Keeps P (save_run r) Any
  unfolding save_run
  save_run-Keeps r i =
      keeps_context P _ _ (keeps_statement P _ (λ t h. with_runs-P t _ (λ runs e. i t runs e h)))

  pub update_run_status-Keeps : (r : JobRun) → Updates P r → Keeps P (update_run_status r) Any
  unfolding update_run_status
  update_run_status-Keeps r u = keeps_bind P _ _ (update-Keeps r u _) (λ n _. found-Keeps n)

  pub persist_run_transition-Keeps :
      EventsFree P
      → (r : JobRun) → Updates P r
      → (e : RunEvent) → Keeps P (persist_run_transition r e) Any
  unfolding persist_run_transition
  persist_run_transition-Keeps free r u e = keeps_transaction P _ _ _ (
      keeps_then P _ _
        (keeps_then P _ _ (keeps_bind P _ _ (update-Keeps r u _) (λ n _. found-Keeps n))
          (insert_event-Keeps free _ e))
        (keeps_pure P _ tt))

  claim_event-Keeps :
      EventsFree P → (e : RunEvent) (b : Bool) → Keeps P (claim_event e b) (OnEnd Any)
  claim_event-Keeps free e false = keeps_pure P _ tt
  claim_event-Keeps free e true = keeps_then P _ _ (insert_event-Keeps free _ e) (keeps_pure P _ tt)

  pub try_mark_run_running-Keeps :
      EventsFree P
      → (r : JobRun) (limit : ℤ) → Claims P r limit
      → (e : RunEvent) → Keeps P (try_mark_run_running r e limit) Any
  unfolding try_mark_run_running
  try_mark_run_running-Keeps free r limit c e = keeps_transaction P _ _ _ (
      keeps_bind P _ _ (keeps_context P _ _ (keeps_statement P {Q = Any} _ (λ t h. (c t h, tt))))
        (λ b _. claim_event-Keeps free e b))

  or_missing-Keeps :
      (Q : JobRun → Type 0) (s : Sentinel) (o : Option JobRunRow)
      → ((row : JobRunRow) → o ≡ some row → Q (job_run_from_row row))
      → Keeps P (or_missing s job_run_from_row o) Q
  or_missing-Keeps Q s none q = keeps_fail P _
  or_missing-Keeps Q s (some row) q = keeps_pure P _ (q row refl)

  pub find_run_by_id-Keeps :
      (Q : JobRun → Type 0) → Reads P Q → (id : Uuid) → Keeps P (find_run_by_id id) Q
  unfolding find_run_by_id
  find_run_by_id-Keeps Q reads id =
      keeps_bind P {Q = λ o. (row : JobRunRow) → o ≡ some row → Q (job_run_from_row row)} _ _
        (keeps_context P _ _ (keeps_query P _ (λ t h row e. reads t id row h e)))
        (or_missing-Keeps Q _)

  pub paged-Keeps :
      {A : Type 0} {Q : A → Type 0} (p : Pagination) (f : Tables → ℕ → A)
      → ((t : Tables) (n : ℕ) → P t → Q (f t n))
      → Keeps P (paged p f) Q
  paged-Keeps {A} {Q} p f q = keeps_statement P _ λ t h. at_offset (wrap_int32 (pos p.offset)) t h
    where
      at_offset : (o : ℤ) (t : Tables) → P t → OnStatement P Q (page_at o (f t) t)
      at_offset (pos n) t h = (h, q t n h)
      at_offset (negsuc n) t h = tt

  pub list_runs_by_job-Keeps :
      (tenant job_id : Uuid) (p : Pagination) → Keeps P (list_runs_by_job tenant job_id p) Any
  unfolding list_runs_by_job
  list_runs_by_job-Keeps tenant job_id p =
      keeps_bind P {Q = Any} _ _ (keeps_context P _ _ (paged-Keeps p _ (λ t n h. tt))) λ rows _.
        keeps_bind P {Q = Any} _ _ (keeps_context P _ _ (keeps_query P _ (λ t h. tt)))
          λ total _. keeps_pure P _ tt

  pub find_children-Keeps : (job_id : Uuid) (s : Status) → Keeps P (find_children job_id s) Any
  unfolding find_children
  find_children-Keeps job_id s =
      keeps_bind P {Q = Any} _ _ (keeps_context P _ _ (keeps_query P _ (λ t h. tt)))
        λ rows _. keeps_pure P _ tt

-- A run is read, and the rest keeps what is known of that run's row in the tables.
module _ (P : Tables → Type 0) (R : JobRun → Tables → Type 0) (id : Uuid)
    (f : JobRun → M (Unit {0}))
    (opens : (t : Tables) (row : JobRunRow)
      → P t
      → get_job_run_by_id id t.job_runs ≡ some row
      → R (job_run_from_row row) t)
    (keeps : (r : JobRun) → Keeps (R r) (f r) Any)
    (closes : (r : JobRun) (t : Tables) → R r t → P t) where
  step_tables :
      (w : World)
      → P w.tables
      → (reply : Reply) (o : Option JobRunRow) → get_job_run_by_id id w.tables.job_runs ≡ o
      → P
          (after f (
            after (or_missing job_run_not_found job_run_from_row) (
              wrapped
                (codes "query job run")
                (settle reply (some (o, w.tables)) (tock w))))).1.tables
  step_tables w h done none e = h
  step_tables w h done (some row) e =
      closes (job_run_from_row row) _
        ((keeps (job_run_from_row row)).apply (tock w) (opens w.tables row h e)).0
  step_tables w h (refused m) o e = h
  step_tables w h (lost m) o e = h

  pub find_run_then-Keeps : Keeps P (find_run_by_id id >>= f) Any
  unfolding find_run_by_id query statement
  find_run_then-Keeps = record {
    apply = λ w h. (step_tables w h (w.env.reply w.tick) _ refl, Any-On _);
  }

pub find_job-Keeps : (P : Tables → Type 0) (id : Uuid) → Keeps P (find_job id) Any
unfolding find_job
find_job-Keeps P id =
    keeps_bind P {Q = Any} _ _ (keeps_context P _ _ (keeps_query P _ (λ t h. tt)))
      (λ o _. or_missing-Keeps o)
  where
    or_missing-Keeps : (o : Option JobRow) → Keeps P (or_missing job_not_found job_from_sqlc o) Any
    or_missing-Keeps none = keeps_fail P _
    or_missing-Keeps (some j) = keeps_pure P _ tt
