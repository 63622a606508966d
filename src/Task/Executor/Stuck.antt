-- ===== src/Task/Executor/Stuck.antt =====
-- internal/task/executor.go: a retry of a run whose first attempt failed.
use go_chatgpt_tasks.Base.{
  text_eq_refl, ℕ, ◌++◌, suc, none, ◌≡◌, refl, Bool, true, false, List, [], ◌∷◌, some, Text, arith,
}
use go_chatgpt_tasks.Clock.{Time, time_to_pg}
use go_chatgpt_tasks.Task.Errors.{Error, sentinel, execution_in_progress}
use go_chatgpt_tasks.Task.Domain.{Uuid, JobRun}
use go_chatgpt_tasks.Task.Rows.{JobRow, job_from_sqlc}
use go_chatgpt_tasks.Sql.Tables.{IdempotencyRow, in_progress, exists_where, find_where}
use go_chatgpt_tasks.Sql.Records.{has_key, get_job_by_id, get_idempotency, begin_idempotency}
use go_chatgpt_tasks.Task.Effect.{World, ok, err, M, done, query, statement, time_now, tock}
use go_chatgpt_tasks.Task.Repo.{find_job}
use go_chatgpt_tasks.Task.Idempotency.{begin_record, lookup}
use go_chatgpt_tasks.Task.Executor.{handler, duplicate, execute_acquired, execute_job, execute}

find_where→exists_where :
    {A : Type 0} (p : A → Bool) (xs : List A) (x : A)
    → find_where p xs ≡ some x
    → exists_where p xs ≡ true
find_where→exists_where p [] x e = ground arith
find_where→exists_where p (y ∷ xs) x e = ground (arith, find_where→exists_where p xs x)

module _ (w : World) (answers : (n : ℕ) → w.env.reply n ≡ done) where
  find_job-done :
      (id : Uuid) (row : JobRow)
      → get_job_by_id id w.tables.jobs ≡ some row
      → find_job id w ≡ (ok (job_from_sqlc row), tock w)
  unfolding find_job query statement
  find_job-done id row e = rw (answers w.tick, e) refl

  begin_record-done :
      (key handler : Text) (id : Uuid)
      → exists_where (has_key key) w.tables.idempotency_records ≡ true
      → begin_record key handler id w ≡ (ok false, tock (tock w))
  unfolding begin_record statement time_now begin_idempotency
  begin_record-done key handler id e = rw (answers (tock w).tick, e) refl

  duplicate-done :
      (r : JobRun) (record' : IdempotencyRow)
      → get_idempotency r.idempotency_key w.tables.idempotency_records ≡ some record'
      → record'.status ≡ in_progress
      → (duplicate r w).0 ≡ err (sentinel execution_in_progress)
  unfolding duplicate lookup query statement
  duplicate-done r record' e s = rw (answers w.tick, e, s) refl

module _ (response_hash : Text → Text) (next : JobRun → M (Unit {0})) where
  execute-in_progress :
      (r : JobRun) (w : World) (job : JobRow) (found : IdempotencyRow)
      → ((n : ℕ) → w.env.reply n ≡ done)
      → get_job_by_id r.job_id w.tables.jobs ≡ some job
      → job.side_effecting ≡ true
      → get_idempotency r.idempotency_key w.tables.idempotency_records ≡ some found
      → found.status ≡ in_progress
      → (execute response_hash next r w).0 ≡ err (sentinel execution_in_progress)
  unfolding execute execute_job execute_acquired job_from_sqlc get_idempotency
  execute-in_progress r w job found answers e side f s =
      rw
        (
          find_job-done w answers r.job_id job e,
          side,
          begin_record-done (tock w) answers r.idempotency_key handler r.id (
              find_where→exists_where (has_key r.idempotency_key) w.tables.idempotency_records found
                f),
        )
        (duplicate-done (tock (tock (tock w))) answers r found f s)

-- The wrapped executor fails, and leaves the jobs, the records and what the surroundings answer as
-- they are.
unfoldable pub Fails : (JobRun → M (Unit {0})) → JobRun → Type 0
Fails next r =
    (v : World)
    → (e : Error) × (v' : World) × (next r v ≡ (err e, v'))
      × (v'.env ≡ v.env)
      × (v'.tables.jobs ≡ v.tables.jobs)
      × (v'.tables.idempotency_records ≡ v.tables.idempotency_records)

find_where-last :
    {A : Type 0} (p : A → Bool) (xs : List A) (x : A)
    → exists_where p xs ≡ false
    → p x ≡ true
    → find_where p (xs ++ x ∷ []) ≡ some x
find_where-last p [] x e f = ground arith
find_where-last p (y ∷ ys) x e f = ground (arith, find_where-last p ys x)

-- The record that the first attempt begins.
first_record : JobRun → Time → IdempotencyRow
first_record r now = record {
  idempotency_key = r.idempotency_key;
  job_run_id = r.id;
  handler_name = handler;
  status = in_progress;
  response_hash = none;
  created_at = time_to_pg now;
  updated_at = time_to_pg now;
}

begun_by : JobRun → World → World
begun_by r w = record (tock (tock w)) {
  tables = record w.tables {
    idempotency_records = w.tables.idempotency_records ++ first_record r (w.env.clock w.tick) ∷ [];
  };
}

begin_record-first :
    (r : JobRun) (w : World)
    → w.env.reply (suc w.tick) ≡ done
    → exists_where (has_key r.idempotency_key) w.tables.idempotency_records ≡ false
    → begin_record r.idempotency_key handler r.id w ≡ (ok true, begun_by r w)
unfolding begin_record statement time_now begin_idempotency begun_by first_record
begin_record-first r w e f = rw (e, f) refl

module _ (response_hash : Text → Text) (next other : JobRun → M (Unit {0})) where
  -- After a failed first attempt of a run, the next one, whatever executor it wraps, ends with the
  -- error "execution already in progress": if the run's job is in its table and has side effects,
  -- there is no record of the run's key before, the wrapped executor always fails and leaves the
  -- jobs, the records and what its surroundings will answer as they are, and the database answers
  -- every call.
  pub execute-after_failure :
      (r : JobRun) (w : World) (job : JobRow)
      → ((n : ℕ) → w.env.reply n ≡ done)
      → get_job_by_id r.job_id w.tables.jobs ≡ some job
      → job.side_effecting ≡ true
      → exists_where (has_key r.idempotency_key) w.tables.idempotency_records ≡ false
      → Fails next r
      → (execute response_hash other r (execute response_hash next r w).1).0
        ≡ err (sentinel execution_in_progress)
  unfolding execute execute_job execute_acquired job_from_sqlc Fails begun_by first_record
      get_idempotency
  execute-after_failure r w job answers found side new fails =
      let (e, v, failed, same_env, same_jobs, same_records) = fails (begun_by r (tock w)) in
      rw
        (
          find_job-done w answers r.job_id job found,
          side,
          begin_record-first r (tock w) (answers (suc (suc w.tick))) new,
          failed,
        )
        (execute-in_progress response_hash other r v job (first_record r (w.env.clock (suc w.tick)))
          (λ n. rw same_env (answers n)) (rw same_jobs found) side
          (rw same_records (
            find_where-last (has_key r.idempotency_key) w.tables.idempotency_records _ new
              (text_eq_refl r.idempotency_key)))
          refl)
