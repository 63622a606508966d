-- ===== src/Task/Executor/Once.antt =====
-- internal/task/executor.go: a second execution under the same key.
use go_chatgpt_tasks.Base.{◌≡◌, refl, Bool, true, false, Option, none, some, Text, arith}
use go_chatgpt_tasks.Task.Errors.{job_not_found}
use go_chatgpt_tasks.Task.Domain.{Uuid, Job, JobRun}
use go_chatgpt_tasks.Task.Rows.{JobRow, job_from_sqlc}
use go_chatgpt_tasks.Sql.Tables.{Tables, exists_where}
use go_chatgpt_tasks.Sql.Records.{has_key, get_job_by_id, begin_idempotency}
use go_chatgpt_tasks.Task.Effect.{World, Result, ok, err, M, ◌>>=◌, after}
use go_chatgpt_tasks.Task.Effect.Keeps.{
  On, Keeps, keeps_pure, keeps_fail, keeps_bind, keeps_context, keeps_now, keeps_query,
  keeps_statement,
}
use go_chatgpt_tasks.Task.Repo.{find_job, or_missing}
use go_chatgpt_tasks.Task.Idempotency.{begin_record}
use go_chatgpt_tasks.Task.Executor.{handler, execute_acquired, execute_job, execute}

-- Two programs that do the same to every world whose tables have a property.
module _ (P : Tables → Type 0) where
  Same : {A : Type 0} → M A → M A → Type 0
  Same m n = (w : World) → P w.tables → m w ≡ n w

  Same-bind :
      {A B : Type 0} {Q : A → Type 0} (m : M A) (f g : A → M B)
      → Keeps P m Q
      → ((a : A) → Q a → Same (f a) (g a))
      → Same (m >>= f) (m >>= g)
  unfolding Same
  Same-bind {A} {B} {Q} m f g km k w h = go (m w) (km.apply w h)
    where
      go : (x : Result A × World) → P x.1.tables × On Q x.0 → after f x ≡ after g x
      go (ok a, w') (p, q) = k a q w' p
      go (err e, w') h = refl

-- There is a record of the key, and the job, if it is there, has side effects.
abbrev Recorded : JobRun → Tables → Type 0
Recorded r t =
    (exists_where (has_key r.idempotency_key) t.idempotency_records ≡ true)
    × ((row : JobRow) → get_job_by_id r.job_id t.jobs ≡ some row → row.side_effecting ≡ true)

found-side_effecting :
    (P : Tables → Type 0) (o : Option JobRow)
    → ((row : JobRow) → o ≡ some row → row.side_effecting ≡ true)
    → Keeps P (or_missing job_not_found job_from_sqlc o) (λ j. j.side_effecting ≡ true)
unfolding job_from_sqlc
found-side_effecting P none q = keeps_fail P _
found-side_effecting P (some row) q = keeps_pure P _ (q row refl)

find_job-side_effecting :
    (r : JobRun) → Keeps (Recorded r) (find_job r.job_id) (λ j. j.side_effecting ≡ true)
unfolding find_job
find_job-side_effecting r =
    keeps_bind (Recorded r) {Q = λ o. (row : JobRow) → o ≡ some row → row.side_effecting ≡ true} _ _
      (keeps_context _ _ _ (keeps_query _ _ (λ t h. h.1))) (λ o q. found-side_effecting _ o q)

begin_record-refused :
    (r : JobRun) (id : Uuid)
    → Keeps (Recorded r) (begin_record r.idempotency_key handler id) (λ b. b ≡ false)
unfolding begin_record begin_idempotency
begin_record-refused r id = keeps_bind _ _ _ (keeps_now _) λ now _.
    keeps_bind _ {Q = λ n. n ≡ 0} _ _
      (keeps_context _ _ _ (keeps_statement _ _ (λ t h. rw h.0 (h, refl))))
      (λ n e. keeps_pure _ _ (ground arith))

module _ (response_hash : Text → Text) (next other : JobRun → M (Unit {0})) where
  refused-Same :
      (r : JobRun) (P : Tables → Type 0) (b : Bool)
      → b ≡ false
      → Same P (execute_acquired response_hash next r b) (execute_acquired response_hash other r b)
  unfolding Same execute_acquired
  refused-Same r P true e w h = ground arith
  refused-Same r P false e w h = refl

  job-Same :
      (r : JobRun) (j : Job)
      → j.side_effecting ≡ true
      → Same (Recorded r) (execute_job response_hash next r j) (execute_job response_hash other r j)
  unfolding execute_job
  job-Same r j e = rw e (
      Same-bind (Recorded r) (begin_record r.idempotency_key handler r.id) _ _
        (begin_record-refused r r.id) (refused-Same r (Recorded r)))

  -- Once there is a record of a run's key, and if the job has side effects, it makes no difference
  -- which executor is wrapped: whatever calls fail, it is not asked again.
  pub execute-skips :
      (r : JobRun) (w : World)
      → exists_where (has_key r.idempotency_key) w.tables.idempotency_records ≡ true
      → ((row : JobRow)
          → get_job_by_id r.job_id w.tables.jobs ≡ some row
          → row.side_effecting ≡ true)
      → execute response_hash next r w ≡ execute response_hash other r w
  unfolding execute Same
  execute-skips r w recorded side =
      Same-bind (Recorded r) _ _ _ (keeps_context _ _ _ (find_job-side_effecting r))
        (λ j e. job-Same r j e) w (recorded, side)
