-- ===== src/Task/Llm/Calls.antt =====
-- internal/task/executor.go, LLMExecutor: what its steps keep of the tables, by what the calls of the
-- client and of the quota repository keep.
use go_chatgpt_tasks.Base.{
  ℕ, zero, suc, ◌≡◌, inl, inr, Bool, ◌||◌, true, false, Option, none, some, Text, Bool-cases,
}
use go_chatgpt_tasks.Base.Int.{ℤ, pos, ◌+ℤ◌, wrap_int64}
use go_chatgpt_tasks.Task.Errors.{Error, is, llm_timeout, deadline_exceeded, invalid_llm_output}
use go_chatgpt_tasks.Task.Domain.{Uuid, Job, JobRun, EventType, Payload}
use go_chatgpt_tasks.Sql.Tables.{Tables}
use go_chatgpt_tasks.Sql.Records.{get_tenant_quota}
use go_chatgpt_tasks.Task.Effect.{Metric, Result, ok, err, M, lift_result}
use go_chatgpt_tasks.Task.Effect.Keeps.{
  On, Any, Keeps, keeps_pure, keeps_fail, keeps_bind, keeps_then, keeps_context, keeps_quietly,
  keeps_try, keeps_metric, keeps_query,
}
use go_chatgpt_tasks.Task.Repo.Keeps.{EventsFree, find_job-Keeps}
use go_chatgpt_tasks.Task.Quotas.{quota_of_row, get, reserve_daily_cost, adjust_daily_cost}
use go_chatgpt_tasks.Task.Worker.Calls.{append_event_of-Keeps}
use go_chatgpt_tasks.Task.Llm.Validate.{validate_output}
use go_chatgpt_tasks.Task.Llm.Execute.{
  LlmRequest, LlmResponse, LlmPolicy, Completion, LlmExecutor, call_client, says_deadline, Spent,
  estimate_cost_cents, llm_metric, append_llm_event, call_result, call_model, after_invalid,
  after_call, attempt_loop, report, attempts_of, estimated_of, minus, is_zero, reconcile,
  run_reserved, defer_run, run_committed, reserve_and_run, too_dear, is_generic_llm,
  execute_llm_job, execute_llm, model_name,
}

-- The request that every attempt makes.
abbrev pub request_of : LlmPolicy → Text → LlmRequest
request_of p prompt = record {
  model = model_name;
  prompt = prompt;
  max_input_tokens = p.max_input_tokens;
  max_output_tokens = p.max_output_tokens;
}

-- `Answer` is known of every response, `Inv n cost` when `n` attempts are left, `Fits` of the limit
-- that is read, and `Delta` of what is reconciled.
pub record CallLaws (k : LlmExecutor) (P : Tables → Type 0) (tenant : Uuid) : Type 1 where
  pub Answer : LlmResponse → Type 0
  pub Inv : ℕ → ℤ → Type 0
  pub Fits : ℤ → Type 0
  pub Delta : ℤ → Type 0
  pub free : EventsFree P
  pub calls :
      (prompt : Text)
      → Keeps P (call_client k (request_of k.policy prompt)) (λ (c : Completion). On Answer c.reply)
  pub starts : Inv (attempts_of k.policy) (pos 0)
  pub fails : (n : ℕ) (cost : ℤ) → Inv (suc n) cost → Inv n cost
  pub answers :
      (n : ℕ) (cost : ℤ) (r : LlmResponse)
      → Inv (suc n) cost
      → Answer r
      → Inv n (wrap_int64 (cost +ℤ estimate_cost_cents r.input_tokens r.output_tokens))
  pub ends : (n : ℕ) (cost : ℤ) → Inv n cost → Delta (minus cost (estimated_of k.policy))
  pub limits :
      (t : Tables)
      → P t
      → Fits
          (quota_of_row k.quota (get_tenant_quota tenant t.tenant_quotas)).max_daily_llm_cost_cents
  pub reserves :
      (limit : ℤ)
      → Fits limit
      → Keeps P (reserve_daily_cost tenant (estimated_of k.policy) limit) Any
  pub adjusts : (delta : ℤ) → Delta delta → Keeps P (adjust_daily_cost tenant delta) Any

module _ (k : LlmExecutor) (P : Tables → Type 0) (tenant : Uuid) (l : CallLaws k P tenant) where
  open l use {Answer, Inv, Delta}

  abbrev Ended : Spent → Type 0
  Ended s = (n : ℕ) × Inv n s.cost

  metric-Keeps : (m : Metric) → Keeps P (llm_metric k m) Any
  metric-Keeps m = elim (Bool-cases k.metered) [
    | inl e ↦ rw e (keeps_metric P m)
    | inr e ↦ rw e (keeps_pure P _ tt)
  ]

  append-Keeps : (r : JobRun) (t : EventType) (p : Payload) → Keeps P (append_llm_event r t p) Any
  unfolding append_llm_event
  append-Keeps r t p = keeps_context P _ _ (append_event_of-Keeps P l.free r t p)

  call_result-Answer : (c : Completion) → On Answer c.reply → On Answer (call_result c)
  call_result-Answer c h = elim (Bool-cases (says_deadline c.reply || c.expired)) [
    | inl e ↦ rw e tt
    | inr e ↦ rw e h
  ]

  call-Keeps : (prompt : Text) → Keeps P (call_model k model_name prompt) (On Answer)
  unfolding call_model
  call-Keeps prompt =
      keeps_bind P _ _ (l.calls prompt)
        λ c h. keeps_then P _ _ (metric-Keeps _) (keeps_pure P _ (call_result-Answer c h))

  after_invalid-Keeps :
      (next : ℤ → Option Error → M Spent) (n : ℕ) (cost : ℤ) (e : Option Error)
      → ((e' : Option Error) → Keeps P (next cost e') Ended)
      → Inv n cost
      → Keeps P (after_invalid k next cost e) Ended
  unfolding after_invalid
  after_invalid-Keeps next n cost none rest i =
      keeps_then P _ _ (metric-Keeps _) (keeps_pure P _ (n, i))
  after_invalid-Keeps next n cost (some e) rest i =
      keeps_then P _ _ (metric-Keeps _) (rest (some e))

  after_call-Keeps :
      (next : ℤ → Option Error → M Spent) (n : ℕ) (cost : ℤ) (x : Result LlmResponse)
      → ((c : ℤ) (e' : Option Error) → Inv n c → Keeps P (next c e') Ended)
      → Inv (suc n) cost
      → On Answer x
      → Keeps P (after_call k next cost x) Ended
  unfolding after_call
  after_call-Keeps next n cost (err e) rest i h = elim (Bool-cases (is e deadline_exceeded)) [
    | inl f ↦ rw f (keeps_then P _ _ (metric-Keeps _) (rest cost _ (l.fails n cost i)))
    | inr f ↦ rw f (rest cost _ (l.fails n cost i))
  ]
  after_call-Keeps next n cost (ok r) rest i h =
      let i' = l.answers n cost r i h in
      after_invalid-Keeps next n _ (validate_output k.unmarshal k.policy.output_schema r.content)
        (λ e. rest _ e i') i'

  loop-Keeps :
      (prompt : Text) (n : ℕ) (cost : ℤ) (last : Option Error)
      → Inv n cost
      → Keeps P (attempt_loop k prompt n cost last) Ended
  unfolding attempt_loop
  loop-Keeps prompt zero cost last i = keeps_pure P _ (0, i)
  loop-Keeps prompt (suc n) cost last i = keeps_bind P _ _ (call-Keeps prompt) λ x h.
      after_call-Keeps (attempt_loop k prompt n) n cost x (λ c e j. loop-Keeps prompt n c e j) i h

  report-Keeps : (r : JobRun) (e : Option Error) → Keeps P (report r e) Any
  unfolding report
  report-Keeps r none = keeps_pure P _ tt
  report-Keeps r (some e) = elim (Bool-cases (is e llm_timeout)) [
    | inl f ↦ rw f (keeps_then P _ _ (append-Keeps r _ _) (keeps_fail P _))
    | inr f ↦ rw f (elim (Bool-cases (is e invalid_llm_output)) [
      | inl g ↦ rw g (keeps_then P _ _ (append-Keeps r _ _) (keeps_fail P _))
      | inr g ↦ rw g (keeps_fail P _)
    ])
  ]

  reconcile-Keeps :
      (u : Uuid) (delta : ℤ) → u ≡ tenant → Delta delta → Keeps P (reconcile u delta) Any
  unfolding reconcile
  reconcile-Keeps u delta own h = elim (Bool-cases (is_zero delta)) [
    | inl e ↦ rw e (keeps_pure P _ tt)
    | inr e ↦ rw (e, own) (keeps_quietly P _ (l.adjusts delta h))
  ]

  lift_result-Keeps : (x : Result (Unit {0})) → Keeps P (lift_result x) Any
  lift_result-Keeps (ok u) = keeps_pure P _ tt
  lift_result-Keeps (err e) = keeps_fail P _

  reserved-Keeps :
      (job : Job) (r : JobRun) → r.tenant_id ≡ tenant → Keeps P (run_reserved k job r) Any
  unfolding run_reserved
  reserved-Keeps job r own =
      keeps_bind P _ _ (loop-Keeps job.description (attempts_of k.policy) (pos 0) none l.starts)
        λ end (n, i). keeps_bind P {Q = On Any} _ _ (keeps_try P _ (report-Keeps r end.last)) λ x _.
          keeps_then P _ _ (reconcile-Keeps r.tenant_id _ own (l.ends n end.cost i))
            (lift_result-Keeps x)

  defer-Keeps : (r : JobRun) → Keeps P (defer_run k r) Any
  unfolding defer_run
  defer-Keeps r = keeps_then P _ _ (append-Keeps r _ _) (keeps_fail P _)

  committed-Keeps :
      (job : Job) (r : JobRun) (b : Bool)
      → r.tenant_id ≡ tenant
      → Keeps P (run_committed k job r b) Any
  committed-Keeps job r true own = reserved-Keeps job r own
  committed-Keeps job r false own = defer-Keeps r

  reserve-Keeps :
      (job : Job) (r : JobRun) → r.tenant_id ≡ tenant → Keeps P (reserve_and_run k job r) Any
  unfolding reserve_and_run get
  reserve-Keeps job r own =
      keeps_bind P {Q = λ q. l.Fits q.max_daily_llm_cost_cents} _ _
        (keeps_context P _ _ (keeps_context P _ _ (keeps_query P _ (λ t h. rw own (l.limits t h)))))
        λ q h.
          keeps_bind P {Q = Any} _ _
            (keeps_context P _ _ (rw own (l.reserves q.max_daily_llm_cost_cents h)))
            λ b _. committed-Keeps job r b own

  job-Keeps :
      (r : JobRun) (job : Job) → r.tenant_id ≡ tenant → Keeps P (execute_llm_job k r job) Any
  unfolding execute_llm_job
  job-Keeps r job own = elim (Bool-cases (is_generic_llm job.job_type)) [
    | inl e ↦ rw e (elim (Bool-cases (too_dear k.policy)) [
      | inl f ↦ rw f (defer-Keeps r)
      | inr f ↦ rw f (reserve-Keeps job r own)
    ])
    | inr e ↦ rw e (keeps_fail P _)
  ]

  pub execute_llm-Keeps : (r : JobRun) → r.tenant_id ≡ tenant → Keeps P (execute_llm k r) Any
  unfolding execute_llm
  execute_llm-Keeps r own =
      keeps_bind P _ _ (keeps_context P _ _ (find_job-Keeps P _)) (λ job _. job-Keeps r job own)
