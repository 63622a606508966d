-- ===== src/Task/Llm/Execute.antt =====
-- internal/task/executor.go: LLMExecutor, with EstimateCostCents of internal/task/llm.go. Go's int is
-- an int64.
use go_chatgpt_tasks.Base.{
  ℕ, zero, suc, ◌+◌, ◌/◌, Bool, true, false, ◌&&◌, ◌||◌, not, if◌then◌else◌, [], ◌∷◌, ◌++◌, Option,
  none, some, Text, codes,
}
use go_chatgpt_tasks.Base.Int.{
  ℤ, pos, negsuc, pos_part, neg_part, sub_ℕ, ◌+ℤ◌, ◌*ℤ◌, leb_ℤ, ltb_ℤ, wrap_int64,
}
use go_chatgpt_tasks.Task.Errors.{
  Error, sentinel, is, message, wrap, invalid_job_type, llm_cost_exceeded, llm_timeout,
  invalid_llm_output, deadline_exceeded,
}
use go_chatgpt_tasks.Task.Domain.{
  Uuid, JobType, generic_llm, Quota, Job, JobRun, EventType, quota_deferred, llm_timeout_event,
  llm_validation_failed, Payload, text, int,
}
use go_chatgpt_tasks.Task.Effect.{
  Metric, llm_cost_recorded, llm_timeout_recorded, llm_validation_failure_recorded,
  llm_latency_recorded, World, Result, ok, err, M, ◌>>=◌, ◌>>◌, pure, fail, try, quietly,
  with_context, lift_result, record_metric,
}
use go_chatgpt_tasks.Task.Repo.{find_job}
use go_chatgpt_tasks.Task.Quotas.{get, reserve_daily_cost, adjust_daily_cost}
use go_chatgpt_tasks.Task.Worker.{append_event_of}
use go_chatgpt_tasks.Task.Llm.Json.{Json}
use go_chatgpt_tasks.Task.Llm.Validate.{validate_output}

pub record LlmRequest : Type 0 where
  pub model : Text
  pub prompt : Text
  pub max_input_tokens : ℤ
  pub max_output_tokens : ℤ

pub record LlmResponse : Type 0 where
  pub content : Text
  pub input_tokens : ℤ
  pub output_tokens : ℤ

pub record LlmPolicy : Type 0 where
  pub timeout_seconds : ℤ
  pub max_retries : ℤ
  pub max_input_tokens : ℤ
  pub max_output_tokens : ℤ
  pub max_cost_cents : ℤ
  pub output_schema : Text

-- What a call of the LLMClient port comes to: its results, and whether the deadline of its context
-- has passed when it returns (`callCtx.Err()`).
pub record Completion : Type 0 where
  pub reply : Result LlmResponse
  pub expired : Bool

-- LLMExecutor. The quota repository is given by its defaults, the client by what its calls do to
-- the world (the first argument is the timeout in seconds), and encoding/json by `unmarshal`.
pub record LlmExecutor : Type 0 where
  pub quota : Quota
  pub client : ℤ → LlmRequest → World → Completion × World
  pub policy : LlmPolicy
  pub unmarshal : Text → Option Json
  pub metered : Bool

-- Division by 1000, which rounds towards zero.
abbrev pub thousandth : ℤ → ℤ
thousandth n = sub_ℕ (pos_part n / 1000) (neg_part n / 1000)

abbrev pub ceil_thousand : ℤ → ℤ
ceil_thousand (pos n) = thousandth (wrap_int64 (pos (n + 999)))
ceil_thousand (negsuc n) = pos 0

-- EstimateCostCents, whose first parameter is not used.
unfoldable pub estimate_cost_cents : ℤ → ℤ → ℤ
estimate_cost_cents input_tokens output_tokens =
    ceil_thousand (wrap_int64 (input_tokens +ℤ output_tokens))

abbrev pub llm_metric : LlmExecutor → Metric → M (Unit {0})
llm_metric k m = if k.metered then record_metric m else pure tt

-- string(eventType), of the types that appendEvent is given.
abbrev event_name : EventType → Text
event_name quota_deferred = codes "quota.deferred"
event_name llm_timeout_event = codes "llm.timeout"
event_name llm_validation_failed = codes "llm.validation_failed"
event_name _ = []

-- LLMExecutor.appendEvent.
unfoldable pub append_llm_event : JobRun → EventType → Payload → M (Unit {0})
append_llm_event r type payload =
    with_context (codes "append " ++ (event_name type ++ codes " event"))
      (append_event_of r type payload)

-- `errors.Is(err, context.DeadlineExceeded)`, of the client's error.
abbrev pub says_deadline : Result LlmResponse → Bool
says_deadline (ok r) = false
says_deadline (err e) = is e deadline_exceeded

-- The end of callModel: a deadline that has passed hides the client's own result.
abbrev pub call_result : Completion → Result LlmResponse
call_result c =
    if says_deadline c.reply || c.expired then err (sentinel deadline_exceeded) else c.reply

unfoldable pub call_client : LlmExecutor → LlmRequest → M Completion
call_client k q w = let x = k.client k.policy.timeout_seconds q w in (ok x.0, x.1)

unfoldable pub call_model : LlmExecutor → Text → Text → M (Result LlmResponse)
call_model k model prompt = do
  c ← call_client k (record {
    model = model;
    prompt = prompt;
    max_input_tokens = k.policy.max_input_tokens;
    max_output_tokens = k.policy.max_output_tokens;
  })
  llm_metric k llm_latency_recorded
  pure (call_result c)

-- Where the loop of Execute stops: the cost so far, and the error to report, if there is one.
pub record Spent : Type 0 where
  pub cost : ℤ
  pub last : Option Error

abbrev spent : ℤ → Option Error → Spent
spent cost last = record { cost = cost; last = last }

-- A round after callModel. `next` is the rest of the loop.
unfoldable pub after_invalid :
    LlmExecutor → (ℤ → Option Error → M Spent) → ℤ → Option Error → M Spent
after_invalid k next cost none = llm_metric k (llm_cost_recorded cost) >> pure (spent cost none)
after_invalid k next cost (some e) =
    llm_metric k llm_validation_failure_recorded >> next cost (some e)

unfoldable pub after_call :
    LlmExecutor → (ℤ → Option Error → M Spent) → ℤ → Result LlmResponse → M Spent
after_call k next cost (err e) =
    if is e deadline_exceeded
    then (llm_metric k llm_timeout_recorded >> next cost (some (sentinel llm_timeout)))
    else next cost (some (wrap (codes "complete LLM request") e))
after_call k next cost (ok r) =
    after_invalid k next (wrap_int64 (cost +ℤ estimate_cost_cents r.input_tokens r.output_tokens))
      (validate_output k.unmarshal k.policy.output_schema r.content)

abbrev pub model_name : Text
model_name = codes "fake-default"

-- `for attempt := 0; attempt < attempts; attempt++`.
unfoldable pub attempt_loop : LlmExecutor → Text → ℕ → ℤ → Option Error → M Spent
attempt_loop k prompt zero cost last = pure (spent cost last)
attempt_loop k prompt (suc n) cost last =
    call_model k model_name prompt >>= after_call k (attempt_loop k prompt n) cost

-- What follows the loop.
unfoldable pub report : JobRun → Option Error → M (Unit {0})
report r none = pure tt
report r (some e) =
    if is e llm_timeout
    then (append_llm_event r llm_timeout_event none >> fail (sentinel llm_timeout))
    else if is e invalid_llm_output
    then (append_llm_event r llm_validation_failed (some ((codes "error", text (message e)) ∷ []))
        >> fail e)
    else fail e

unfoldable pub attempts_of : LlmPolicy → ℕ
attempts_of p =
    let n = wrap_int64 (p.max_retries +ℤ pos 1) in if ltb_ℤ n (pos 1) then 1 else pos_part n

unfoldable pub estimated_of : LlmPolicy → ℤ
estimated_of p =
    wrap_int64 (estimate_cost_cents p.max_input_tokens p.max_output_tokens *ℤ pos (attempts_of p))

abbrev pub minus : ℤ → ℤ → ℤ
minus a b = wrap_int64 (sub_ℕ (pos_part a + neg_part b) (neg_part a + pos_part b))

-- The deferred function: `if delta := actualCost - estimated; delta != 0`.
abbrev pub is_zero : ℤ → Bool
is_zero (pos zero) = true
is_zero _ = false

unfoldable pub reconcile : Uuid → ℤ → M (Unit {0})
reconcile tenant delta = if is_zero delta then pure tt else quietly (adjust_daily_cost tenant delta)

-- The loop under the reservation, what it reports, and the deferred function after that.
unfoldable pub run_reserved : LlmExecutor → Job → JobRun → M (Unit {0})
run_reserved k job r = do
  end ← attempt_loop k job.description (attempts_of k.policy) (pos 0) none
  result ← try (report r end.last)
  reconcile r.tenant_id (minus end.cost (estimated_of k.policy))
  lift_result result

unfoldable pub defer_run : LlmExecutor → JobRun → M (Unit {0})
defer_run k r =
    append_llm_event r quota_deferred
      (some ((codes "estimated_cost_cents", int (estimated_of k.policy)) ∷ []))
    >> fail (sentinel llm_cost_exceeded)

abbrev pub run_committed : LlmExecutor → Job → JobRun → Bool → M (Unit {0})
run_committed k job r committed = if committed then run_reserved k job r else defer_run k r

unfoldable pub reserve_and_run : LlmExecutor → Job → JobRun → M (Unit {0})
reserve_and_run k job r = do
  quota ← with_context (codes "get LLM quota") (get k.quota r.tenant_id)
  committed ←
      with_context (codes "reserve LLM cost")
        (reserve_daily_cost r.tenant_id (estimated_of k.policy) quota.max_daily_llm_cost_cents)
  run_committed k job r committed

-- `e.policy.MaxCostCents >= 0 && estimated > e.policy.MaxCostCents`.
abbrev pub too_dear : LlmPolicy → Bool
too_dear p = leb_ℤ (pos 0) p.max_cost_cents && ltb_ℤ p.max_cost_cents (estimated_of p)

abbrev pub is_generic_llm : JobType → Bool
is_generic_llm generic_llm = true
is_generic_llm _ = false

unfoldable pub execute_llm_job : LlmExecutor → JobRun → Job → M (Unit {0})
execute_llm_job k r job =
    if not (is_generic_llm job.job_type)
    then fail (sentinel invalid_job_type)
    else if too_dear k.policy
    then defer_run k r
    else reserve_and_run k job r

-- LLMExecutor.Execute.
unfoldable pub execute_llm : LlmExecutor → JobRun → M (Unit {0})
execute_llm k r =
    with_context (codes "find job for LLM execution") (find_job r.job_id) >>= execute_llm_job k r
