-- ===== src/Tests/LlmTests.antt =====
-- An LLM client that answers every prompt alike, and outputs on concrete inputs.
use go_chatgpt_tasks.Base.{
  ◌≡◌, refl, ◌⊎◌, ◌↔◌, if◌then◌else◌, [], ◌∷◌, Option, none, some, Text, false, codes, text_eq,
  arith,
}
use go_chatgpt_tasks.Base.Int.{ℤ, pos, wrap_int64, ◌+ℤ◌}
use go_chatgpt_tasks.Task.Errors.{sentinel, detail, invalid_llm_output}
use go_chatgpt_tasks.Task.Domain.{JobRun, running}
use go_chatgpt_tasks.Task.Rows.{job_run_from_row}
use go_chatgpt_tasks.Sql.Records.{get_tenant_quota}
use go_chatgpt_tasks.Task.Effect.{World, ok}
use go_chatgpt_tasks.Task.Quotas.Daily.{CostsWithin}
use go_chatgpt_tasks.Task.Worker.Invariants.{LeavesRuns}
use go_chatgpt_tasks.Task.Executor.{execute}
use go_chatgpt_tasks.Task.Llm.Json.{Json, string, array, object, end, member, nil, cons, get, depth}
use go_chatgpt_tasks.Task.Llm.Validate.{
  validate_output, validate_json_value, check_value, check_typed, schema_type, matches_json_type,
  check_fields, check_required, required_fields, strings_of, check_properties, explicit_properties,
}
use go_chatgpt_tasks.Task.Llm.Accepts.Output.{AcceptsText, validate_output-eq-none_iff}
use go_chatgpt_tasks.Task.Llm.Execute.{
  attempts_of, LlmRequest, LlmPolicy, Completion, LlmExecutor, execute_llm,
}
use go_chatgpt_tasks.Task.Llm.Leaves.{execute_llm-LeavesRuns}
use go_chatgpt_tasks.Task.Llm.Budget.{limit_of, InRange, execute_llm-CostsWithin}
use go_chatgpt_tasks.Tests.Sample.{run_row, world_of, all_done, two_at_once}
use go_chatgpt_tasks.Tests.WorkerTests.{failing}

-- {"type": "object", "properties": {"answer": {"type": "string"}}, "required": ["answer"]}
abbrev answer_schema : Json
answer_schema = object (
    member (codes "type") (string (codes "object")) (
      member (codes "properties")
        (object (
          member (codes "answer") (object (member (codes "type") (string (codes "string")) end))
            end))
        (member (codes "required") (array (cons (string (codes "answer")) nil)) end)))

-- A decoder that knows three texts.
abbrev decode : Text → Option Json
decode s =
    if text_eq s (codes "schema")
    then some answer_schema
    else if text_eq s (codes "hello")
    then some (object (member (codes "answer") (string (codes "hi")) end))
    else if text_eq s (codes "empty")
    then some (object end)
    else none

abbrev reply_tokens : ℤ → LlmRequest → World → Completion × World
reply_tokens timeout q w = (
  record {
    reply = ok (record {
      content = codes "hello";
      input_tokens = q.max_input_tokens;
      output_tokens = q.max_output_tokens;
    });
    expired = false;
  },
  w,
)

abbrev schema_policy : LlmPolicy
schema_policy = record {
  timeout_seconds = pos 30;
  max_retries = pos 2;
  max_input_tokens = pos 4000;
  max_output_tokens = pos 1500;
  max_cost_cents = pos 50;
  output_schema = codes "schema";
}

abbrev sample_llm : LlmExecutor
sample_llm = record {
  quota = two_at_once;
  client = reply_tokens;
  policy = schema_policy;
  unmarshal = decode;
  metered = false;
}

abbrev llm_world : World
llm_world = world_of all_done (run_row 11 running 1 ∷ [])

abbrev llm_run : JobRun
llm_run = job_run_from_row (run_row 11 running 1)

validate_output-eq-none_iff_example :
    (validate_output decode (codes "schema") (codes "hello") ≡ none)
    ↔ ((codes "schema" ≡ []) ⊎ AcceptsText decode (codes "schema") (codes "hello"))
validate_output-eq-none_iff_example =
    validate_output-eq-none_iff decode (codes "schema") (codes "hello")

validated : validate_output decode (codes "schema") (codes "hello") ≡ none
unfolding validate_output validate_json_value check_value check_typed schema_type get
    matches_json_type check_fields check_required required_fields strings_of check_properties
    explicit_properties depth
validated = refl

missing_field :
    validate_output decode (codes "schema") (codes "empty")
    ≡ some (detail (sentinel invalid_llm_output) (codes "$ missing field \"answer\""))
unfolding validate_output validate_json_value check_value check_typed schema_type get
    matches_json_type check_fields check_required required_fields strings_of depth
missing_field = refl

execute_llm-LeavesRuns_example :
    LeavesRuns (record failing { exec = execute (λ s. s) (execute_llm sample_llm) })
execute_llm-LeavesRuns_example = execute_llm-LeavesRuns (λ s. s) failing sample_llm (λ t q w. refl)

sample_InRange : InRange sample_llm.policy
unfolding attempts_of wrap_int64 ◌+ℤ◌
sample_InRange = record {
  input = omega arith;
  output = omega arith;
  tokens = omega arith;
  estimate = omega arith;
}

execute_llm-CostsWithin_example :
    CostsWithin llm_run.tenant_id
      (limit_of sample_llm llm_run.tenant_id [])
      (execute_llm sample_llm llm_run llm_world).1.tables
unfolding get_tenant_quota
execute_llm-CostsWithin_example =
    execute_llm-CostsWithin sample_llm llm_run llm_world (λ t q w. refl)
      (λ t q w i o. ((i, omega arith), (o, omega arith))) sample_InRange (omega arith, omega arith)
      (tt, tt)
