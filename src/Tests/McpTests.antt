-- ===== src/Tests/McpTests.antt =====
-- Tools called on concrete worlds.
use go_chatgpt_tasks.Base.{◌≡◌, refl, inr, [], ◌∷◌, some, Text, codes, arith}
use go_chatgpt_tasks.Base.Int.{pos}
use go_chatgpt_tasks.Task.Errors.{foreign, sentinel, job_run_not_found}
use go_chatgpt_tasks.Task.Domain.{pending, success}
use go_chatgpt_tasks.Task.Rows.{job_run_from_row}
use go_chatgpt_tasks.Sql.Runs.{get_job_run_by_id}
use go_chatgpt_tasks.Task.Effect.{ok, err, ◌>>=◌}
use go_chatgpt_tasks.Mcp.{Codec, run_to_response, status_tool, cancel_tool, call_tool}
use go_chatgpt_tasks.Mcp.Server.{
  new_registry, register_tools, Encoder, cancel_call, to_map, serve_call,
}
use go_chatgpt_tasks.Mcp.Server.Calls.{perform, ReadBack, serve_call-perform}
use go_chatgpt_tasks.Mcp.Tenants.{call_tool-Stored}
use go_chatgpt_tasks.Mcp.RunIds.{status-run_to_response}
use go_chatgpt_tasks.Tests.Sample.{run_row}
use go_chatgpt_tasks.Tests.ServiceTests.{owner, quota_service, two_runs}
use go_chatgpt_tasks.Tests.RecurrenceTests.{only_utc}

-- The arguments are the identifier alone, and a time is printed as its number.
abbrev pub bare : Codec
bare = record {
  create_args = λ raw. err (foreign (codes "no object"));
  list_args = λ raw. ok (record { limit = pos 0; offset = pos 0 });
  run_ref = λ raw. ok (record { job_id = raw });
  job_ref = λ raw. ok (record { job_id = raw; limit = pos 0; offset = pos 0 });
  parse_time = λ s. err (foreign (codes "no time"));
  format_time = λ t. t ∷ [];
}

call_tool-Stored_example :
    get_job_run_by_id 12
      (call_tool bare only_utc quota_service owner cancel_tool (5 ∷ []) two_runs).1.tables.job_runs
    ≡ some (run_row 12 success 1)
unfolding get_job_run_by_id
call_tool-Stored_example =
    call_tool-Stored bare only_utc quota_service owner cancel_tool (5 ∷ []) 12
      (run_row 12 success 1) two_runs (inr refl) refl

status-run_to_response_example :
    (call_tool bare only_utc quota_service owner status_tool (11 ∷ []) two_runs).0
    ≡ err (sentinel job_run_not_found)
unfolding run_to_response job_run_from_row
status-run_to_response_example =
    status-run_to_response bare only_utc quota_service owner
      (job_run_from_row (run_row 11 pending 0)) (11 ∷ [])
      (record { job_id = 11 ∷ []; limit = pos 0; offset = pos 0 }) two_runs refl refl refl refl
      (omega arith) refl refl refl

-- Arguments that are an identifier are sent as it is, an answer as a letter.
abbrev plain : Encoder Text
plain = record {
  create_args = λ x. err (foreign (codes "no object"));
  list_args = λ x. ok (codes "{}");
  run_ref = λ x. ok x.job_id;
  job_ref = λ x. ok x.job_id;
  answer = λ x. ok (codes "a");
  to_object = λ b. ok b;
}

serve_call-perform_example :
    serve_call plain
      (register_tools bare only_utc quota_service owner new_registry)
      (cancel_call (record { job_id = 5 ∷ [] }))
      two_runs
    ≡ (perform plain bare only_utc quota_service owner (cancel_call (record { job_id = 5 ∷ [] }))
          >>= to_map plain)
        two_runs
unfolding ReadBack
serve_call-perform_example =
    serve_call-perform plain bare only_utc quota_service owner
      (cancel_call (record { job_id = 5 ∷ [] })) (5 ∷ []) two_runs refl refl refl
