-- ===== src/Tests/HttpTests.antt =====
-- Requests on concrete worlds.
use go_chatgpt_tasks.Base.{◌≡◌, ◌++◌, arith, refl, [], ◌∷◌, Option, none, some, Text, codes}
use go_chatgpt_tasks.Clock.{Time}
use go_chatgpt_tasks.Task.Dto.{TimeFormat}
use go_chatgpt_tasks.Task.Errors.{
  sentinel, is, message, sentinel_message, invalid_job_type, invalid_schedule,
}
use go_chatgpt_tasks.Task.Effect.{ok}
use go_chatgpt_tasks.Task.Http.{
  Request, unbound, error, Handler, json, write_error, list_jobs, job_cancel, serve,
  serve_with_token,
}
use go_chatgpt_tasks.Task.Http.Access.{OwnedBody, serve-Denied, serve-Owned}
use go_chatgpt_tasks.Task.Http.Tokens.{serve_with_token-login}
use go_chatgpt_tasks.Auth.Middleware.{bearer_prefix}
use go_chatgpt_tasks.Tests.RecurrenceTests.{only_utc}
use go_chatgpt_tasks.Tests.UsersTests.{
  open_jwt, open_jwt-reads, users_service, token_at, bob, bob_login, bob_world, bob_logs_in,
  logged_in,
}
use go_chatgpt_tasks.Tests.ServiceTests.{quota_service, two_runs}

-- A time is printed as its number.
abbrev one_time : Text → Option Time
one_time [] = none
one_time (t ∷ s) = some t

abbrev pub plain_times : TimeFormat
plain_times = record { parse = one_time; format = λ t. t ∷ [] }

abbrev pub handler : Handler
handler = record {
  svc = quota_service;
  resolve_tenant = λ u. ok 7;
  load_location = only_utc;
  time_format = plain_times;
}

-- A request of user 8.
abbrev pub signed : Request
signed = record {
  subject = 8 ∷ [];
  id = 5 ∷ [];
  limit = codes "20";
  offset = [];
  input = unbound [];
}

abbrev unsigned : Request
unsigned = record signed { subject = [] }

serve-Denied_example :
    ((serve handler job_cancel unsigned two_runs).0.status ≡ 401)
    × ((serve handler job_cancel unsigned two_runs).1 ≡ two_runs)
serve-Denied_example = serve-Denied handler job_cancel unsigned two_runs refl

serve-Owned_example :
    ((serve handler list_jobs signed two_runs).1.tables ≡ two_runs.tables)
    × OwnedBody 7 (serve handler list_jobs signed two_runs).0.body
serve-Owned_example = serve-Owned handler list_jobs signed two_runs 8 7 refl refl refl refl

-- A job type that NewJob refuses is answered as an internal error, a wrong schedule as a bad request.
refused_type : write_error (sentinel invalid_job_type) ≡ json 500 (error (codes "internal error"))
unfolding write_error is
refused_type = refl

refused_schedule :
    write_error (sentinel invalid_schedule) ≡ json 400 (error (codes "invalid schedule"))
unfolding write_error is message sentinel_message
refused_schedule = refl

serve_with_token-login_example :
    let r =
      serve_with_token open_jwt users_service.manager handler
        (bearer_prefix ++ token_at 7)
        list_jobs
        unsigned
        logged_in in
    (r.1.tables ≡ logged_in.tables) × OwnedBody 7 r.0.body
serve_with_token-login_example =
    serve_with_token-login users_service bob_login bob_world logged_in bob (token_at 7) handler
      list_jobs unsigned 7 open_jwt-reads bob_logs_in refl refl (omega arith) refl refl
