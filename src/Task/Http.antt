-- ===== src/Task/Http.antt =====
-- internal/task/handler_http.go and routes.go: the requests of a user. Gin's binding of a body and the
-- rendering of a response as JSON are left out: a request holds what is bound, and a response the
-- values to render. The resolver of a user's tenant is a parameter.
pub mod Access
pub mod Tokens
use go_chatgpt_tasks.Base.{
  ℕ, Bool, true, false, ◌||◌, if◌then◌else◌, List, [], ◌∷◌, map, Option, none, some, Text, codes,
  is_empty, length,
}
use go_chatgpt_tasks.Base.Int.{ℤ, pos}
use go_chatgpt_tasks.Base.Parse.{atoi}
use go_chatgpt_tasks.Shared.{Pagination, new_pagination}
use go_chatgpt_tasks.Task.Errors.{
  Error, sentinel, is, message, job_not_found, job_run_not_found, quota_exceeded,
  invalid_description, invalid_schedule, invalid_timezone, invalid_recurrence, invalid_owner,
}
use go_chatgpt_tasks.Task.Domain.{Uuid, JobRun, RunEvent}
use go_chatgpt_tasks.Task.Transitions.{Outcome}
use go_chatgpt_tasks.Task.Effect.{World, Result, ok, err}
use go_chatgpt_tasks.Task.Recurrence.Location.{Zone}
use go_chatgpt_tasks.Task.Dto.{
  CreateJobRequest, TimeFormat, to_input, RunResponse, RunEventResponse, run_to_http_response,
  event_to_http_response,
}
use go_chatgpt_tasks.Auth.Jwt.{Jwt, Manager}
use go_chatgpt_tasks.Auth.Middleware.{Decision, denied, granted, authenticate}
use go_chatgpt_tasks.Task.Service.{
  Identity, Service, list, runs_for_job, events_for_run, status_of_job, cancel_job,
}
use go_chatgpt_tasks.Task.Service.Create.{CreateInput, create}

-- What ShouldBindJSON makes of a body.
pub data Bound : Type 0 where
  unbound : Text → Bound
  bound : CreateJobRequest → Bound

-- The subject that the middleware has stored, "" if there is none; the path's :id; the query; the body.
pub record Request : Type 0 where
  pub subject : Text
  pub id : Text
  pub limit : Text
  pub offset : Text
  pub input : Bound

pub data Body : Type 0 where
  error : Text → Body
  run : RunResponse → Body
  runs : List RunResponse → ℕ → Pagination → Body
  cancelled : Uuid → ℕ → Body
  events : List RunEventResponse → Body

pub record Response : Type 0 where
  pub status : ℕ
  pub body : Body

abbrev pub json : ℕ → Body → Response
json status body = record { status = status; body = body }

pub record Handler : Type 0 where
  pub svc : Service
  pub resolve_tenant : Uuid → Result Uuid
  pub load_location : Text → Option Zone
  pub time_format : TimeFormat

unfoldable pub write_error : Error → Response
write_error e =
    if is e job_not_found || is e job_run_not_found
    then json 404 (error (message e))
    else if is e quota_exceeded
    then json 429 (error (message e))
    else if is e invalid_description
        || (is e invalid_schedule
            || (is e invalid_timezone || (is e invalid_recurrence || is e invalid_owner)))
    then json 400 (error (message e))
    else json 500 (error (codes "internal error"))

-- `strconv.Atoi`, with 0 for an empty or a wrong text.
abbrev int_or_zero : Option ℤ → ℤ
int_or_zero none = pos 0
int_or_zero (some n) = n

unfoldable pub parse_int : Text → ℤ
parse_int s = if is_empty s then pos 0 else int_or_zero (atoi s)

abbrev pub page_of : Request → Pagination
page_of q = new_pagination (parse_int q.limit) (parse_int q.offset)

-- A step of a handler that may write the response itself (`if !ok { return }`).
pub data Answer {ℓ} (A : Type ℓ) : Type ℓ where
  written : Response → Answer A
  passed : A → Answer A

-- Handler.identity.
abbrev tenant_of : Uuid → Result Uuid → Answer Identity
tenant_of user (err e) = written (write_error e)
tenant_of user (ok t) = passed (record { tenant_id = t; user_id = user })

abbrev identity_of : Handler → Option Uuid → Answer Identity
identity_of h none = written (json 401 (error (codes "invalid subject")))
identity_of h (some user) = tenant_of user (h.resolve_tenant user)

unfoldable pub identity : Handler → Request → World → Answer Identity
identity h q w =
    if is_empty q.subject
    then written (json 401 (error (codes "unauthenticated")))
    else identity_of h (w.env.uuid_parse q.subject)

-- ParseJobID and ParseJobRunID of the path's :id.
abbrev pub id_of : Option Uuid → Answer Uuid
id_of none = written (json 400 (error (codes "invalid id")))
id_of (some u) = passed u

abbrev pub answered :
    {A : Type 0} → Answer A → (A → World → Response × World) → World → Response × World
answered (written r) f w = (r, w)
answered (passed a) f w = f a w

-- `if err != nil { writeError(c, err); return }`, then the response for the result.
abbrev pub respond : {A : Type 0} → (A → Response) → Result A × World → Response × World
respond f (ok a, w) = (f a, w)
respond f (err e, w) = (write_error e, w)

abbrev pub with_user :
    Handler → Request → (Identity → World → Response × World) → World → Response × World
with_user h q f w = answered (identity h q w) f w

abbrev pub with_id : Request → (Uuid → World → Response × World) → World → Response × World
with_id q f w = answered (id_of (w.env.uuid_parse q.id)) f w

abbrev pub shown_run : Handler → JobRun → Body
shown_run h r = run (run_to_http_response h.time_format r)

abbrev pub shown_runs : Handler → Pagination → List JobRun × ℕ → Body
shown_runs h p x = runs (map (run_to_http_response h.time_format) x.0) x.1 p

abbrev pub shown_events : Handler → List RunEvent → Body
shown_events h es = events (map (event_to_http_response h.time_format) es)

unfoldable pub get_list : Handler → Request → World → Response × World
get_list h q =
    with_user h q
      λ user w. respond (λ x. json 200 (shown_runs h (page_of q) x)) (list user (page_of q) w)

unfoldable pub get_status : Handler → Request → World → Response × World
get_status h q = with_user h q λ user.
    with_id q λ job_id w. respond (λ r. json 200 (shown_run h r)) (status_of_job user job_id w)

unfoldable pub post_cancel : Handler → Request → World → Response × World
post_cancel h q = with_user h q λ user.
    with_id q
      λ job_id w. respond (λ rs. json 200 (cancelled job_id (length rs))) (cancel_job user job_id w)

unfoldable pub get_runs : Handler → Request → World → Response × World
get_runs h q = with_user h q λ user. with_id q λ job_id w.
    respond (λ x. json 200 (shown_runs h (page_of q) x)) (runs_for_job user job_id (page_of q) w)

unfoldable pub get_events : Handler → Request → World → Response × World
get_events h q = with_user h q λ user.
    with_id q
      λ run_id w. respond (λ es. json 200 (shown_events h es)) (events_for_run user run_id w)

abbrev pub create_input : Handler → Identity → Outcome CreateInput → World → Response × World
create_input h user (Outcome.err s) w = (write_error (sentinel s), w)
create_input h user (Outcome.ok x) w =
    respond (λ r. json 201 (shown_run h r)) (create h.load_location h.svc user x w)

abbrev pub create_from : Handler → Identity → Bound → World → Response × World
create_from h user (unbound e) w = (json 400 (error e), w)
create_from h user (bound r) w = create_input h user (to_input h.time_format r) w

unfoldable pub post_create : Handler → Request → World → Response × World
post_create h q = with_user h q λ user. create_from h user q.input

-- The routes.
pub data Endpoint : Type 0 where
  create_job list_jobs job_runs job_status job_cancel run_events : Endpoint

unfoldable pub serve : Handler → Endpoint → Request → World → Response × World
serve h create_job = post_create h
serve h list_jobs = get_list h
serve h job_runs = get_runs h
serve h job_status = get_status h
serve h job_cancel = post_cancel h
serve h run_events = get_events h

-- With the middleware in front, on the header's value.
abbrev pub served : Handler → Endpoint → Request → Decision × World → Response × World
served h e q (denied m, w) = (json 401 (error m), w)
served h e q (granted subject, w) = serve h e (record q { subject = subject }) w

unfoldable pub serve_with_token :
    Jwt → Manager → Handler → Text → Endpoint → Request → World → Response × World
serve_with_token j m h header e q w = served h e q (authenticate j m header w)
