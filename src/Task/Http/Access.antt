-- ===== src/Task/Http/Access.antt =====
-- internal/task/handler_http.go: who may ask, and what a user is shown.
use go_chatgpt_tasks.Base.{
  ◌≡◌, refl, inl, inr, Bool, true, false, ◌||◌, List, [], ◌∷◌, map, All, Option, none, some,
  is_empty, Bool-cases,
}
use go_chatgpt_tasks.Task.Errors.{
  Error, is, job_not_found, job_run_not_found, quota_exceeded, invalid_description,
  invalid_schedule, invalid_timezone, invalid_recurrence, invalid_owner,
}
use go_chatgpt_tasks.Task.Domain.{Uuid, JobRun, RunEvent}
use go_chatgpt_tasks.Task.Effect.{World, Result, ok, err}
use go_chatgpt_tasks.Task.Effect.Keeps.{On}
use go_chatgpt_tasks.Sql.Tables.{Tables}
use go_chatgpt_tasks.Task.Service.{Identity}
use go_chatgpt_tasks.Task.Service.Reads.{
  list-owned, runs_for_job-owned, status_of_job-owned, events_for_run-owned,
}
use go_chatgpt_tasks.Task.Dto.{
  RunResponse, RunEventResponse, run_to_http_response, event_to_http_response,
}
use go_chatgpt_tasks.Task.Http.{
  Request, Body, error, run, runs, cancelled, events, Response, Handler, write_error, page_of,
  identity, id_of, answered, respond, with_user, with_id, get_list, get_status, post_cancel,
  get_runs, get_events, post_create, Endpoint, create_job, list_jobs, job_runs, job_status,
  job_cancel, run_events, serve,
}

-- A response whose status is 401.
abbrev Denied : World → Response × World → Type 0
Denied w x = (x.0.status ≡ 401) × (x.1 ≡ w)

with_user-Denied :
    (h : Handler) (q : Request) (f : Identity → World → Response × World) (w : World)
    → w.env.uuid_parse q.subject ≡ none
    → Denied w (with_user h q f w)
unfolding identity
with_user-Denied h q f w e = elim (Bool-cases (is_empty q.subject)) [
  | inl i ↦ rw i (refl, refl)
  | inr i ↦ rw (i, e) (refl, refl)
]

-- A request whose subject is no identifier, as when there is none, is answered with 401 at every
-- endpoint, and nothing else happens.
pub serve-Denied :
    (h : Handler) (e : Endpoint) (q : Request) (w : World)
    → w.env.uuid_parse q.subject ≡ none
    → ((serve h e q w).0.status ≡ 401) × ((serve h e q w).1 ≡ w)
unfolding serve get_list get_status post_cancel get_runs get_events post_create
serve-Denied h create_job q w e = with_user-Denied h q _ w e
serve-Denied h list_jobs q w e = with_user-Denied h q _ w e
serve-Denied h job_runs q w e = with_user-Denied h q _ w e
serve-Denied h job_status q w e = with_user-Denied h q _ w e
serve-Denied h job_cancel q w e = with_user-Denied h q _ w e
serve-Denied h run_events q w e = with_user-Denied h q _ w e

-- What a body shows of runs and events is of one tenant.
abbrev pub OwnedBody : Uuid → Body → Type 0
OwnedBody t (error e) = Unit
OwnedBody t (run r) = r.tenant_id ≡ t
OwnedBody t (runs rs n p) = All (λ (r : RunResponse). r.tenant_id ≡ t) rs
OwnedBody t (cancelled id n) = Unit
OwnedBody t (events es) = All (λ (e : RunEventResponse). e.tenant_id ≡ t) es

abbrev Shows : Uuid → Tables → Response × World → Type 0
Shows t before x = (x.1.tables ≡ before) × OwnedBody t x.0.body

write_error-owned : (t : Uuid) (e : Error) → OwnedBody t (write_error e).body
unfolding write_error
write_error-owned t e = elim (Bool-cases (is e job_not_found || is e job_run_not_found)) [
  | inl a ↦ rw a tt
  | inr a ↦ elim (Bool-cases (is e quota_exceeded)) [
    | inl b ↦ rw (a, b) tt
    | inr b ↦
        elim (Bool-cases (
          is e invalid_description
          || (is e invalid_schedule
              || (is e invalid_timezone || (is e invalid_recurrence || is e invalid_owner))))) [
                | inl c ↦ rw (a, b, c) tt
                | inr c ↦ rw (a, b, c) tt
              ]
  ]
]

module _ (t : Uuid) (before : Tables) where
  respond-Shows :
      {A : Type 0} (Q : A → Type 0) (f : A → Response)
      → ((a : A) → Q a → OwnedBody t (f a).body)
      → (x : Result A × World) → (x.1.tables ≡ before) × On Q x.0
      → Shows t before (respond f x)
  respond-Shows Q f shows (ok a, w) h = (h.0, shows a h.1)
  respond-Shows Q f shows (err e, w) h = (h.0, write_error-owned t e)

  with_id-Shows :
      (q : Request) (f : Uuid → World → Response × World) (w : World)
      → w.tables ≡ before
      → ((id : Uuid) → Shows t before (f id w))
      → Shows t before (with_id q f w)
  with_id-Shows q f w same h = go (w.env.uuid_parse q.id)
    where
      go : (o : Option Uuid) → Shows t before (answered (id_of o) f w)
      go none = (same, tt)
      go (some id) = h id

runs-owned :
    (h : Handler) (t : Uuid) (rs : List JobRun)
    → All (λ (r : JobRun). r.tenant_id ≡ t) rs
    → All (λ (r : RunResponse). r.tenant_id ≡ t) (map (run_to_http_response h.time_format) rs)
unfolding run_to_http_response
runs-owned h t [] o = tt
runs-owned h t (r ∷ rs) o = (o.0, runs-owned h t rs o.1)

events-owned :
    (h : Handler) (t : Uuid) (es : List RunEvent)
    → All (λ (e : RunEvent). e.tenant_id ≡ t) es
    → All
        (λ (e : RunEventResponse). e.tenant_id ≡ t)
        (map (event_to_http_response h.time_format) es)
unfolding event_to_http_response
events-owned h t [] o = tt
events-owned h t (e ∷ es) o = (o.0, events-owned h t es o.1)

-- The requests that only read.
abbrev pub is_get : Endpoint → Bool
is_get create_job = false
is_get job_cancel = false
is_get _ = true

-- A GET request whose subject is an identifier that resolves to a tenant changes no table, whatever
-- calls fail, and shows runs and events of that tenant only.
pub serve-Owned :
    (h : Handler) (e : Endpoint) (q : Request) (w : World) (user tenant : Uuid)
    → is_get e ≡ true
    → is_empty q.subject ≡ false
    → w.env.uuid_parse q.subject ≡ some user
    → h.resolve_tenant user ≡ ok tenant
    → ((serve h e q w).1.tables ≡ w.tables) × OwnedBody tenant (serve h e q w).0.body
unfolding serve get_list get_status get_runs get_events identity run_to_http_response
serve-Owned h create_job q w u t g s p r = cc
serve-Owned h job_cancel q w u t g s p r = cc
serve-Owned h list_jobs q w u t g s p r =
    rw (s, p, r)
      (respond-Shows t w.tables _ _ (λ x o. runs-owned h t x.0 o) _ (list-owned _ (page_of q) w))
serve-Owned h job_runs q w u t g s p r =
    rw (s, p, r)
      (with_id-Shows t w.tables q _ w refl λ id.
        respond-Shows t w.tables _ _ (λ x o. runs-owned h t x.0 o) _
          (runs_for_job-owned _ id (page_of q) w))
serve-Owned h job_status q w u t g s p r =
    rw (s, p, r)
      (with_id-Shows t w.tables q _ w refl
        λ id. respond-Shows t w.tables _ _ (λ x o. o) _ (status_of_job-owned _ id w))
serve-Owned h run_events q w u t g s p r =
    rw (s, p, r)
      (with_id-Shows t w.tables q _ w refl λ id.
        respond-Shows t w.tables _ _ (λ x o. events-owned h t x o) _ (events_for_run-owned _ id w))
