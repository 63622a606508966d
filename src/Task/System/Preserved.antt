-- ===== src/Task/System/Preserved.antt =====
-- The program as a whole: a property of the tables is kept by all of it, if its parts keep it.
use go_chatgpt_tasks.Base.{Bool, ◌≡◌, Option, Text}
use go_chatgpt_tasks.Task.Domain.{Uuid}
use go_chatgpt_tasks.Task.Transitions.{Outcome}
use go_chatgpt_tasks.Sql.Tables.{Tables}
use go_chatgpt_tasks.Task.Effect.{World, Result, ok, err}
use go_chatgpt_tasks.Task.Effect.Keeps.{Any, Keeps}
use go_chatgpt_tasks.Task.Worker.{QueuedMessage, process}
use go_chatgpt_tasks.Task.Recurrence.Location.{Zone}
use go_chatgpt_tasks.Task.Watcher.{scan_once}
use go_chatgpt_tasks.Task.RecurringWatcher.{scan_recurring}
use go_chatgpt_tasks.Task.Service.{
  Identity, list, runs_for_job, status_of_job, events_for_run, cancel_job,
}
use go_chatgpt_tasks.Task.Service.Reads.{
  list-owned, runs_for_job-owned, status_of_job-owned, events_for_run-owned,
}
use go_chatgpt_tasks.Task.Service.Create.{CreateInput, create}
use go_chatgpt_tasks.Task.Dto.{to_input}
use go_chatgpt_tasks.Task.Http.{
  Request, Bound, unbound, bound, Response, Answer, written, passed, answered, respond, id_of,
  page_of, identity, create_input, create_from, get_list, get_status, post_cancel, get_runs,
  get_events, post_create, Endpoint, create_job, list_jobs, job_runs, job_status, job_cancel,
  run_events, serve,
}
use go_chatgpt_tasks.Mcp.Keeps.{call_tool-Keeps}
use go_chatgpt_tasks.Users.Domain.{User}
use go_chatgpt_tasks.Users.Writes.{OnSaving, serve_user-Keeps}
use go_chatgpt_tasks.Task.System.{
  Config, Step, message, tick, recurring_tick, request, user_request, tool_call, Steps, rest,
  then_step,
}

-- What a property of the tables needs: the messages and the scans keep it, and so do Create, Cancel,
-- and the statement that saves a user.
pub record Preserved (g : Config) (P : Tables → Type 0) : Type 0 where
  pub messages :
      (qm : QueuedMessage) (reclaimed : Bool) (w : World)
      → P w.tables
      → P (process g.worker qm reclaimed w).1.tables
  pub scans : (w : World) → P w.tables → P (scan_once w).1.tables
  pub recurring_scans : (w : World) → P w.tables → P (scan_recurring g.load_location w).1.tables
  pub creates :
      (load_location : Text → Option Zone) (user : Identity) (x : CreateInput)
      → Keeps P (create load_location g.handler.svc user x) Any
  pub cancels : (user : Identity) (job_id : Uuid) → Keeps P (cancel_job user job_id) Any
  pub saves : (u : User) (t : Tables) → OnSaving g.users.lower P u t

module _ (g : Config) (P : Tables → Type 0) (k : Preserved g P) where
  same-Kept : {t t' : Tables} → t' ≡ t → P t → P t'
  same-Kept e b = rw e b

  -- A handler leaves what the service leaves.
  abbrev Kept : World → (World → Response × World) → Type 0
  Kept w f = P w.tables → P (f w).1.tables

  respond-Kept :
      {A : Type 0} (f : A → Response) (x : Result A × World)
      → P x.1.tables
      → P (respond f x).1.tables
  respond-Kept f (ok a, w) h = h
  respond-Kept f (err e, w) h = h

  answered-Kept :
      {A : Type 0} (a : Answer A) (f : A → World → Response × World) (w : World)
      → ((x : A) → Kept w (f x))
      → Kept w (answered a f)
  answered-Kept (written r) f w kept h = h
  answered-Kept (passed x) f w kept h = kept x h

  serve-Kept : (e : Endpoint) (q : Request) (w : World) → Kept w (serve g.handler e q)
  unfolding serve get_list get_status post_cancel get_runs get_events post_create
  serve-Kept create_job q w b =
      answered-Kept (identity g.handler q w) _ w (λ user. bound-Kept user q.input) b
    where
      input-Kept :
          (user : Identity) (x : Outcome CreateInput) → Kept w (create_input g.handler user x)
      input-Kept user (Outcome.err s) b = b
      input-Kept user (Outcome.ok x) b =
          respond-Kept _ (create g.handler.load_location g.handler.svc user x w)
            ((k.creates g.handler.load_location user x).apply w b).0

      bound-Kept : (user : Identity) (x : Bound) → Kept w (create_from g.handler user x)
      bound-Kept user (unbound e) b = b
      bound-Kept user (bound r) b = input-Kept user (to_input g.handler.time_format r) b
  serve-Kept list_jobs q w b =
      answered-Kept (identity g.handler q w) _ w
        (λ user b.
          respond-Kept _ (list user (page_of q) w) (same-Kept (list-owned user (page_of q) w).0 b))
        b
  serve-Kept job_runs q w b =
      answered-Kept (identity g.handler q w) _ w
        (λ user. answered-Kept (id_of (w.env.uuid_parse q.id)) _ w (λ id b.
          respond-Kept _ (runs_for_job user id (page_of q) w)
            (same-Kept (runs_for_job-owned user id (page_of q) w).0 b)))
        b
  serve-Kept job_status q w b =
      answered-Kept (identity g.handler q w) _ w
        (λ user. answered-Kept (id_of (w.env.uuid_parse q.id)) _ w (λ id b.
          respond-Kept _ (status_of_job user id w) (same-Kept (status_of_job-owned user id w).0 b)))
        b
  serve-Kept job_cancel q w b =
      answered-Kept (identity g.handler q w) _ w
        (λ user.
          answered-Kept (id_of (w.env.uuid_parse q.id)) _ w
            (λ id b. respond-Kept _ (cancel_job user id w) (((k.cancels user id).apply w b).0)))
        b
  serve-Kept run_events q w b =
      answered-Kept (identity g.handler q w) _ w
        (λ user. answered-Kept (id_of (w.env.uuid_parse q.id)) _ w (λ id b.
          respond-Kept _ (events_for_run user id w)
            (same-Kept (events_for_run-owned user id w).0 b)))
        b

  step-Kept : (v w : World) → Step g v w → P v.tables → P w.tables
  step-Kept v w (message qm reclaimed u) b = k.messages qm reclaimed u b
  step-Kept v w (tick u) b = k.scans u b
  step-Kept v w (recurring_tick u) b = k.recurring_scans u b
  step-Kept v w (request e q u) b = serve-Kept e q u b
  step-Kept v w (user_request q u) b = serve_user-Keeps g.users P k.saves q u b
  step-Kept v w (tool_call tool raw u) b =
      ((call_tool-Keeps g.codec g.load_location g.handler.svc g.ident P
          (k.creates g.load_location g.ident) (k.cancels g.ident) tool raw).apply
        u b).0

  -- Whatever the program does, in whatever order and whatever calls fail.
  pub steps-Kept : (v w : World) → Steps g v w → P v.tables → P w.tables
  steps-Kept v w (rest u) b = b
  steps-Kept v w (then_step a u c before last) b = step-Kept u c last (steps-Kept a u before b)
