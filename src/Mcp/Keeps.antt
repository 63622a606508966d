-- ===== src/Mcp/Keeps.antt =====
-- internal/task/mcp/tools.go: a tool keeps what Create and Cancel keep.
use go_chatgpt_tasks.Base.{◌≡◌, sym, subst, inl, inr, Bool-cases, Option, some, Text, is_empty}
use go_chatgpt_tasks.Clock.{Time}
use go_chatgpt_tasks.Shared.Ids.{parse_id}
use go_chatgpt_tasks.Task.Domain.{Uuid}
use go_chatgpt_tasks.Sql.Tables.{Tables}
use go_chatgpt_tasks.Task.Effect.{World, Result, ok, err, M, ◌>>=◌, pure, lift_result}
use go_chatgpt_tasks.Task.Effect.Keeps.{
  Any, Any-On, Keeps, keeps_pure, keeps_fail, keeps_bind, keeps_context,
}
use go_chatgpt_tasks.Task.Recurrence.Location.{Zone}
use go_chatgpt_tasks.Task.Service.{Identity, Service, cancel_job}
use go_chatgpt_tasks.Task.Service.Reads.{
  list-owned, runs_for_job-owned, status_of_job-owned, events_for_run-owned,
}
use go_chatgpt_tasks.Task.Service.Create.{CreateInput, create}
use go_chatgpt_tasks.Mcp.{
  Codec, Answer, decode_args, shown, scheduled_time, parent_of, task_create, task_list, task_status,
  task_cancel, task_runs, run_id_from_args, task_events, Tool, create_tool, list_tool, status_tool,
  cancel_tool, runs_tool, events_tool, call_tool,
}

module _ (P : Tables → Type 0) where
  -- What leaves the tables as they are.
  reads-Keeps : {A : Type 0} (m : M A) → ((w : World) → (m w).1.tables ≡ w.tables) → Keeps P m Any
  reads-Keeps m same = record { apply = λ w h. (subst P (sym (same w)) h, Any-On (m w).0) }

  decode_args-Keeps :
      {A : Type 0} (f : Text → Result A) (raw : Text) → Keeps P (decode_args f raw) Any
  unfolding decode_args
  decode_args-Keeps {A} f raw = keeps_context P _ _ (lifted _)
    where
      lifted : (r : Result A) → Keeps P (lift_result r) Any
      lifted (ok a) = keeps_pure P _ tt
      lifted (err e) = keeps_fail P _

  parse_id-Keeps : (s : Text) → Keeps P (parse_id s) Any
  unfolding parse_id
  parse_id-Keeps s = record { apply = λ w h. (h, Any-On _) }

  shown_after-Keeps :
      {A : Type 0} (m : M A) (f : (Uuid → Text) → A → Answer)
      → Keeps P m Any
      → Keeps P (m >>= shown f) Any
  shown_after-Keeps m f k = keeps_bind P m (shown f) k (λ a _. record { apply = λ w h. (h, tt) })

module _ (c : Codec) (load_location : Text → Option Zone) (svc : Service) (ident : Identity)
    (P : Tables → Type 0) where
  scheduled_time-Keeps : (s : Text) → Keeps P (scheduled_time c load_location svc ident s) Any
  scheduled_time-Keeps s = elim (Bool-cases (is_empty s)) [
    | inl e ↦ rw e (keeps_pure P _ tt)
    | inr e ↦ rw e (keeps_context P _ _ (parsed _))
  ]
    where
      parsed : (r : Result Time) → Keeps P (lift_result r) Any
      parsed (ok a) = keeps_pure P _ tt
      parsed (err e) = keeps_fail P _

  parent_of-Keeps : (s : Text) → Keeps P (parent_of c load_location svc ident s) Any
  parent_of-Keeps s = elim (Bool-cases (is_empty s)) [
    | inl e ↦ rw e (keeps_pure P _ tt)
    | inr e ↦ rw e (
        keeps_bind P _ (λ id. pure (some id)) (keeps_context P _ _ (parse_id-Keeps P s))
          λ id _. keeps_pure P _ tt)
  ]

  -- A tool keeps a property of the tables that Create and Cancel keep.
  pub call_tool-Keeps :
      ((x : CreateInput) → Keeps P (create load_location svc ident x) Any)
      → ((id : Uuid) → Keeps P (cancel_job ident id) Any)
      → (tool : Tool) (raw : Text) → Keeps P (call_tool c load_location svc ident tool raw) Any
  unfolding call_tool task_create task_list task_status task_cancel task_runs task_events
      run_id_from_args
  call_tool-Keeps creates cancels create_tool raw =
      keeps_bind P _ _ (decode_args-Keeps P _ raw) λ args _.
        keeps_bind P _ _ (scheduled_time-Keeps args.scheduled_at) λ at _.
          keeps_bind P _ _ (parent_of-Keeps args.parent_job_id)
            λ parent _. shown_after-Keeps P _ _ (creates _)
  call_tool-Keeps creates cancels list_tool raw =
      keeps_bind P _ _ (decode_args-Keeps P c.list_args raw)
        λ args _. shown_after-Keeps P _ _ (reads-Keeps P _ (λ w. (list-owned ident _ w).0))
  call_tool-Keeps creates cancels status_tool raw =
      keeps_bind P _ _ (decode_args-Keeps P c.job_ref raw) λ args _.
        keeps_bind P _ _ (parse_id-Keeps P args.job_id) λ id _.
          shown_after-Keeps P _ _ (reads-Keeps P _ (λ w. (status_of_job-owned ident id w).0))
  call_tool-Keeps creates cancels cancel_tool raw =
      keeps_bind P _ _ (decode_args-Keeps P c.run_ref raw) λ args _.
        keeps_bind P _ _ (parse_id-Keeps P args.job_id) λ id _. shown_after-Keeps P _ _ (cancels id)
  call_tool-Keeps creates cancels runs_tool raw =
      keeps_bind P _ _ (decode_args-Keeps P c.job_ref raw) λ ref _.
        keeps_bind P _ _ (keeps_context P _ _ (parse_id-Keeps P ref.job_id)) λ id _.
          shown_after-Keeps P _ _ (reads-Keeps P _ (λ w. (runs_for_job-owned ident id _ w).0))
  call_tool-Keeps creates cancels events_tool raw =
      keeps_bind P _ _
        (keeps_bind P _ _ (decode_args-Keeps P c.run_ref raw)
          λ ref _. keeps_context P _ _ (parse_id-Keeps P ref.job_id))
        λ id _. shown_after-Keeps P _ _ (reads-Keeps P _ (λ w. (events_for_run-owned ident id w).0))
