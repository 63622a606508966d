-- ===== src/Task/Llm/Leaves.antt =====
-- internal/task/executor.go: the tables that LLMExecutor writes.
use go_chatgpt_tasks.Base.{
  zero, suc, ◌≡◌, refl, inl, inr, List, Option, none, some, Text, Bool-cases,
}
use go_chatgpt_tasks.Base.Int.{ℤ, pos, negsuc, leb_ℤ}
use go_chatgpt_tasks.Task.Domain.{Uuid}
use go_chatgpt_tasks.Task.Rows.{JobRunRow}
use go_chatgpt_tasks.Sql.Tables.{Tables, QuotaRow, CostRow}
use go_chatgpt_tasks.Task.Effect.{World}
use go_chatgpt_tasks.Task.Effect.Keeps.{
  Any, Any-On, On, Keeps, keeps_pure, keeps_bind, keeps_context, keeps_now, keeps_statement,
}
use go_chatgpt_tasks.Task.Quotas.{reserved, reserve_daily_cost, adjust_daily_cost, adjust_on}
use go_chatgpt_tasks.Task.Worker.{Worker}
use go_chatgpt_tasks.Task.Worker.Invariants.{LeavesRuns}
use go_chatgpt_tasks.Task.Executor.{execute}
use go_chatgpt_tasks.Task.Executor.Leaves.{execute-LeavesRuns}
use go_chatgpt_tasks.Task.Llm.Execute.{
  LlmRequest, Completion, LlmExecutor, call_client, execute_llm,
}
use go_chatgpt_tasks.Task.Llm.Calls.{CallLaws, execute_llm-Keeps}

-- The client's calls do not touch the database.
abbrev pub LeavesTables : LlmExecutor → Type 0
LeavesTables k =
    (timeout : ℤ) (q : LlmRequest) (w : World) → (k.client timeout q w).1.tables ≡ w.tables

module _ (P : List JobRunRow → List QuotaRow → Type 0) where
  abbrev OfRuns : Tables → Type 0
  OfRuns t = P t.job_runs t.tenant_quotas

  reserved-P : (t : Tables) (o : Option (List CostRow)) → OfRuns t → OfRuns (reserved t o).1
  reserved-P t none h = h
  reserved-P t (some costs) h = h

  reserve-Keeps :
      (tenant : Uuid) (cents limit : ℤ) → Keeps OfRuns (reserve_daily_cost tenant cents limit) Any
  unfolding reserve_daily_cost
  reserve-Keeps tenant cents limit = elim (Bool-cases (leb_ℤ cents limit)) [
    | inl l ↦ rw l (
        keeps_bind OfRuns _ _ (keeps_now OfRuns) λ now _.
          keeps_context OfRuns _ _ (keeps_statement OfRuns _ (λ t h. (reserved-P t _ h, tt))))
    | inr l ↦ rw l (keeps_pure OfRuns _ tt)
  ]

  adjust_on-Keeps : (tenant : Uuid) (delta : ℤ) → Keeps OfRuns (adjust_on tenant delta) Any
  adjust_on-Keeps tenant delta =
      keeps_bind OfRuns _ _ (keeps_now OfRuns)
        λ now _. keeps_context OfRuns _ _ (keeps_statement OfRuns _ (λ t h. (h, tt)))

  adjust-Keeps : (tenant : Uuid) (delta : ℤ) → Keeps OfRuns (adjust_daily_cost tenant delta) Any
  unfolding adjust_daily_cost
  adjust-Keeps tenant (pos zero) = keeps_pure OfRuns _ tt
  adjust-Keeps tenant (pos (suc n)) = adjust_on-Keeps tenant _
  adjust-Keeps tenant (negsuc n) = adjust_on-Keeps tenant _

  client-Keeps :
      (k : LlmExecutor)
      → LeavesTables k
      → (q : LlmRequest) → Keeps OfRuns (call_client k q) (λ (c : Completion). On Any c.reply)
  unfolding call_client
  client-Keeps k leaves q = record {
    apply = λ w h. (
      rw (leaves k.policy.timeout_seconds q w) h,
      Any-On (k.client k.policy.timeout_seconds q w).0.reply,
    );
  }

  laws : (k : LlmExecutor) (tenant : Uuid) → LeavesTables k → CallLaws k OfRuns tenant
  laws k tenant leaves = record {
    Answer = Any;
    Inv = λ n cost. Unit;
    Fits = λ limit. Unit;
    Delta = λ delta. Unit;
    free = λ t es h. h;
    calls = λ prompt. client-Keeps k leaves _;
    starts = tt;
    fails = λ n cost i. tt;
    answers = λ n cost r i a. tt;
    ends = λ n cost i. tt;
    limits = λ t h. tt;
    reserves = λ limit f. reserve-Keeps tenant _ limit;
    adjusts = λ delta d. adjust-Keeps tenant delta;
  }

-- The worker of the program: an LLM executor whose client leaves the database alone, under the
-- idempotent executor, writes no runs and no quotas, whatever calls fail.
pub execute_llm-LeavesRuns :
    (response_hash : Text → Text) (k : Worker) (e : LlmExecutor)
    → LeavesTables e
    → LeavesRuns (record k { exec = execute response_hash (execute_llm e) })
unfolding laws
execute_llm-LeavesRuns response_hash k e leaves =
    execute-LeavesRuns response_hash (record k { exec = execute_llm e })
      λ r w.
        ((execute_llm-Keeps e _ r.tenant_id
            (laws (λ runs quotas. (runs ≡ w.tables.job_runs) × (quotas ≡ w.tables.tenant_quotas)) e
              r.tenant_id leaves)
            r refl).apply
          w (refl, refl)).0
