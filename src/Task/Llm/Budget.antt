-- ===== src/Task/Llm/Budget.antt =====
-- internal/task/executor.go, LLMExecutor: the cost of its attempts against the reservation.
use go_chatgpt_tasks.Base.{
  ℕ, zero, suc, ◌+◌, ◌*◌, ◌/◌, ◌^◌, ◌<◌, ◌≤◌, ◌≡◌, [], refl, sym, subst, ◌∙◌, inl, inr, List,
  Option, none, some, Bool-cases, arith,
}
use go_chatgpt_tasks.Base.Int.{
  ℤ, pos, negsuc, pos_part, neg_part, sub_ℕ, ◌+ℤ◌, ◌*ℤ◌, ◌≤ℤ◌, leb_ℤ, +ℤ_parts, wrap_int64,
  wrap_int64-id, wrap_int32-id,
}
use go_chatgpt_tasks.Task.Domain.{Uuid, JobRun}
use go_chatgpt_tasks.Sql.Tables.{Tables, QuotaRow, CostRow}
use go_chatgpt_tasks.Sql.Tables.Laws.{All-update_where}
use go_chatgpt_tasks.Sql.Records.{get_tenant_quota, of_day, add_cost, adjust_daily_llm_cost}
use go_chatgpt_tasks.Task.Effect.{World}
use go_chatgpt_tasks.Task.Effect.Keeps.{
  Any, On, Keeps, keeps_pure, keeps_bind, keeps_context, keeps_now, keeps_statement,
}
use go_chatgpt_tasks.Task.Quotas.{
  quota_of_row, reserved, reserve_daily_cost, adjust_daily_cost, adjust_on, adjusted,
}
use go_chatgpt_tasks.Task.Quotas.Daily.{
  CostsWithin, WithinLimit, update-CostsApart, reserved-within,
}
use go_chatgpt_tasks.Task.Llm.Execute.{
  LlmRequest, LlmResponse, LlmPolicy, Completion, LlmExecutor, call_client, estimate_cost_cents,
  attempts_of, estimated_of, minus, execute_llm,
}
use go_chatgpt_tasks.Task.Llm.Calls.{CallLaws, request_of, execute_llm-Keeps}
use go_chatgpt_tasks.Task.Llm.Leaves.{LeavesTables}

-- The estimate of numbers of tokens that do not wrap.
estimate-of_tokens :
    (m n : ℕ) → m + n < 2 ^ 62 → estimate_cost_cents (pos m) (pos n) ≡ pos ((m + n + 999) / 1000)
unfolding estimate_cost_cents ◌+ℤ◌
estimate-of_tokens m n h =
    rw
      (
        sum m n,
        wrap_int64-id (pos (m + n)) (omega arith) (omega arith),
        wrap_int64-id (pos (m + n + 999)) (omega arith) (omega arith),
      )
      (ground arith)
  where
    sum : (m n : ℕ) → pos m +ℤ pos n ≡ pos (m + n)
    sum m n = ground arith

-- Numbers of tokens that are not negative.
abbrev Tokens : ℤ → Type 0
Tokens n = pos 0 ≤ℤ n

Tokens-eq : (n : ℤ) → Tokens n → n ≡ pos (pos_part n)
Tokens-eq (pos n) h = refl
Tokens-eq (negsuc n) h = ground arith

estimate-eq :
    (a b : ℤ)
    → Tokens a
    → Tokens b
    → pos_part a + pos_part b < 2 ^ 62
    → estimate_cost_cents a b ≡ pos ((pos_part a + pos_part b + 999) / 1000)
estimate-eq (pos m) (pos n) h k l = estimate-of_tokens m n l
estimate-eq (pos m) (negsuc n) h k l = absurd (omega (arith, k))
estimate-eq (negsuc m) b h k l = absurd (omega (arith, h))

parts-le : (a b : ℤ) → Tokens a → a ≤ℤ b → pos_part a ≤ pos_part b
parts-le (pos m) (pos n) h k = omega arith
parts-le (pos m) (negsuc n) h k = omega arith
parts-le (negsuc m) b h k = omega arith

-- The sum of costs that does not wrap.
add-costs : (c e : ℕ) → c + e < 2 ^ 31 → wrap_int64 (pos c +ℤ pos e) ≡ pos (c + e)
unfolding ◌+ℤ◌
add-costs c e h = rw (sum c e) (wrap_int64-id (pos (c + e)) (omega arith) (omega arith))
  where
    sum : (c e : ℕ) → pos c +ℤ pos e ≡ pos (c + e)
    sum c e = ground arith

mul-costs : (c e : ℕ) → c * e < 2 ^ 31 → wrap_int64 (pos c *ℤ pos e) ≡ pos (c * e)
unfolding ◌*ℤ◌
mul-costs c e h = rw (times c e) (wrap_int64-id (pos (c * e)) (omega (arith, h)) (omega arith))
  where
    times : (c e : ℕ) → pos c *ℤ pos e ≡ pos (c * e)
    times c e = ground arith

-- What is given back of a reservation.
abbrev Refund : ℤ → Type 0
Refund d = (d ≤ℤ pos 0) × (neg_part d ≤ 2 ^ 31)

Refund-lt : (d : ℤ) → Refund d → pos_part d < 2 ^ 31
Refund-lt (pos n) r = omega (arith, r)
Refund-lt (negsuc n) r = omega arith

minus-Refund : (c e : ℕ) → c ≤ e → e < 2 ^ 31 → Refund (minus (pos c) (pos e))
minus-Refund c e h k =
    subst Refund (sym (wrap_int64-id (sub_ℕ (c + 0) (0 + e)) (ground arith) (ground arith)))
      (ground arith, ground arith)

mul-suc : (e n : ℕ) → e * suc n ≡ e * n + e
mul-suc e n = grind arith

-- Whatever the client answers, it uses no more tokens than it is asked to, and not less than none.
abbrev Sparing : LlmRequest → LlmResponse → Type 0
Sparing q r =
    ((pos 0 ≤ℤ r.input_tokens) × (r.input_tokens ≤ℤ q.max_input_tokens))
    × ((pos 0 ≤ℤ r.output_tokens) × (r.output_tokens ≤ℤ q.max_output_tokens))

abbrev pub WithinTokens : LlmExecutor → Type 0
WithinTokens k =
    (timeout : ℤ) (q : LlmRequest) (w : World)
    → Tokens q.max_input_tokens
    → Tokens q.max_output_tokens
    → On (Sparing q) (k.client timeout q w).0.reply

-- The numbers of a policy are not negative, and its estimate, for all attempts, is an int32.
pub record InRange (p : LlmPolicy) : Type 0 where
  pub input : pos 0 ≤ℤ p.max_input_tokens
  pub output : pos 0 ≤ℤ p.max_output_tokens
  pub tokens : pos_part p.max_input_tokens + pos_part p.max_output_tokens < 2 ^ 62
  pub estimate :
      (pos_part p.max_input_tokens + pos_part p.max_output_tokens + 999) / 1000 * attempts_of p
      < 2 ^ 31

-- A limit that is an int32.
abbrev pub IsInt32 : ℤ → Type 0
IsInt32 n = (pos_part n < 2 ^ 31) × (neg_part n ≤ 2 ^ 31)

module _ (tenant : Uuid) (limit : ℤ) where
  lowered :
      (c : CostRow) (delta : ℤ)
      → delta ≤ℤ pos 0
      → WithinLimit tenant limit c
      → WithinLimit tenant limit (add_cost delta c)
  lowered c delta d h same = let l = h same in ground (arith, +ℤ_parts c.cost_cents delta)

  adjust-CostsWithin :
      (day : ℕ) (delta : ℤ) (t : Tables)
      → delta ≤ℤ pos 0
      → CostsWithin tenant limit t
      → CostsWithin tenant limit (adjusted delta tenant day t)
  unfolding adjust_daily_llm_cost
  adjust-CostsWithin day delta t d h = (
    update-CostsApart tenant day delta t.tenant_llm_daily_cost h.0,
    All-update_where (WithinLimit tenant limit) (of_day tenant day) (add_cost delta)
        t.tenant_llm_daily_cost (λ c e g. lowered c delta d g) h.1,
  )

module _ (k : LlmExecutor) (tenant : Uuid) (quotas : List QuotaRow) where
  -- The tenant's limit as it stands in the table of quotas, or by default.
  abbrev pub limit_of : ℤ
  limit_of = (quota_of_row k.quota (get_tenant_quota tenant quotas)).max_daily_llm_cost_cents

  abbrev Budgeted : Tables → Type 0
  Budgeted t = CostsWithin tenant limit_of t × (t.tenant_quotas ≡ quotas)

  reserved-quotas :
      (t : Tables) (o : Option (List CostRow)) → (reserved t o).1.tenant_quotas ≡ t.tenant_quotas
  reserved-quotas t none = refl
  reserved-quotas t (some costs) = refl

  reserve-Keeps :
      (c : ℤ)
      → IsInt32 c
      → IsInt32 limit_of
      → Keeps Budgeted (reserve_daily_cost tenant c limit_of) Any
  unfolding reserve_daily_cost
  reserve-Keeps c ic il =
      rw (wrap_int32-id c ic.0 ic.1, wrap_int32-id limit_of il.0 il.1)
        (elim (Bool-cases (leb_ℤ c limit_of)) [
          | inl l ↦ rw l (
              keeps_bind Budgeted _ _ (keeps_now Budgeted) λ now _. keeps_context Budgeted _ _ (
                keeps_statement Budgeted _ λ t h.
                  ((reserved-within tenant limit_of _ c t l h.0, reserved-quotas t _ ∙ h.1), tt)))
          | inr l ↦ rw l (keeps_pure Budgeted _ tt)
        ])

  adjust_on-Keeps : (delta : ℤ) → Refund delta → Keeps Budgeted (adjust_on tenant delta) Any
  adjust_on-Keeps delta d = rw (wrap_int32-id delta (Refund-lt delta d) d.1) (
      keeps_bind Budgeted _ _ (keeps_now Budgeted) λ now _. keeps_context Budgeted _ _ (
        keeps_statement Budgeted _
          λ t h. ((adjust-CostsWithin tenant limit_of _ delta t d.0 h.0, h.1), tt)))

  adjust-Keeps : (delta : ℤ) → Refund delta → Keeps Budgeted (adjust_daily_cost tenant delta) Any
  unfolding adjust_daily_cost
  adjust-Keeps (pos zero) d = keeps_pure Budgeted _ tt
  adjust-Keeps (pos (suc n)) d = adjust_on-Keeps _ d
  adjust-Keeps (negsuc n) d = adjust_on-Keeps _ d

  client-Keeps :
      LeavesTables k
      → WithinTokens k
      → (q : LlmRequest) → Tokens q.max_input_tokens
      → Tokens q.max_output_tokens
      → Keeps Budgeted (call_client k q) (λ (c : Completion). On (Sparing q) c.reply)
  unfolding call_client
  client-Keeps leaves tokens q i o = record {
    apply = λ w h. (rw (leaves _ q w) h, tokens _ q w i o);
  }

  module _ (range : InRange k.policy) where
    -- The most that an attempt costs.
    abbrev most : ℕ
    most = (pos_part k.policy.max_input_tokens + pos_part k.policy.max_output_tokens + 999) / 1000

    estimated-eq : estimated_of k.policy ≡ pos (most * attempts_of k.policy)
    unfolding estimated_of
    estimated-eq =
        rw
          (estimate-eq k.policy.max_input_tokens k.policy.max_output_tokens range.input range.output
            range.tokens)
          (mul-costs most (attempts_of k.policy) range.estimate)

    -- What has been spent, and what the attempts that are left may cost.
    abbrev Spending : ℕ → ℤ → Type 0
    Spending n cost = (c : ℕ) × ((cost ≡ pos c) × (c + most * n ≤ most * attempts_of k.policy))

    answers-Spending :
        (n : ℕ) (cost : ℤ) (r : LlmResponse)
        → Spending (suc n) cost
        → Sparing (request_of k.policy []) r
        → Spending n (wrap_int64 (cost +ℤ estimate_cost_cents r.input_tokens r.output_tokens))
    answers-Spending n cost r (c, (e, i)) ((i0, i1), (o0, o1)) =
        let x = pos_part r.input_tokens + pos_part r.output_tokens in
        let few : x ≤ pos_part k.policy.max_input_tokens + pos_part k.policy.max_output_tokens =
          omega (
            arith,
            parts-le r.input_tokens k.policy.max_input_tokens i0 i1,
            parts-le r.output_tokens k.policy.max_output_tokens o0 o1,
          ) in
        let room : c + (x + 999) / 1000 + most * n ≤ most * attempts_of k.policy =
          omega (arith, i, few, mul-suc most n) in
        (
          c + (x + 999) / 1000,
          (
            rw
                (
                  e,
                  estimate-eq r.input_tokens r.output_tokens i0 o0
                      (omega (arith, few, range.tokens)),
                )
                (add-costs c ((x + 999) / 1000) (omega (arith, room, range.estimate))),
            room,
          ),
        )

    ends-Refund : (n : ℕ) (cost : ℤ) → Spending n cost → Refund (minus cost (estimated_of k.policy))
    ends-Refund n cost (c, (e, i)) =
        subst (λ x. Refund (minus cost x)) (sym estimated-eq)
          (subst (λ x. Refund (minus x (pos (most * attempts_of k.policy)))) (sym e)
            (minus-Refund c (most * attempts_of k.policy) (omega (arith, i)) range.estimate))

    laws : IsInt32 limit_of → LeavesTables k → WithinTokens k → CallLaws k Budgeted tenant
    laws fits leaves tokens = record {
      Answer = Sparing (request_of k.policy []);
      Inv = Spending;
      Fits = λ l. l ≡ limit_of;
      Delta = Refund;
      free = λ t es h. h;
      calls = λ prompt. client-Keeps leaves tokens _ range.input range.output;
      starts = (0, (refl, omega arith));
      fails = λ n cost i. (i.0, (i.1.0, omega (arith, i.1.1, mul-suc most n)));
      answers = answers-Spending;
      ends = ends-Refund;
      limits = λ t h. rw (h.1) refl;
      reserves = λ l f. rw f (
          reserve-Keeps (estimated_of k.policy)
            (subst IsInt32 (sym estimated-eq) (range.estimate, omega arith)) fits);
      adjusts = adjust-Keeps;
    }

-- If the client leaves the database alone and uses no more tokens than it is asked to and not less
-- than none, the policy's limits of tokens are not negative, its estimate for all attempts and the
-- tenant's limit are 32-bit integers, and no day of the tenant is over its daily cost limit before,
-- then none is afterwards, whatever calls fail.
pub execute_llm-CostsWithin :
    (k : LlmExecutor) (r : JobRun) (w : World)
    → LeavesTables k
    → WithinTokens k
    → InRange k.policy
    → IsInt32 (limit_of k r.tenant_id w.tables.tenant_quotas)
    → CostsWithin r.tenant_id (limit_of k r.tenant_id w.tables.tenant_quotas) w.tables
    → CostsWithin r.tenant_id
        (limit_of k r.tenant_id w.tables.tenant_quotas)
        (execute_llm k r w).1.tables
unfolding laws
execute_llm-CostsWithin k r w leaves tokens range fits h =
    ((execute_llm-Keeps k _ r.tenant_id
        (laws k r.tenant_id w.tables.tenant_quotas range fits leaves tokens) r refl).apply
      w (h, refl)).0.0
