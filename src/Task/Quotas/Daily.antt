-- ===== src/Task/Quotas/Daily.antt =====
-- internal/task/repo_quota_postgres.go: reservations and the daily cost limit.
use go_chatgpt_tasks.Base.{
  ℕ, ◌≡◌, refl, inl, inr, true, false, List, [], ◌∷◌, ◌++◌, Option, none, some, All, Bool-cases,
  arith,
}
use go_chatgpt_tasks.Base.Int.{ℤ, ◌+ℤ◌, leb_ℤ}
use go_chatgpt_tasks.Task.Domain.{Uuid}
use go_chatgpt_tasks.Sql.Tables.{Tables, CostRow, update_where}
use go_chatgpt_tasks.Sql.Tables.Laws.{All-append}
use go_chatgpt_tasks.Sql.Records.{of_day, add_cost, cost_of_day, reserve_on, reserve_daily_llm_cost}
use go_chatgpt_tasks.Task.Quotas.{reserved}

-- The primary key of tenant_llm_daily_cost: one row for a tenant and a day.
abbrev pub CostsApart : List CostRow → Type 0
CostsApart [] = Unit
CostsApart (c ∷ cs) = (cost_of_day c.tenant_id c.cost_date cs ≡ none) × CostsApart cs

update-none :
    (tenant : Uuid) (day : ℕ) (cents : ℤ) (costs : List CostRow)
    → cost_of_day tenant day costs ≡ none
    → update_where (of_day tenant day) (add_cost cents) costs ≡ costs
unfolding cost_of_day
update-none tenant day cents [] e = refl
update-none tenant day cents (c ∷ cs) e = ground (arith, update-none tenant day cents cs)

cost_of_day-update :
    (tenant u : Uuid) (day d : ℕ) (cents : ℤ) (costs : List CostRow)
    → cost_of_day u d costs ≡ none
    → cost_of_day u d (update_where (of_day tenant day) (add_cost cents) costs) ≡ none
unfolding cost_of_day
cost_of_day-update tenant u day d cents [] e = refl
cost_of_day-update tenant u day d cents (c ∷ cs) e =
    ground (arith, cost_of_day-update tenant u day d cents cs)

cost_of_day-append :
    (tenant : Uuid) (day : ℕ) (c : CostRow) (costs : List CostRow)
    → cost_of_day tenant day costs ≡ none
    → of_day tenant day c ≡ false
    → cost_of_day tenant day (costs ++ c ∷ []) ≡ none
unfolding cost_of_day
cost_of_day-append tenant day c [] e f = ground arith
cost_of_day-append tenant day c (x ∷ xs) e f = ground (arith, cost_of_day-append tenant day c xs)

pub update-CostsApart :
    (tenant : Uuid) (day : ℕ) (cents : ℤ) (costs : List CostRow)
    → CostsApart costs
    → CostsApart (update_where (of_day tenant day) (add_cost cents) costs)
update-CostsApart tenant day cents [] h = tt
update-CostsApart tenant day cents (c ∷ cs) h = elim (Bool-cases (of_day tenant day c)) [
  | inl e ↦ rw e (
    cost_of_day-update tenant c.tenant_id day c.cost_date cents cs h.0,
    update-CostsApart tenant day cents cs h.1,
  )
  | inr e ↦ rw e (
    cost_of_day-update tenant c.tenant_id day c.cost_date cents cs h.0,
    update-CostsApart tenant day cents cs h.1,
  )
]

append-CostsApart :
    (c : CostRow) (costs : List CostRow)
    → cost_of_day c.tenant_id c.cost_date costs ≡ none
    → CostsApart costs
    → CostsApart (costs ++ c ∷ [])
unfolding cost_of_day
append-CostsApart c [] e h = (refl, tt)
append-CostsApart c (x ∷ xs) e h = (
  cost_of_day-append x.tenant_id x.cost_date c xs h.0 (ground arith),
  append-CostsApart c xs (ground arith) h.1,
)

module _ (tenant : Uuid) (limit : ℤ) where
  -- The stored totals of a tenant are within a limit.
  abbrev pub WithinLimit : CostRow → Type 0
  WithinLimit c = c.tenant_id ≡ tenant → leb_ℤ c.cost_cents limit ≡ true

  abbrev pub CostsWithin : Tables → Type 0
  CostsWithin t = CostsApart t.tenant_llm_daily_cost × All WithinLimit t.tenant_llm_daily_cost

  first-within :
      (day : ℕ) (cents total : ℤ) (c : CostRow) (cs : List CostRow)
      → of_day tenant day c ≡ true
      → cost_of_day tenant day (c ∷ cs) ≡ some total
      → leb_ℤ (total +ℤ cents) limit ≡ true
      → leb_ℤ (c.cost_cents +ℤ cents) limit ≡ true
  unfolding cost_of_day
  first-within day cents total c cs m e l = ground arith

  rest-none :
      (day : ℕ) (c : CostRow) (cs : List CostRow)
      → of_day tenant day c ≡ true
      → cost_of_day c.tenant_id c.cost_date cs ≡ none
      → cost_of_day tenant day cs ≡ none
  rest-none day c cs m e = ground arith

  update-within :
      (day : ℕ) (cents total : ℤ) (costs : List CostRow)
      → cost_of_day tenant day costs ≡ some total
      → leb_ℤ (total +ℤ cents) limit ≡ true
      → CostsApart costs
      → All WithinLimit costs
      → All WithinLimit (update_where (of_day tenant day) (add_cost cents) costs)
  unfolding cost_of_day
  update-within day cents total [] e l a h = tt
  update-within day cents total (c ∷ cs) e l a h = elim (Bool-cases (of_day tenant day c)) [
    | inl m ↦ rw m (
      (λ same. first-within day cents total c cs m e l),
      rw (update-none tenant day cents cs (rest-none day c cs m a.0)) h.1,
    )
    | inr m ↦ rw m (h.0, update-within day cents total cs (ground arith) l a.1 h.1)
  ]

  reserve_on-within :
      (day : ℕ) (cents : ℤ) (t : Tables) (stored : Option ℤ)
      → cost_of_day tenant day t.tenant_llm_daily_cost ≡ stored
      → leb_ℤ cents limit ≡ true
      → CostsWithin t
      → CostsWithin
          (reserved t (reserve_on tenant day cents limit t.tenant_llm_daily_cost stored)).1
  reserve_on-within day cents t none e l h = (
    append-CostsApart _ t.tenant_llm_daily_cost e h.0,
    All-append WithinLimit t.tenant_llm_daily_cost _ h.1 ((λ _. l), tt),
  )
  reserve_on-within day cents t (some total) e l h =
      elim (Bool-cases (leb_ℤ (total +ℤ cents) limit)) [
        | inl m ↦ rw m (
          update-CostsApart tenant day cents t.tenant_llm_daily_cost h.0,
          update-within day cents total t.tenant_llm_daily_cost e m h.0 h.1,
        )
        | inr m ↦ rw m h
      ]

  pub reserved-within :
      (day : ℕ) (cents : ℤ) (t : Tables)
      → leb_ℤ cents limit ≡ true
      → CostsWithin t
      → CostsWithin
          (reserved t (reserve_daily_llm_cost tenant day cents limit t.tenant_llm_daily_cost)).1
  unfolding reserve_daily_llm_cost
  reserved-within day cents t l h = reserve_on-within day cents t _ refl l h
