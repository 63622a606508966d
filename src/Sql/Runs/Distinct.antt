-- ===== src/Sql/Runs/Distinct.antt =====
-- Rows with distinct identifiers, and what a claim does to the number of running runs.
use go_chatgpt_tasks.Base.{
  ◌≤◌, ◌≡◌, refl, ◌∙◌, ◌≢◌, inl, inr, Bool, true, false, ◌==◌, List, [], ◌∷◌, ◌++◌, some, All,
  count, arith, Bool-cases,
}
use go_chatgpt_tasks.Base.Int.{ℤ, pos, pos_part, ltb_ℤ}
use go_chatgpt_tasks.Clock.{Time}
use go_chatgpt_tasks.Task.Domain.{Uuid}
use go_chatgpt_tasks.Task.Rows.{JobRunRow}
use go_chatgpt_tasks.Sql.Tables.{update_where, find_where, exists_where}
use go_chatgpt_tasks.Sql.Tables.Laws.{count-update_where_touched}
use go_chatgpt_tasks.Sql.Runs.{has_id, startable_id, mark_row, runs_of, count_running}

abbrev pub Distinct : List JobRunRow → Type 0
Distinct [] = Unit
Distinct (r ∷ rs) = (exists_where (has_id r.id) rs ≡ false) × Distinct rs

pub exists-update :
    (id : Uuid) (p : JobRunRow → Bool) (f : JobRunRow → JobRunRow) (rs : List JobRunRow)
    → ((x : JobRunRow) → (f x).id ≡ x.id)
    → exists_where (has_id id) (update_where p f rs) ≡ exists_where (has_id id) rs
exists-update id p f [] same = refl
exists-update id p f (x ∷ rs) same = ground (arith, same x, exists-update id p f rs same)

pub Distinct-update :
    (p : JobRunRow → Bool) (f : JobRunRow → JobRunRow) (rs : List JobRunRow)
    → ((x : JobRunRow) → (f x).id ≡ x.id)
    → Distinct rs
    → Distinct (update_where p f rs)
Distinct-update p f [] same d = tt
Distinct-update p f (x ∷ rs) same d =
    let rest = Distinct-update p f rs same d.1 in
    elim (Bool-cases (p x)) [
      | inl e ↦ rw e (rw (same x) (exists-update x.id p f rs same ∙ d.0), rest)
      | inr e ↦ rw e (exists-update x.id p f rs same ∙ d.0, rest)
    ]

pub Distinct-append :
    (rs : List JobRunRow) (row : JobRunRow)
    → Distinct rs
    → exists_where (has_id row.id) rs ≡ false
    → Distinct (rs ++ row ∷ [])
Distinct-append [] row d e = (refl, tt)
Distinct-append (x ∷ rs) row d e =
    (exists-append x.id rs (ground arith) d.0, Distinct-append rs row d.1 (ground arith))
  where
    exists-append :
        (id : Uuid) (ys : List JobRunRow)
        → row.id ≢ id
        → exists_where (has_id id) ys ≡ false
        → exists_where (has_id id) (ys ++ row ∷ []) ≡ false
    exists-append id [] apart e = ground arith
    exists-append id (y ∷ ys) apart e = ground (arith, exists-append id ys apart)

-- At most one row is started by a claim.
count-startable_none :
    (id : Uuid) (rs : List JobRunRow)
    → exists_where (has_id id) rs ≡ false
    → count (startable_id id) rs ≡ 0
count-startable_none id [] e = refl
count-startable_none id (x ∷ rs) e = ground (arith, count-startable_none id rs)

pub count-startable :
    (id : Uuid) (rs : List JobRunRow) → Distinct rs → count (startable_id id) rs ≤ 1
count-startable id [] d = omega arith
count-startable id (x ∷ rs) d =
    ground (arith, count-startable id rs d.1, count-startable_none id rs)

-- All rows of an identifier belong to one tenant.
abbrev pub OwnedBy : Uuid → Uuid → List JobRunRow → Type 0
OwnedBy id tenant = All (λ (x : JobRunRow). x.id ≡ id → x.tenant_id ≡ tenant)

owned_none :
    (id tenant : Uuid) (rs : List JobRunRow)
    → exists_where (has_id id) rs ≡ false
    → OwnedBy id tenant rs
owned_none id tenant [] e = tt
owned_none id tenant (x ∷ rs) e = (λ same. ground arith, owned_none id tenant rs (ground arith))

pub OwnedBy-found :
    (id : Uuid) (rs : List JobRunRow) (row : JobRunRow)
    → Distinct rs
    → find_where (has_id id) rs ≡ some row
    → OwnedBy id row.tenant_id rs
OwnedBy-found id [] row d e = tt
OwnedBy-found id (x ∷ rs) row d e = elim (Bool-cases (x.id == id)) [
  | inl hit ↦ (λ same. ground arith, owned_none id row.tenant_id rs (ground arith))
  | inr miss ↦ (λ same. ground arith, OwnedBy-found id rs row d.1 (ground arith))
]

-- A claim for a run of another tenant starts no run of this one.
pub count-claim_other :
    (tenant owner id : Uuid) (s u : Time) (rs : List JobRunRow)
    → owner ≢ tenant
    → OwnedBy id owner rs
    → count_running tenant (update_where (startable_id id) (mark_row s u) rs)
      ≤ count_running tenant rs
count-claim_other tenant owner id s u [] apart o = omega arith
count-claim_other tenant owner id s u (x ∷ rs) apart o =
    ground (arith, o.0, count-claim_other tenant owner id s u rs apart o.1)

-- A claim whose snapshot is the table keeps the running runs of a tenant within the limit.
pub count-claim :
    (tenant id : Uuid) (s u : Time) (limit : ℤ) (rs : List JobRunRow)
    → Distinct rs
    → ltb_ℤ (pos (count_running tenant rs)) limit ≡ true
    → count_running tenant (update_where (startable_id id) (mark_row s u) rs) ≤ pos_part limit
count-claim tenant id s u limit rs d e = ground (
  arith,
  count-startable id rs d,
  count-update_where_touched (startable_id id) (runs_of tenant) (mark_row s u) rs,
)

pub exists_of_find :
    (id : Uuid) (rs : List JobRunRow) (row : JobRunRow)
    → find_where (has_id id) rs ≡ some row
    → exists_where (has_id id) rs ≡ true
exists_of_find id [] row e = ground arith
exists_of_find id (x ∷ rs) row e = ground (arith, exists_of_find id rs row)

pub exists-append :
    (id : Uuid) (rs ys : List JobRunRow)
    → exists_where (has_id id) rs ≡ true
    → exists_where (has_id id) (rs ++ ys) ≡ true
exists-append id [] ys e = ground arith
exists-append id (x ∷ rs) ys e = ground (arith, exists-append id rs ys)
