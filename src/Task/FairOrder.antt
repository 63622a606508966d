-- ===== src/Task/FairOrder.antt =====
-- internal/task/worker.go, fairOrder: the messages of one read, taken from the tenants in turn. The
-- map from a tenant to its messages is an association list, and `order` the tenants as they appear.
mod Queues
pub mod Rounds
pub mod Order
use go_chatgpt_tasks.Base.{
  ℕ, zero, suc, Bool, true, false, if◌then◌else◌, ltb, List, [], ◌∷◌, ◌++◌, Option, none, some,
  Text, text_eq, length,
}
use go_chatgpt_tasks.Task.Worker.{QueuedMessage}

-- byTenant[t]: the messages of a tenant, none if the key is missing.
unfoldable pub queue_of : Text → List (Text × List QueuedMessage) → List QueuedMessage
queue_of t [] = []
queue_of t ((u, q) ∷ m) = if text_eq u t then q else queue_of t m

-- byTenant[t] = q.
unfoldable pub put_queue :
    Text → List QueuedMessage → List (Text × List QueuedMessage) → List (Text × List QueuedMessage)
put_queue t q [] = (t, q) ∷ []
put_queue t q ((u, p) ∷ m) = if text_eq u t then (u, q) ∷ m else (u, p) ∷ put_queue t q m

abbrev has_queue : Text → List (Text × List QueuedMessage) → Bool
has_queue t [] = false
has_queue t ((u, q) ∷ m) = if text_eq u t then true else has_queue t m

-- The first loop: the queues, and the tenants in the order of their first messages.
unfoldable pub group :
    List QueuedMessage
    → List (Text × List QueuedMessage)
    → List Text
    → List (Text × List QueuedMessage) × List Text
group [] by_tenant order = (by_tenant, order)
group (m ∷ ms) by_tenant order =
    let t = m.msg.tenant_id in
    group ms (put_queue t (queue_of t by_tenant ++ m ∷ []) by_tenant)
      (if has_queue t by_tenant then order else order ++ t ∷ [])

abbrev take_one :
    Text
    → List QueuedMessage
    → List (Text × List QueuedMessage)
    → List QueuedMessage
    → List (Text × List QueuedMessage) × List QueuedMessage
take_one t [] by_tenant out = (by_tenant, out)
take_one t (m ∷ rest) by_tenant out = (put_queue t rest by_tenant, out ++ m ∷ [])

-- One pass of the inner loop: at most one message of each tenant.
unfoldable pub round :
    List Text
    → List (Text × List QueuedMessage)
    → List QueuedMessage
    → List (Text × List QueuedMessage) × List QueuedMessage
round [] by_tenant out = (by_tenant, out)
round (t ∷ ts) by_tenant out =
    let (by_tenant', out') = take_one t (queue_of t by_tenant) by_tenant out in
    round ts by_tenant' out'

-- `for len(out) < len(msgs)`: `none` when the fuel runs out.
unfoldable pub rounds :
    ℕ
    → List Text
    → ℕ
    → List (Text × List QueuedMessage)
    → List QueuedMessage
    → Option (List QueuedMessage)
rounds zero order n by_tenant out = none
rounds (suc f) order n by_tenant out =
    let (by_tenant', out') = round order by_tenant out in
    let rest = rounds f order n by_tenant' out' in if ltb (length out) n then rest else some out

-- The fuel is for one round more than there are messages.
unfoldable pub fair_order : List QueuedMessage → Option (List QueuedMessage)
fair_order msgs =
    let (by_tenant, order) = group msgs [] [] in
    rounds (suc (length msgs)) order (length msgs) by_tenant []
