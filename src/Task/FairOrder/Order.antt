-- ===== src/Task/FairOrder/Order.antt =====
-- internal/task/worker.go, fairOrder: the grouping of the messages, and the order of the result.
use go_chatgpt_tasks.Base.{
  suc, ◌≡◌, ◌∙◌, refl, sym, ap, subst, inl, inr, Bool, true, ◌||◌, if◌then◌else◌, List, [], ◌∷◌,
  ◌++◌, some, Text, text_eq, text_eq_refl, text_eq→eq, length, select, select-append, length-append,
  All, arith, Bool-cases,
}
use go_chatgpt_tasks.Task.Worker.{QueuedMessage}
use go_chatgpt_tasks.Task.FairOrder.{queue_of, put_queue, has_queue, group, fair_order}
use go_chatgpt_tasks.Task.FairOrder.Queues.{
  Queues, total, Apart, queue_of-put_queue_same, queue_of-put_queue_other, has_queue-put_queue,
  total-put_queue, Apart-put_queue, queue_of-no_total,
}
use go_chatgpt_tasks.Task.FairOrder.Rounds.{of, listed, State, rounds-State}

append_nil : (xs : List QueuedMessage) → xs ++ [] ≡ xs
append_nil [] = refl
append_nil (x ∷ xs) = ap (λ ys. x ∷ ys) (append_nil xs)

append_snoc :
    (xs : List QueuedMessage) (m : QueuedMessage) (zs : List QueuedMessage)
    → (xs ++ m ∷ []) ++ zs ≡ xs ++ m ∷ zs
append_snoc [] m zs = ground arith
append_snoc (x ∷ xs) m zs = ap (λ ws. x ∷ ws) (append_snoc xs m zs)

listed-snoc : (v t : Text) (us : List Text) → listed v (us ++ t ∷ []) ≡ (listed v us || text_eq t v)
listed-snoc v t [] = ground arith
listed-snoc v t (u ∷ us) = ground (arith, listed-snoc v t us)

abbrev order_after : Text → Queues → List Text → List Text
order_after t by_tenant order = if has_queue t by_tenant then order else order ++ t ∷ []

-- A message that joins the end of its tenant's queue.
joined-splits :
    (m : QueuedMessage) (seen : List QueuedMessage) (by_tenant : Queues) (v : Text)
    → ((u : Text) → queue_of u by_tenant ≡ select (of u) seen)
    → queue_of v
        (put_queue m.msg.tenant_id (queue_of m.msg.tenant_id by_tenant ++ m ∷ []) by_tenant)
      ≡ select (of v) (seen ++ m ∷ [])
joined-splits m seen by_tenant v e = elim (Bool-cases (text_eq m.msg.tenant_id v)) [
  | inl same ↦
      rw
        (
          sym (text_eq→eq m.msg.tenant_id v same),
          queue_of-put_queue_same m.msg.tenant_id (queue_of m.msg.tenant_id by_tenant ++ m ∷ [])
              by_tenant,
          select-append (of m.msg.tenant_id) seen (m ∷ []),
          text_eq_refl m.msg.tenant_id,
          e m.msg.tenant_id,
        )
        refl
  | inr other ↦
      rw
        (
          queue_of-put_queue_other m.msg.tenant_id v (queue_of m.msg.tenant_id by_tenant ++ m ∷ [])
              by_tenant other,
          select-append (of v) seen (m ∷ []),
          other,
          append_nil (select (of v) seen),
        )
        (e v)
]

select-All :
    (p : QueuedMessage → Bool) (xs : List QueuedMessage) → All (λ m. p m ≡ true) (select p xs)
select-All p [] = tt
select-All p (x ∷ xs) = elim (Bool-cases (p x)) [
  | inl e ↦ rw e (e, select-All p xs)
  | inr e ↦ rw e (select-All p xs)
]

grouped :
    (seen : List QueuedMessage) (order : List Text) (by_tenant : Queues)
    → ((t : Text) → queue_of t by_tenant ≡ select (of t) seen)
    → total by_tenant ≡ length seen
    → Apart by_tenant
    → ((t : Text) → has_queue t by_tenant ≡ true → listed t order ≡ true)
    → State seen order by_tenant []
grouped seen order by_tenant e n apart lists = record {
  splits = e;
  owns = λ t. rw (e t) (select-All (of t) seen);
  counts = omega (arith, n);
  apart = apart;
  lists = lists;
}

add-State :
    (m : QueuedMessage) (seen : List QueuedMessage) (order : List Text) (by_tenant : Queues)
    → State seen order by_tenant []
    → State
        (seen ++ m ∷ [])
        (order_after m.msg.tenant_id by_tenant order)
        (put_queue m.msg.tenant_id (queue_of m.msg.tenant_id by_tenant ++ m ∷ []) by_tenant)
        []
add-State m seen order by_tenant s =
    let t = m.msg.tenant_id in
    let q = queue_of t by_tenant ++ m ∷ [] in
    grouped _ _ _ (λ v. joined-splits m seen by_tenant v s.splits)
      (omega (
        arith,
        s.counts,
        total-put_queue t q by_tenant,
        length-append seen (m ∷ []),
        length-append (queue_of t by_tenant) (m ∷ []),
      ))
      (Apart-put_queue t q by_tenant s.apart)
      (λ v h. ground (
        arith,
        has_queue-put_queue t v q by_tenant,
        s.lists v,
        listed-snoc v t order,
        text_eq→eq t v,
      ))

group-State :
    (ms seen : List QueuedMessage) (order : List Text) (by_tenant : Queues)
    → State seen order by_tenant []
    → State (seen ++ ms) (group ms by_tenant order).1 (group ms by_tenant order).0 []
unfolding group
group-State [] seen order by_tenant s = rw (append_nil seen) s
group-State (m ∷ ms) seen order by_tenant s =
    subst
      (λ all. State all (group (m ∷ ms) by_tenant order).1 (group (m ∷ ms) by_tenant order).0 [])
      (append_snoc seen m ms) (group-State ms _ _ _ (add-State m seen order by_tenant s))

-- The result is there, has as many messages as came in, and keeps the messages of each tenant in
-- the order in which they came.
pub fair_order-keeps :
    (msgs : List QueuedMessage)
    → (out : List QueuedMessage) × (fair_order msgs ≡ some out)
      × (length out ≡ length msgs)
      × ((t : Text) → select (of t) out ≡ select (of t) msgs)
unfolding fair_order queue_of
fair_order-keeps msgs =
    let (by_tenant, out, e, s, le) =
      rounds-State msgs (group msgs [] []).1 (suc (length msgs)) (group msgs [] []).0 []
        (group-State msgs [] [] [] (grouped [] [] [] (λ t. refl) refl tt (λ t h. ground arith)))
        (omega arith) in
    (
      out,
      e,
      omega (arith, s.counts, le),
      λ t.
          sym (append_nil (select (of t) out))
          ∙ ap (λ q. select (of t) out ++ q)
              (sym (queue_of-no_total t by_tenant (omega (arith, s.counts, le))))
          ∙ s.splits t,
    )
