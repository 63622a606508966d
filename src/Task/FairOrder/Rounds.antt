-- ===== src/Task/FairOrder/Rounds.antt =====
-- internal/task/worker.go, fairOrder: the loop of its rounds.
use go_chatgpt_tasks.Base.{
  ℕ, zero, suc, ◌+◌, ◌≤◌, ◌<◌, ◌≡◌, ◌∙◌, refl, sym, ap, subst, inl, inr, Bool, true, false, ◌||◌,
  if◌then◌else◌, ltb, List, [], ◌∷◌, ◌++◌, some, Text, text_eq, text_eq→eq, length, select,
  length-append, All, arith, Bool-cases,
}
use go_chatgpt_tasks.Task.Worker.{QueuedMessage}
use go_chatgpt_tasks.Task.FairOrder.{queue_of, put_queue, has_queue, take_one, round, rounds}
use go_chatgpt_tasks.Task.FairOrder.Queues.{
  Queues, total, Apart, Waiting, queue_of-put_queue_same, queue_of-put_queue_other,
  has_queue-put_queue, total-put_queue, Apart-put_queue, total-Waiting,
}

-- The messages of a tenant.
abbrev pub of : Text → QueuedMessage → Bool
of t m = text_eq m.msg.tenant_id t

abbrev pub listed : Text → List Text → Bool
listed t [] = false
listed t (u ∷ us) = text_eq u t || listed t us

-- What the loops keep: a tenant's messages are those taken, then those in its queue, as they came.
pub record State (msgs : List QueuedMessage) (order : List Text) (by_tenant : Queues)
    (out : List QueuedMessage) : Type 0 where
  pub splits : (t : Text) → select (of t) out ++ queue_of t by_tenant ≡ select (of t) msgs
  pub owns : (t : Text) → All (λ m. of t m ≡ true) (queue_of t by_tenant)
  pub counts : length out + total by_tenant ≡ length msgs
  pub apart : Apart by_tenant
  pub lists : (t : Text) → has_queue t by_tenant ≡ true → listed t order ≡ true

select-snoc :
    (p : QueuedMessage → Bool) (out : List QueuedMessage) (x : QueuedMessage)
    (q : List QueuedMessage)
    → select p (out ++ x ∷ []) ++ q ≡ select p out ++ (if p x then x ∷ q else q)
select-snoc p [] x q = ground arith
select-snoc p (y ∷ out) x q = ground (arith, select-snoc p out x q)

-- A message that moves from the front of its tenant's queue to the end of `out`.
moved-splits :
    (t v : Text) (x : QueuedMessage) (q : List QueuedMessage) (by_tenant : Queues)
    (out : List QueuedMessage)
    → queue_of t by_tenant ≡ x ∷ q
    → of t x ≡ true
    → select (of v) (out ++ x ∷ []) ++ queue_of v (put_queue t q by_tenant)
      ≡ select (of v) out ++ queue_of v by_tenant
moved-splits t v x q by_tenant out e own = elim (Bool-cases (text_eq t v)) [
  | inl same ↦
      let tv = text_eq→eq t v same in
      rw (sym tv, queue_of-put_queue_same t q by_tenant, e, select-snoc (of t) out x q, own) refl
  | inr other ↦
      rw
        (
          queue_of-put_queue_other t v q by_tenant other,
          select-snoc (of v) out x (queue_of v by_tenant),
          ap (λ u. text_eq u v) (text_eq→eq x.msg.tenant_id t own) ∙ other,
        )
        refl
]

module _ (msgs : List QueuedMessage) (order : List Text) where
  owned_rest :
      (t v : Text) (x : QueuedMessage) (q : List QueuedMessage) (by_tenant : Queues)
      → queue_of t by_tenant ≡ x ∷ q
      → ((u : Text) → All (λ m. of u m ≡ true) (queue_of u by_tenant))
      → All (λ m. of v m ≡ true) (queue_of v (put_queue t q by_tenant))
  owned_rest t v x q by_tenant e own = elim (Bool-cases (text_eq t v)) [
    | inl same ↦
        rw (sym (text_eq→eq t v same), queue_of-put_queue_same t q by_tenant)
          (subst (All (λ m. of t m ≡ true)) e (own t)).1
    | inr other ↦ rw (queue_of-put_queue_other t v q by_tenant other) (own v)
  ]

  -- The first message of a tenant's queue is taken.
  take-State :
      (t : Text) (x : QueuedMessage) (q : List QueuedMessage) (by_tenant : Queues)
      (out : List QueuedMessage)
      → has_queue t by_tenant ≡ true
      → queue_of t by_tenant ≡ x ∷ q
      → State msgs order by_tenant out
      → State msgs order (put_queue t q by_tenant) (out ++ x ∷ [])
  take-State t x q by_tenant out has e s = record {
    splits = λ v.
        moved-splits t v x q by_tenant out e (subst (All (λ m. of t m ≡ true)) e (s.owns t)).0
        ∙ s.splits v;
    owns = λ v. owned_rest t v x q by_tenant e s.owns;
    counts =
        omega
          (arith, s.counts, length-append out (x ∷ []), total-put_queue t q by_tenant, ap length e);
    apart = Apart-put_queue t q by_tenant s.apart;
    lists = λ v h. s.lists v (ground (arith, has_queue-put_queue t v q by_tenant, text_eq→eq t v));
  }

  -- A non-empty queue is in the map.
  has_queue-of :
      (t : Text) (m : Queues) (x : QueuedMessage) (q : List QueuedMessage)
      → queue_of t m ≡ x ∷ q
      → has_queue t m ≡ true
  unfolding queue_of
  has_queue-of t [] x q e = ground arith
  has_queue-of t ((u, p) ∷ m) x q e = ground (arith, has_queue-of t m x q)

  -- A round keeps the state, and takes a message of some tenant if one of its list waits.
  abbrev Advances : List Text → Queues → List QueuedMessage → Queues × List QueuedMessage → Type 0
  Advances ts by_tenant out x =
      State msgs order x.0 x.1
      × (length out ≤ length x.1)
      × ((t : Text) → listed t ts ≡ true → Waiting by_tenant t → length out < length x.1)

  skip-Advances :
      (t : Text) (ts : List Text) (by_tenant : Queues) (out : List QueuedMessage)
      (x : Queues × List QueuedMessage)
      → queue_of t by_tenant ≡ []
      → Advances ts by_tenant out x
      → Advances (t ∷ ts) by_tenant out x
  skip-Advances t ts by_tenant out x e (s, le, more) = (
    s,
    le,
    λ v l (has, y, q, f). elim (Bool-cases (text_eq t v)) [
      | inl same ↦ ground (arith, ap (λ u. queue_of u by_tenant) (text_eq→eq t v same))
      | inr other ↦ more v (ground arith) (has, y, q, f)
    ],
  )

  round-Advances :
      (ts : List Text) (by_tenant : Queues) (out : List QueuedMessage)
      → State msgs order by_tenant out
      → Advances ts by_tenant out (round ts by_tenant out)
  unfolding round
  round-Advances [] by_tenant out s = (s, omega arith, λ t l. ground arith)
  round-Advances (t ∷ ts) by_tenant out s =
      go (queue_of t by_tenant) refl (λ by_tenant' out' s'. round-Advances ts by_tenant' out' s')
    where
      go :
          (q : List QueuedMessage)
          → queue_of t by_tenant ≡ q
          → ((b : Queues) (o : List QueuedMessage)
              → State msgs order b o
              → Advances ts b o (round ts b o))
          → Advances
              (t ∷ ts)
              by_tenant
              out
              (round ts (take_one t q by_tenant out).0 (take_one t q by_tenant out).1)
      go [] e rest = skip-Advances t ts by_tenant out _ e (rest by_tenant out s)
      go (x ∷ q) e rest =
          let (s', le, more) =
            rest (put_queue t q by_tenant) (out ++ x ∷ [])
              (take-State t x q by_tenant out (has_queue-of t by_tenant x q e) e s) in
          (
            s',
            omega (arith, le, length-append out (x ∷ [])),
            λ v l w. omega (arith, le, length-append out (x ∷ [])),
          )

  -- While messages are missing, some tenant of the list waits.
  round-longer :
      (by_tenant : Queues) (out : List QueuedMessage)
      → State msgs order by_tenant out
      → length out < length msgs
      → length out < length (round order by_tenant out).1
  round-longer by_tenant out s lt =
      let (t, w) = total-Waiting by_tenant s.apart (omega (arith, s.counts)) in
      (round-Advances order by_tenant out s).2 t (s.lists t w.0) w

  pub rounds-State :
      (f : ℕ) (by_tenant : Queues) (out : List QueuedMessage)
      → State msgs order by_tenant out
      → length msgs < f + length out
      → (by_tenant' : Queues) × (out' : List QueuedMessage) × (rounds f order
            (length msgs)
            by_tenant
            out
          ≡ some out')
        × State msgs order by_tenant' out'
        × (length msgs ≤ length out')
  unfolding rounds
  rounds-State zero by_tenant out s lt = ground (arith, s.counts)
  rounds-State (suc f) by_tenant out s lt = elim (Bool-cases (ltb (length out) (length msgs))) [
    | inl e ↦ rw e (
        rounds-State f _ _ (round-Advances order by_tenant out s).0
          (omega (arith, round-longer by_tenant out s (ground arith))))
    | inr e ↦ rw e (by_tenant, out, refl, s, ground arith)
  ]
