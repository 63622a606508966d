-- ===== src/Task/FairOrder/Queues.antt =====
-- internal/task/worker.go, fairOrder: lookups in the map after an update, and its number of messages.
use go_chatgpt_tasks.Base.{
  ℕ, ◌+◌, ◌≤◌, ◌≡◌, refl, inl, inr, true, false, ◌||◌, List, [], ◌∷◌, Text, text_eq, text_eq_refl,
  text_eq→eq, length, arith, Bool-cases,
}
use go_chatgpt_tasks.Task.Worker.{QueuedMessage}
use go_chatgpt_tasks.Task.FairOrder.{queue_of, put_queue, has_queue}

abbrev pub Queues : Type 0
Queues = List (Text × List QueuedMessage)

-- All the messages of a map.
abbrev pub total : Queues → ℕ
total [] = 0
total ((u, q) ∷ m) = length q + total m

-- No tenant has two queues.
abbrev pub Apart : Queues → Type 0
Apart [] = Unit
Apart ((u, q) ∷ m) = (has_queue u m ≡ false) × Apart m

pub queue_of-put_queue_same :
    (t : Text) (q : List QueuedMessage) (m : Queues) → queue_of t (put_queue t q m) ≡ q
unfolding queue_of put_queue
queue_of-put_queue_same t q [] = ground (arith, text_eq_refl t)
queue_of-put_queue_same t q ((u, p) ∷ m) = ground (arith, queue_of-put_queue_same t q m)

pub queue_of-put_queue_other :
    (t v : Text) (q : List QueuedMessage) (m : Queues)
    → text_eq t v ≡ false
    → queue_of v (put_queue t q m) ≡ queue_of v m
unfolding queue_of put_queue
queue_of-put_queue_other t v q [] e = ground arith
queue_of-put_queue_other t v q ((u, p) ∷ m) e =
    ground (arith, text_eq→eq u t, queue_of-put_queue_other t v q m)

pub has_queue-put_queue :
    (t v : Text) (q : List QueuedMessage) (m : Queues)
    → has_queue v (put_queue t q m) ≡ (text_eq t v || has_queue v m)
unfolding put_queue
has_queue-put_queue t v q [] = ground arith
has_queue-put_queue t v q ((u, p) ∷ m) = ground (arith, text_eq→eq u t, has_queue-put_queue t v q m)

pub total-put_queue :
    (t : Text) (q : List QueuedMessage) (m : Queues)
    → total (put_queue t q m) + length (queue_of t m) ≡ total m + length q
unfolding put_queue queue_of
total-put_queue t q [] = ground arith
total-put_queue t q ((u, p) ∷ m) = ground (arith, total-put_queue t q m)

pub Apart-put_queue :
    (t : Text) (q : List QueuedMessage) (m : Queues) → Apart m → Apart (put_queue t q m)
unfolding put_queue
Apart-put_queue t q [] h = (refl, tt)
Apart-put_queue t q ((u, p) ∷ m) h = elim (Bool-cases (text_eq u t)) [
  | inl e ↦ rw e h
  | inr e ↦
      rw e (ground (arith, has_queue-put_queue t u q m, text_eq→eq t u), Apart-put_queue t q m h.1)
]

-- A tenant with a message in its queue.
abbrev pub Waiting : Queues → Text → Type 0
Waiting m t =
    (has_queue t m ≡ true) × (x : QueuedMessage) × (q : List QueuedMessage) × (queue_of t m ≡ x ∷ q)

Waiting-cons :
    (u : Text) (p : List QueuedMessage) (m : Queues) (t : Text)
    → has_queue u m ≡ false
    → Waiting m t
    → Waiting ((u, p) ∷ m) t
unfolding queue_of
Waiting-cons u p m t h (has, x, q, e) = (ground arith, x, q, ground (arith, text_eq→eq u t))

-- A map that holds a message has a tenant that waits.
pub total-Waiting : (m : Queues) → Apart m → 1 ≤ total m → (t : Text) × Waiting m t
unfolding queue_of
total-Waiting [] h le = ground arith
total-Waiting ((u, []) ∷ m) h le =
    let (t, waiting) = total-Waiting m h.1 (omega arith) in (t, Waiting-cons u [] m t h.0 waiting)
total-Waiting ((u, x ∷ q) ∷ m) h le =
    (u, (ground (arith, text_eq_refl u), x, q, ground (arith, text_eq_refl u)))

pub queue_of-no_total : (t : Text) (m : Queues) → total m ≡ 0 → queue_of t m ≡ []
unfolding queue_of
queue_of-no_total t [] e = refl
queue_of-no_total t ((u, []) ∷ m) e = ground (arith, queue_of-no_total t m)
queue_of-no_total t ((u, x ∷ q) ∷ m) e = ground arith
