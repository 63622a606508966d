-- ===== src/Task/Watcher/Buckets.antt =====
-- internal/task/watcher.go: the hour buckets of a range of times.
use go_chatgpt_tasks.Base.{
  ℕ, zero, suc, ◌+◌, ◌-◌, ◌*◌, ◌/◌, ◌≤◌, ◌<◌, ◌≡◌, ap, inl, inr, ltb, arith, Bool-cases,
}
use mathlib.Core.List.Memᴰ.{Memᴰ, head, tail, cast}
use go_chatgpt_tasks.Clock.{Time, hour, unix, truncate_hour}
use go_chatgpt_tasks.Task.Transitions.{bucket_of}
use go_chatgpt_tasks.Task.Watcher.{buckets_from, buckets_in_range}

-- Every full hour from `t` to `to` is met, `k` hours on.
buckets_from-mem :
    (f k : ℕ) (t to : Time)
    → k < f
    → t + k * hour ≤ to
    → Memᴰ (unix (t + k * hour)) (buckets_from f t to)
unfolding buckets_from
buckets_from-mem zero k t to lt le = elim lt [ ]
buckets_from-mem (suc f) zero t to lt le = elim (Bool-cases (ltb to t)) [
  | inl e ↦ ground arith
  | inr e ↦ rw e (head (ground arith))
]
buckets_from-mem (suc f) (suc k) t to lt le = elim (Bool-cases (ltb to t)) [
  | inl e ↦ ground arith
  | inr e ↦ rw e (
      tail (
        cast (ap (λ x. unix x) (omega arith))
          (buckets_from-mem f k (t + hour) to (omega arith) (omega arith))))
]

-- The full hour of `t` is a whole number of hours after that of `from`, and no later than that of `to`.
hours_between :
    (from to t : Time)
    → from ≤ t
    → t ≤ to
    → (k : ℕ) × ((k < (truncate_hour to - truncate_hour from) / hour + 1)
        × ((truncate_hour from + k * hour ≤ truncate_hour to)
            × (truncate_hour t ≡ truncate_hour from + k * hour)))
hours_between from to t le le' = (t / hour - from / hour, (omega arith, (omega arith, omega arith)))

-- The buckets of a range have the bucket of every time in it.
pub buckets_in_range-mem :
    (from to t : Time) → from ≤ t → t ≤ to → Memᴰ (bucket_of t) (buckets_in_range from to)
unfolding buckets_in_range bucket_of
buckets_in_range-mem from to t le le' =
    let (k, (small, (within, at))) = hours_between from to t le le' in
    elim (Bool-cases (ltb (truncate_hour to) (truncate_hour from))) [
      | inl e ↦ ground arith
      | inr e ↦ rw e (cast (ap (λ x. unix x) at) (buckets_from-mem _ k _ _ small within))
    ]
