-- ===== src/Clock.antt =====
-- Go's time.Time: nanoseconds since its zero value, 1 January of year 1 in UTC. Time zones apart
-- (Task.Recurrence), every time the program keeps is in UTC.
use go_chatgpt_tasks.Base.{ℕ, ◌-◌, ◌*◌, ◌/◌, ◌%◌, Bool, ◌==◌}
use go_chatgpt_tasks.Base.Int.{ℤ, sub_ℕ}

abbrev pub Time : Type 0
Time = ℕ

abbrev pub zero_time : Time
zero_time = 0

abbrev pub second : ℕ
second = 1000000000

abbrev pub minute : ℕ
minute = 60 * second

abbrev pub hour : ℕ
hour = 60 * minute

abbrev pub is_zero_time : Time → Bool
is_zero_time t = t == 0

-- Seconds from Go's zero time to the Unix epoch.
abbrev pub unix_epoch : ℕ
unix_epoch = 62135596800

-- Time.Unix: whole seconds since 1970, rounded down.
abbrev pub unix : Time → ℤ
unix t = sub_ℕ (t / second) unix_epoch

-- Time.Truncate(time.Hour): rounded down to a full hour since the zero time.
abbrev pub truncate_hour : Time → Time
truncate_hour t = t - t % hour

-- What a TIMESTAMPTZ column keeps of a time: whole microseconds, rounded down. TimeToPg hands over a
-- time as it is, and the driver writes it so.
abbrev pub time_to_pg : Time → Time
time_to_pg t = t - t % 1000
