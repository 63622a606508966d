-- ===== src/Task/Keys.antt =====
-- The idempotency key of a run (NewJobRun): `jobID.String() + ":" + strconv.Itoa(sequence)`.
use go_chatgpt_tasks.Base.{ℕ, zero, suc, ◌+◌, ◌/◌, ◌%◌, ◌==◌, if◌then◌else◌, [], ◌∷◌, ◌++◌, Text}
use go_chatgpt_tasks.Task.Domain.{Uuid}
use go_chatgpt_tasks.Task.Effect.{ok, M}

-- strconv.Itoa of a number that is not negative: its decimal digits. The fuel bounds their number.
unfoldable pub itoa_loop : ℕ → ℕ → Text → Text
itoa_loop zero n acc = acc
itoa_loop (suc f) n acc =
    let rest = itoa_loop f (n / 10) ((b'0' + n % 10) ∷ acc) in
    if n / 10 == 0 then (b'0' + n % 10) ∷ acc else rest

unfoldable pub itoa : ℕ → Text
unfolding itoa_loop
itoa n = itoa_loop (suc n) n []

unfoldable pub key_text : (Uuid → Text) → Uuid → ℕ → Text
unfolding itoa
key_text uuid_string job_id sequence = uuid_string job_id ++ b':' ∷ itoa sequence

-- How the environment's identifiers make the keys.
unfoldable pub run_key : M (Uuid → ℕ → Text)
unfolding key_text
run_key w = (ok (key_text w.env.uuid_string), w)
