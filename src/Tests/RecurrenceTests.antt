-- ===== src/Tests/RecurrenceTests.antt =====
-- Recurrence rules, time zones and scans of the recurring watcher on concrete inputs.
use go_chatgpt_tasks.Base.{
  ◌+◌, ◌*◌, ◌^◌, ◌≤◌, ◌<◌, ◌≡◌, ◌≢◌, refl, ltb, if◌then◌else◌, true, [], ◌∷◌, Option, none, some,
  Text, codes, text_eq, arith,
}
use go_chatgpt_tasks.Base.Int.{pos, negsuc, pos_part}
use go_chatgpt_tasks.Base.Parse.{split, cut, trim_space, trim_left, trim_right, to_upper}
use go_chatgpt_tasks.Clock.{Time, minute, hour}
use go_chatgpt_tasks.Task.Transitions.{ok}
use go_chatgpt_tasks.Task.Domain.{recurring, success, job_run_succeeded}
use go_chatgpt_tasks.Task.Rows.{JobRow}
use go_chatgpt_tasks.Sql.Tables.{RunEventRow, exists_where}
use go_chatgpt_tasks.Sql.Runs.{same_sequence}
use go_chatgpt_tasks.Task.Effect.{World}
use go_chatgpt_tasks.Task.Recurrence.Location.{Zone, local_of, day_length, hour_of, minute_of, date}
use go_chatgpt_tasks.Task.Recurrence.{
  Rule, no_note, shifted_forward, parse_rule, parse_parts, parse_part, parse_local_time,
  next_occurrence, candidate_of, resolve_wall_time, earliest_of, any_same, step_days,
}
use go_chatgpt_tasks.Task.Recurrence.RoundTrip.{weekly, rule_text, parse_rule-rule_text}
use go_chatgpt_tasks.Task.Recurrence.WallClock.{next_occurrence-wall_clock}
use go_chatgpt_tasks.Task.Recurrence.Fixed.{FixedZone, FallsOn, next_occurrence-fixed}
use go_chatgpt_tasks.Task.RecurringWatcher.{NextRunSpec, scan_spec, scan_recurring}
use go_chatgpt_tasks.Task.RecurringWatcher.Grows.{Grown, scan_recurring-Grown}
use go_chatgpt_tasks.Task.RecurringWatcher.Creates.{scan_spec-Numbered}
use go_chatgpt_tasks.Tests.Sample.{noon, job_row, run_row, world_of, all_done}

abbrev utc : Zone
utc = record {
  lookup = λ t. record { offset = pos 0; start = 0; end = 2 ^ 70 };
  beyond = λ day step h m. 0;
}

abbrev every_day : Rule
every_day = record { freq = codes "DAILY"; interval = pos 1 }

parse_rule-rule_text_example :
    parse_rule (rule_text weekly 2) ≡ ok (record { freq = codes "WEEKLY"; interval = pos 2 })
parse_rule-rule_text_example = parse_rule-rule_text weekly 1 (omega arith)

utc-FixedZone : FixedZone utc (pos 0)
utc-FixedZone = record { always = λ t. refl; east = omega arith; west = omega arith }

next_occurrence-fixed_example :
    (t : Time) × ((next_occurrence every_day (codes "9:30") (some utc) noon ≡ ok (t, no_note))
      × ((noon < t)
          × ((t ≤ noon + pos_part (step_days every_day) * day_length)
              × FallsOn (pos 0) every_day 9 30 noon t)))
unfolding parse_local_time
next_occurrence-fixed_example =
    next_occurrence-fixed every_day (codes "9:30") utc (pos 0) noon 9 30 utc-FixedZone refl refl
      (omega arith) (omega arith) (omega arith)

-- Chile in 2024: at 04:00 UTC on 8 September, the clocks go from midnight to 01:00.
abbrev change : Time
change = (719162 + 19974) * day_length + 4 * hour

abbrev santiago : Zone
santiago = record {
  lookup = λ t.
      if ltb t change
      then record { offset = negsuc 14399; start = 0; end = change }
      else record { offset = negsuc 10799; start = change; end = 2 ^ 70 };
  beyond = λ day step h m. 0;
}

-- 23:00 on 7 September in Chile.
abbrev evening : Time
evening = (719162 + 19974) * day_length + 3 * hour

-- 00:00 on 9 September in Chile.
abbrev midnight : Time
midnight = (719162 + 19975) * day_length + 3 * hour

no_shift : no_note ≢ shifted_forward
no_shift e = cc

next_occurrence-wall_clock_example :
    (hour_of (local_of santiago midnight) ≡ 0) × (minute_of (local_of santiago midnight) ≡ 0)
unfolding next_occurrence parse_local_time candidate_of resolve_wall_time earliest_of any_same date
    local_of
next_occurrence-wall_clock_example =
    next_occurrence-wall_clock every_day (codes "0:00") santiago (evening + 3 * hour) midnight
      no_note 0 0 refl refl no_shift

-- A daily job at midnight: the time after 23:00 before the change is that time again.
same_again :
    next_occurrence every_day (codes "00:00") (some santiago) evening
    ≡ ok (evening, shifted_forward)
unfolding next_occurrence parse_local_time candidate_of resolve_wall_time earliest_of any_same date
    local_of
same_again = refl

abbrev daily_job : JobRow
daily_job = record job_row {
  kind = recurring;
  schedule_type = recurring;
  recurrence_rule = some (codes "FREQ=DAILY");
  local_time = some (codes "09:30");
}

abbrev done_event : RunEventRow
done_event = record {
  id = 40;
  tenant_id = 7;
  job_id = 5;
  job_run_id = 11;
  status = success;
  event_type = job_run_succeeded;
  event_payload = [];
  created_at = noon;
}

abbrev daily_world : World
daily_world =
    let w = world_of all_done (run_row 11 success 0 ∷ []) in
    record w { tables = record w.tables { jobs = daily_job ∷ []; run_events = done_event ∷ [] } }

abbrev pub only_utc : Text → Option Zone
only_utc s = if text_eq s (codes "UTC") then some utc else none

scan_recurring-Grown_example :
    Grown daily_world.tables (scan_recurring only_utc daily_world).1.tables
scan_recurring-Grown_example = scan_recurring-Grown only_utc daily_world

abbrev daily_spec : NextRunSpec
daily_spec = record {
  tenant_id = 7;
  job_id = 5;
  sequence = 11;
  scheduled_at = noon;
  timezone_id = codes "UTC";
  recurrence_rule = codes "FREQ=DAILY";
  local_time = codes "09:30";
}

abbrev half_past_nine : Time
half_past_nine = noon + 21 * hour + 30 * minute

scan_spec-Numbered_example :
    exists_where (same_sequence 5 12) (scan_spec only_utc daily_spec daily_world).1.tables.job_runs
    ≡ true
unfolding parse_rule parse_parts parse_part split cut trim_space trim_left trim_right to_upper
    next_occurrence parse_local_time candidate_of resolve_wall_time earliest_of any_same date
    local_of
scan_spec-Numbered_example =
    scan_spec-Numbered only_utc daily_spec daily_world every_day utc half_past_nine no_note refl
      refl refl refl (omega arith) (λ n. refl) refl refl
