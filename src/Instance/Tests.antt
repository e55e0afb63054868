-- ===== src/Instance/Tests.antt =====
-- Schedules and tasks at given inputs (packages/core/src/instance).
use open_mcc_manager.Prelude.{
  ℕ, ◌+◌, ◌≤◌, ◌≡◌, ◌↔◌, refl, arith, String, true, false, Option, none, some, List, [], ◌∷◌, codes,
}
use open_mcc_manager.Instance.Schedule.{
  DayOfWeek, mon, sun, render_days_of_week, parse_days_of_week, ordered_days, TimeOfDay,
  minute_of_day, time_of_day,
}
use open_mcc_manager.Instance.Schedule.Days.{parse-render, time_of_day-minute_of_day}
use open_mcc_manager.Instance.Due.{
  Parts, ZonedMoment, DueCandidate, is_due, zoned_moment, start_of_local_day,
}
use open_mcc_manager.Instance.Due.Day.{IsTimely, is_due_iff}
use open_mcc_manager.Instance.Scheduler.{
  CommandRow, World, SchedulerDeps, run_ticks, run_scheduler_tick,
}
use open_mcc_manager.Instance.Scheduler.Tally.{tally, tally-run_scheduler_tick}
use open_mcc_manager.Instance.Scheduler.Once.{sends, sends-run_ticks}
use open_mcc_manager.Instance.Task.{InstanceTaskRow, InstanceSignalRow, login, respawn, IntervalArm}
use open_mcc_manager.Instance.Task.Interval.{Sighting, fires, armed, running_time, fires_iff}
use open_mcc_manager.Instance.TaskRun.{TaskStep, TaskStepRunner, ordered, send_steps_in_order}
use open_mcc_manager.Instance.TaskRun.Order.{
  IsSorted, steps_at, tries, IsAccount, IsInOrder, ordered-IsStableSort,
  send_steps_in_order-IsAccount,
}

abbrev some_days : List DayOfWeek
some_days = sun ∷ mon ∷ sun ∷ []

parse-render_example : parse_days_of_week (codes "Mon,Sun") ≡ ordered_days some_days
unfolding render_days_of_week ordered_days
parse-render_example = parse-render some_days (codes "Mon,Sun") refl

abbrev half_past_nine : TimeOfDay
half_past_nine = record { hour = 9; minute = 30 }

time_of_day-minute_of_day_example : time_of_day (minute_of_day half_past_nine) ≡ half_past_nine
time_of_day-minute_of_day_example = time_of_day-minute_of_day half_past_nine (omega arith)

-- A zone in which it is always ten past nine on a Monday.
abbrev monday : ℕ → String → Option Parts
monday at timezone = some (record {
  weekday = codes "Mon";
  year = "2026";
  month = "11";
  day = "23";
  hour = 9;
  minute = 10;
})

abbrev monday_moment : ZonedMoment
monday_moment = record { weekday = mon; minute_of_day = 550; date_key = "2026-11-23" }

abbrev at_nine : DueCandidate
at_nine = record {
  days_of_week = mon ∷ [];
  minute_of_day = 540;
  timezone = "UTC";
  enabled = true;
  last_run_at = none;
}

is_due_iff_example :
    (is_due monday at_nine 90000000 ≡ some true) ↔ IsTimely monday at_nine monday_moment
unfolding zoned_moment
is_due_iff_example = is_due_iff monday at_nine 90000000 monday_moment refl

abbrev command : CommandRow
command = record {
  id = "c1";
  days_of_week = codes "*";
  minute_of_day = 540;
  timezone = "UTC";
  enabled = true;
  last_run_at = none;
}

abbrev quiet : SchedulerDeps
quiet = record {
  send = λ events row. none;
  claim_fault = λ events. none;
  record_fault = λ events. false;
  describe_failure = λ error. error;
  unknown_zone = "Unknown timezone: UTC";
}

abbrev idle : World
idle = record { commands = λ id. some (record { at = none; error = none }); events = [] }

-- Two ticks half a minute apart, the second with a row that was read before the first claim.
abbrev two_ticks : List (ℕ × List CommandRow)
two_ticks = (90000000, command ∷ []) ∷ (90030000, command ∷ []) ∷ []

sends-run_ticks_example : sends "c1" (run_ticks monday quiet two_ticks idle).events ≤ 1
unfolding sends start_of_local_day zoned_moment
sends-run_ticks_example =
    sends-run_ticks 90000000 "c1" monday quiet two_ticks idle
      (
        (omega arith, (λ same since e. ground (arith, e), tt)),
        ((omega arith, (λ same since e. ground (arith, e), tt)), tt),
      )
      refl

counted_in_tick :
    tally (run_scheduler_tick monday quiet 90000000 (command ∷ command ∷ []) idle).0
    ≡ (run_scheduler_tick monday quiet 90000000 (command ∷ command ∷ []) idle).0.considered
counted_in_tick = tally-run_scheduler_tick monday quiet 90000000 (command ∷ command ∷ []) idle

abbrev greeter : InstanceTaskRow
greeter = record {
  id = "t1";
  organization_id = "o1";
  instance_id = "i1";
  timezone = "UTC";
  created_at = 1000;
  on_first_login = true;
  on_login = false;
  on_respawn = true;
  interval_min_seconds = none;
  interval_max_seconds = none;
  interval_next_run_at = none;
  interval_observed_at = none;
}

abbrev seen : List InstanceSignalRow
seen =
    record { kind = login; identity = "a"; occurred_at = 900; first_for_process = true }
    ∷ record { kind = login; identity = "b"; occurred_at = 2000; first_for_process = true }
    ∷ record { kind = respawn; identity = "c"; occurred_at = 800; first_for_process = false }
    ∷ []

abbrev in_a_minute : IntervalArm
in_a_minute = record { next_run_at = 60000; observed_at = 0 }

-- Running, stopped for an hour, and running again.
abbrev sightings : List Sighting
sightings = (30000, true) ∷ (3630000, false) ∷ (3660000, true) ∷ []

fires_iff_example :
    (fires (λ low high. low) (armed greeter 60 60 in_a_minute) sightings ≡ true)
    ↔ (60000 ≤ 0 + running_time 0 sightings)
fires_iff_example =
    fires_iff (λ low high. low) greeter 60 60 in_a_minute sightings (omega arith)
      (omega arith, (omega arith, (omega arith, tt)))

abbrev steps : List TaskStep
steps =
    record { position = 2; command = "/home" }
    ∷ record { position = 1; command = "/login" }
    ∷ record { position = 3; command = "/farm" }
    ∷ []

steps_in_order :
    IsSorted (ordered steps)
    × ((position : ℕ) → steps_at position (ordered steps) ≡ steps_at position steps)
steps_in_order = ordered-IsStableSort steps

-- A console that refuses every command.
abbrev refusing : TaskStepRunner
refusing = record { send = λ events command. some "not running"; describe_failure = λ error. error }

send_steps_in_order-IsAccount_example :
    (sorted : List TaskStep) × IsInOrder steps sorted
    × IsAccount 0 sorted
        (send_steps_in_order steps 5 refusing).0
        (tries (send_steps_in_order steps 5 refusing).1)
send_steps_in_order-IsAccount_example = send_steps_in_order-IsAccount steps 5 refusing
