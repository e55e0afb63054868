-- ===== src/Instance/Scheduler/Tests.antt =====
-- Two ticks in the first minute of a local day, each with a row that was read before any claim.
use open_mcc_manager.Prelude.{ℕ, ◌≡◌, refl, String, true, false, Option, none, some, [], ◌∷◌, codes}
use open_mcc_manager.Instance.Schedule.{parse_days_of_week}
use open_mcc_manager.Instance.Due.{Parts, is_due, zoned_moment, start_of_local_day}
use open_mcc_manager.Instance.Scheduler.{CommandRow, World, SchedulerDeps, run_ticks}
use open_mcc_manager.Instance.Scheduler.Once.{sends}

abbrev midnight : ℕ → String → Option Parts
midnight at timezone = some (record {
  weekday = codes "Mon";
  year = "2026";
  month = "11";
  day = "23";
  hour = 0;
  minute = 0;
})

abbrev at_midnight : CommandRow
at_midnight = record {
  id = "c1";
  days_of_week = codes "*";
  minute_of_day = 0;
  timezone = "UTC";
  enabled = true;
  last_run_at = none;
}

abbrev calm : SchedulerDeps
calm = record {
  send = λ events row. none;
  claim_fault = λ events. none;
  record_fault = λ events. false;
  describe_failure = λ error. error;
  unknown_zone = "Unknown timezone: UTC";
}

abbrev unsent : World
unsent = record { commands = λ id. some (record { at = none; error = none }); events = [] }

-- The day of the second tick, as startOfLocalDay reckons it, began after the claim of the first, so
-- the command is sent twice.
sent_twice :
    sends "c1"
      (run_ticks midnight calm
        ((10000, at_midnight ∷ []) ∷ (40000, at_midnight ∷ []) ∷ [])
        unsent).events
    ≡ 2
unfolding sends start_of_local_day zoned_moment is_due run_ticks parse_days_of_week
sent_twice = refl
