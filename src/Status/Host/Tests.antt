-- ===== src/Status/Host/Tests.antt =====
-- A host that is lost and comes back, from its second probe on.
use open_mcc_manager.Prelude.{◌≡◌, refl, arith, String, true, false, none, some, List, [], ◌∷◌}
use open_mcc_manager.Status.Events.{StatusEventKind}
use open_mcc_manager.Status.Rollup.{StatusState, roll_up_window}
use open_mcc_manager.Status.Rollup.Totals.{total}
use open_mcc_manager.Status.Host.{HostTables, HostObservation, record_each}
use open_mcc_manager.Status.Host.Intervals.{total-record_each}

abbrev plain : StatusEventKind → String → String × String
plain kind name = (name, name)

abbrev up_since_a_minute : HostTables
up_since_a_minute = record {
  condition = some (record {
    state = StatusState.up;
    started_at = 60000;
    last_observed_at = 60000;
    failure_started_at = none;
    active_incident_id = none;
  });
  intervals = record { state = StatusState.up; started_at = 60000; ended_at = none } ∷ [];
  events = [];
  announcements = record {
    subscribers = λ kind. [];
    notifications = [];
    deliveries = [];
    jobs = [];
  };
}

abbrev probes : List HostObservation
probes =
    record { reached = false; now = 120000; fresh_incident = "i1"; fresh_event = "e1" }
    ∷ record { reached = false; now = 300000; fresh_incident = "i2"; fresh_event = "e2" }
    ∷ record { reached = true; now = 420000; fresh_incident = "i3"; fresh_event = "e3" }
    ∷ []

total-record_each_example :
    total (
      roll_up_window
        (record_each plain (λ job. true) "h1" "Host" 180000 probes up_since_a_minute).intervals
        90000
        600000)
    ≡ 510
total-record_each_example =
    total-record_each plain (λ job. true) "h1" "Host" 180000 60000 60000 90000 600000 probes
      up_since_a_minute (omega arith, refl, (omega arith, refl, (omega arith, refl, tt)))
      (refl, (refl, refl, omega arith)) (omega arith) refl refl refl
