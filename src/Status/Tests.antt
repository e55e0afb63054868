-- ===== src/Status/Tests.antt =====
-- Runs of the status history at given inputs (packages/core/src/status).
use open_mcc_manager.Prelude.{
  ℕ, ◌≡◌, ◌≢◌, ◌↔◌, inl, inr, refl, arith, String, true, false, none, some, List, [], ◌∷◌, ◌++◌,
  ◌++◌,
}
use open_mcc_manager.Status.Events.{host_unreachable, host_recovered}
use open_mcc_manager.Status.Reachability.{ReachabilityCurrent, up, down, suspect, next_reachability}
use open_mcc_manager.Status.Reachability.History.{
  Probe, observe, described, observe-eq-described, outage_iff,
}
use open_mcc_manager.Status.Connection.{
  ConnectionState, ConnectionSignal, ConnectionCurrent, changes_from, changes_from_signals,
}
use open_mcc_manager.Status.Connection.Changes.{
  connection_after, state_after, IsAlternating, changes-IsAlternating, changes_from_signals-append,
}
use open_mcc_manager.Status.Incident.Outages.{
  decisions, incident_after, opened_by, closed_by, ids_of, FitsState, opened-eq-closed,
  changes-FitsState,
}
use open_mcc_manager.Status.Rollup.{
  StatusState, RollableInterval, last_24h, roll_up_window, range_seconds, bucket_seconds,
  bucket_starts_for,
}
use open_mcc_manager.Status.Rollup.Totals.{total, total-roll_up_window}
use open_mcc_manager.Status.Rollup.Buckets.{AreWindows, bucket_starts_for-AreWindows}

-- A host that answers once and then fails for four minutes.
abbrev failing_host : List Probe
failing_host =
    record { reached = false; at = 300000 }
    ∷ record { reached = false; at = 120000 }
    ∷ record { reached = false; at = 60000 }
    ∷ record { reached = true; at = 0 }
    ∷ []

observe-eq-described_example : observe 180000 failing_host ≡ described 180000 failing_host
observe-eq-described_example =
    observe-eq-described 180000 failing_host (omega arith, (omega arith, (omega arith, tt)))

-- That host is down, and failing since the first of its failures.
failing_host-down :
    described 180000 failing_host ≡ record { state = down; failure_started_at = some 60000 }
failing_host-down = refl

abbrev long_suspect : ReachabilityCurrent
long_suspect = record { state = suspect; failure_started_at = some 1000 }

outage_iff_case :
    (((next_reachability long_suspect false 200000 180000).event ≡ some host_unreachable)
      ↔ ((suspect ≢ down) × ((next_reachability long_suspect false 200000 180000).state ≡ down)))
    × (((next_reachability long_suspect false 200000 180000).event ≡ some host_recovered)
        ↔ ((suspect ≡ down) × ((next_reachability long_suspect false 200000 180000).state ≡ up)))
outage_iff_case = outage_iff long_suspect false 200000 180000

-- A bot that joins, is lost twice, comes back and is stopped.
abbrev first_signals : List ConnectionSignal
first_signals =
    ConnectionSignal.joined 1000 "41"
    ∷ ConnectionSignal.disconnected 2000 "41" (some "Kicked: idle")
    ∷ ConnectionSignal.disconnected 3000 "41" none
    ∷ []

abbrev later_signals : List ConnectionSignal
later_signals = ConnectionSignal.joined 4000 "42" ∷ ConnectionSignal.stopped 5000 "42" ∷ []

abbrev new_bot : ConnectionCurrent
new_bot = record { state = ConnectionState.unknown; since = none; pid = none }

changes_alternate :
    IsAlternating ConnectionState.unknown (changes_from_signals new_bot first_signals)
changes_alternate = changes-IsAlternating new_bot first_signals

changes_from_signals-append_example :
    changes_from_signals new_bot (first_signals ++ later_signals)
    ≡ changes_from_signals new_bot first_signals
      ++ changes_from_signals
          (connection_after new_bot (changes_from_signals new_bot first_signals))
          later_signals
changes_from_signals-append_example =
    changes_from_signals-append new_bot first_signals later_signals

abbrev fresh_id : ℕ → String
fresh_id n = "incident"

opened-eq-closed_example :
    opened_by (decisions fresh_id 0 none (changes_from ConnectionState.unknown first_signals))
    ≡ closed_by (decisions fresh_id 0 none (changes_from ConnectionState.unknown first_signals))
      ++ ids_of (
          incident_after none
            (decisions fresh_id 0 none (changes_from ConnectionState.unknown first_signals)))
opened-eq-closed_example =
    opened-eq-closed fresh_id 0 none (changes_from ConnectionState.unknown first_signals)

changes-FitsState_example :
    FitsState
      (state_after ConnectionState.unknown (changes_from ConnectionState.unknown first_signals))
      (incident_after none
        (decisions fresh_id 0 none (changes_from ConnectionState.unknown first_signals)))
changes-FitsState_example =
    changes-FitsState fresh_id 0 ConnectionState.unknown none first_signals tt

-- Up for a minute, then down.
abbrev minute_up : List RollableInterval
minute_up =
    record { state = StatusState.up; started_at = 60000; ended_at = some 120000 }
    ∷ record { state = StatusState.down; started_at = 120000; ended_at = none }
    ∷ []

total-roll_up_window_example : total (roll_up_window minute_up 90000 300000) ≡ 210
total-roll_up_window_example =
    total-roll_up_window 60000 90000 300000 minute_up (omega arith) refl refl refl
      (refl, inr (120000, refl, omega arith, refl, (refl, inl (refl, refl))))

bucket_starts_for-AreWindows_example :
    AreWindows 900000 86400000 1700000000000 (bucket_starts_for last_24h 1700000000000)
unfolding range_seconds bucket_seconds
bucket_starts_for-AreWindows_example =
    bucket_starts_for-AreWindows last_24h 1700000000000 (omega arith)
