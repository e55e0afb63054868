-- ===== src/Status/Events.antt =====
-- The event kinds of packages/contracts/src/status.ts, and which of them notify and resolve.
pub mod Kinds
use open_mcc_manager.Prelude.{
  ℕ, ◌+◌, Bool, true, false, Option, none, some, List, leb, keep, length,
}

pub data StatusEventKind : Type 0 where
  host_check_failed host_check_recovered host_unreachable host_recovered : StatusEventKind
  host_degraded host_healthy host_drift_started host_drift_resolved : StatusEventKind
  instance_joined instance_disconnected instance_reconnected instance_kicked : StatusEventKind
  instance_connection_lost instance_flapping instance_never_joined : StatusEventKind
  instance_started instance_stopped instance_unexpected_stop : StatusEventKind
  instance_process_recovered instance_needs_auth : StatusEventKind
  instance_drift_started instance_drift_resolved monitoring_gap : StatusEventKind

unfoldable pub is_notifying_event : StatusEventKind → Bool
is_notifying_event host_unreachable = true
is_notifying_event host_drift_started = true
is_notifying_event instance_disconnected = true
is_notifying_event instance_flapping = true
is_notifying_event instance_never_joined = true
is_notifying_event instance_unexpected_stop = true
is_notifying_event instance_needs_auth = true
is_notifying_event instance_drift_started = true
is_notifying_event _ = false

-- The keys of `RESOLVES` are the resolving events.
unfoldable pub problem_resolved_by : StatusEventKind → Option StatusEventKind
problem_resolved_by host_recovered = some host_unreachable
problem_resolved_by host_drift_resolved = some host_drift_started
problem_resolved_by instance_reconnected = some instance_disconnected
problem_resolved_by instance_process_recovered = some instance_unexpected_stop
problem_resolved_by instance_drift_resolved = some instance_drift_started
problem_resolved_by _ = none

abbrev pub flapping_threshold : ℕ
flapping_threshold = 5

-- `now - at <= windowMs`, with the subtraction moved to the other side.
unfoldable pub is_flapping : List ℕ → ℕ → ℕ → ℕ → Bool
is_flapping losses now window threshold =
    leb threshold (length (keep (λ at. leb now (at + window)) losses))
