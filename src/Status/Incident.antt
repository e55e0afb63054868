-- ===== src/Status/Incident.antt =====
-- packages/core/src/status/incident.ts: which outage of a bot a change belongs to.
pub mod Outages
use open_mcc_manager.Prelude.{ℕ, ◌*◌, ◌-◌, String, Bool, true, false, Option, none, some, List}
use open_mcc_manager.Status.Events.{
  StatusEventKind, instance_joined, instance_reconnected, instance_connection_lost, instance_kicked,
  is_flapping, flapping_threshold,
}
use open_mcc_manager.Status.Connection.{ConnectionState}

pub record IncidentDecision : Type 0 where
  pub incident_id : Option String
  pub opened : Bool
  pub closing : Option String

closes : StatusEventKind → Bool
closes instance_joined = true
closes instance_reconnected = true
closes _ = false

by_state : Option String → ConnectionState → String → IncidentDecision
by_state current ConnectionState.joined fresh = record {
  incident_id = none;
  opened = false;
  closing = current;
}
by_state (some id) ConnectionState.interrupted fresh = record {
  incident_id = some id;
  opened = false;
  closing = none;
}
by_state none ConnectionState.interrupted fresh = record {
  incident_id = some fresh;
  opened = true;
  closing = none;
}
by_state current _ fresh = record { incident_id = current; opened = false; closing = none }

-- `fresh` is the id that a call of `fresh()` would give.
unfoldable pub next_incident :
    Option String → ConnectionState → Option StatusEventKind → String → IncidentDecision
unfolding closes by_state
next_incident current state none fresh = by_state current state fresh
next_incident current state (some event) fresh = elim (closes event) [
  | true ↦ record { incident_id = none; opened = false; closing = current }
  | false ↦ by_state current state fresh
]

-- `decision.incidentId ?? decision.closing`
unfoldable pub incident_of_event : IncidentDecision → Option String
incident_of_event decision = elim decision.incident_id [
  | some id ↦ some id
  | none ↦ decision.closing
]

unfoldable pub counts_as_loss : Option StatusEventKind → Bool
counts_as_loss (some instance_connection_lost) = true
counts_as_loss (some instance_kicked) = true
counts_as_loss _ = false

pub record LossWindow : Type 0 where
  pub since : ℕ
  pub until : ℕ

-- The start of the window stops at 0, the start of the epoch.
unfoldable pub loss_window : ℕ → ℕ → LossWindow
loss_window at window = record { since = at - window; until = at }

unfoldable pub worth_claiming_flapping : List ℕ → ℕ → Bool
unfolding is_flapping
worth_claiming_flapping recorded at = is_flapping recorded at (30 * 60 * 1000) flapping_threshold
