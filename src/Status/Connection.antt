-- ===== src/Status/Connection.antt =====
-- packages/core/src/status/connection.ts: a bot's connection, from the signals of its journal.
-- A `Date` is its time in milliseconds.
pub mod Changes
use open_mcc_manager.Prelude.{
  ℕ, ◌+◌, String, Bool, true, false, ◌||◌, Option, none, some, List, [], ◌∷◌, map, leb, codes,
  includes, lower, if◌then◌else◌,
}
use open_mcc_manager.Status.Events.{
  StatusEventKind, instance_joined, instance_reconnected, instance_stopped, instance_kicked,
  instance_connection_lost, instance_disconnected,
}

pub data ConnectionState : Type 0 where
  joined interrupted down never_joined unknown : ConnectionState

-- `ConnectionSignal` of packages/contracts/src/boundary/journal.ts
pub data ConnectionSignal : Type 0 where
  joined : (at : ℕ) (pid : String) → ConnectionSignal
  disconnected : (at : ℕ) (pid : String) (reason : Option String) → ConnectionSignal
  stopped : (at : ℕ) (pid : String) → ConnectionSignal

pub record ConnectionCurrent : Type 0 where
  pub state : ConnectionState
  pub since : Option ℕ
  pub pid : Option String

pub record ConnectionChange : Type 0 where
  pub state : ConnectionState
  pub at : ℕ
  pub pid : Option String
  pub event : StatusEventKind
  pub reason : Option String

unfoldable pub looks_like_kick : Option String → Bool
unfolding includes lower
looks_like_kick none = false
looks_like_kick (some reason) =
    let lowered = map lower (codes reason) in
    includes (codes "kick") lowered || includes (codes "banned") lowered

-- What one round of the loop pushes; `none` is a `continue` before the push.
unfoldable pub change_from : ConnectionState → ConnectionSignal → Option ConnectionChange
change_from ConnectionState.joined (ConnectionSignal.joined at pid) = none
change_from state (ConnectionSignal.joined at pid) = some (record {
  state = ConnectionState.joined;
  at = at;
  pid = some pid;
  event = elim state [ ConnectionState.unknown ↦ instance_joined | _ ↦ instance_reconnected ];
  reason = none;
})
change_from ConnectionState.down (stopped at pid) = none
change_from state (stopped at pid) = some (record {
  state = ConnectionState.down;
  at = at;
  pid = some pid;
  event = instance_stopped;
  reason = none;
})
change_from ConnectionState.interrupted (disconnected at pid reason) = none
change_from ConnectionState.down (disconnected at pid reason) = none
change_from state (disconnected at pid reason) = some (record {
  state = ConnectionState.interrupted;
  at = at;
  pid = some pid;
  event = if looks_like_kick reason then instance_kicked else instance_connection_lost;
  reason = reason;
})

-- The loop, with its variable `state`.
unfoldable pub changes_from : ConnectionState → List ConnectionSignal → List ConnectionChange
changes_from state [] = []
changes_from state (signal ∷ rest) = elim (change_from state signal) [
  | none ↦ changes_from state rest
  | some change ↦ change ∷ changes_from change.state rest
]

unfoldable pub changes_from_signals :
    ConnectionCurrent → List ConnectionSignal → List ConnectionChange
unfolding changes_from change_from
changes_from_signals current signals = changes_from current.state signals

escalation_at : ConnectionState → Option ℕ → Option String → ℕ → ℕ → Option ConnectionChange
escalation_at ConnectionState.interrupted (some since) pid now grace =
    if leb (since + grace) now
    then some (record {
      state = ConnectionState.down;
      at = now;
      pid = pid;
      event = instance_disconnected;
      reason = none;
    })
    else none
escalation_at _ _ pid now grace = none

-- `now - since < graceMs` is refused, with the subtraction moved to the other side.
unfoldable pub escalate_if_still_down : ConnectionCurrent → ℕ → ℕ → Option ConnectionChange
unfolding escalation_at
escalate_if_still_down current now grace =
    escalation_at current.state current.since current.pid now grace
