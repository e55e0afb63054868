-- ===== src/Status/Bot/Escalate.antt =====
-- escalateInstance of packages/core/src/status/status.controller.ts: what the check does that is
-- queued when an outage of a bot opens.
pub mod Written
pub mod Late
pub mod Checks
pub mod Unrecorded
pub mod Histories
mod Tests
use open_mcc_manager.Prelude.{
  ℕ, String, Bool, true, false, Option, none, some, List, [], ◌∷◌, if◌then◌else◌, str_eq,
}
use open_mcc_manager.Status.Events.{StatusEventKind, instance_disconnected}
use open_mcc_manager.Status.Connection.{
  ConnectionState, interrupted, ConnectionChange, ConnectionCurrent, escalate_if_still_down,
}
use open_mcc_manager.Status.Host.{close_open_interval, open_interval}
use open_mcc_manager.Status.Bot.{
  BotCondition, BotEvent, escalation_key, BotTables, interrupted_to_down_ms, state_of, insert_event,
  announce_row,
}
use open_mcc_manager.Notification.Announce.{AnnounceJob}

abbrev pub is_incident : String → Option String → Bool
is_incident id none = false
is_incident id (some active) = str_eq active id

is_interrupted : ConnectionState → Bool
is_interrupted interrupted = true
is_interrupted _ = false

-- `claimEscalation`
pub claim_escalation : String → ConnectionState → ℕ → BotCondition → Option BotCondition
unfolding is_interrupted
claim_escalation incident state now c =
    if is_incident incident c.active_incident_id
    then if is_interrupted c.state
      then some (record c { state = state; last_observed_at = now; started_at = now })
      else none
    else none

escalation_event : String → ConnectionChange → String → BotEvent
escalation_event incident change fresh = record {
  id = fresh;
  kind = instance_disconnected;
  occurred_at = change.at;
  incident_id = some incident;
  source_key = escalation_key incident;
}

write_down : ConnectionChange → Option BotTables → Option (Bool × BotTables)
unfolding close_open_interval open_interval state_of
write_down change none = none
write_down change (some t) = some (
  true,
  record t {
    intervals =
        open_interval (state_of change.state) change.at (close_open_interval change.at t.intervals);
  },
)

module _ (copy : StatusEventKind → String → String × String) (accepts : AnnounceJob → Bool)
    (bot_id bot_name : String) where
  -- The event is new, or the check ends with what it has claimed.
  pub with_event :
      BotEvent
      → String
      → ConnectionChange
      → Option BotTables
      → BotTables
      → Option (Bool × BotTables)
  unfolding write_down announce_row
  with_event event incident change none t = some (false, t)
  with_event event incident change (some after) t =
      write_down change (announce_row copy accepts bot_id bot_name event (some incident) after)

  with_claim :
      String
      → String
      → ConnectionChange
      → Option BotCondition
      → BotTables
      → Option (Bool × BotTables)
  unfolding with_event insert_event escalation_event
  with_claim incident fresh change none t = some (false, t)
  with_claim incident fresh change (some claimed) t =
      let t' = record t { condition = some claimed } in
      let event = escalation_event incident change fresh in
      with_event event incident change (insert_event event t') t'

  with_change :
      String
      → ℕ
      → String
      → BotCondition
      → Option ConnectionChange
      → BotTables
      → Option (Bool × BotTables)
  unfolding with_claim claim_escalation
  with_change incident now fresh c none t = some (false, t)
  with_change incident now fresh c (some change) t =
      with_claim incident fresh change (claim_escalation incident change.state now c) t

  with_condition : String → ℕ → String → Option BotCondition → BotTables → Option (Bool × BotTables)
  unfolding with_change
  with_condition incident now fresh none t = some (false, t)
  with_condition incident now fresh (some c) t =
      if is_incident incident c.active_incident_id
      then with_change incident now fresh c
          (escalate_if_still_down
            (record { state = c.state; since = c.failure_started_at; pid = none }) now
            interrupted_to_down_ms)
          t
      else some (false, t)

  -- `none` where announcing the event throws.
  pub escalate_instance : String → ℕ → String → BotTables → Option (Bool × BotTables)
  unfolding with_condition
  escalate_instance incident now fresh t = with_condition incident now fresh t.condition t
