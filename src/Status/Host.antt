-- ===== src/Status/Host.antt =====
-- recordHostReachability of packages/core/src/status/status.controller.ts, over the queries of
-- status.repository.ts and with `announce`: what a probe of one host writes. The intervals stand
-- in the order in which they were opened. `fresh` is the id that nanoid would draw.
pub mod Intervals
mod Tests
use open_mcc_manager.Prelude.{
  ℕ, String, Bool, true, false, not, ◌&&◌, Option, none, some, List, [], ◌∷◌, ◌++◌, map, max,
  if◌then◌else◌,
}
use open_mcc_manager.Status.Events.{StatusEventKind}
use open_mcc_manager.Status.Reachability.{
  ReachabilityState, up, suspect, down, unknown, ReachabilityCurrent, ReachabilityDecision,
  unobserved, next_reachability,
}
use open_mcc_manager.Status.Rollup.{StatusState, RollableInterval}
use open_mcc_manager.Notification.Announce.{
  EventFact, host, PlannedNotification, AnnounceTables, AnnounceJob,
}
use open_mcc_manager.Notification.Announce.Dispatch.{announce}

-- A row of `statusCondition`, of the dimension host.reachability.
pub record HostCondition : Type 0 where
  pub state : StatusState
  pub started_at : ℕ
  pub last_observed_at : ℕ
  pub failure_started_at : Option ℕ
  pub active_incident_id : Option String

-- A row of `statusEvent`.
pub record HostEvent : Type 0 where
  pub id : String
  pub kind : StatusEventKind
  pub occurred_at : ℕ
  pub incident_id : Option String

-- What the tables hold of one host, and the tables of the announcements.
pub record HostTables : Type 0 where
  pub condition : Option HostCondition
  pub intervals : List RollableInterval
  pub events : List HostEvent
  pub announcements : AnnounceTables

pub record HostObservation : Type 0 where
  pub reached : Bool
  pub now : ℕ
  pub fresh_incident : String
  pub fresh_event : String

unfoldable pub as_status : ReachabilityState → StatusState
as_status up = StatusState.up
as_status suspect = StatusState.suspect
as_status down = StatusState.down
as_status unknown = StatusState.unknown

unfoldable pub as_reachability : StatusState → ReachabilityState
as_reachability StatusState.up = up
as_reachability StatusState.suspect = suspect
as_reachability StatusState.down = down
as_reachability _ = unknown

unfoldable pub current_of : Option HostCondition → ReachabilityCurrent
unfolding as_reachability
current_of none = unobserved
current_of (some c) = record {
  state = as_reachability c.state;
  failure_started_at = c.failure_started_at;
}

-- `existing?.activeIncidentId ?? null`
abbrev active_incident : Option HostCondition → Option String
active_incident none = none
active_incident (some c) = c.active_incident_id

-- `a ?? b`
abbrev or_else : Option String → Option String → Option String
or_else none b = b
or_else (some a) b = some a

incident_for : ReachabilityState → Option HostCondition → String → Option String
incident_for down existing fresh = or_else (active_incident existing) (some fresh)
incident_for up existing fresh = none
incident_for _ existing fresh = active_incident existing

-- `greatest(endedAt, startedAt)`, where the interval is still open.
unfoldable pub close_interval : ℕ → RollableInterval → RollableInterval
close_interval at i = elim i.ended_at [
  | none ↦ record i { ended_at = some (max at i.started_at) }
  | some until ↦ i
]

unfoldable pub close_open_interval : ℕ → List RollableInterval → List RollableInterval
unfolding close_interval
close_open_interval at is = map (close_interval at) is

unfoldable pub open_interval : StatusState → ℕ → List RollableInterval → List RollableInterval
open_interval state at is = is ++ record { state = state; started_at = at; ended_at = none } ∷ []

unfoldable pub touch_condition : ℕ → HostTables → HostTables
touch_condition at t = record t {
  condition = elim t.condition [ none ↦ none | some c ↦ some (record c { last_observed_at = at }) ];
}

-- The writes after the event, if any, was announced.
write_state : ReachabilityDecision → Option String → ℕ → HostTables → HostTables
unfolding close_open_interval open_interval as_status
write_state decision incident now t = record t {
  intervals = open_interval (as_status decision.state) now (close_open_interval now t.intervals);
  condition = some (record {
    state = as_status decision.state;
    started_at = now;
    last_observed_at = now;
    failure_started_at = decision.failure_started_at;
    active_incident_id = incident;
  });
}

abbrev pub is_known : Option HostCondition → Bool
is_known none = false
is_known (some c) = true

module _ (copy : StatusEventKind → String → String × String) (accepts : AnnounceJob → Bool)
    (host_id host_name : String) where
  fact_of : HostEvent → EventFact
  fact_of event = record {
    status_event_id = event.id;
    kind = event.kind;
    subject_type = host;
    subject_id = host_id;
    subject_name = host_name;
    incident_id = event.incident_id;
  }

  -- The event is recorded and announced; `none` where announcing it throws.
  record_event :
      HostObservation → Option StatusEventKind → Option String → HostTables → Option HostTables
  unfolding fact_of
  record_event o none incident t = some t
  record_event o (some kind) incident t =
      let event : HostEvent = record {
        id = o.fresh_event;
        kind = kind;
        occurred_at = o.now;
        incident_id = incident;
      } in
      elim (announce copy accepts (fact_of event) t.announcements) [
        | none ↦ none
        | some (planned, after) ↦
            some (record t { events = event ∷ t.events; announcements = after })
      ]

  write_after : ReachabilityDecision → Option String → ℕ → Option HostTables → Option HostTables
  unfolding write_state
  write_after decision incident now none = none
  write_after decision incident now (some t) = some (write_state decision incident now t)

  write_change : HostObservation → ReachabilityDecision → HostTables → Option HostTables
  unfolding incident_for record_event write_after
  write_change o decision t =
      let incident = incident_for decision.state t.condition o.fresh_incident in
      write_after decision incident o.now
        (record_event o decision.event (or_else incident (active_incident t.condition)) t)

  write_decision : HostObservation → ReachabilityDecision → HostTables → Option HostTables
  unfolding write_change touch_condition
  write_decision o decision t =
      let changed = write_change o decision t in
      if not decision.changed && is_known t.condition
      then some (touch_condition o.now t)
      else changed

  -- A transaction that throws leaves the tables as they were; `limit` is HOST_SUSPECT_TO_DOWN_MS.
  pub record_host_reachability : ℕ → HostObservation → HostTables → HostTables
  unfolding write_decision current_of
  record_host_reachability limit o t =
      elim (write_decision o (next_reachability (current_of t.condition) o.reached o.now limit) t) [
        | none ↦ t
        | some after ↦ after
      ]

  -- Observations one after the other.
  pub record_each : ℕ → List HostObservation → HostTables → HostTables
  unfolding record_host_reachability
  record_each limit [] t = t
  record_each limit (o ∷ os) t = record_each limit os (record_host_reachability limit o t)
