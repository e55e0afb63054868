-- ===== src/Status/Bot.antt =====
-- recordInstanceConnection and escalateInstance of packages/core/src/status/status.controller.ts,
-- over the queries of status.repository.ts and with `announce`: what the changes of one bot's
-- connection write, and what the check that is queued for an outage does. A transaction that throws
-- is `none`. The ids that nanoid would draw and the time of the clock come with each change.
pub mod Escalate
pub mod Rounds
pub mod Tiles
pub mod Decided
pub mod Watch
use open_mcc_manager.Prelude.{
  ℕ, ◌+◌, ◌*◌, ◌/◌, String, Bool, true, false, ◌&&◌, ◌||◌, Option, none, some, List, [], ◌∷◌, map,
  max, ltb, leb, ◌==◌, if◌then◌else◌, str_eq, keep, some_of, find_first,
}
use open_mcc_manager.Status.Events.{
  StatusEventKind, instance_disconnected, instance_flapping, instance_connection_lost,
  instance_kicked,
}
use open_mcc_manager.Status.Events.Kinds.{kind_eq}
use open_mcc_manager.Status.Connection.{
  ConnectionState, joined, interrupted, down, never_joined, unknown, ConnectionChange,
  escalate_if_still_down,
}
use open_mcc_manager.Status.Incident.{
  IncidentDecision, next_incident, incident_of_event, counts_as_loss, LossWindow, loss_window,
  worth_claiming_flapping,
}
use open_mcc_manager.Status.Rollup.{StatusState, RollableInterval}
use open_mcc_manager.Status.Host.{close_open_interval, open_interval}
use open_mcc_manager.Notification.Announce.{
  EventFact, instance_, PlannedNotification, AnnounceTables, AnnounceJob,
}
use open_mcc_manager.Notification.Announce.Dispatch.{announce}

-- A row of `statusCondition`, of the dimension instance.connection; its state is one of
-- CONNECTION_STATES, which is all that is written there.
pub record BotCondition : Type 0 where
  pub state : ConnectionState
  pub started_at : ℕ
  pub last_observed_at : ℕ
  pub failure_started_at : Option ℕ
  pub active_incident_id : Option String
  pub last_flapped_at : Option ℕ

-- `sourceKey`: the text of a change, of an escalation or of a flap; texts of different keys differ.
pub data SourceKey : Type 0 where
  change_key : ℕ → StatusEventKind → SourceKey
  escalation_key : String → SourceKey
  flap_key : ℕ → SourceKey

pub record BotEvent : Type 0 where
  pub id : String
  pub kind : StatusEventKind
  pub occurred_at : ℕ
  pub incident_id : Option String
  pub source_key : SourceKey

-- A job on STATUS_ESCALATE_QUEUE.
pub record EscalationJob : Type 0 where
  pub incident_id : String
  pub start_after_seconds : ℕ

pub record BotTables : Type 0 where
  pub condition : Option BotCondition
  pub intervals : List RollableInterval
  pub events : List BotEvent
  pub escalations : List EscalationJob
  pub announcements : AnnounceTables

-- A change with the clock and the ids that are drawn while it is recorded.
pub record Recorded : Type 0 where
  pub change : ConnectionChange
  pub now : ℕ
  pub fresh_incident : String
  pub fresh_event : String
  pub fresh_flap : String

abbrev pub interrupted_to_down_ms : ℕ
interrupted_to_down_ms = 2 * 60 * 1000

abbrev pub flapping_window_ms : ℕ
flapping_window_ms = 30 * 60 * 1000

unfoldable pub state_of : ConnectionState → StatusState
state_of joined = StatusState.joined
state_of interrupted = StatusState.interrupted
state_of down = StatusState.down
state_of never_joined = StatusState.never_joined
state_of unknown = StatusState.unknown

pub same_key : SourceKey → SourceKey → Bool
same_key (change_key at kind) (change_key at' kind') = at == at' && kind_eq kind kind'
same_key (escalation_key id) (escalation_key id') = str_eq id id'
same_key (flap_key at) (flap_key at') = at == at'
same_key _ _ = false

-- `recordEvent`: the unique index on the source key makes a second insert do nothing.
pub insert_event : BotEvent → BotTables → Option BotTables
unfolding same_key
insert_event event t =
    if some_of (λ e. same_key e.source_key event.source_key) t.events
    then none
    else some (record t { events = event ∷ t.events })

-- `recentLossesAt`; what reads the result only counts it, so its order is left out.
pub recent_losses_at : LossWindow → List BotEvent → List ℕ
recent_losses_at window events =
    map (λ e. e.occurred_at)
      (keep
        (λ e.
          counts_as_loss (some e.kind)
          && leb window.since e.occurred_at
          && leb e.occurred_at window.until)
        events)

may_flap : Option ℕ → ℕ → Bool
may_flap none now = true
may_flap (some last) now = leb (last + flapping_window_ms) now

pub claim_flapping : ℕ → Option BotCondition → BotTables → Bool × BotTables
unfolding may_flap
claim_flapping now none t = (false, t)
claim_flapping now (some c) t =
    if may_flap c.last_flapped_at now
    then (true, record t { condition = some (record c { last_flapped_at = some now }) })
    else (false, t)

is_open : RollableInterval → Bool
is_open i = elim i.ended_at [ none ↦ true | some until ↦ false ]

-- Where the interval that is closed ends, and where the next one begins.
after_closed : ℕ → Option RollableInterval → ℕ
after_closed at none = at
after_closed at (some i) = if ltb at (max at i.started_at) then max at i.started_at else at

unfoldable pub start_at : ℕ → List RollableInterval → ℕ
unfolding after_closed is_open
start_at at is = after_closed at (find_first is_open is)

-- `upsertCondition`; an update keeps `lastFlappedAt`.
flapped_of : Option BotCondition → Option ℕ
flapped_of none = none
flapped_of (some c) = c.last_flapped_at

failure_start : ConnectionState → ℕ → Option ℕ
failure_start joined at = none
failure_start _ at = some at

unfoldable pub upsert_condition : ConnectionState → ℕ → ℕ → Option String → BotTables → BotTables
unfolding flapped_of failure_start
upsert_condition state at now incident t = record t {
  condition = some (record {
    state = state;
    started_at = at;
    last_observed_at = now;
    failure_started_at = failure_start state at;
    active_incident_id = incident;
    last_flapped_at = flapped_of t.condition;
  });
}

pub write_interval : ConnectionState → ℕ → BotTables → BotTables
unfolding close_open_interval open_interval state_of start_at
write_interval state at t = record t {
  intervals =
      open_interval (state_of state) (start_at at t.intervals) (close_open_interval at t.intervals);
}

abbrev pub active_of : Option BotCondition → Option String
active_of none = none
active_of (some c) = c.active_incident_id

abbrev is_known : Option BotCondition → Bool
is_known none = false
is_known (some c) = true

pub with_announced :
    Option (Option PlannedNotification × AnnounceTables) → BotTables → Option BotTables
with_announced none t = none
with_announced (some (planned, after)) t = some (record t { announcements = after })

infixl 5 ◌>>=◌
abbrev pub ◌>>=◌ : Option BotTables → (BotTables → Option BotTables) → Option BotTables
none >>= f = none
some t >>= f = f t

-- A transaction that throws leaves the tables as they were.
pub committed : Option BotTables → BotTables → BotTables
committed none t = t
committed (some after) t = after

module _ (copy : StatusEventKind → String → String × String) (accepts : AnnounceJob → Bool)
    (bot_id bot_name : String) where
  pub fact_of : BotEvent → Option String → EventFact
  fact_of event incident = record {
    status_event_id = event.id;
    kind = event.kind;
    subject_type = instance_;
    subject_id = bot_id;
    subject_name = bot_name;
    incident_id = incident;
  }

  pub announce_row : BotEvent → Option String → BotTables → Option BotTables
  unfolding fact_of with_announced
  announce_row event incident t =
      with_announced (announce copy accepts (fact_of event incident) t.announcements) t

  -- An event that is not new is not announced.
  pub announce_new : BotEvent → Option String → Option BotTables → BotTables → Option BotTables
  announce_new event incident none t = some t
  announce_new event incident (some after) t = announce_row event incident after

  pub record_event : BotEvent → Option String → BotTables → Option BotTables
  unfolding announce_new announce_row insert_event
  record_event event incident t = announce_new event incident (insert_event event t) t

  -- `accepts_check`: whether the queue takes the job. It throws where the job is not taken.
  pub schedule_check : Bool → Bool → Option String → BotTables → Option BotTables
  schedule_check accepts_check true (some incident) t =
      if accepts_check
      then some (record t {
        escalations =
            record { incident_id = incident; start_after_seconds = interrupted_to_down_ms / 1000 }
            ∷ t.escalations;
      })
      else none
  schedule_check accepts_check _ _ t = some t

  pub flapped : Recorded → Option String → Bool × BotTables → Option BotTables
  unfolding record_event
  flapped r incident (false, t) = some t
  flapped r incident (true, t) =
      record_event
        (record {
          id = r.fresh_flap;
          kind = instance_flapping;
          occurred_at = r.change.at;
          incident_id = incident;
          source_key = flap_key r.change.at;
        })
        none t

  -- `opening`: whether the bot had a condition before the first of the changes.
  pub record_flapping : Bool → Recorded → Option String → BotTables → Option BotTables
  unfolding flapped claim_flapping recent_losses_at
  record_flapping opening r incident t =
      if counts_as_loss (some r.change.event)
        && opening
        && worth_claiming_flapping
            (recent_losses_at (loss_window r.change.at flapping_window_ms) t.events) r.change.at
      then flapped r incident (claim_flapping r.change.at t.condition t)
      else some t

  pub change_event : Recorded → IncidentDecision → BotEvent
  change_event r decision = record {
    id = r.fresh_event;
    kind = r.change.event;
    occurred_at = r.change.at;
    incident_id = incident_of_event decision;
    source_key = change_key r.change.at r.change.event;
  }

  -- One round of the loop, with the outage that the change belongs to.
  pub record_change : Bool → Bool → Recorded → IncidentDecision → BotTables → Option BotTables
  unfolding record_event schedule_check record_flapping write_interval upsert_condition change_event
  record_change accepts_check opening r decision t = do
    announced ← record_event (change_event r decision) (incident_of_event decision) t
    scheduled ← schedule_check accepts_check decision.opened decision.incident_id announced
    claimed ← record_flapping opening r decision.incident_id scheduled
    some (
        upsert_condition r.change.state r.change.at r.now decision.incident_id
          (write_interval r.change.state r.change.at claimed))

  pub decide : Option String → Recorded → IncidentDecision
  decide incident r = next_incident incident r.change.state (some r.change.event) r.fresh_incident

  pub record_changes : Bool → Bool → Option String → List Recorded → BotTables → Option BotTables
  unfolding record_change decide
  record_changes accepts_check opening incident [] t = some t
  record_changes accepts_check opening incident (r ∷ rs) t =
      let decision = decide incident r in
      record_change accepts_check opening r decision t
      >>= record_changes accepts_check opening decision.incident_id rs

  pub record_instance_connection : Bool → List Recorded → BotTables → BotTables
  unfolding record_changes committed
  record_instance_connection accepts_check rs t =
      committed (record_changes accepts_check (is_known t.condition) (active_of t.condition) rs t) t
