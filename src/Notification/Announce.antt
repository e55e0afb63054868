-- ===== src/Notification/Announce.antt =====
-- packages/core/src/notification/producer.ts and announce.ts, over lastAnnouncedAmong,
-- createNotification and createDelivery of notification.repository.ts: which event is announced,
-- and to whom. The rows of `notification` stand newest first, in the order in which they were made;
-- a row's incident is that of its status event. Every kind of notification but "test" is an event
-- kind, and no event has the kind "test". `copy` is notificationCopy.
pub mod Dispatch
mod Tests
use Prim.Native.String
use open_mcc_manager.Prelude.{
  ℕ, ◌+◌, String, Bool, true, false, not, ◌&&◌, ◌||◌, Option, none, some, List, [], ◌∷◌, ◌++◌, ◌==◌,
  find_first, some_of, str_eq, length, if◌then◌else◌,
}
use open_mcc_manager.Status.Events.{StatusEventKind, is_notifying_event, problem_resolved_by}
use open_mcc_manager.Status.Events.Kinds.{kind_eq}

pub data SubjectType : Type 0 where
  host instance_ : SubjectType

pub record EventFact : Type 0 where
  pub status_event_id : String
  pub kind : StatusEventKind
  pub subject_type : SubjectType
  pub subject_id : String
  pub subject_name : String
  pub incident_id : Option String

pub record PlannedNotification : Type 0 where
  pub kind : StatusEventKind
  pub title : String
  pub body : String
  pub subject_type : SubjectType
  pub subject_id : String
  pub dedupe_key : String
  pub source_status_event_id : String

-- A row of `notification`, with the incident of its event.
pub record Announced : Type 0 where
  pub id : ℕ
  pub planned : PlannedNotification
  pub incident_id : Option String

pub record Destination : Type 0 where
  pub id : String
  pub uses_email : Bool

pub data AnnounceQueue : Type 0 where
  email_queue http_queue : AnnounceQueue

pub record QueuedDelivery : Type 0 where
  pub id : ℕ
  pub notification_id : ℕ
  pub destination_id : String

pub record AnnounceJob : Type 0 where
  pub queue : AnnounceQueue
  pub delivery_id : ℕ
  pub attempt : ℕ

pub record AnnounceTables : Type 0 where
  pub subscribers : StatusEventKind → List Destination
  pub notifications : List Announced
  pub deliveries : List QueuedDelivery
  pub jobs : List AnnounceJob

unfoldable pub dedupe_key_for : String → String
dedupe_key_for status_event_id = String.◌++◌ "event:" status_event_id

abbrev or_kind : Option StatusEventKind → StatusEventKind → StatusEventKind
or_kind none kind = kind
or_kind (some problem) kind = problem

unfoldable pub subscription_kind_for : StatusEventKind → StatusEventKind
subscription_kind_for kind = or_kind (problem_resolved_by kind) kind

abbrev is_some : Option StatusEventKind → Bool
is_some none = false
is_some (some kind) = true

-- `NOTIFICATION_KINDS.find`
unfoldable pub as_notification_kind : StatusEventKind → Option StatusEventKind
as_notification_kind kind =
    if is_notifying_event kind || is_some (problem_resolved_by kind) then some kind else none

abbrev kinds_of : Option StatusEventKind → List StatusEventKind
kinds_of none = []
kinds_of (some kind) = kind ∷ []

abbrev named_problem : Option StatusEventKind → Option StatusEventKind
named_problem none = none
named_problem (some problem) = as_notification_kind problem

unfoldable pub relevant_kinds : StatusEventKind → List StatusEventKind
unfolding as_notification_kind
relevant_kinds kind =
    kinds_of (named_problem (problem_resolved_by kind)) ++ kinds_of (as_notification_kind kind)

abbrev is_kind : StatusEventKind → Option StatusEventKind → Bool
is_kind problem none = false
is_kind problem (some last) = kind_eq last problem

worth_given : StatusEventKind → Option StatusEventKind → Option StatusEventKind → Bool
worth_given kind none last = is_notifying_event kind
worth_given kind (some problem) last = is_kind problem last

unfoldable pub worth_announcing : StatusEventKind → Option StatusEventKind → Bool
unfolding worth_given
worth_announcing kind last = worth_given kind (problem_resolved_by kind) last

unfoldable pub same_subject_type : SubjectType → SubjectType → Bool
same_subject_type host host = true
same_subject_type instance_ instance_ = true
same_subject_type _ _ = false

-- `where "statusEvent.incidentId" = incidentId`, only where an incident is given.
unfoldable pub of_incident : Option String → Option String → Bool
of_incident none row = true
of_incident (some incident) none = false
of_incident (some incident) (some id) = str_eq id incident

-- The conditions of `lastAnnouncedAmong`.
unfoldable pub is_among :
    SubjectType → String → List StatusEventKind → Option String → Announced → Bool
is_among subject_type subject_id kinds incident row =
    same_subject_type row.planned.subject_type subject_type
    && str_eq row.planned.subject_id subject_id
    && some_of (kind_eq row.planned.kind) kinds
    && of_incident incident row.incident_id

abbrev kind_of : Option Announced → Option StatusEventKind
kind_of none = none
kind_of (some row) = some row.planned.kind

unfoldable pub last_announced : EventFact → List Announced → Option StatusEventKind
unfolding is_among relevant_kinds
last_announced fact rows = kind_of (
    find_first
      (is_among fact.subject_type fact.subject_id (relevant_kinds fact.kind) fact.incident_id) rows)

-- `previous`: asked for only where the event resolves a problem.
previous_kind : Option StatusEventKind → EventFact → List Announced → Option StatusEventKind
unfolding last_announced
previous_kind none fact rows = none
previous_kind (some problem) fact rows = last_announced fact rows

module _ (copy : StatusEventKind → String → String × String) where
  plan_kind : EventFact → StatusEventKind → PlannedNotification
  plan_kind fact kind =
      let (title, body) = copy kind fact.subject_name in
      record {
        kind = kind;
        title = title;
        body = body;
        subject_type = fact.subject_type;
        subject_id = fact.subject_id;
        dedupe_key = dedupe_key_for fact.status_event_id;
        source_status_event_id = fact.status_event_id;
      }

  planned_kind : EventFact → List Announced → Option StatusEventKind → Option PlannedNotification
  unfolding plan_kind previous_kind
  planned_kind fact rows none = none
  planned_kind fact rows (some kind) =
      if worth_announcing fact.kind (previous_kind (problem_resolved_by fact.kind) fact rows)
      then some (plan_kind fact kind)
      else none

  unfoldable pub plan_notification : EventFact → List Announced → Option PlannedNotification
  unfolding planned_kind
  plan_notification fact rows = planned_kind fact rows (as_notification_kind fact.kind)
