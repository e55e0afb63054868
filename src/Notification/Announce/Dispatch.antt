-- ===== src/Notification/Announce/Dispatch.antt =====
-- packages/core/src/notification/announce.ts: an announcement, with a delivery for each destination.
pub mod Pairs
use open_mcc_manager.Prelude.{
  ℕ, ◌+◌, String, Bool, true, false, ◌&&◌, Option, none, some, List, [], ◌∷◌, ◌==◌, some_of, str_eq,
  length, if◌then◌else◌,
}
use open_mcc_manager.Status.Events.{StatusEventKind, is_notifying_event}
use open_mcc_manager.Notification.Announce.{
  EventFact, PlannedNotification, Announced, Destination, AnnounceQueue, email_queue, http_queue,
  QueuedDelivery, AnnounceJob, AnnounceTables, subscription_kind_for, plan_notification,
}

module _ (copy : StatusEventKind → String → String × String) where
  unfoldable pub queue_for : Destination → AnnounceQueue
  queue_for destination = if destination.uses_email then email_queue else http_queue

  abbrev is_delivery_to : ℕ → String → QueuedDelivery → Bool
  is_delivery_to notification_id destination_id row =
      (row.notification_id == notification_id) && str_eq row.destination_id destination_id

  add_delivery : ℕ → Destination → AnnounceTables → AnnounceTables
  unfolding queue_for
  add_delivery notification_id destination t = record t {
    deliveries =
        record {
          id = length t.deliveries;
          notification_id = notification_id;
          destination_id = destination.id;
        }
        ∷ t.deliveries;
    jobs =
        record { queue = queue_for destination; delivery_id = length t.deliveries; attempt = 1 }
        ∷ t.jobs;
  }

  -- `none` where the queue does not take a job, and the code throws.
  deliver_to : (AnnounceJob → Bool) → ℕ → List Destination → AnnounceTables → Option AnnounceTables
  unfolding add_delivery
  deliver_to accepts notification_id [] t = some t
  deliver_to accepts notification_id (destination ∷ rest) t =
      let skipped = deliver_to accepts notification_id rest t in
      let on =
        deliver_to accepts notification_id rest (add_delivery notification_id destination t) in
      let job : AnnounceJob = record {
        queue = queue_for destination;
        delivery_id = length t.deliveries;
        attempt = 1;
      } in
      if some_of (is_delivery_to notification_id destination.id) t.deliveries
      then skipped
      else if accepts job
      then on
      else none

  add_notification : EventFact → PlannedNotification → AnnounceTables → AnnounceTables
  add_notification fact planned t = record t {
    notifications =
        record { id = length t.notifications; planned = planned; incident_id = fact.incident_id }
        ∷ t.notifications;
  }

  abbrev has_key : String → Announced → Bool
  has_key key row = str_eq row.planned.dedupe_key key

  -- From the destinations on: `none` inside where nothing is announced.
  announce_to :
      (AnnounceJob → Bool)
      → EventFact
      → PlannedNotification
      → List Destination
      → AnnounceTables
      → Option (Option PlannedNotification × AnnounceTables)
  unfolding add_notification deliver_to
  announce_to accepts fact planned [] t = some (none, t)
  announce_to accepts fact planned (first ∷ rest) t =
      if some_of (has_key planned.dedupe_key) t.notifications
      then some (none, t)
      else elim (deliver_to accepts (length t.notifications) (first ∷ rest)
          (add_notification fact planned t)) [
            | none ↦ none
            | some after ↦ some (some planned, after)
          ]

  subscribers_if : Bool → StatusEventKind → AnnounceTables → List Destination
  subscribers_if false kind t = []
  subscribers_if true kind t = t.subscribers kind

  announce_planned :
      (AnnounceJob → Bool)
      → EventFact
      → Option PlannedNotification
      → AnnounceTables
      → Option (Option PlannedNotification × AnnounceTables)
  unfolding announce_to subscribers_if
  announce_planned accepts fact none t = some (none, t)
  announce_planned accepts fact (some planned) t =
      let kind = subscription_kind_for fact.kind in
      announce_to accepts fact planned (subscribers_if (is_notifying_event kind) kind t) t

  -- `none` where it throws, and the transaction around it is undone.
  unfoldable pub announce :
      (AnnounceJob → Bool)
      → EventFact
      → AnnounceTables
      → Option (Option PlannedNotification × AnnounceTables)
  unfolding announce_planned
  announce accepts fact t =
      announce_planned accepts fact (plan_notification copy fact t.notifications) t

  -- Events announced one after the other; one that throws leaves the tables as they were.
  pub announce_each : (AnnounceJob → Bool) → List EventFact → AnnounceTables → AnnounceTables
  announce_each accepts [] t = t
  announce_each accepts (fact ∷ facts) t = elim (announce accepts fact t) [
    | none ↦ announce_each accepts facts t
    | some (planned, after) ↦ announce_each accepts facts after
  ]
