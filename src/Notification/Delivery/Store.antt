-- ===== src/Notification/Delivery/Store.antt =====
-- The queries of packages/core/src/notification/notification.repository.ts that an attempt makes,
-- on tables that are functions of the id.
use open_mcc_manager.Prelude.{
  ℕ, String, Bool, true, false, Option, none, some, List, ◌∷◌, max, ltb, str_eq, if◌then◌else◌,
}
use open_mcc_manager.Notification.Outcome.{Reason, DeliveryOutcome}

pub data DeliveryState : Type 0 where
  queued delivered failed abandoned : DeliveryState

pub record DeliveryRow : Type 0 where
  pub destination_id : String
  pub notification_id : String
  pub state : DeliveryState
  pub attempts : ℕ
  pub settled_at : Option ℕ
  pub last_error : Option Reason

pub record DestinationRow : Type 0 where
  pub enabled : Bool
  pub last_succeeded_at : Option ℕ
  pub last_failed_at : Option ℕ
  pub last_failure_reason : Option Reason

pub record NotificationRow : Type 0 where
  pub title : String
  pub body : String

-- A row of `notificationAttempt`; its outcome kind and status are those of the outcome.
pub record Attempt : Type 0 where
  pub delivery_id : String
  pub attempt : ℕ
  pub outcome : DeliveryOutcome
  pub error : Option Reason

pub data QueueName : Type 0 where
  delivery_queue deadletter : QueueName

pub record Job : Type 0 where
  pub queue : QueueName
  pub delivery_id : String
  pub attempt : Option ℕ
  pub after : Option ℕ

-- The tables, and the jobs that were queued, the newest first.
pub record Tables : Type 0 where
  pub deliveries : String → Option DeliveryRow
  pub destinations : String → Option DestinationRow
  pub notifications : String → Option NotificationRow
  pub attempts : List Attempt
  pub jobs : List Job

-- `update … where id = key`: a row that is not there stays away.
abbrev pub update_at {ℓ} : {V : Type ℓ} → String → (V → V) → (String → Option V) → String → Option V
update_at key change rows id =
    if str_eq id key then elim (rows id) [ none ↦ none | some row ↦ some (change row) ] else rows id

unfoldable pub record_attempt : Tables → String → ℕ → DeliveryOutcome → Option Reason → Tables
record_attempt s id attempt outcome error = record s {
  attempts =
      record { delivery_id = id; attempt = attempt; outcome = outcome; error = error } ∷ s.attempts;
}

unfoldable pub settle_delivery :
    Tables → String → DeliveryState → ℕ → Option ℕ → Option Reason → Tables
settle_delivery s id state attempts settled_at last_error = record s {
  deliveries =
      update_at id
        (λ row. record row {
          state = state;
          attempts = attempts;
          settled_at = settled_at;
          last_error = last_error;
        })
        s.deliveries;
}

-- `greatest(lastSucceededAt, lastFailedAt) < observedAt`, where null counts as the distant past.
abbrev pub is_older : DestinationRow → ℕ → Bool
is_older row at = elim row.last_succeeded_at [
  | none ↦ elim row.last_failed_at [ none ↦ true | some b ↦ ltb b at ]
  | some a ↦ elim row.last_failed_at [ none ↦ ltb a at | some b ↦ ltb (max a b) at ]
]

-- `markDestinationOutcome` with `succeededAt`, and with `failedAt`.
unfoldable pub mark_destination_succeeded : Tables → String → ℕ → Tables
mark_destination_succeeded s id at = record s {
  destinations =
      update_at id
        (λ row.
          if is_older row at
          then record row { last_succeeded_at = some at; last_failure_reason = none }
          else row)
        s.destinations;
}

unfoldable pub mark_destination_failed : Tables → String → ℕ → Option Reason → Tables
mark_destination_failed s id at reason = record s {
  destinations =
      update_at id
        (λ row.
          if is_older row at
          then record row { last_failed_at = some at; last_failure_reason = reason }
          else row)
        s.destinations;
}

unfoldable pub disable_destination : Tables → String → Tables
disable_destination s id = record s {
  destinations = update_at id (λ row. record row { enabled = false }) s.destinations;
}

unfoldable pub send_job : Tables → Job → Tables
send_job s job = record s { jobs = job ∷ s.jobs }
