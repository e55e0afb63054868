-- ===== src/Notification/Delivery.antt =====
-- packages/core/src/notification/delivery.job.ts with the queries of notification.repository.ts
-- that it makes: one attempt to deliver a notification.
-- The tables are those of one organization, the payload's: every query is held to it. A `Date` is
-- its time in milliseconds.
pub mod Store
pub mod Effects
pub mod Retry
mod Tests
use open_mcc_manager.Prelude.{
  ℕ, ◌+◌, ◌-◌, ◌*◌, ◌^◌, String, Bool, true, false, ◌||◌, Option, none, some, List, min, max, leb,
  get_or_else, if◌then◌else◌,
}
use open_mcc_manager.Notification.Outcome.{
  Reason, text, DeliveryOutcome, retryable, terminal, classify_refusal,
}
use Store.{
  DeliveryState, Tables, DeliveryRow, DestinationRow, NotificationRow, Job, deadletter,
  delivery_queue, record_attempt, settle_delivery, mark_destination_succeeded,
  mark_destination_failed, disable_destination, send_job,
}

abbrev pub base_retry_seconds : ℕ
base_retry_seconds = 15

abbrev pub max_retry_seconds : ℕ
max_retry_seconds = 60 * 60

-- `Math.max(0, attempt - 1)` is the subtraction that stops at 0.
unfoldable pub backoff_seconds : ℕ → ℕ
backoff_seconds attempt = min max_retry_seconds (base_retry_seconds * 2 ^ (attempt - 1))

unfoldable pub next_delay_seconds : ℕ → Option ℕ → ℕ
unfolding backoff_seconds
next_delay_seconds attempt asked_for =
    min max_retry_seconds (max (get_or_else asked_for 0) (backoff_seconds attempt))

pub record Payload : Type 0 where
  pub delivery_id : String
  pub attempt : ℕ

pub data DeliveryResult : Type 0 where
  delivered failed abandoned skipped : DeliveryResult
  retrying : (after_seconds : ℕ) → DeliveryResult

-- What the handler is given: the sender (`none` where it throws), what `redact` leaves of a reason,
-- whether the queue takes a job (`false` where `sendJob` answers null), the limit and the time.
pub record DeliveryDeps : Type 0 where
  pub send : DestinationRow → NotificationRow → Option DeliveryOutcome
  pub redact : Reason → Reason
  pub accepts : Job → Bool
  pub retry_limit : ℕ
  pub now : ℕ

-- A transaction that throws leaves the tables as they were.
abbrev in_transaction : Tables → Option (DeliveryResult × Tables) → Option DeliveryResult × Tables
in_transaction s none = (none, s)
in_transaction s (some (r, s')) = (some r, s')

-- `SETTLED.has`
is_settled : DeliveryState → Bool
is_settled DeliveryState.queued = false
is_settled DeliveryState.delivered = true
is_settled DeliveryState.failed = true
is_settled DeliveryState.abandoned = true

abandon : DeliveryDeps → Payload → String → Tables → Option DeliveryResult × Tables
unfolding settle_delivery
abandon deps p why s = (
  some DeliveryResult.abandoned,
  settle_delivery s p.delivery_id DeliveryState.abandoned p.attempt (some deps.now)
      (some (text why)),
)

gave_up : Reason
gave_up = text "the delivery did not go through"

-- The `try` around `deps.send`.
send_or_refuse : DeliveryDeps → DestinationRow → NotificationRow → DeliveryOutcome
unfolding gave_up
send_or_refuse deps destination notification = elim (deps.send destination notification) [
  | none ↦ classify_refusal gave_up
  | some outcome ↦ outcome
]

-- The branch `if (giveUp)`.
give_up :
    DeliveryDeps → Payload → Bool → String → Reason → Tables → Option (DeliveryResult × Tables)
unfolding disable_destination settle_delivery send_job
give_up deps p stop destination_id why s =
    let s1 = if stop then disable_destination s destination_id else s in
    let s2 =
      settle_delivery s1 p.delivery_id DeliveryState.failed p.attempt (some deps.now) (some why) in
    let job : Job = record {
      queue = deadletter;
      delivery_id = p.delivery_id;
      attempt = none;
      after = none;
    } in
    if deps.accepts job then some (DeliveryResult.failed, send_job s2 job) else none

-- The last part of the transaction: try again later.
try_again : DeliveryDeps → Payload → Option ℕ → Reason → Tables → Option (DeliveryResult × Tables)
unfolding settle_delivery send_job
try_again deps p asked_for why s =
    let after_seconds = next_delay_seconds p.attempt asked_for in
    let s1 = settle_delivery s p.delivery_id DeliveryState.queued p.attempt none (some why) in
    let job : Job = record {
      queue = delivery_queue;
      delivery_id = p.delivery_id;
      attempt = some (p.attempt + 1);
      after = some after_seconds;
    } in
    if deps.accepts job then some (retrying after_seconds, send_job s1 job) else none

-- The body of the last transaction.
record_outcome :
    DeliveryDeps → Payload → String → DeliveryOutcome → Tables → Option (DeliveryResult × Tables)
unfolding give_up try_again record_attempt mark_destination_succeeded mark_destination_failed
record_outcome deps p destination_id (DeliveryOutcome.delivered status) s =
    let s1 = record_attempt s p.delivery_id p.attempt (DeliveryOutcome.delivered status) none in
    let s2 =
      settle_delivery s1 p.delivery_id DeliveryState.delivered p.attempt (some deps.now) none in
    some (DeliveryResult.delivered, mark_destination_succeeded s2 destination_id deps.now)
record_outcome deps p destination_id (terminal status reason stop detail) s =
    let why = deps.redact reason in
    let s1 =
      record_attempt s p.delivery_id p.attempt (terminal status reason stop detail) (some why) in
    let s2 = mark_destination_failed s1 destination_id deps.now (some why) in
    give_up deps p stop destination_id why s2
record_outcome deps p destination_id (retryable status reason asked detail) s =
    let why = deps.redact reason in
    let s1 =
      record_attempt s p.delivery_id p.attempt (retryable status reason asked detail) (some why) in
    let s2 = mark_destination_failed s1 destination_id deps.now (some why) in
    let last = give_up deps p false destination_id why s2 in
    let more = try_again deps p asked why s2 in
    if leb deps.retry_limit p.attempt then last else more

-- What follows once the destination and the notification are looked up.
with_rows :
    DeliveryDeps
    → Payload
    → String
    → Option DestinationRow
    → Option NotificationRow
    → Tables
    → Option DeliveryResult × Tables
unfolding abandon send_or_refuse
with_rows deps p destination_id (some destination) (some notification) s =
    if destination.enabled
    then in_transaction s
        (record_outcome deps p destination_id (send_or_refuse deps destination notification) s)
    else abandon deps p "this destination was turned off before it could be sent" s
with_rows deps p destination_id _ _ s =
    abandon deps p "the destination was removed before this could be sent" s

with_delivery :
    DeliveryDeps → Payload → Option DeliveryRow → Tables → Option DeliveryResult × Tables
unfolding is_settled
with_delivery deps p none s = (some skipped, s)
with_delivery deps p (some row) s =
    if is_settled row.state
    then (some skipped, s)
    else with_rows deps p row.destination_id (s.destinations row.destination_id)
        (s.notifications row.notification_id) s

-- The handler: `none` where it throws.
pub deliver : DeliveryDeps → Payload → Tables → Option DeliveryResult × Tables
unfolding with_delivery
deliver deps p s = with_delivery deps p (s.deliveries p.delivery_id) s
