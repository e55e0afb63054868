-- ===== src/Notification/Delivery/Tests.antt =====
-- A delivery that is tried again and then arrives.
use open_mcc_manager.Prelude.{
  ℕ, ◌≡◌, refl, arith, Bool, true, false, none, some, [], str_eq, str_eq_iff, if◌then◌else◌,
}
use open_mcc_manager.Notification.Outcome.{text, DeliveryOutcome, retryable}
use open_mcc_manager.Notification.Delivery.{
  DeliveryDeps, DeliveryResult, skipped, Payload, deliver, with_rows, record_outcome,
  next_delay_seconds,
}
use open_mcc_manager.Notification.Delivery.Store.{DeliveryState, Tables}
use open_mcc_manager.Notification.Delivery.Effects.{
  IsFinal, IsRequeued, IsPosted, deliver-IsPosted, deliver-frame, deliver-IsRequeued,
}
use open_mcc_manager.Notification.Delivery.Retry.{drive, deliver_once, drive_ends}

-- The tables with one delivery under way.
abbrev under_way : Tables
under_way = record {
  deliveries = λ id.
      if str_eq id "d1"
      then some (record {
        destination_id = "dest";
        notification_id = "n1";
        state = DeliveryState.queued;
        attempts = 0;
        settled_at = none;
        last_error = none;
      })
      else none;
  destinations = λ id. some (record {
    enabled = true;
    last_succeeded_at = none;
    last_failed_at = none;
    last_failure_reason = none;
  });
  notifications = λ id. some (record { title = "Host down"; body = "It does not answer" });
  attempts = [];
  jobs = [];
}

abbrev deps_with : DeliveryOutcome → Bool → DeliveryDeps
deps_with outcome accepts = record {
  send = λ destination notification. some outcome;
  redact = λ reason. reason;
  accepts = λ job. accepts;
  retry_limit = 5;
  now = 1000;
}

abbrev busy : DeliveryOutcome
busy = retryable (some 503) (text "Server answered 503") none none

abbrev arrived : DeliveryOutcome
arrived = DeliveryOutcome.delivered (some 200)

abbrev attempt : ℕ → Payload
attempt n = record { delivery_id = "d1"; attempt = n }

deliver_once_example :
    deliver
      (deps_with busy true)
      (attempt 2)
      (deliver (deps_with arrived true) (attempt 1) under_way).1
    ≡ (some skipped, (deliver (deps_with arrived true) (attempt 1) under_way).1)
unfolding deliver with_rows record_outcome
deliver_once_example =
    deliver_once (deps_with arrived true) (deps_with busy true) (attempt 1) 2 under_way
      DeliveryResult.delivered refl tt (λ e. cc e)

deliver-IsRequeued_example :
    IsRequeued
      (deps_with busy true)
      (attempt 2)
      30
      under_way
      (deliver (deps_with busy true) (attempt 2) under_way).1
unfolding deliver with_rows record_outcome next_delay_seconds
deliver-IsRequeued_example = deliver-IsRequeued (deps_with busy true) (attempt 2) under_way 30 refl

-- The queue does not take the job of the next attempt.
deliver-IsPosted_example :
    IsPosted
      (deps_with busy false)
      (attempt 2)
      under_way
      (deliver (deps_with busy false) (attempt 2) under_way)
deliver-IsPosted_example = deliver-IsPosted (deps_with busy false) (attempt 2) under_way

untouched_delivery :
    (deliver (deps_with arrived true) (attempt 1) under_way).1.deliveries "d2" ≡ none
untouched_delivery =
    deliver-frame (deps_with arrived true) (attempt 1) under_way "d2"
      (λ e. cc ((str_eq_iff "d2" "d1").1 e))

drive_ends_example :
    (r : DeliveryResult) × ((drive (λ n. deps_with busy true) 6 (attempt 1) under_way).0 ≡ some r)
    × IsFinal r
drive_ends_example =
    drive_ends (λ n. deps_with busy true) 5 6 (attempt 1) under_way (λ n job. refl)
      (λ n. omega arith) (omega arith) (omega arith)
