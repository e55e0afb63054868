-- ===== src/Notification/Delivery/Effects.antt =====
-- What one attempt does to the tables, on every branch.
use open_mcc_manager.Prelude.{
  ℕ, ◌+◌, ◌≤◌, ◌<◌, ◌≡◌, ◌≢◌, String, Bool, true, false, Option, none, some, ◌∷◌, arith, str_eq_iff,
  refl, ◌⊎◌, inl, inr, Bool-cases, leb, if◌then◌else◌,
}
use open_mcc_manager.Notification.Outcome.{DeliveryOutcome, retryable, terminal}
use open_mcc_manager.Notification.Delivery.{
  Payload, DeliveryDeps, DeliveryResult, skipped, retrying, deliver, with_delivery, with_rows,
  send_or_refuse, in_transaction, record_outcome, give_up, try_again, Reason, backoff_seconds,
  next_delay_seconds, is_settled,
}
use open_mcc_manager.Notification.Delivery.Store.{
  DeliveryRow, DestinationRow, NotificationRow, Tables, Job, delivery_queue, deadletter,
}

next_delay_bounds :
    (attempt : ℕ) (asked : Option ℕ)
    → (backoff_seconds attempt ≤ next_delay_seconds attempt asked)
      × (next_delay_seconds attempt asked ≤ 3600)
unfolding next_delay_seconds
next_delay_bounds attempt asked = ground arith

-- The job of the next attempt, and the job that reports a delivery that was given up.
abbrev next_job : Payload → ℕ → Job
next_job p seconds = record {
  queue = delivery_queue;
  delivery_id = p.delivery_id;
  attempt = some (p.attempt + 1);
  after = some seconds;
}

abbrev dead_letter : Payload → Job
dead_letter p = record {
  queue = deadletter;
  delivery_id = p.delivery_id;
  attempt = none;
  after = none;
}

-- What an attempt promises about the queue, by its result.
abbrev pub IsPosted : DeliveryDeps → Payload → Tables → Option DeliveryResult × Tables → Type 0
IsPosted deps p before (some (retrying seconds), after) =
    (deps.accepts (next_job p seconds) ≡ true) × (after.jobs ≡ next_job p seconds ∷ before.jobs)
IsPosted deps p before (some DeliveryResult.failed, after) =
    (deps.accepts (dead_letter p) ≡ true) × (after.jobs ≡ dead_letter p ∷ before.jobs)
IsPosted deps p before (some skipped, after) = after ≡ before
IsPosted deps p before (some DeliveryResult.delivered, after) = after.jobs ≡ before.jobs
IsPosted deps p before (some DeliveryResult.abandoned, after) = after.jobs ≡ before.jobs
IsPosted deps p before (none, after) =
    (after ≡ before)
    × ((deps.accepts (dead_letter p) ≡ false)
        ⊎ ((seconds : ℕ) × (deps.accepts (next_job p seconds) ≡ false)))

module _ (deps : DeliveryDeps) (p : Payload) (s : Tables) where
  if-IsPosted :
      (b : Bool) (x y : Option DeliveryResult × Tables)
      → IsPosted deps p s x
      → IsPosted deps p s y
      → IsPosted deps p s (if b then x else y)
  if-IsPosted true x y on off = on
  if-IsPosted false x y on off = off

  give_up-IsPosted :
      (stop : Bool) (id : String) (why : Reason) (s1 : Tables)
      → s1.jobs ≡ s.jobs
      → IsPosted deps p s (in_transaction s (give_up deps p stop id why s1))
  unfolding give_up
  give_up-IsPosted stop id why s1 same = elim (Bool-cases (deps.accepts (dead_letter p))) [
    | inl taken ↦ rw taken (taken, ground (arith, same))
    | inr refused ↦ rw refused (refl, inl refused)
  ]

  try_again-IsPosted :
      (asked : Option ℕ) (why : Reason) (s1 : Tables)
      → s1.jobs ≡ s.jobs
      → IsPosted deps p s (in_transaction s (try_again deps p asked why s1))
  unfolding try_again
  try_again-IsPosted asked why s1 same =
      let seconds = next_delay_seconds p.attempt asked in
      elim (Bool-cases (deps.accepts (next_job p seconds))) [
        | inl taken ↦ rw taken (taken, ground (arith, same))
        | inr refused ↦ rw refused (refl, inr (seconds, refused))
      ]

  transaction-IsPosted :
      (id : String) (o : DeliveryOutcome)
      → IsPosted deps p s (in_transaction s (record_outcome deps p id o s))
  unfolding record_outcome
  transaction-IsPosted id (DeliveryOutcome.delivered c) = refl
  transaction-IsPosted id (retryable c why asked d) =
      elim (Bool-cases (leb deps.retry_limit p.attempt)) [
        | inl last ↦ rw last (give_up-IsPosted false id (deps.redact why) _ refl)
        | inr more ↦ rw more (try_again-IsPosted asked (deps.redact why) _ refl)
      ]
  transaction-IsPosted id (terminal c why stop d) =
      give_up-IsPosted stop id (deps.redact why) _ refl

  with_rows-IsPosted :
      (id : String) (d : Option DestinationRow) (n : Option NotificationRow)
      → IsPosted deps p s (with_rows deps p id d n s)
  unfolding with_rows
  with_rows-IsPosted id none n = refl
  with_rows-IsPosted id (some d) none = refl
  with_rows-IsPosted id (some d) (some n) =
      if-IsPosted d.enabled _ _ (transaction-IsPosted id (send_or_refuse deps d n)) refl

  with_delivery-IsPosted : (o : Option DeliveryRow) → IsPosted deps p s (with_delivery deps p o s)
  unfolding with_delivery
  with_delivery-IsPosted none = refl
  with_delivery-IsPosted (some r) = if-IsPosted (is_settled r.state) _ _ refl (
      with_rows-IsPosted r.destination_id (s.destinations r.destination_id)
        (s.notifications r.notification_id))

-- No delivery is lost at the queue. An attempt that is to be made again has queued exactly its next
-- job, which was taken, and one that is given up exactly the job that reports it; a delivery that
-- goes out or is abandoned queues nothing, and a skip changes nothing. An attempt throws only where
-- the queue refuses such a job, and then leaves the tables as it found them.
pub deliver-IsPosted :
    (deps : DeliveryDeps) (p : Payload) (s : Tables) → IsPosted deps p s (deliver deps p s)
unfolding deliver
deliver-IsPosted deps p s = with_delivery-IsPosted deps p s (s.deliveries p.delivery_id)

-- Whether a delivery is on record as delivered, failed or abandoned.
unfoldable pub is_settled_at : Tables → String → Bool
unfolding is_settled
is_settled_at s id = elim (s.deliveries id) [ none ↦ false | some row ↦ is_settled row.state ]

abbrev pub IsFinal : DeliveryResult → Type 0
IsFinal skipped = Unit
IsFinal (retrying t) = ⊥
IsFinal _ = Unit

module _ (deps : DeliveryDeps) (p : Payload) (s : Tables) where
  -- A delivery that is on record as settled is skipped, and the tables stay as they are.
  pub settled-skipped : is_settled_at s p.delivery_id ≡ true → deliver deps p s ≡ (some skipped, s)
  unfolding deliver with_rows record_outcome is_settled_at
  settled-skipped h = ground arith

  -- An attempt that ends otherwise than with a skip or a retry leaves its delivery settled.
  pub deliver-settled :
      (r : DeliveryResult)
      → (deliver deps p s).0 ≡ some r
      → IsFinal r
      → r ≢ skipped
      → is_settled_at (deliver deps p s).1 p.delivery_id ≡ true
  unfolding deliver with_rows record_outcome is_settled_at
  deliver-settled r e f n = ground (arith, str_eq_iff p.delivery_id p.delivery_id)

  -- An attempt touches no other delivery, whatever its result.
  pub deliver-frame :
      (id : String) → id ≢ p.delivery_id → (deliver deps p s).1.deliveries id ≡ s.deliveries id
  unfolding deliver with_rows record_outcome
  deliver-frame id h = ground (arith, str_eq_iff id p.delivery_id)

-- What the tables hold once an attempt is to be made again.
pub record IsRequeued (deps : DeliveryDeps) (p : Payload) (t : ℕ) (before after : Tables)
    : Type 0 where
  pub below : p.attempt < deps.retry_limit
  pub at_least : backoff_seconds p.attempt ≤ t
  pub at_most : t ≤ 3600
  pub job :
      after.jobs
      ≡ record {
        queue = delivery_queue;
        delivery_id = p.delivery_id;
        attempt = some (p.attempt + 1);
        after = some t;
      }
        ∷ before.jobs

module _ (deps : DeliveryDeps) (p : Payload) where
  transaction-IsRequeued :
      (id : String) (o : DeliveryOutcome) (s : Tables) (t : ℕ)
      → (in_transaction s (record_outcome deps p id o s)).0 ≡ some (retrying t)
      → IsRequeued deps p t s (in_transaction s (record_outcome deps p id o s)).1
  unfolding record_outcome
  transaction-IsRequeued id (DeliveryOutcome.delivered c) s t e = ground arith
  transaction-IsRequeued id (retryable c why asked d) s t e =
      ground (arith, next_delay_bounds p.attempt asked)
  transaction-IsRequeued id (terminal c why stop d) s t e = ground arith

  with_rows-IsRequeued :
      (id : String) (d : Option DestinationRow) (n : Option NotificationRow) (s : Tables) (t : ℕ)
      → (with_rows deps p id d n s).0 ≡ some (retrying t)
      → IsRequeued deps p t s (with_rows deps p id d n s).1
  unfolding with_rows
  with_rows-IsRequeued id none n s t e = cc
  with_rows-IsRequeued id (some d) none s t e = cc
  with_rows-IsRequeued id (some d) (some n) s t e =
      ground (arith, transaction-IsRequeued id (send_or_refuse deps d n) s t)

  with_delivery-IsRequeued :
      (o : Option DeliveryRow) (s : Tables) (t : ℕ)
      → (with_delivery deps p o s).0 ≡ some (retrying t)
      → IsRequeued deps p t s (with_delivery deps p o s).1
  unfolding with_delivery
  with_delivery-IsRequeued none s t e = cc
  with_delivery-IsRequeued (some r) s t e =
      let destination = s.destinations r.destination_id in
      let notification = s.notifications r.notification_id in
      ground (arith, with_rows-IsRequeued r.destination_id destination notification s t)

-- An attempt that is to be made again was below the limit, and has queued exactly one job: the next
-- attempt, after no less than the back-off and no more than an hour.
pub deliver-IsRequeued :
    (deps : DeliveryDeps) (p : Payload) (s : Tables) (t : ℕ)
    → (deliver deps p s).0 ≡ some (retrying t)
    → IsRequeued deps p t s (deliver deps p s).1
unfolding deliver
deliver-IsRequeued deps p s t e = with_delivery-IsRequeued deps p (s.deliveries p.delivery_id) s t e
