-- ===== src/Notification/Delivery/Retry.antt =====
-- A delivery over all its attempts: what the queue makes of the jobs that an attempt leaves.
use open_mcc_manager.Prelude.{
  ℕ, zero, suc, ◌+◌, ◌≤◌, ◌<◌, ◌≡◌, ◌≢◌, refl, inl, inr, Bool, true, false, Option, none, some,
  arith, Bool-cases, if◌then◌else◌,
}
use open_mcc_manager.Notification.Delivery.{
  Payload, DeliveryDeps, DeliveryResult, skipped, retrying, deliver, with_rows, record_outcome,
}
use open_mcc_manager.Notification.Delivery.Effects.{
  IsFinal, settled-skipped, deliver-settled, deliver-IsRequeued,
}
use open_mcc_manager.Notification.Delivery.Store.{Tables, Job}

is_retrying : Option DeliveryResult → Bool
is_retrying (some (retrying t)) = true
is_retrying _ = false

-- Attempt after attempt, each with what the handler is given at that attempt, while the result is
-- to try again. `none` also stands for fuel that has run out.
pub drive : (ℕ → DeliveryDeps) → ℕ → Payload → Tables → Option DeliveryResult × Tables
drive deps_at zero p s = (none, s)
drive deps_at (suc fuel) p s =
    let now = deliver (deps_at p.attempt) p s in
    let rest = drive deps_at fuel (record p { attempt = p.attempt + 1 }) now.1 in
    if is_retrying now.0 then rest else now

-- The queue takes every job.
abbrev pub AcceptsAll : DeliveryDeps → Type 0
AcceptsAll deps = (job : Job) → deps.accepts job ≡ true

deliver-ne-none :
    (deps : DeliveryDeps) (p : Payload) (s : Tables) → AcceptsAll deps → (deliver deps p s).0 ≢ none
unfolding deliver with_rows record_outcome
deliver-ne-none deps p s h = grind (arith, h)

IsFinal-of_not_retrying :
    (o : Option DeliveryResult)
    → o ≢ none
    → is_retrying o ≡ false
    → (r : DeliveryResult) × (o ≡ some r) × IsFinal r
unfolding is_retrying
IsFinal-of_not_retrying none n e = absurd (n refl)
IsFinal-of_not_retrying (some (retrying t)) n e = cc
IsFinal-of_not_retrying (some DeliveryResult.delivered) n e = (DeliveryResult.delivered, refl, tt)
IsFinal-of_not_retrying (some DeliveryResult.failed) n e = (DeliveryResult.failed, refl, tt)
IsFinal-of_not_retrying (some DeliveryResult.abandoned) n e = (DeliveryResult.abandoned, refl, tt)
IsFinal-of_not_retrying (some skipped) n e = (skipped, refl, tt)

retrying_of : (o : Option DeliveryResult) → is_retrying o ≡ true → (t : ℕ) × (o ≡ some (retrying t))
unfolding is_retrying
retrying_of (some (retrying t)) e = (t, refl)
retrying_of o e = cc

-- Once an attempt has ended in a result of its own, whatever job comes later for that delivery,
-- with whatever attempt, sender, limit and time, is skipped and leaves the tables alone.
pub deliver_once :
    (deps later : DeliveryDeps) (p : Payload) (attempt : ℕ) (s : Tables) (r : DeliveryResult)
    → (deliver deps p s).0 ≡ some r
    → IsFinal r
    → r ≢ skipped
    → deliver later (record p { attempt = attempt }) (deliver deps p s).1
      ≡ (some skipped, (deliver deps p s).1)
deliver_once deps later p attempt s r e f n =
    settled-skipped later (record p { attempt = attempt }) (deliver deps p s).1
      (deliver-settled deps p s r e f n)

-- A queue that takes every job brings a delivery to an end: as many attempts as the limit leaves,
-- and one more, end in a result that is not to try again, whatever the sender answers.
pub drive_ends :
    (deps_at : ℕ → DeliveryDeps) (limit fuel : ℕ) (p : Payload) (s : Tables)
    → ((n : ℕ) → AcceptsAll (deps_at n))
    → ((n : ℕ) → (deps_at n).retry_limit ≤ limit)
    → 0 < fuel
    → limit < p.attempt + fuel
    → (r : DeliveryResult) × ((drive deps_at fuel p s).0 ≡ some r) × IsFinal r
unfolding drive
drive_ends deps_at limit zero p s accepts below pos h = absurd (omega arith)
drive_ends deps_at limit (suc fuel) p s accepts below pos h =
    let deps = deps_at p.attempt in
    elim (Bool-cases (is_retrying (deliver deps p s).0)) [
      | inl again ↦
          let (t, e) = retrying_of _ again in
          let requeued = deliver-IsRequeued deps p s t e in
          rw again (
            drive_ends deps_at limit fuel (record p { attempt = p.attempt + 1 })
              (deliver deps p s).1 accepts below (omega (arith, below p.attempt, requeued.below))
              (omega arith))
      | inr ended ↦
          rw ended (IsFinal-of_not_retrying _ (deliver-ne-none deps p s (accepts p.attempt)) ended)
    ]
