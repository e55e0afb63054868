-- ===== src/Status/Bot/Escalate/Unrecorded.antt =====
-- A check that claims the outage, whatever comes of its event.
use open_mcc_manager.Prelude.{
  ℕ, ◌≡◌, refl, ◌⊎◌, inl, inr, String, Bool, true, false, Option, none, some, Bool-cases,
}
use mathlib.Core.Path.{subst}
use open_mcc_manager.Status.Events.{StatusEventKind}
use open_mcc_manager.Status.Connection.{down, ConnectionChange}
use open_mcc_manager.Notification.Announce.{AnnounceJob}
use open_mcc_manager.Status.Bot.{BotCondition, BotEvent, BotTables, announce_row, insert_event}
use open_mcc_manager.Status.Bot.Escalate.{
  is_incident, escalation_event, write_down, with_event, with_claim, with_change, with_condition,
  escalate_instance,
}
use open_mcc_manager.Status.Bot.Escalate.Late.{
  LateIf, escalate_if-Late, claim_escalation-due, is_incident-eq,
}
use open_mcc_manager.Status.Bot.Escalate.Checks.{IsDue, escalate_instance-IsDue}

abbrev pub down_since : ℕ → BotCondition → BotCondition
down_since now c = record c { state = down; last_observed_at = now; started_at = now }

-- The condition is down for the same outage, whose check stays queued.
pub record IsClaimed (incident : String) (now : ℕ) (t t' : BotTables) : Type 0 where
  pub before : BotCondition
  pub found : t.condition ≡ some before
  pub same_outage : before.active_incident_id ≡ some incident
  pub claimed : t'.condition ≡ some (down_since now before)
  pub same_checks : t'.escalations ≡ t.escalations

pub claim_of :
    (incident : String) (now : ℕ) (t t' : BotTables)
    → IsDue incident now t t'
    → IsClaimed incident now t t'
claim_of incident now t t' due = record {
  before = due.before;
  found = due.found;
  same_outage = due.same_outage;
  claimed = due.claimed;
  same_checks = due.same_checks;
}

-- What a check that returns false leaves.
abbrev FalseIf : (BotTables → Type 0) → Option (Bool × BotTables) → Type 0
FalseIf P none = Unit {0}
FalseIf P (some (true, t')) = Unit {0}
FalseIf P (some (false, t')) = P t'

abbrev pub SameOrClaimed : String → ℕ → BotTables → BotTables → Type 0
SameOrClaimed incident now t t' = (t' ≡ t) ⊎ IsClaimed incident now t t'

write_down-False :
    (P : BotTables → Type 0) (change : ConnectionChange) (m : Option BotTables)
    → FalseIf P (write_down change m)
unfolding write_down
write_down-False P change none = tt
write_down-False P change (some t) = tt

module _ (copy : StatusEventKind → String → String × String) (accepts : AnnounceJob → Bool)
    (bot_id bot_name : String) where
  with_event-False :
      (P : BotTables → Type 0) (event : BotEvent) (incident : String) (change : ConnectionChange)
      (m : Option BotTables) (u : BotTables)
      → P u
      → FalseIf P (with_event copy accepts bot_id bot_name event incident change m u)
  unfolding with_event
  with_event-False P event incident change none u p = p
  with_event-False P event incident change (some v) u p =
      write_down-False P change (announce_row copy accepts bot_id bot_name event (some incident) v)

  with_change-False :
      (incident : String) (now : ℕ) (fresh : String) (t : BotTables) (c : BotCondition)
      (m : Option ConnectionChange)
      → t.condition ≡ some c
      → is_incident incident c.active_incident_id ≡ true
      → LateIf c.state c.failure_started_at now m
      → FalseIf
          (SameOrClaimed incident now t)
          (with_change copy accepts bot_id bot_name incident now fresh c m t)
  unfolding with_change with_claim
  with_change-False incident now fresh t c none found same late = inl refl
  with_change-False incident now fresh t c (some change) found same late =
      rw (claim_escalation-due incident change.state now c same late.was_interrupted late.to_down) (
        with_event-False (SameOrClaimed incident now t) event incident change (insert_event event u)
          u
          (inr (record {
            before = c;
            found = found;
            same_outage = is_incident-eq incident c.active_incident_id same;
            claimed = refl;
            same_checks = refl;
          })))
    where
      event : BotEvent
      event = escalation_event incident change fresh

      u : BotTables
      u = record t { condition = some (down_since now c) }

  with_condition-False :
      (incident : String) (now : ℕ) (fresh : String) (t : BotTables) (m : Option BotCondition)
      → t.condition ≡ m
      → FalseIf
          (SameOrClaimed incident now t)
          (with_condition copy accepts bot_id bot_name incident now fresh m t)
  unfolding with_condition
  with_condition-False incident now fresh t none found = inl refl
  with_condition-False incident now fresh t (some c) found =
      elim (Bool-cases (is_incident incident c.active_incident_id)) [
        | inl same ↦ rw same (
            with_change-False incident now fresh t c _ found same
              (escalate_if-Late c.state c.failure_started_at now))
        | inr other ↦ rw other (inl refl)
      ]

  -- Any check of an outage, whatever it returns, leaves the tables as they were, or the condition
  -- down for the same outage with its check still queued.
  pub escalate_instance-SameOrClaimed :
      (incident : String) (now : ℕ) (fresh : String) (acted : Bool) (t t' : BotTables)
      → escalate_instance copy accepts bot_id bot_name incident now fresh t ≡ some (acted, t')
      → SameOrClaimed incident now t t'
  unfolding escalate_instance
  escalate_instance-SameOrClaimed incident now fresh true t t' e = inr (
      claim_of incident now t t'
        (escalate_instance-IsDue copy accepts bot_id bot_name incident now fresh t e))
  escalate_instance-SameOrClaimed incident now fresh false t t' e =
      subst (FalseIf (SameOrClaimed incident now t)) e
        (with_condition-False incident now fresh t _ refl)
