-- ===== src/Status/Bot/Escalate/Checks.antt =====
-- What the queued check of an outage does, and how a bot is kept over everything that is recorded.
use open_mcc_manager.Prelude.{
  ℕ, ◌+◌, ◌≤◌, ◌≡◌, refl, ◌∙◌, inl, inr, String, Bool, true, false, Option, none, some, Bool-cases,
}
use mathlib.Core.Path.{subst}
use open_mcc_manager.Status.Events.{StatusEventKind}
use open_mcc_manager.Status.Connection.{interrupted, down, ConnectionChange, escalate_if_still_down}
use open_mcc_manager.Status.Rollup.{StatusState}
use open_mcc_manager.Status.Host.{close_open_interval, open_interval}
use open_mcc_manager.Notification.Announce.{AnnounceJob}
use open_mcc_manager.Status.Bot.{
  BotCondition, BotEvent, BotTables, state_of, interrupted_to_down_ms,
}
use open_mcc_manager.Status.Bot.Escalate.{
  is_incident, escalation_event, with_claim, with_change, with_condition, escalate_instance,
}
use open_mcc_manager.Status.Bot.Escalate.Written.{WrittenIf, insert_event-Still, with_event-Written}
use open_mcc_manager.Status.Bot.Escalate.Late.{
  IsLate, LateIf, escalate_if-Late, claim_escalation-due, is_incident-eq,
}

-- The check of an outage that has lasted: what it finds, and what it leaves.
pub record IsDue (incident : String) (now : ℕ) (t t' : BotTables) : Type 0 where
  pub before : BotCondition
  pub found : t.condition ≡ some before
  pub same_outage : before.active_incident_id ≡ some incident
  pub still_down : before.state ≡ interrupted
  pub since : ℕ
  pub began : before.failure_started_at ≡ some since
  pub lasted : since + interrupted_to_down_ms ≤ now
  pub claimed :
      t'.condition ≡ some (record before { state = down; last_observed_at = now; started_at = now })
  pub ended :
      t'.intervals ≡ open_interval StatusState.down now (close_open_interval now t.intervals)
  pub same_checks : t'.escalations ≡ t.escalations

abbrev DueIf : String → ℕ → BotTables → Option (Bool × BotTables) → Type 0
DueIf incident now t none = Unit {0}
DueIf incident now t (some (false, t')) = Unit {0}
DueIf incident now t (some (true, t')) = IsDue incident now t t'

module _ (incident : String) (now : ℕ) (t : BotTables) (c : BotCondition)
    (found : t.condition ≡ some c) (same : is_incident incident c.active_incident_id ≡ true) where
  abbrev claimed_tables : BotTables
  claimed_tables = record t {
    condition = some (record c { state = down; last_observed_at = now; started_at = now });
  }

  written-Due :
      (change : ConnectionChange) (m : Option (Bool × BotTables))
      → IsLate c.state c.failure_started_at now change
      → WrittenIf change claimed_tables m
      → DueIf incident now t m
  unfolding state_of
  written-Due change none late w = tt
  written-Due change (some (false, t')) late w = tt
  written-Due change (some (true, t')) late w = record {
    before = c;
    found = found;
    same_outage = is_incident-eq incident c.active_incident_id same;
    still_down = late.was_interrupted;
    since = late.since_when;
    began = late.at_since;
    lasted = late.over;
    claimed = w.kept_condition;
    ended = w.next_interval ∙ rw (late.to_down, late.at_now) refl;
    same_checks = w.kept_checks;
  }

module _ (copy : StatusEventKind → String → String × String) (accepts : AnnounceJob → Bool)
    (bot_id bot_name : String) where
  with_change-Due :
      (incident : String) (now : ℕ) (fresh : String) (t : BotTables) (c : BotCondition)
      (m : Option ConnectionChange)
      → t.condition ≡ some c
      → is_incident incident c.active_incident_id ≡ true
      → LateIf c.state c.failure_started_at now m
      → DueIf incident now t (with_change copy accepts bot_id bot_name incident now fresh c m t)
  unfolding with_change with_claim
  with_change-Due incident now fresh t c none found same late = tt
  with_change-Due incident now fresh t c (some change) found same late =
      rw (claim_escalation-due incident change.state now c same late.was_interrupted late.to_down) (
        written-Due incident now t c found same change _ late (
          with_event-Written copy accepts bot_id bot_name event incident change _ u
            (insert_event-Still event u)))
    where
      event : BotEvent
      event = escalation_event incident change fresh

      u : BotTables
      u = claimed_tables incident now t c found same

  with_condition-Due :
      (incident : String) (now : ℕ) (fresh : String) (t : BotTables) (m : Option BotCondition)
      → t.condition ≡ m
      → DueIf incident now t (with_condition copy accepts bot_id bot_name incident now fresh m t)
  unfolding with_condition
  with_condition-Due incident now fresh t none found = tt
  with_condition-Due incident now fresh t (some c) found =
      elim (Bool-cases (is_incident incident c.active_incident_id)) [
        | inl same ↦ rw same (
            with_change-Due incident now fresh t c _ found same
              (escalate_if-Late c.state c.failure_started_at now))
        | inr other ↦ rw other tt
      ]

  -- A check that calls a bot down has found its own outage still active, the bot still interrupted,
  -- and the time over since the outage began; it leaves the bot down, the interval closed at that
  -- time with one opened for the new state, and the queued checks as they were.
  pub escalate_instance-IsDue :
      (incident : String) (now : ℕ) (fresh : String) (t : BotTables) {t' : BotTables}
      → escalate_instance copy accepts bot_id bot_name incident now fresh t ≡ some (true, t')
      → IsDue incident now t t'
  unfolding escalate_instance
  escalate_instance-IsDue incident now fresh t escalated =
      subst (DueIf incident now t) escalated (with_condition-Due incident now fresh t _ refl)

  not_twice :
      (incident : String) (now : ℕ) (fresh : String) (t : BotTables) (c : BotCondition)
      → t.condition ≡ some c
      → c.state ≡ down
      → escalate_instance copy accepts bot_id bot_name incident now fresh t ≡ some (false, t)
  unfolding escalate_instance with_condition with_change escalate_if_still_down
  not_twice incident now fresh t c found h =
      rw found (elim (Bool-cases (is_incident incident c.active_incident_id)) [
        | inl same ↦ rw (same, h) refl
        | inr other ↦ rw other refl
      ])

  -- An outage is escalated once: after a check that called the bot down, every check, of this outage
  -- or of another and at any time, does nothing until the bot's connection changes.
  pub escalated_once :
      (incident : String) (now : ℕ) (fresh : String) (t : BotTables) {t' : BotTables}
      → escalate_instance copy accepts bot_id bot_name incident now fresh t ≡ some (true, t')
      → (incident' : String) (now' : ℕ) (fresh' : String)
      → escalate_instance copy accepts bot_id bot_name incident' now' fresh' t' ≡ some (false, t')
  escalated_once incident now fresh t {t'} escalated incident' now' fresh' =
      let due = escalate_instance-IsDue incident now fresh t escalated in
      not_twice incident' now' fresh' t' _ due.claimed refl
