-- ===== src/Status/Bot/Escalate/Late.antt =====
-- When a check acts, and what it claims.
use open_mcc_manager.Prelude.{
  ℕ, ◌+◌, ◌≤◌, ◌≡◌, refl, ap, inl, inr, String, true, Option, none, some, leb, leb→le, str_eq_iff,
  Bool-cases,
}
use open_mcc_manager.Status.Connection.{
  ConnectionState, joined, interrupted, down, never_joined, unknown, ConnectionChange,
  escalate_if_still_down,
}
use open_mcc_manager.Status.Bot.{BotCondition, interrupted_to_down_ms}
use open_mcc_manager.Status.Bot.Escalate.{is_incident, is_interrupted, claim_escalation}

-- A bot that was still interrupted when the time was over.
pub record IsLate (state : ConnectionState) (since : Option ℕ) (now : ℕ) (change : ConnectionChange)
    : Type 0 where
  pub was_interrupted : state ≡ interrupted
  pub since_when : ℕ
  pub at_since : since ≡ some since_when
  pub over : since_when + interrupted_to_down_ms ≤ now
  pub to_down : change.state ≡ down
  pub at_now : change.at ≡ now

abbrev pub LateIf : ConnectionState → Option ℕ → ℕ → Option ConnectionChange → Type 0
LateIf state since now none = Unit {0}
LateIf state since now (some change) = IsLate state since now change

pub escalate_if-Late :
    (state : ConnectionState) (since : Option ℕ) (now : ℕ)
    → LateIf state since now (
        escalate_if_still_down
          (record { state = state; since = since; pid = none })
          now
          interrupted_to_down_ms)
unfolding escalate_if_still_down
escalate_if-Late interrupted none now = tt
escalate_if-Late interrupted (some since) now =
    elim (Bool-cases (leb (since + interrupted_to_down_ms) now)) [
      | inl late ↦ rw late (record {
        was_interrupted = refl;
        since_when = since;
        at_since = refl;
        over = leb→le _ _ late;
        to_down = refl;
        at_now = refl;
      })
      | inr early ↦ rw early tt
    ]
escalate_if-Late joined since now = tt
escalate_if-Late down since now = tt
escalate_if-Late never_joined since now = tt
escalate_if-Late unknown since now = tt

pub claim_escalation-due :
    (incident : String) (state : ConnectionState) (now : ℕ) (c : BotCondition)
    → is_incident incident c.active_incident_id ≡ true
    → c.state ≡ interrupted
    → state ≡ down
    → claim_escalation incident state now c
      ≡ some (record c { state = down; last_observed_at = now; started_at = now })
unfolding claim_escalation
claim_escalation-due incident state now c same h to_down =
    let e : is_interrupted c.state ≡ true = ap is_interrupted h in
    rw (same, e)
      (ap
        (λ (s : ConnectionState).
          some (record c { state = s; last_observed_at = now; started_at = now }))
        to_down)

pub is_incident-eq :
    (incident : String) (m : Option String) → is_incident incident m ≡ true → m ≡ some incident
is_incident-eq incident none h = cc
is_incident-eq incident (some active) h =
    ap (λ (s : String). some s) ((str_eq_iff active incident).0 h)
