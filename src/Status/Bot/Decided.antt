-- ===== src/Status/Bot/Decided.antt =====
-- What the decision about a change does to the outage, for the changes that a journal makes.
use open_mcc_manager.Prelude.{
  ℕ, ◌≤◌, ◌≡◌, refl, String, Bool, true, false, Option, none, some, if◌then◌else◌, arith, bit,
}
use mathlib.Core.Path.{subst}
use open_mcc_manager.Status.Events.{StatusEventKind, instance_kicked, instance_connection_lost}
use open_mcc_manager.Status.Connection.{
  ConnectionState, joined, interrupted, down, never_joined, unknown, ConnectionSignal,
  ConnectionChange, change_from, looks_like_kick,
}
use open_mcc_manager.Status.Incident.{IncidentDecision, next_incident}
use open_mcc_manager.Notification.Announce.{AnnounceJob}
use open_mcc_manager.Status.Bot.{Recorded, decide}

abbrev pub is_lost : ConnectionState → Bool
is_lost interrupted = true
is_lost _ = false

abbrev pub is_joined : ConnectionState → Bool
is_joined joined = true
is_joined _ = false

abbrev pub has_value : Option String → Bool
has_value none = false
has_value (some id) = true

-- A change as the signals of a journal make it.
pub record IsMade (r : Recorded) : Type 0 where
  pub before : ConnectionState
  pub signal : ConnectionSignal
  pub made : change_from before signal ≡ some r.change

-- What a decision does: it ends the outage, goes on with it, or opens one.
pub data IsDecided (incident : Option String) (c : ConnectionChange) (fresh : String)
    (d : IncidentDecision) : Type 0 where
  ended :
      d.incident_id ≡ none
      → d.opened ≡ false
      → is_lost c.state ≡ false
      → IsDecided incident c fresh d
  goes_on :
      d.incident_id ≡ incident
      → d.opened ≡ false
      → bit (is_lost c.state) ≤ bit (has_value incident)
      → is_joined c.state ≡ false
      → IsDecided incident c fresh d
  begins :
      d.incident_id ≡ some fresh
      → d.opened ≡ true
      → is_joined c.state ≡ false
      → IsDecided incident c fresh d

abbrev Decided : Option String → String → Option ConnectionChange → Type 0
Decided incident fresh none = Unit {0}
Decided incident fresh (some c) =
    IsDecided incident c fresh (next_incident incident c.state (some c.event) fresh)

lost-Decided :
    (incident : Option String) (fresh : String) (at : ℕ) (pid reason : Option String) (kick : Bool)
    → Decided incident fresh (
        some (record {
          state = interrupted;
          at = at;
          pid = pid;
          event = if kick then instance_kicked else instance_connection_lost;
          reason = reason;
        }))
unfolding next_incident
lost-Decided none fresh at pid reason true = begins refl refl refl
lost-Decided none fresh at pid reason false = begins refl refl refl
lost-Decided (some id) fresh at pid reason true = goes_on refl refl (omega arith) refl
lost-Decided (some id) fresh at pid reason false = goes_on refl refl (omega arith) refl

joined-Decided :
    (state : ConnectionState) (incident : Option String) (fresh : String) (at : ℕ) (pid : String)
    → Decided incident fresh (change_from state (ConnectionSignal.joined at pid))
unfolding change_from next_incident
joined-Decided joined incident fresh at pid = tt
joined-Decided unknown incident fresh at pid = ended refl refl refl
joined-Decided interrupted incident fresh at pid = ended refl refl refl
joined-Decided down incident fresh at pid = ended refl refl refl
joined-Decided never_joined incident fresh at pid = ended refl refl refl

stopped-Decided :
    (state : ConnectionState) (incident : Option String) (fresh : String) (at : ℕ) (pid : String)
    → Decided incident fresh (change_from state (ConnectionSignal.stopped at pid))
unfolding change_from next_incident
stopped-Decided down incident fresh at pid = tt
stopped-Decided joined none fresh at pid = goes_on refl refl (omega arith) refl
stopped-Decided joined (some id) fresh at pid = goes_on refl refl (omega arith) refl
stopped-Decided interrupted none fresh at pid = goes_on refl refl (omega arith) refl
stopped-Decided interrupted (some id) fresh at pid = goes_on refl refl (omega arith) refl
stopped-Decided never_joined none fresh at pid = goes_on refl refl (omega arith) refl
stopped-Decided never_joined (some id) fresh at pid = goes_on refl refl (omega arith) refl
stopped-Decided unknown none fresh at pid = goes_on refl refl (omega arith) refl
stopped-Decided unknown (some id) fresh at pid = goes_on refl refl (omega arith) refl

change_from-Decided :
    (state : ConnectionState) (signal : ConnectionSignal) (incident : Option String)
    (fresh : String)
    → Decided incident fresh (change_from state signal)
unfolding change_from
change_from-Decided state (ConnectionSignal.joined at pid) incident fresh =
    joined-Decided state incident fresh at pid
change_from-Decided state (ConnectionSignal.stopped at pid) incident fresh =
    stopped-Decided state incident fresh at pid
change_from-Decided interrupted (ConnectionSignal.disconnected at pid reason) incident fresh = tt
change_from-Decided down (ConnectionSignal.disconnected at pid reason) incident fresh = tt
change_from-Decided joined (ConnectionSignal.disconnected at pid reason) incident fresh =
    lost-Decided incident fresh at (some pid) reason (looks_like_kick reason)
change_from-Decided never_joined (ConnectionSignal.disconnected at pid reason) incident fresh =
    lost-Decided incident fresh at (some pid) reason (looks_like_kick reason)
change_from-Decided unknown (ConnectionSignal.disconnected at pid reason) incident fresh =
    lost-Decided incident fresh at (some pid) reason (looks_like_kick reason)

module _ (copy : StatusEventKind → String → String × String) (accepts : AnnounceJob → Bool)
    (bot_id bot_name : String) where
  pub decide-IsDecided :
      (incident : Option String) (r : Recorded)
      → IsMade r
      → IsDecided incident r.change r.fresh_incident
          (decide copy accepts bot_id bot_name incident r)
  unfolding decide
  decide-IsDecided incident r m =
      subst (Decided incident r.fresh_incident) m.made
        (change_from-Decided m.before m.signal incident r.fresh_incident)
