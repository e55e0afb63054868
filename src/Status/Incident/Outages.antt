-- ===== src/Status/Incident/Outages.antt =====
-- Incidents over a run of connection changes.
use open_mcc_manager.Prelude.{
  ℕ, suc, ◌++◌, ◌∙◌, refl, sym, ap, append-nil, append_assoc, ◌≡◌, ◌≢◌, inl, inr, Bool, true, false,
  Option, none, some, List, [], ◌∷◌, String, arith, Option-cases, Bool-cases,
}
use mathlib.Core.Path.{subst}
use open_mcc_manager.Status.Connection.{
  ConnectionState, ConnectionSignal, ConnectionChange, change_from, changes_from,
}
use open_mcc_manager.Status.Connection.Changes.{state_after}
use open_mcc_manager.Status.Incident.{IncidentDecision, closes, by_state, next_incident}

-- The loop of `recordInstanceConnection` (packages/core/src/status/status.controller.ts), as far
-- as incidents go: the n-th change would get the id `fresh n`.
pub decisions : (ℕ → String) → ℕ → Option String → List ConnectionChange → List IncidentDecision
decisions fresh n current [] = []
decisions fresh n current (change ∷ rest) =
    let d = next_incident current change.state (some change.event) (fresh n) in
    d ∷ decisions fresh (suc n) d.incident_id rest

abbrev pub incident_after : Option String → List IncidentDecision → Option String
incident_after current [] = current
incident_after current (d ∷ ds) = incident_after d.incident_id ds

abbrev pub ids_of : Option String → List String
ids_of none = []
ids_of (some id) = id ∷ []

abbrev if_opened : Bool → Option String → List String
if_opened true incident = ids_of incident
if_opened false incident = []

-- The incidents that a run opens and those that it closes, in order.
abbrev pub opened_by : List IncidentDecision → List String
opened_by [] = []
opened_by (d ∷ ds) = if_opened d.opened d.incident_id ++ opened_by ds

abbrev pub closed_by : List IncidentDecision → List String
closed_by [] = []
closed_by (d ∷ ds) = ids_of d.closing ++ closed_by ds

-- While the bot is joined no incident is open, and while it is interrupted one is.
abbrev pub FitsState : ConnectionState → Option String → Type 0
FitsState ConnectionState.joined current = current ≡ none
FitsState ConnectionState.interrupted current = current ≢ none
FitsState _ current = Unit

abbrev IsBalanced : Option String → IncidentDecision → Type 0
IsBalanced current d =
    ids_of current ++ if_opened d.opened d.incident_id ≡ ids_of d.closing ++ ids_of d.incident_id

by_state_balance :
    (current : Option String) (state : ConnectionState) (id : String)
    → IsBalanced current (by_state current state id)
unfolding by_state
by_state_balance current ConnectionState.joined id = refl
by_state_balance none ConnectionState.interrupted id = refl
by_state_balance (some i) ConnectionState.interrupted id = refl
by_state_balance none ConnectionState.down id = refl
by_state_balance (some i) ConnectionState.down id = refl
by_state_balance none ConnectionState.never_joined id = refl
by_state_balance (some i) ConnectionState.never_joined id = refl
by_state_balance none ConnectionState.unknown id = refl
by_state_balance (some i) ConnectionState.unknown id = refl

next_incident-closes :
    (current : Option String) (c : ConnectionChange) (id : String)
    → closes c.event ≡ true
    → next_incident current c.state (some c.event) id
      ≡ record { incident_id = none; opened = false; closing = current }
unfolding next_incident
next_incident-closes current c id ends = ground (arith, ends)

next_incident-by_state :
    (current : Option String) (c : ConnectionChange) (id : String)
    → closes c.event ≡ false
    → next_incident current c.state (some c.event) id ≡ by_state current c.state id
unfolding next_incident
next_incident-by_state current c id other = ground (arith, other)

next_incident_balance :
    (current : Option String) (c : ConnectionChange) (id : String)
    → IsBalanced current (next_incident current c.state (some c.event) id)
next_incident_balance current c id = elim (Bool-cases (closes c.event)) [
  | inl ends ↦ subst (IsBalanced current) (sym (next_incident-closes current c id ends)) refl
  | inr other ↦
      subst (IsBalanced current) (sym (next_incident-by_state current c id other))
        (by_state_balance current c.state id)
]

-- The incidents that are opened over a run, the one that is open at its start first, are those that
-- it closes, in the same order, and then the one that is still open at its end: so each is closed by
-- its own id, and what is closed was opened.
pub opened-eq-closed :
    (fresh : ℕ → String) (n : ℕ) (current : Option String) (changes : List ConnectionChange)
    → ids_of current ++ opened_by (decisions fresh n current changes)
      ≡ closed_by (decisions fresh n current changes)
        ++ ids_of (incident_after current (decisions fresh n current changes))
unfolding decisions
opened-eq-closed fresh n current [] = append-nil (ids_of current)
opened-eq-closed fresh n current (c ∷ cs) =
    let d = next_incident current c.state (some c.event) (fresh n) in
    sym (append_assoc (ids_of current) (if_opened d.opened d.incident_id) _)
    ∙ ap (λ (front : List String). front ++ opened_by (decisions fresh (suc n) d.incident_id cs))
        (next_incident_balance current c (fresh n))
    ∙ append_assoc (ids_of d.closing) (ids_of d.incident_id) _
    ∙ ap (λ (back : List String). ids_of d.closing ++ back)
        (opened-eq-closed fresh (suc n) d.incident_id cs)
    ∙ sym (append_assoc (ids_of d.closing) (closed_by (decisions fresh (suc n) d.incident_id cs)) _)

change-FitsState :
    (state : ConnectionState) (signal : ConnectionSignal) (c : ConnectionChange)
    (current : Option String) (id : String)
    → change_from state signal ≡ some c
    → FitsState c.state (next_incident current c.state (some c.event) id).incident_id
unfolding change_from next_incident
change-FitsState state signal c current id e = ground arith

-- After a journal is read from a state that fits its incident, the state and the incident fit:
-- an incident is open while the bot is interrupted, and none while it is joined.
pub changes-FitsState :
    (fresh : ℕ → String) (n : ℕ) (state : ConnectionState) (current : Option String)
    (signals : List ConnectionSignal)
    → FitsState state current
    → FitsState
        (state_after state (changes_from state signals))
        (incident_after current (decisions fresh n current (changes_from state signals)))
unfolding decisions changes_from
changes-FitsState fresh n state current [] h = h
changes-FitsState fresh n state current (signal ∷ rest) h =
    elim (Option-cases (change_from state signal)) [
      | inl quiet ↦ rw (quiet, changes_from) (changes-FitsState fresh n state current rest h)
      | inr (c, e) ↦
          rw (e, changes_from)
            (changes-FitsState fresh (suc n) c.state
              (next_incident current c.state (some c.event) (fresh n)).incident_id rest
              (change-FitsState state signal c current (fresh n) e))
    ]
