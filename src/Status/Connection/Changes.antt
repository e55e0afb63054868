-- ===== src/Status/Connection/Changes.antt =====
-- What the changes of a journal are: one for each change of state, however the journal is cut.
use open_mcc_manager.Prelude.{
  ◌≡◌, ◌≢◌, inl, inr, refl, ap, none, some, List, [], ◌∷◌, ◌++◌, arith, Option-cases, last_of,
}
use open_mcc_manager.Status.Connection.{
  ConnectionState, ConnectionSignal, ConnectionCurrent, ConnectionChange, change_from, changes_from,
  changes_from_signals,
}

-- `connectionAfter` of packages/core/src/status/instance-observer.ts
pub connection_after : ConnectionCurrent → List ConnectionChange → ConnectionCurrent
connection_after current changes = elim (last_of changes) [
  | none ↦ current
  | some last ↦ record { state = last.state; since = some last.at; pid = last.pid }
]

-- The state once the changes are applied.
abbrev pub state_after : ConnectionState → List ConnectionChange → ConnectionState
state_after state [] = state
state_after state (change ∷ rest) = state_after change.state rest

-- No change leaves the state where it was.
abbrev pub IsAlternating : ConnectionState → List ConnectionChange → Type 0
IsAlternating state [] = Unit
IsAlternating state (change ∷ rest) = (state ≢ change.state) × IsAlternating change.state rest

change_from-ne :
    (state : ConnectionState) (signal : ConnectionSignal) (change : ConnectionChange)
    → change_from state signal ≡ some change
    → state ≢ change.state
unfolding change_from
change_from-ne state signal change e = ground arith

changes_from-IsAlternating :
    (state : ConnectionState) (signals : List ConnectionSignal)
    → IsAlternating state (changes_from state signals)
unfolding changes_from
changes_from-IsAlternating state [] = tt
changes_from-IsAlternating state (signal ∷ rest) = elim (Option-cases (change_from state signal)) [
  | inl quiet ↦ rw (quiet, changes_from) (changes_from-IsAlternating state rest)
  | inr (change, e) ↦
      rw (e, changes_from)
        (change_from-ne state signal change e, changes_from-IsAlternating change.state rest)
]

state_after-changes_from :
    (state : ConnectionState) (xs ys : List ConnectionSignal)
    → changes_from state (xs ++ ys)
      ≡ changes_from state xs ++ changes_from (state_after state (changes_from state xs)) ys
unfolding changes_from
state_after-changes_from state [] ys = refl
state_after-changes_from state (x ∷ xs) ys = elim (Option-cases (change_from state x)) [
  | inl quiet ↦ rw (quiet, changes_from) (state_after-changes_from state xs ys)
  | inr (change, e) ↦
      rw (e, changes_from) (ap (λ l. change ∷ l) (state_after-changes_from change.state xs ys))
]

state-last_of :
    (change : ConnectionChange) (rest : List ConnectionChange)
    → (last : ConnectionChange) × (last_of (change ∷ rest) ≡ some last)
      × (last.state ≡ state_after change.state rest)
state-last_of change [] = (change, refl, refl)
state-last_of change (c ∷ rest) = state-last_of c rest

state-connection_after :
    (current : ConnectionCurrent) (changes : List ConnectionChange)
    → (connection_after current changes).state ≡ state_after current.state changes
unfolding connection_after
state-connection_after current [] = refl
state-connection_after current (change ∷ rest) =
    let (last, e, same) = state-last_of change rest in rw (e, connection_after) same

-- Every change moves the connection to another state, from the current state on.
pub changes-IsAlternating :
    (current : ConnectionCurrent) (signals : List ConnectionSignal)
    → IsAlternating current.state (changes_from_signals current signals)
unfolding changes_from_signals
changes-IsAlternating current signals = changes_from-IsAlternating current.state signals

-- Reading a journal in two parts, the second from the connection after the first, records the
-- changes that reading it at once records.
pub changes_from_signals-append :
    (current : ConnectionCurrent) (xs ys : List ConnectionSignal)
    → changes_from_signals current (xs ++ ys)
      ≡ changes_from_signals current xs
        ++ changes_from_signals (connection_after current (changes_from_signals current xs)) ys
unfolding changes_from_signals
changes_from_signals-append current xs ys =
    rw state-connection_after (state_after-changes_from current.state xs ys)
