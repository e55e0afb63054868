-- ===== src/Status/Host/Intervals.antt =====
-- The intervals that probes record follow one another without a gap.
use open_mcc_manager.Prelude.{
  ℕ, ◌≤◌, ◌≡◌, ◌%◌, ◌-◌, ◌/◌, inl, inr, refl, ap, ◌∙◌, String, Bool, true, not, ◌&&◌, Bool-cases,
  Option-cases, Option, none, some, List, [], ◌∷◌, max, arith,
}
use open_mcc_manager.Status.Events.{StatusEventKind}
use open_mcc_manager.Status.Reachability.{ReachabilityDecision, next_reachability}
use open_mcc_manager.Status.Rollup.{StatusState, RollableInterval, roll_up_window}
use open_mcc_manager.Status.Rollup.Totals.{total, Covers, total-roll_up_window}
use open_mcc_manager.Notification.Announce.{AnnounceJob}
use open_mcc_manager.Status.Host.{
  HostTables, HostObservation, close_interval, close_open_interval, open_interval, touch_condition,
  write_state, record_event, write_after, as_status, write_change, write_decision, current_of,
  record_host_reachability, record_each, is_known,
}

-- Intervals from a time on, each beginning where the one before it ends, at a whole second; the
-- last is open and began by `last`.
abbrev pub Chain : ℕ → List RollableInterval → ℕ → Type 0
Chain from [] last = ⊥
Chain from (i ∷ []) last = (i.started_at ≡ from) × (i.ended_at ≡ none) × (from ≤ last)
Chain from (i ∷ j ∷ js) last =
    (i.started_at ≡ from)
    × ((until : ℕ) × (i.ended_at ≡ some until)
        × (from ≤ until)
        × (until % 1000 ≡ 0)
        × Chain until (j ∷ js) last)

abbrev opened : StatusState → ℕ → RollableInterval
opened state at = record { state = state; started_at = at; ended_at = none }

pub started-close_interval :
    (at : ℕ) (i : RollableInterval) → (close_interval at i).started_at ≡ i.started_at
unfolding close_interval
started-close_interval at i = ground (arith, Option-cases i.ended_at)

pub ended-close_interval :
    (at : ℕ) (i : RollableInterval)
    → ((i.ended_at ≡ none) → (close_interval at i).ended_at ≡ some (max at i.started_at))
      × ((until : ℕ) → i.ended_at ≡ some until → (close_interval at i).ended_at ≡ some until)
unfolding close_interval
ended-close_interval at i = (λ e. ground (arith, e), λ until e. ground (arith, e))

Chain-next :
    (from last now : ℕ) (state : StatusState) (is : List RollableInterval)
    → last ≤ now
    → now % 1000 ≡ 0
    → Chain from is last
    → Chain from (open_interval state now (close_open_interval now is)) now
unfolding open_interval close_open_interval
Chain-next from last now state [] later whole chain = elim chain [ ]
Chain-next from last now state (i ∷ []) later whole (begun, open_, low) =
    let ended : (close_interval now i).ended_at ≡ some now =
      (ended-close_interval now i).0 open_ ∙ ap some (omega (arith, begun, low, later)) in
    (
      started-close_interval now i ∙ begun,
      (now, ended, omega (arith, low, later), whole, (refl, refl, omega arith)),
    )
Chain-next from last now state (i ∷ j ∷ js) later whole (begun, (until, ended, low, sharp, chain)) =
    (
      started-close_interval now i ∙ begun,
      (
        until,
        (ended-close_interval now i).1 until ended,
        low,
        sharp,
        Chain-next until last now state (j ∷ js) later whole chain,
      ),
    )

Chain-Covers :
    (from last end : ℕ) (is : List RollableInterval) → Chain from is last → Covers from is end
Chain-Covers from last end [] chain = elim chain [ ]
Chain-Covers from last end (i ∷ []) (begun, open_, low) = (begun, inl (open_, refl))
Chain-Covers from last end (i ∷ j ∷ js) (begun, (until, ended, low, sharp, chain)) =
    (begun, inr (until, ended, low, sharp, Chain-Covers until last end (j ∷ js) chain))

-- The host is on record, and its intervals form a chain from a time on.
abbrev pub IsRecorded : ℕ → HostTables → ℕ → Type 0
IsRecorded from t last = (is_known t.condition ≡ true) × Chain from t.intervals last

-- The clock does not go back, and shows whole seconds.
abbrev pub IsOnTime : ℕ → List HostObservation → Type 0
IsOnTime last [] = Unit
IsOnTime last (o ∷ os) = (last ≤ o.now) × (o.now % 1000 ≡ 0) × IsOnTime o.now os

module _ (copy : StatusEventKind → String → String × String) (accepts : AnnounceJob → Bool)
    (host_id host_name : String) where
  record_event-keeps :
      (o : HostObservation) (kind : Option StatusEventKind) (incident : Option String)
      (t after : HostTables)
      → record_event copy accepts host_id host_name o kind incident t ≡ some after
      → (after.intervals ≡ t.intervals) × (after.condition ≡ t.condition)
  unfolding record_event
  record_event-keeps o none incident t after e = ground (arith, e)
  record_event-keeps o (some kind) incident t after e = ground (arith, e)

  write_after-intervals :
      (decision : ReachabilityDecision) (incident : Option String) (now : ℕ) (t after : HostTables)
      (written : Option HostTables)
      → ((x : HostTables)
          → written ≡ some x
          → (x.intervals ≡ t.intervals) × (x.condition ≡ t.condition))
      → write_after copy accepts host_id host_name decision incident now written ≡ some after
      → (after.intervals
          ≡ open_interval (as_status decision.state) now (close_open_interval now t.intervals))
        × (is_known after.condition ≡ true)
  unfolding write_after write_state
  write_after-intervals decision incident now t after none keeps e = cc e
  write_after-intervals decision incident now t after (some x) keeps e =
      let (same, _) = keeps x refl in ground (arith, e, same)

  write_change-intervals :
      (o : HostObservation) (decision : ReachabilityDecision) (t after : HostTables)
      → write_change copy accepts host_id host_name o decision t ≡ some after
      → (after.intervals
          ≡ open_interval (as_status decision.state) o.now (close_open_interval o.now t.intervals))
        × (is_known after.condition ≡ true)
  unfolding write_change
  write_change-intervals o decision t after e =
      write_after-intervals decision _ o.now t after _
        (λ x. record_event-keeps o decision.event _ t x) e

  Chain-later :
      (from last now : ℕ) (is : List RollableInterval)
      → last ≤ now
      → Chain from is last
      → Chain from is now
  Chain-later from last now [] later chain = elim chain [ ]
  Chain-later from last now (i ∷ []) later (begun, open_, low) =
      (begun, open_, omega (arith, low, later))
  Chain-later from last now (i ∷ j ∷ js) later (begun, (until, ended, low, sharp, chain)) =
      (begun, (until, ended, low, sharp, Chain-later until last now (j ∷ js) later chain))

  write_decision-IsRecorded :
      (from last : ℕ) (o : HostObservation) (decision : ReachabilityDecision) (t after : HostTables)
      → last ≤ o.now
      → o.now % 1000 ≡ 0
      → IsRecorded from t last
      → write_decision copy accepts host_id host_name o decision t ≡ some after
      → IsRecorded from after o.now
  unfolding write_decision touch_condition
  write_decision-IsRecorded from last o decision t after later whole (known, chain) e =
      elim (Bool-cases (not decision.changed && is_known t.condition)) [
        | inl quiet ↦
            let same : after.intervals ≡ t.intervals =
              ground (arith, rw (quiet, write_decision) at e) in
            (
              ground (arith, known, rw (quiet, write_decision) at e),
              rw same (Chain-later from last o.now t.intervals later chain),
            )
        | inr changed ↦
            let (same, known_after) =
              write_change-intervals o decision t after (rw (changed, write_decision) at e) in
            (
              known_after,
              rw same (
                  Chain-next from last o.now (as_status decision.state) t.intervals later whole
                    chain),
            )
      ]

  record_host_reachability-IsRecorded :
      (limit from last : ℕ) (o : HostObservation) (t : HostTables)
      → last ≤ o.now
      → o.now % 1000 ≡ 0
      → IsRecorded from t last
      → IsRecorded from (record_host_reachability copy accepts host_id host_name limit o t) o.now
  unfolding record_host_reachability
  record_host_reachability-IsRecorded limit from last o t later whole recorded =
      elim (Option-cases (write_decision copy accepts host_id host_name o decision t)) [
        | inl thrown ↦
            rw (thrown, record_host_reachability)
              (recorded.0, Chain-later from last o.now t.intervals later recorded.1)
        | inr (after, done) ↦
            rw (done, record_host_reachability)
              (write_decision-IsRecorded from last o decision t after later whole recorded done)
      ]
    where
      decision : ReachabilityDecision
      decision = next_reachability (current_of t.condition) o.reached o.now limit

  record_each-Covers :
      (limit from last end : ℕ) (os : List HostObservation) (t : HostTables)
      → IsOnTime last os
      → IsRecorded from t last
      → Covers from (record_each copy accepts host_id host_name limit os t).intervals end
  unfolding record_each
  record_each-Covers limit from last end [] t on_time recorded =
      Chain-Covers from last end t.intervals recorded.1
  record_each-Covers limit from last end (o ∷ os) t (later, whole, on_time) recorded =
      record_each-Covers limit from o.now end os _ on_time
        (record_host_reachability-IsRecorded limit from last o t later whole recorded)

-- From probes to percentages: whatever the probes of a host find, and whichever announcements fail,
-- the totals over any window since its record began add up to the length of the window, if the
-- clock does not go back and shows whole seconds.
pub total-record_each :
    (copy : StatusEventKind → String → String × String) (accepts : AnnounceJob → Bool)
    (host_id host_name : String) (limit from last start end : ℕ) (os : List HostObservation)
    (t : HostTables)
    → IsOnTime last os
    → IsRecorded from t last
    → from ≤ start
    → from % 1000 ≡ 0
    → start % 1000 ≡ 0
    → end % 1000 ≡ 0
    → total
        (roll_up_window (record_each copy accepts host_id host_name limit os t).intervals start end)
      ≡ (end - start) / 1000
total-record_each copy accepts host_id host_name limit from last start end os t on_time recorded low
      a b c =
    total-roll_up_window from start end
      (record_each copy accepts host_id host_name limit os t).intervals low a b c
      (record_each-Covers copy accepts host_id host_name limit from last end os t on_time recorded)
