-- ===== src/Instance/Task/Interval.antt =====
-- An interval counts the time for which its bot is seen running, and fires when that reaches the
-- wait that was drawn.
use open_mcc_manager.Prelude.{
  ℕ, ◌+◌, ◌-◌, ◌≤◌, ◌<◌, inl, inr, ◌≡◌, ◌↔◌, Bool, true, false, Bool-cases, none, some, List, [],
  ◌∷◌, arith, ltb,
}
use open_mcc_manager.Instance.Task.{
  InstanceTaskRow, IntervalArm, interval_plan, arm_interval, interval_claim_of, interval_arm_of,
}

-- What a tick sees: its instant, and whether the bot is running.
abbrev pub Sighting : Type 0
Sighting = ℕ × Bool

-- The time between sightings that ended with the bot running, from an observation on.
unfoldable pub running_time : ℕ → List Sighting → ℕ
running_time observed [] = 0
running_time observed ((at, running) ∷ sightings) =
    let rest = running_time at sightings in
    elim running [ true ↦ at - observed + rest | false ↦ rest ]

-- The instants do not go back.
abbrev pub Forward : ℕ → List Sighting → Type 0
Forward observed [] = Unit
Forward observed ((at, running) ∷ sightings) = (observed ≤ at) × Forward at sightings

-- The row with an interval that is armed.
abbrev pub armed : InstanceTaskRow → ℕ → ℕ → IntervalArm → InstanceTaskRow
armed row min_seconds max_seconds a = record row {
  interval_min_seconds = some min_seconds;
  interval_max_seconds = some max_seconds;
  interval_next_run_at = some a.next_run_at;
  interval_observed_at = some a.observed_at;
}

module _ (jitter : ℕ → ℕ → ℕ) where
  -- Whether one of the ticks fires: each tick plans on the row as the tick before left it.
  unfoldable pub fires : InstanceTaskRow → List Sighting → Bool
  unfolding interval_plan interval_arm_of interval_claim_of arm_interval
  fires row [] = false
  fires row ((at, running) ∷ sightings) =
      let plan = interval_plan row at running jitter in
      elim (interval_claim_of plan) [
        | some claim ↦ true
        | none ↦ elim (interval_arm_of plan) [
          | none ↦ fires row sightings
          | some a ↦ fires (arm_interval row a) sightings
        ]
      ]

  module _ (row : InstanceTaskRow) (min_seconds max_seconds : ℕ) where
    -- Exactly when an armed interval fires in the course of some ticks, whatever the jitter and the
    -- pauses: when the time for which the bot was seen running since it was armed has reached the
    -- wait it was armed with.
    pub fires_iff :
        (a : IntervalArm) (sightings : List Sighting)
        → a.observed_at < a.next_run_at
        → Forward a.observed_at sightings
        → (fires (armed row min_seconds max_seconds a) sightings ≡ true)
          ↔ (a.next_run_at ≤ a.observed_at + running_time a.observed_at sightings)
    unfolding fires running_time
    fires_iff a [] early forward = ground arith
    fires_iff a ((at, false) ∷ sightings) early forward =
        let held : IntervalArm = record {
          next_run_at = a.next_run_at + (at - a.observed_at);
          observed_at = at;
        } in
        ground (
          arith,
          early,
          forward,
          fires_iff held sightings (ground (arith, early, forward)) forward.1,
        )
    fires_iff a ((at, true) ∷ sightings) early forward = elim (Bool-cases (ltb at a.next_run_at)) [
      | inl before ↦
          let waiting : IntervalArm = record { next_run_at = a.next_run_at; observed_at = at } in
          ground (
            arith,
            before,
            early,
            forward,
            fires_iff waiting sightings (ground (arith, before)) forward.1,
          )
      | inr reached ↦ ground (arith, reached, forward)
    ]
