-- ===== src/Instance/TaskRun/Order.antt =====
-- The order in which the steps of a task are sent, and what a failure leaves.
use open_mcc_manager.Prelude.{
  ℕ, ◌+◌, ◌*◌, ◌≤◌, ◌<◌, ◌≡◌, inl, inr, refl, String, Bool-cases, Option-cases, List, [], ◌∷◌, ◌++◌,
  ltb, length, arith, append-nil, append_assoc, sym, ap, ◌∙◌, map, keep, ◌==◌, ◌-◌, All,
  if◌then◌else◌,
}
use open_mcc_manager.Instance.TaskRun.{
  TaskStep, StepEvent, waited, tried, TaskStepRunner, StepsResult, all_sent, steps_failed,
  insert_step, ordered, wait_first, send_from, send_steps_in_order,
}

-- The commands that were tried.
unfoldable pub tries : List StepEvent → List String
tries [] = []
tries (tried command ∷ events) = command ∷ tries events
tries (waited _ ∷ events) = tries events

tries-append : (xs ys : List StepEvent) → tries (xs ++ ys) ≡ tries xs ++ tries ys
unfolding tries
tries-append [] ys = refl
tries-append (tried command ∷ xs) ys = ground (arith, tries-append xs ys)
tries-append (waited _ ∷ xs) ys = tries-append xs ys

-- The first `n` commands of some steps.
abbrev pub first_commands : ℕ → List TaskStep → List String
first_commands n [] = []
first_commands n (step ∷ steps) =
    if ltb 0 n then step.command ∷ first_commands (n - 1) steps else []

-- What a result says of the commands that were tried, from the step with this index.
abbrev pub IsAccount : ℕ → List TaskStep → StepsResult → List String → Type 0
IsAccount sent steps (all_sent n) commands =
    (n ≡ sent + length steps) × (commands ≡ map (λ step. step.command) steps)
IsAccount sent steps (steps_failed f) commands =
    (f.failed_step ≡ f.steps_sent + 1)
    × (sent ≤ f.steps_sent)
    × (f.steps_sent < sent + length steps)
    × (commands ≡ first_commands (f.failed_step - sent) steps)

tries-wait_first :
    (index delay : ℕ) (events : List StepEvent)
    → tries (wait_first index delay events) ≡ tries events
unfolding wait_first tries
tries-wait_first index delay events =
    ground (arith, tries-append events (waited (delay * 1000) ∷ []), append-nil (tries events))

tries-step :
    (index delay : ℕ) (command : String) (events : List StepEvent)
    → tries (wait_first index delay events ++ tried command ∷ []) ≡ tries events ++ command ∷ []
unfolding tries
tries-step index delay command events = cc (
  tries-append (wait_first index delay events) (tried command ∷ []),
  tries-wait_first index delay events,
)

-- An account of the later steps, with the step before them that was sent.
IsAccount-next :
    (sent : ℕ) (step : TaskStep) (steps : List TaskStep) (result : StepsResult)
    (commands : List String)
    → IsAccount (sent + 1) steps result commands
    → IsAccount sent (step ∷ steps) result (step.command ∷ commands)
IsAccount-next sent step steps (all_sent n) commands account = ground (arith, account)
IsAccount-next sent step steps (steps_failed f) commands (next, low, high, same) =
    (next, omega (arith, low), ground (arith, high), ground (arith, same, rest, more))
  where
    rest : f.failed_step - (sent + 1) ≡ f.failed_step - sent - 1
    rest = omega arith

    more : 0 < f.failed_step - sent
    more = omega (arith, next, low)

first_commands-zero : (steps : List TaskStep) → first_commands 0 steps ≡ []
first_commands-zero [] = refl
first_commands-zero (step ∷ steps) = refl

first_commands-one :
    (sent : ℕ) (step : TaskStep) (steps : List TaskStep)
    → first_commands (sent + 1 - sent) (step ∷ steps) ≡ step.command ∷ []
first_commands-one sent step steps = rw one (ground (arith, first_commands-zero steps))
  where
    one : sent + 1 - sent ≡ 1
    one = omega arith

module _ (delay total : ℕ) (runner : TaskStepRunner) where
  send_from-IsAccount :
      (sent : ℕ) (steps : List TaskStep) (events : List StepEvent)
      → (commands : List String) × (tries (send_from delay total runner sent steps events).1
          ≡ tries events ++ commands)
        × IsAccount sent steps (send_from delay total runner sent steps events).0 commands
  unfolding send_from tries
  send_from-IsAccount sent [] events = ([], sym (append-nil (tries events)), (omega arith, refl))
  send_from-IsAccount sent (step ∷ steps) events =
      elim (Option-cases (runner.send before step.command)) [
        | inl sent_it ↦
            let (commands, same, account) = send_from-IsAccount (sent + 1) steps after in
            rw (sent_it, send_from)
              (
                step.command ∷ commands,
                same
                    ∙ ap (λ done. done ++ commands) (tries-step sent delay step.command events)
                    ∙ append_assoc (tries events) (step.command ∷ []) commands,
                IsAccount-next sent step steps
                    (send_from delay total runner (sent + 1) steps after).0 commands account,
              )
        | inr (error, thrown) ↦
            rw (thrown, send_from)
              (
                step.command ∷ [],
                tries-step sent delay step.command events,
                (refl, omega arith, omega arith, sym (first_commands-one sent step steps)),
              )
      ]
    where
      before : List StepEvent
      before = wait_first sent delay events

      after : List StepEvent
      after = before ++ tried step.command ∷ []

-- The steps come in the order of their positions.
abbrev pub IsSorted : List TaskStep → Type 0
IsSorted [] = Unit
IsSorted (step ∷ steps) = All (λ later. step.position ≤ later.position) steps × IsSorted steps

insert_step-All :
    (bound : ℕ) (step : TaskStep) (steps : List TaskStep)
    → bound ≤ step.position
    → All (λ later. bound ≤ later.position) steps
    → All (λ later. bound ≤ later.position) (insert_step step steps)
unfolding insert_step
insert_step-All bound step [] low all = (low, tt)
insert_step-All bound step (next ∷ steps) low all =
    ground (arith, low, all, insert_step-All bound step steps low all.1)

All-weaken :
    (bound lower : ℕ) (steps : List TaskStep)
    → lower ≤ bound
    → All (λ later. bound ≤ later.position) steps
    → All (λ later. lower ≤ later.position) steps
All-weaken bound lower [] le all = tt
All-weaken bound lower (step ∷ steps) le all =
    (omega (arith, le, all.0), All-weaken bound lower steps le all.1)

insert_step-IsSorted :
    (step : TaskStep) (steps : List TaskStep) → IsSorted steps → IsSorted (insert_step step steps)
unfolding insert_step
insert_step-IsSorted step [] sorted = (tt, tt)
insert_step-IsSorted step (next ∷ steps) sorted =
    elim (Bool-cases (ltb next.position step.position)) [
      | inl below ↦ rw below (
        insert_step-All next.position step steps (ground (arith, below)) sorted.0,
        insert_step-IsSorted step steps sorted.1,
      )
      | inr above ↦ rw above (
        (
          ground (arith, above),
          All-weaken next.position step.position steps (ground (arith, above)) sorted.0,
        ),
        sorted,
      )
    ]

-- The steps at a position, in their order.
abbrev pub steps_at : ℕ → List TaskStep → List TaskStep
steps_at position steps = keep (λ step. step.position == position) steps

insert_step-steps_at :
    (position : ℕ) (step : TaskStep) (steps : List TaskStep)
    → steps_at position (insert_step step steps) ≡ steps_at position (step ∷ steps)
unfolding insert_step
insert_step-steps_at position step [] = refl
insert_step-steps_at position step (next ∷ steps) =
    ground (arith, insert_step-steps_at position step steps)

-- The steps are put in the order of their positions, none is lost or added, and steps at the same
-- position keep the order they had.
pub ordered-IsStableSort :
    (steps : List TaskStep)
    → IsSorted (ordered steps)
      × ((position : ℕ) → steps_at position (ordered steps) ≡ steps_at position steps)
unfolding ordered
ordered-IsStableSort [] = (tt, λ position. refl)
ordered-IsStableSort (step ∷ steps) =
    let (sorted, same) = ordered-IsStableSort steps in
    (
      insert_step-IsSorted step (ordered steps) sorted,
      λ position. ground (arith, insert_step-steps_at position step (ordered steps), same position),
    )

-- The steps in the order of their positions: none is lost or added, and steps at the same position
-- keep the order they had.
abbrev pub IsInOrder : List TaskStep → List TaskStep → Type 0
IsInOrder steps sorted =
    IsSorted sorted × ((position : ℕ) → steps_at position sorted ≡ steps_at position steps)

-- What `sendStepsInOrder` reports is what it did: every step sent, in the order of their positions,
-- those at the same position as they were given, when it returns; and when it throws, the steps
-- before the failed one and that one tried, in that order, none of the later ones, and the count of
-- those sent before it.
pub send_steps_in_order-IsAccount :
    (steps : List TaskStep) (delay : ℕ) (runner : TaskStepRunner)
    → (sorted : List TaskStep) × IsInOrder steps sorted
      × IsAccount 0 sorted
          (send_steps_in_order steps delay runner).0
          (tries (send_steps_in_order steps delay runner).1)
unfolding send_steps_in_order tries
send_steps_in_order-IsAccount steps delay runner =
    let (commands, same, account) =
      send_from-IsAccount delay (length (ordered steps)) runner 0 (ordered steps) [] in
    (ordered steps, ordered-IsStableSort steps, rw (same) account)
