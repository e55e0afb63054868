-- ===== src/Instance/TaskRun.antt =====
-- packages/core/src/instance/task-run.ts: the steps of a task, sent in order. `send` is the game's
-- console: a `some` is what it throws, and it may look at what was done before.
pub mod Order
use open_mcc_manager.Prelude.{
  ℕ, suc, ◌+◌, ◌*◌, String, Bool, ◌&&◌, Option, none, some, List, [], ◌∷◌, ◌++◌, ltb, length,
  if◌then◌else◌,
}

pub record TaskStep : Type 0 where
  pub position : ℕ
  pub command : String

-- What the runner was asked to do, the first first.
pub data StepEvent : Type 0 where
  waited : ℕ → StepEvent
  tried : String → StepEvent

pub record TaskStepRunner : Type 0 where
  pub send : List StepEvent → String → Option String
  pub describe_failure : String → String

-- `InstanceTaskStepsFailedError`: the three values its message interpolates, and `stepsSent`.
pub record StepsFailed : Type 0 where
  pub failed_step : ℕ
  pub of_steps : ℕ
  pub reason : String
  pub steps_sent : ℕ

pub data StepsResult : Type 0 where
  all_sent : ℕ → StepsResult
  steps_failed : StepsFailed → StepsResult

-- `sort` by position: it is stable.
unfoldable pub insert_step : TaskStep → List TaskStep → List TaskStep
insert_step step [] = step ∷ []
insert_step step (next ∷ steps) =
    let rest = insert_step step steps in
    if ltb next.position step.position then next ∷ rest else step ∷ next ∷ steps

unfoldable pub ordered : List TaskStep → List TaskStep
unfolding insert_step
ordered [] = []
ordered (step ∷ steps) = insert_step step (ordered steps)

-- The wait before each step but the first.
wait_first : ℕ → ℕ → List StepEvent → List StepEvent
wait_first index delay events =
    if ltb 0 index && ltb 0 delay then events ++ waited (delay * 1000) ∷ [] else events

module _ (delay total : ℕ) (runner : TaskStepRunner) where
  send_from : ℕ → List TaskStep → List StepEvent → StepsResult × List StepEvent
  unfolding wait_first
  send_from sent [] events = (all_sent sent, events)
  send_from sent (step ∷ steps) events =
      let before = wait_first sent delay events in
      let after = before ++ tried step.command ∷ [] in
      elim (runner.send before step.command) [
        | none ↦ send_from (sent + 1) steps after
        | some error ↦ (
          steps_failed (record {
            failed_step = sent + 1;
            of_steps = total;
            reason = runner.describe_failure error;
            steps_sent = sent;
          }),
          after,
        )
      ]

-- The index of a step is the count of those sent before it.
pub send_steps_in_order : List TaskStep → ℕ → TaskStepRunner → StepsResult × List StepEvent
unfolding send_from ordered
send_steps_in_order steps delay runner =
    send_from delay (length (ordered steps)) runner 0 (ordered steps) []
