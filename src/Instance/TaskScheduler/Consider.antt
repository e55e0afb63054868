-- ===== src/Instance/TaskScheduler/Consider.antt =====
-- considerTask and carryOut of packages/core/src/instance/task-scheduler.ts.
pub mod Keeping
pub mod Claimed
pub mod Claims
pub mod Stopped
use Prim.Native.String
use open_mcc_manager.Prelude.{
  ℕ, ◌+◌, String, Bool, true, false, Option, none, some, List, [], ◌∷◌, ◌++◌, if◌then◌else◌,
}
use open_mcc_manager.Instance.Due.{Parts}
use open_mcc_manager.Instance.Task.{
  TaskClaim, IntervalPlan, signal_claims, time_claims, interval_plan, interval_arm_of,
  interval_claim_of, IntervalArm,
}
use open_mcc_manager.Instance.TaskScheduler.{
  TaskParts, RunOutcome, TaskEvent, carried, told, TaskWorld, TaskSchedulerRun, SendReply, all_sent,
  steps_failed, threw, TaskSchedulerDeps, TaskMoment, log_task, trigger_name, claim_run, finish_run,
  record_task_outcome, store_arm, fail_task,
}

-- `Task … <what happened>`
message : TaskParts → String → TaskEvent
message parts what = told (String.◌++◌ "Task " (String.◌++◌ parts.task.id what))

-- `.catch(() => undefined)`: where the call throws, nothing is done.
unless : Option String → TaskWorld → TaskWorld → TaskWorld
unless none w done = done
unless (some error) w done = w

module _ (format : ℕ → String → Option Parts) (deps : TaskSchedulerDeps) (at : ℕ)
    (parts : TaskParts) where
  -- The `catch` of `carryOut`.
  carry_failed :
      TaskClaim → ℕ → String → ℕ → TaskSchedulerRun → TaskWorld → TaskSchedulerRun × TaskWorld
  unfolding message unless fail_task log_task finish_run record_task_outcome
  carry_failed claim run_id reason steps_sent run w =
      let noted =
        log_task (message parts (String.◌++◌ " failed on trigger " (trigger_name claim.trigger)))
          w in
      let finished =
        unless (deps.finish_fault noted.events) noted
          (finish_run run_id RunOutcome.failed steps_sent (some reason) noted) in
      (
        fail_task parts.task.id reason run,
        unless (deps.outcome_fault finished.events) finished
            (record_task_outcome parts.task.id at (some reason) finished),
      )

  -- `recordTaskOutcome` after the run was finished, and `finishRun` before it; either may throw.
  record_sent :
      TaskClaim → ℕ → TaskSchedulerRun → TaskWorld → Option String → TaskSchedulerRun × TaskWorld
  unfolding carry_failed record_task_outcome
  record_sent claim run_id run w none = (run, record_task_outcome parts.task.id at none w)
  record_sent claim run_id run w (some error) =
      carry_failed claim run_id (deps.describe_failure error) 0 run w

  finish_sent :
      TaskClaim
      → ℕ
      → ℕ
      → TaskSchedulerRun
      → TaskWorld
      → Option String
      → TaskSchedulerRun × TaskWorld
  unfolding carry_failed finish_run record_sent
  finish_sent claim run_id steps_sent run w (some error) =
      carry_failed claim run_id (deps.describe_failure error) 0 run w
  finish_sent claim run_id steps_sent run w none =
      let finished = finish_run run_id RunOutcome.sent steps_sent none w in
      record_sent claim run_id run finished (deps.outcome_fault finished.events)

  pub after_send :
      TaskClaim → ℕ → TaskSchedulerRun → TaskWorld → SendReply → TaskSchedulerRun × TaskWorld
  unfolding carry_failed finish_sent
  after_send claim run_id run w (all_sent n) =
      finish_sent claim run_id n (record run { fired = run.fired ++ parts.task.id ∷ [] }) w
        (deps.finish_fault w.events)
  after_send claim run_id run w (steps_failed reason n) = carry_failed claim run_id reason n run w
  after_send claim run_id run w (threw error) =
      carry_failed claim run_id (deps.describe_failure error) 0 run w

  carry_out : TaskClaim → ℕ → TaskSchedulerRun → TaskWorld → TaskSchedulerRun × TaskWorld
  unfolding after_send log_task
  carry_out claim run_id run w =
      after_send claim run_id run (log_task (carried parts.task.id claim.claim_key) w)
        (deps.send w.events parts)

  after_claim : TaskClaim → TaskSchedulerRun → Option ℕ × TaskWorld → TaskSchedulerRun × TaskWorld
  unfolding carry_out
  after_claim claim run (none, w) = (record run { unclaimed = run.unclaimed + 1 }, w)
  after_claim claim run (some run_id, w) = carry_out claim run_id run w

  pub try_claim :
      TaskClaim → TaskSchedulerRun → TaskWorld → Option String → TaskSchedulerRun × TaskWorld
  unfolding after_claim claim_run fail_task log_task message
  try_claim claim run w (some error) =
      (fail_task parts.task.id error run, log_task (message parts " could not be claimed") w)
  try_claim claim run w none = after_claim claim run (claim_run parts.task.id claim at w)

  -- The loop over the claims.
  pub run_claims : List TaskClaim → TaskSchedulerRun → TaskWorld → TaskSchedulerRun × TaskWorld
  unfolding try_claim
  run_claims [] run w = (run, w)
  run_claims (claim ∷ claims) run w =
      let (next, after) = try_claim claim run w (deps.claim_fault w.events) in
      run_claims claims next after

  pub claims_with : List TaskClaim → Option TaskClaim → List TaskClaim
  claims_with claims none = claims
  claims_with claims (some claim) = claims ++ claim ∷ []

  -- `if (!moment.running) return`, and the loop.
  run_if_running :
      Bool → List TaskClaim → TaskSchedulerRun → TaskWorld → TaskSchedulerRun × TaskWorld
  unfolding run_claims
  run_if_running false claims run w = (run, w)
  run_if_running true claims run w = run_claims claims run w

  with_plan :
      Bool
      → List TaskClaim
      → IntervalPlan
      → Option IntervalArm
      → TaskSchedulerRun
      → TaskWorld
      → TaskSchedulerRun × TaskWorld
  unfolding run_if_running claims_with store_arm log_task message
  with_plan running claims plan none run w =
      run_if_running running (claims_with claims (interval_claim_of plan)) run w
  with_plan running claims plan (some arm) run w =
      let armed =
        run_if_running running (claims_with claims (interval_claim_of plan)) run
          (store_arm parts.task.id arm w) in
      if deps.arm_fault w.events
      then (run, log_task (message parts " could not arm its interval") w)
      else armed

  pub with_claims :
      TaskMoment
      → Option (List TaskClaim)
      → TaskSchedulerRun
      → TaskWorld
      → TaskSchedulerRun × TaskWorld
  unfolding with_plan unless fail_task record_task_outcome
  with_claims moment none run w = (
    fail_task parts.task.id deps.unknown_zone run,
    unless (deps.outcome_fault w.events) w
        (record_task_outcome parts.task.id at (some deps.unknown_zone) w),
  )
  with_claims moment (some timed) run w =
      let plan = interval_plan parts.task at moment.running deps.jitter in
      with_plan moment.running (signal_claims parts.task moment.signals ++ timed) plan
        (interval_arm_of plan) run w

-- A task, at a moment.
pub consider_task :
    (ℕ → String → Option Parts)
    → TaskSchedulerDeps
    → TaskParts
    → TaskMoment
    → TaskSchedulerRun
    → TaskWorld
    → TaskSchedulerRun × TaskWorld
unfolding with_claims
consider_task format deps parts moment run w =
    with_claims format deps moment.at parts moment
      (time_claims format parts.task.timezone parts.times moment.at) run w

-- Tasks as they are considered one after the other, in one tick and in those that follow while no
-- run is swept.
pub consider_each :
    (ℕ → String → Option Parts)
    → TaskSchedulerDeps
    → List (TaskParts × TaskMoment)
    → TaskSchedulerRun
    → TaskWorld
    → TaskSchedulerRun × TaskWorld
unfolding consider_task
consider_each format deps [] run w = (run, w)
consider_each format deps ((parts, moment) ∷ rest) run w =
    let (next, after) = consider_task format deps parts moment run w in
    consider_each format deps rest next after
