-- ===== src/Instance/TaskScheduler/Consider/Stopped.antt =====
-- A bot that does not run is left alone.
use open_mcc_manager.Prelude.{
  ℕ, ◌≡◌, refl, String, false, Bool-cases, inl, inr, Option, none, some, List, ◌++◌,
}
use open_mcc_manager.Instance.Due.{Parts}
use open_mcc_manager.Instance.Task.{
  ClaimKey, TaskClaim, IntervalPlan, IntervalArm, time_claims, signal_claims, interval_plan,
  interval_arm_of,
}
use open_mcc_manager.Instance.TaskScheduler.{
  TaskParts, TaskWorld, TaskSchedulerRun, TaskSchedulerDeps, TaskMoment, log_task,
  record_task_outcome, store_arm,
}
use open_mcc_manager.Instance.TaskScheduler.Consider.{
  message, unless, run_if_running, with_plan, with_claims, consider_task,
}
use open_mcc_manager.Instance.TaskScheduler.Consider.Claims.{carries}

-- No run is added or changed, and no steps are sent.
abbrev pub IsUntouched : String → ClaimKey → TaskWorld → TaskWorld → Type 0
IsUntouched id key w after =
    (after.runs ≡ w.runs) × (carries id key after.events ≡ carries id key w.events)

module _ (id : String) (key : ClaimKey) (format : ℕ → String → Option Parts)
    (deps : TaskSchedulerDeps) (at : ℕ) (parts : TaskParts) where
  with_plan-IsUntouched :
      (claims : List TaskClaim) (plan : IntervalPlan) (stored : Option IntervalArm)
      (run : TaskSchedulerRun) (w : TaskWorld)
      → IsUntouched id key w (with_plan format deps at parts false claims plan stored run w).1
  unfolding with_plan run_if_running log_task store_arm carries message
  with_plan-IsUntouched claims plan none run w = (refl, refl)
  with_plan-IsUntouched claims plan (some arm) run w = elim (Bool-cases (deps.arm_fault w.events)) [
    | inl thrown ↦ rw (thrown, with_plan) (refl, refl)
    | inr stored ↦ rw (stored, with_plan) (refl, refl)
  ]

  unless-IsUntouched :
      (fault : Option String) (w done : TaskWorld)
      → IsUntouched id key w done
      → IsUntouched id key w (unless fault w done)
  unfolding unless
  unless-IsUntouched none w done same = same
  unless-IsUntouched (some error) w done same = (refl, refl)

  with_claims-IsUntouched :
      (moment : TaskMoment) (timed : Option (List TaskClaim)) (run : TaskSchedulerRun)
      (w : TaskWorld)
      → moment.running ≡ false
      → IsUntouched id key w (with_claims format deps at parts moment timed run w).1
  unfolding with_claims record_task_outcome
  with_claims-IsUntouched moment none run w stopped = unless-IsUntouched _ w _ (refl, refl)
  with_claims-IsUntouched moment (some timed) run w stopped =
      let plan = interval_plan parts.task at false deps.jitter in
      rw stopped (
        with_plan-IsUntouched (signal_claims parts.task moment.signals ++ timed) plan
          (interval_arm_of plan) run w)

-- While a bot does not run, considering one of its tasks neither claims a run nor sends a step,
-- whatever the task's signals, times and interval.
pub consider_task-IsUntouched :
    (id : String) (key : ClaimKey) (format : ℕ → String → Option Parts) (deps : TaskSchedulerDeps)
    (parts : TaskParts) (moment : TaskMoment) (run : TaskSchedulerRun) (w : TaskWorld)
    → moment.running ≡ false
    → IsUntouched id key w (consider_task format deps parts moment run w).1
unfolding consider_task
consider_task-IsUntouched id key format deps parts moment run w stopped =
    with_claims-IsUntouched id key format deps moment.at parts moment
      (time_claims format parts.task.timezone parts.times moment.at) run w stopped
