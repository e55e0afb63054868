-- ===== src/Instance/TaskScheduler/Consider/Keeping.antt =====
-- What considering a task keeps, whatever comes of it: a property of the world that each of its
-- writes keeps.
use Prim.Native.String
use open_mcc_manager.Prelude.{
  ℕ, ◌≡◌, inl, inr, String, Bool, true, false, Bool-cases, Option, none, some, List, [], ◌∷◌,
  some_of,
}
use open_mcc_manager.Instance.Due.{Parts}
use open_mcc_manager.Instance.Task.{TaskClaim, IntervalPlan, IntervalArm}
use open_mcc_manager.Instance.TaskScheduler.{
  TaskParts, RunOutcome, carried, told, TaskWorld, TaskSchedulerRun, SendReply, all_sent,
  steps_failed, threw, TaskSchedulerDeps, TaskMoment, is_run_of, trigger_name, log_task, add_run,
  claim_run, finish_run, record_task_outcome, store_arm,
}
use open_mcc_manager.Instance.TaskScheduler.Consider.{
  message, unless, carry_failed, record_sent, finish_sent, after_send, carry_out, after_claim,
  try_claim, run_claims, run_if_running, with_plan, with_claims,
}

pub record IsKept (P : TaskWorld → Type 0) (parts : TaskParts) (at : ℕ) : Type 0 where
  pub logged : (text : String) (w : TaskWorld) → P w → P (log_task (told text) w)
  pub finished :
      (run_id : ℕ) (outcome : RunOutcome) (n : ℕ) (error : Option String) (w : TaskWorld)
      → P w
      → P (finish_run run_id outcome n error w)
  pub recorded :
      (id : String) (ran_at : ℕ) (error : Option String) (w : TaskWorld)
      → P w
      → P (record_task_outcome id ran_at error w)
  pub stored : (id : String) (arm : IntervalArm) (w : TaskWorld) → P w → P (store_arm id arm w)
  pub claimed :
      (claim : TaskClaim) (w : TaskWorld)
      → some_of (is_run_of parts.task.id claim.claim_key) w.runs ≡ false
      → P w
      → P (log_task (carried parts.task.id claim.claim_key) (add_run parts.task.id claim at w))

message_text : TaskParts → String → String
message_text parts what = String.◌++◌ "Task " (String.◌++◌ parts.task.id what)

module _ (P : TaskWorld → Type 0) (format : ℕ → String → Option Parts) (deps : TaskSchedulerDeps)
    (at : ℕ) (parts : TaskParts) (kept : IsKept P parts at) where
  unless-Kept :
      (fault : Option String) (w done : TaskWorld) → P w → P done → P (unless fault w done)
  unfolding unless
  unless-Kept none w done before after = after
  unless-Kept (some error) w done before after = before

  carry_failed-Kept :
      (claim : TaskClaim) (run_id : ℕ) (reason : String) (n : ℕ) (run : TaskSchedulerRun)
      (w : TaskWorld)
      → P w
      → P (carry_failed format deps at parts claim run_id reason n run w).1
  unfolding carry_failed message message_text
  carry_failed-Kept claim run_id reason n run w held =
      let text : String = String.◌++◌ " failed on trigger " (trigger_name claim.trigger) in
      let noted : TaskWorld = log_task (message parts text) w in
      let logged : P noted = kept.logged (message_text parts text) w held in
      let finished =
        unless-Kept (deps.finish_fault noted.events) noted
          (finish_run run_id RunOutcome.failed n (some reason) noted) logged
          (kept.finished run_id RunOutcome.failed n (some reason) noted logged) in
      unless-Kept _ _ _ finished (kept.recorded parts.task.id at (some reason) _ finished)

  record_sent-Kept :
      (claim : TaskClaim) (run_id : ℕ) (run : TaskSchedulerRun) (w : TaskWorld)
      (fault : Option String)
      → P w
      → P (record_sent format deps at parts claim run_id run w fault).1
  unfolding record_sent
  record_sent-Kept claim run_id run w none held = kept.recorded parts.task.id at none w held
  record_sent-Kept claim run_id run w (some error) held =
      carry_failed-Kept claim run_id (deps.describe_failure error) 0 run w held

  finish_sent-Kept :
      (claim : TaskClaim) (run_id n : ℕ) (run : TaskSchedulerRun) (w : TaskWorld)
      (fault : Option String)
      → P w
      → P (finish_sent format deps at parts claim run_id n run w fault).1
  unfolding finish_sent
  finish_sent-Kept claim run_id n run w (some error) held =
      carry_failed-Kept claim run_id (deps.describe_failure error) 0 run w held
  finish_sent-Kept claim run_id n run w none held =
      record_sent-Kept claim run_id run (finish_run run_id RunOutcome.sent n none w) _
        (kept.finished run_id RunOutcome.sent n none w held)

  pub after_send-Kept :
      (claim : TaskClaim) (run_id : ℕ) (run : TaskSchedulerRun) (w : TaskWorld) (reply : SendReply)
      → P w
      → P (after_send format deps at parts claim run_id run w reply).1
  unfolding after_send
  after_send-Kept claim run_id run w (all_sent n) held = finish_sent-Kept claim run_id n _ w _ held
  after_send-Kept claim run_id run w (steps_failed reason n) held =
      carry_failed-Kept claim run_id reason n run w held
  after_send-Kept claim run_id run w (threw error) held =
      carry_failed-Kept claim run_id (deps.describe_failure error) 0 run w held

  after_claim-Kept :
      (claim : TaskClaim) (run : TaskSchedulerRun) (w : TaskWorld)
      → P w
      → P (after_claim format deps at parts claim run (claim_run parts.task.id claim at w)).1
  unfolding after_claim carry_out claim_run
  after_claim-Kept claim run w held =
      elim (Bool-cases (some_of (is_run_of parts.task.id claim.claim_key) w.runs)) [
        | inl taken ↦ rw (taken, claim_run) held
        | inr free ↦
            let added : TaskWorld = add_run parts.task.id claim at w in
            rw (free, claim_run)
              (after_send-Kept claim w.next_run_id run
                (log_task (carried parts.task.id claim.claim_key) added)
                (deps.send added.events parts) (kept.claimed claim w free held))
      ]

  pub try_claim-Kept :
      (claim : TaskClaim) (run : TaskSchedulerRun) (w : TaskWorld) (fault : Option String)
      → P w
      → P (try_claim format deps at parts claim run w fault).1
  unfolding try_claim message message_text
  try_claim-Kept claim run w none held = after_claim-Kept claim run w held
  try_claim-Kept claim run w (some error) held =
      kept.logged (message_text parts " could not be claimed") w held

  pub run_claims-Kept :
      (claims : List TaskClaim) (run : TaskSchedulerRun) (w : TaskWorld)
      → P w
      → P (run_claims format deps at parts claims run w).1
  unfolding run_claims
  run_claims-Kept [] run w held = held
  run_claims-Kept (claim ∷ claims) run w held =
      run_claims-Kept claims _ _ (try_claim-Kept claim run w (deps.claim_fault w.events) held)

  run_if_running-Kept :
      (running : Bool) (claims : List TaskClaim) (run : TaskSchedulerRun) (w : TaskWorld)
      → P w
      → P (run_if_running format deps at parts running claims run w).1
  unfolding run_if_running
  run_if_running-Kept true claims run w held = run_claims-Kept claims run w held
  run_if_running-Kept false claims run w held = held

  with_plan-Kept :
      (running : Bool) (claims : List TaskClaim) (plan : IntervalPlan) (stored : Option IntervalArm)
      (run : TaskSchedulerRun) (w : TaskWorld)
      → P w
      → P (with_plan format deps at parts running claims plan stored run w).1
  unfolding with_plan message message_text
  with_plan-Kept running claims plan none run w held = run_if_running-Kept running _ run w held
  with_plan-Kept running claims plan (some arm) run w held =
      elim (Bool-cases (deps.arm_fault w.events)) [
        | inl thrown ↦
            rw (thrown, with_plan)
              (kept.logged (message_text parts " could not arm its interval") w held)
        | inr stored ↦
            rw (stored, with_plan)
              (run_if_running-Kept running _ run (store_arm parts.task.id arm w)
                (kept.stored parts.task.id arm w held))
      ]

  pub with_claims-Kept :
      (moment : TaskMoment) (timed : Option (List TaskClaim)) (run : TaskSchedulerRun)
      (w : TaskWorld)
      → P w
      → P (with_claims format deps at parts moment timed run w).1
  unfolding with_claims
  with_claims-Kept moment none run w held =
      unless-Kept _ w _ held (kept.recorded parts.task.id at (some deps.unknown_zone) w held)
  with_claims-Kept moment (some timed) run w held = with_plan-Kept moment.running _ _ _ run w held
