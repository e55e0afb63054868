-- ===== src/Instance/TaskScheduler.antt =====
-- packages/core/src/instance/task-scheduler.ts: a task as a tick considers it, over claimRun,
-- finishRun, armInterval and recordTaskOutcome of packages/core/src/instance/task.repository.ts.
-- Whether a call throws is a parameter that may look at all that was done.
pub mod Consider
pub mod Sweep
pub mod Tick
mod Tests
use Prim.Native.String
use open_mcc_manager.Prelude.{
  ℕ, ◌+◌, String, Bool, true, false, ◌&&◌, ◌||◌, Option, none, some, List, [], ◌∷◌, ◌++◌, ◌==◌, map,
  some_of, str_eq, length, if◌then◌else◌,
}
use open_mcc_manager.Instance.Due.{Parts}
use open_mcc_manager.Instance.Scheduler.{LastRun}
use open_mcc_manager.Instance.Task.{
  InstanceTaskRow, InstanceTaskTimeRow, InstanceSignalRow, ClaimKey, of_login, of_respawn, of_time,
  of_interval, TaskClaim, TaskTrigger, IntervalArm, IntervalPlan, signal_claims, time_claims,
  interval_plan, interval_arm_of, interval_claim_of, arm_interval,
}

pub record TaskParts : Type 0 where
  pub task : InstanceTaskRow
  pub times : List InstanceTaskTimeRow

pub data RunOutcome : Type 0 where
  running sent failed abandoned : RunOutcome

-- A row of `instanceTaskRun`.
pub record TaskRunRow : Type 0 where
  pub run_id : ℕ
  pub task_id : String
  pub claim : TaskClaim
  pub started_at : ℕ
  pub outcome : RunOutcome
  pub steps_sent : ℕ
  pub error : Option String

-- What was done, the latest first: the steps of a task were sent for a claim, or an error was told.
pub data TaskEvent : Type 0 where
  carried : String → ClaimKey → TaskEvent
  told : String → TaskEvent

pub record TaskWorld : Type 0 where
  pub tasks : String → Option InstanceTaskRow
  pub last_runs : String → Option LastRun
  pub runs : List TaskRunRow
  -- The id that the next run gets.
  pub next_run_id : ℕ
  pub events : List TaskEvent

pub record TaskSchedulerRun : Type 0 where
  pub considered : ℕ
  pub fired : List String
  pub failed : List (String × String)
  pub unclaimed : ℕ
  pub observed : ℕ

-- What `send` comes to: the steps it sent, or what it throws.
pub data SendReply : Type 0 where
  all_sent : ℕ → SendReply
  steps_failed : (message : String) (steps_sent : ℕ) → SendReply
  threw : String → SendReply

-- What a read comes to.
pub data ReadReply {ℓ} (A : Type ℓ) : Type ℓ where
  got : A → ReadReply A
  read_threw : ReadReply A

-- Where the sweep throws, of its three queries.
pub data SweepStop : Type 0 where
  at_abandon at_prune at_signals : SweepStop

pub record TaskSchedulerDeps : Type 0 where
  pub is_running : List TaskEvent → String → String → ReadReply Bool
  pub observe_fault : List TaskEvent → Bool
  pub signals_since : List TaskEvent → String → String → ℕ → ReadReply (List InstanceSignalRow)
  pub sweep_stop : List TaskEvent → Option SweepStop
  pub send : List TaskEvent → TaskParts → SendReply
  pub arm_fault : List TaskEvent → Bool
  pub claim_fault : List TaskEvent → Option String
  pub finish_fault : List TaskEvent → Option String
  pub outcome_fault : List TaskEvent → Option String
  pub describe_failure : String → String
  pub unknown_zone : String
  pub jitter : ℕ → ℕ → ℕ

pub record TaskMoment : Type 0 where
  pub at : ℕ
  pub running : Bool
  pub signals : List InstanceSignalRow

abbrev pub trigger_name : TaskTrigger → String
trigger_name TaskTrigger.on_first_login = "firstLogin"
trigger_name TaskTrigger.on_login = "login"
trigger_name TaskTrigger.on_respawn = "respawn"
trigger_name TaskTrigger.on_time = "time"
trigger_name TaskTrigger.on_interval = "interval"

-- Whether two claim keys are the same text.
unfoldable pub key_eq : ClaimKey → ClaimKey → Bool
key_eq (of_login a) (of_login b) = str_eq a b
key_eq (of_respawn a) (of_respawn b) = str_eq a b
key_eq (of_time a m) (of_time b n) = str_eq a b && (m == n)
key_eq (of_interval a) (of_interval b) = a == b
key_eq _ _ = false

-- The columns that the table of runs holds unique.
abbrev pub is_run_of : String → ClaimKey → TaskRunRow → Bool
is_run_of task_id key run = str_eq run.task_id task_id && key_eq run.claim.claim_key key

unfoldable pub log_task : TaskEvent → TaskWorld → TaskWorld
log_task e w = record w { events = e ∷ w.events }

unfoldable pub add_run : String → TaskClaim → ℕ → TaskWorld → TaskWorld
add_run task_id claim at w = record w {
  next_run_id = w.next_run_id + 1;
  runs =
      record {
        run_id = w.next_run_id;
        task_id = task_id;
        claim = claim;
        started_at = at;
        outcome = running;
        steps_sent = 0;
        error = none;
      }
      ∷ w.runs;
}

-- `insert … on conflict do nothing`: the id of the new run, if there is one.
unfoldable pub claim_run : String → TaskClaim → ℕ → TaskWorld → Option ℕ × TaskWorld
unfolding add_run
claim_run task_id claim at w =
    if some_of (is_run_of task_id claim.claim_key) w.runs
    then (none, w)
    else (some w.next_run_id, add_run task_id claim at w)

finish_row : ℕ → RunOutcome → ℕ → Option String → TaskRunRow → TaskRunRow
finish_row run_id outcome steps_sent error run =
    if run.run_id == run_id
    then record run { outcome = outcome; steps_sent = steps_sent; error = error }
    else run

unfoldable pub finish_run : ℕ → RunOutcome → ℕ → Option String → TaskWorld → TaskWorld
unfolding finish_row
finish_run run_id outcome steps_sent error w = record w {
  runs = map (finish_row run_id outcome steps_sent error) w.runs;
}

unfoldable pub record_task_outcome : String → ℕ → Option String → TaskWorld → TaskWorld
record_task_outcome id at error w = record w {
  last_runs = λ other.
      if str_eq other id
      then elim (w.last_runs other) [
        | none ↦ none
        | some _ ↦ some (record { at = some at; error = error })
      ]
      else w.last_runs other;
}

unfoldable pub store_arm : String → IntervalArm → TaskWorld → TaskWorld
store_arm id arm w = record w {
  tasks = λ other.
      if str_eq other id
      then elim (w.tasks other) [ none ↦ none | some row ↦ some (arm_interval row arm) ]
      else w.tasks other;
}

unfoldable pub fail_task : String → String → TaskSchedulerRun → TaskSchedulerRun
fail_task id reason run = record run { failed = run.failed ++ (id, reason) ∷ [] }
