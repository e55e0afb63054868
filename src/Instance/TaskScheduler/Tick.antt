-- ===== src/Instance/TaskScheduler/Tick.antt =====
-- runTaskSchedulerTick of packages/core/src/instance/task-scheduler.ts: the enabled tasks, which are
-- an input, by their bots, and each task considered with what its bot was found to do.
pub mod Groups
pub mod Ticks
mod Tests
use Prim.Native.String
use open_mcc_manager.Prelude.{
  ℕ, ◌+◌, ◌-◌, ◌*◌, String, Bool, true, false, ◌&&◌, ◌||◌, Option, List, [], ◌∷◌, ◌++◌, map,
  some_of, str_eq, length, if◌then◌else◌,
}
use open_mcc_manager.Instance.Due.{Parts}
use open_mcc_manager.Instance.Task.{
  InstanceTaskRow, InstanceSignalRow, wants_join_signal, wants_respawn_signal,
}
use open_mcc_manager.Instance.TaskScheduler.{
  TaskParts, TaskEvent, told, TaskWorld, TaskSchedulerRun, ReadReply, got, read_threw,
  TaskSchedulerDeps, TaskMoment, log_task,
}
use open_mcc_manager.Instance.TaskScheduler.Consider.{consider_each}
use open_mcc_manager.Instance.TaskScheduler.Sweep.{sweep}

pub record TaskSignalNeeds : Type 0 where
  pub join : Bool
  pub respawn : Bool

abbrev task_signal_catch_up_ms : ℕ
task_signal_catch_up_ms = 10 * 60 * 1000

needs_of : List TaskParts → TaskSignalNeeds
needs_of tasks = record {
  join = some_of (λ each. wants_join_signal each.task) tasks;
  respawn = some_of (λ each. wants_respawn_signal each.task) tasks;
}

abbrev needs_signals : TaskSignalNeeds → Bool
needs_signals needs = needs.join || needs.respawn

abbrev pub group_key : TaskParts → String
group_key parts = String.◌++◌ parts.task.organization_id (String.◌++◌ ":" parts.task.instance_id)

-- A `Map`, whose keys stay in the order in which they were first set.
abbrev pub Groups : Type 0
Groups = List (String × List TaskParts)

unfoldable pub add_to_group : TaskParts → Groups → Groups
add_to_group parts [] = (group_key parts, parts ∷ []) ∷ []
add_to_group parts ((key, found) ∷ groups) =
    if str_eq key (group_key parts)
    then (key, found ++ parts ∷ []) ∷ groups
    else (key, found) ∷ add_to_group parts groups

unfoldable pub group_from : List TaskParts → Groups → Groups
unfolding add_to_group
group_from [] grouped = grouped
group_from (parts ∷ tasks) grouped = group_from tasks (add_to_group parts grouped)

unfoldable pub by_instance : List TaskParts → Groups
unfolding group_from
by_instance tasks = group_from tasks []

about : String → String → TaskEvent
about what instance_id = told (String.◌++◌ what instance_id)

module _ (format : ℕ → String → Option Parts) (deps : TaskSchedulerDeps) (at : ℕ) where
  observe :
      String → Bool → TaskSignalNeeds → TaskSchedulerRun → TaskWorld → TaskSchedulerRun × TaskWorld
  unfolding about log_task
  observe instance_id running needs run w =
      if running && needs_signals needs
      then if deps.observe_fault w.events
        then (run, log_task (about "Task scheduler could not read signals for " instance_id) w)
        else (record run { observed = run.observed + 1 }, w)
      else (run, w)

  signals_or_none :
      String → ReadReply (List InstanceSignalRow) → TaskWorld → List InstanceSignalRow × TaskWorld
  unfolding about log_task
  signals_or_none instance_id (got signals) w = (signals, w)
  signals_or_none instance_id read_threw w =
      ([], log_task (about "Task scheduler could not stand up signals for " instance_id) w)

  read_signals : String → String → TaskSignalNeeds → TaskWorld → List InstanceSignalRow × TaskWorld
  unfolding signals_or_none
  read_signals organization_id instance_id needs w =
      if needs_signals needs
      then signals_or_none instance_id
          (deps.signals_since w.events organization_id instance_id (at - task_signal_catch_up_ms)) w
      else ([], w)

  -- The loop over the tasks of a group.
  consider_group :
      List TaskParts
      → Bool
      → TaskSchedulerRun
      → List InstanceSignalRow × TaskWorld
      → TaskSchedulerRun × TaskWorld
  consider_group group running run (signals, w) =
      let moment : TaskMoment = record { at = at; running = running; signals = signals } in
      consider_each format deps (map (λ parts. (parts, moment)) group) run w

  after_observing :
      TaskParts
      → List TaskParts
      → Bool
      → TaskSchedulerRun × TaskWorld
      → TaskSchedulerRun × TaskWorld
  unfolding consider_group read_signals needs_of
  after_observing first group running (run, w) =
      consider_group group running run
        (read_signals first.task.organization_id first.task.instance_id (needs_of group) w)

  if_read :
      TaskParts
      → List TaskParts
      → ReadReply Bool
      → TaskSchedulerRun
      → TaskWorld
      → TaskSchedulerRun × TaskWorld
  unfolding after_observing observe about log_task
  if_read first group read_threw run w =
      (run, log_task (about "Task scheduler could not read bot " first.task.instance_id) w)
  if_read first group (got running) run w =
      after_observing first group running
        (observe first.task.instance_id running (needs_of group) run w)

  run_group : List TaskParts → TaskSchedulerRun → TaskWorld → TaskSchedulerRun × TaskWorld
  unfolding if_read
  run_group [] run w = (run, w)
  run_group (first ∷ rest) run w =
      if_read first (first ∷ rest)
        (deps.is_running w.events first.task.organization_id first.task.instance_id) run w

  pub run_groups : Groups → TaskSchedulerRun → TaskWorld → TaskSchedulerRun × TaskWorld
  unfolding run_group
  run_groups [] run w = (run, w)
  run_groups ((key, group) ∷ groups) run w =
      let (next, after) = run_group group run w in run_groups groups next after

  pub run_task_scheduler_tick : List TaskParts → TaskWorld → TaskSchedulerRun × TaskWorld
  unfolding run_groups by_instance sweep
  run_task_scheduler_tick tasks w =
      run_groups (by_instance tasks)
        (record { considered = length tasks; fired = []; failed = []; unclaimed = 0; observed = 0 })
        (sweep deps at w)

-- Ticks, one after the other, each with its time and the tasks that are enabled then.
pub run_task_ticks :
    (ℕ → String → Option Parts)
    → TaskSchedulerDeps
    → List (ℕ × List TaskParts)
    → TaskWorld
    → TaskWorld
unfolding run_task_scheduler_tick
run_task_ticks format deps [] w = w
run_task_ticks format deps ((at, tasks) ∷ ticks) w =
    run_task_ticks format deps ticks (run_task_scheduler_tick format deps at tasks w).1
