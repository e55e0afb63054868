-- ===== src/Instance/TaskScheduler/Tick/Ticks.antt =====
-- How often the steps of a task are sent for one claim over the ticks of some days, with the sweeps.
use open_mcc_manager.Prelude.{
  ℕ, ◌+◌, ◌≤◌, ◌≡◌, inl, inr, String, Bool, ◌&&◌, Bool-cases, Option, List, [], ◌∷◌, map, arith,
  All,
}
use open_mcc_manager.Instance.Due.{Parts}
use open_mcc_manager.Instance.Task.{ClaimKey, InstanceSignalRow}
use open_mcc_manager.Instance.TaskScheduler.{
  TaskParts, TaskWorld, TaskSchedulerRun, TaskSchedulerDeps, TaskMoment, ReadReply, got, read_threw,
  log_task,
}
use open_mcc_manager.Instance.TaskScheduler.Sweep.{retention_ms}
use open_mcc_manager.Instance.TaskScheduler.Sweep.Kept.{sweep-Held}
use open_mcc_manager.Instance.TaskScheduler.Consider.Claims.{carries, Held, consider_each-Held}
use open_mcc_manager.Instance.TaskScheduler.Tick.{
  Groups, about, observe, signals_or_none, read_signals, needs_of, needs_signals, consider_group,
  after_observing, if_read, run_group, run_groups, by_instance, run_task_scheduler_tick,
  run_task_ticks,
}

module _ (id : String) (key : ClaimKey) (since : ℕ) where
  module _ (format : ℕ → String → Option Parts) (deps : TaskSchedulerDeps) (at : ℕ)
      (recent : since ≤ at) where
    All-at :
        (running : Bool) (signals : List InstanceSignalRow) (group : List TaskParts)
        → All
            (λ (considered : TaskParts × TaskMoment). since ≤ considered.1.at)
            (map (λ parts. (parts, record { at = at; running = running; signals = signals })) group)
    All-at running signals [] = tt
    All-at running signals (parts ∷ group) = (recent, All-at running signals group)

    consider_group-Held :
        (group : List TaskParts) (running : Bool) (run : TaskSchedulerRun)
        (read : List InstanceSignalRow × TaskWorld)
        → Held id key since read.1
        → Held id key since (consider_group format deps at group running run read).1
    unfolding consider_group
    consider_group-Held group running run (signals, w) held =
        consider_each-Held id key since format deps _ run w (All-at running signals group) held

    signals_or_none-Held :
        (instance_id : String) (reply : ReadReply (List InstanceSignalRow)) (w : TaskWorld)
        → Held id key since w
        → Held id key since (signals_or_none format deps at instance_id reply w).1
    unfolding signals_or_none log_task about carries
    signals_or_none-Held instance_id (got signals) w held = held
    signals_or_none-Held instance_id read_threw w held = held

    after_observing-Held :
        (first : TaskParts) (group : List TaskParts) (running : Bool)
        (found : TaskSchedulerRun × TaskWorld)
        → Held id key since found.1
        → Held id key since (after_observing format deps at first group running found).1
    unfolding after_observing read_signals
    after_observing-Held first group running (run, w) held =
        consider_group-Held group running run _
          (elim (Bool-cases (needs_signals (needs_of group))) [
            | inl asked ↦ rw asked (signals_or_none-Held _ _ w held)
            | inr plain ↦ rw plain held
          ])

    observe-Held :
        (instance_id : String) (running : Bool) (group : List TaskParts) (run : TaskSchedulerRun)
        (w : TaskWorld)
        → Held id key since w
        → Held id key since (observe format deps at instance_id running (needs_of group) run w).1
    unfolding observe log_task about carries
    observe-Held instance_id running group run w held =
        elim (Bool-cases (running && needs_signals (needs_of group))) [
          | inr plain ↦ rw plain held
          | inl asked ↦ rw asked (elim (Bool-cases (deps.observe_fault w.events)) [
            | inl thrown ↦ rw thrown held
            | inr done ↦ rw done held
          ])
        ]

    if_read-Held :
        (first : TaskParts) (group : List TaskParts) (reply : ReadReply Bool)
        (run : TaskSchedulerRun) (w : TaskWorld)
        → Held id key since w
        → Held id key since (if_read format deps at first group reply run w).1
    unfolding if_read log_task about carries
    if_read-Held first group read_threw run w held = held
    if_read-Held first group (got running) run w held =
        after_observing-Held first group running _
          (observe-Held first.task.instance_id running group run w held)

    run_group-Held :
        (group : List TaskParts) (run : TaskSchedulerRun) (w : TaskWorld)
        → Held id key since w
        → Held id key since (run_group format deps at group run w).1
    unfolding run_group
    run_group-Held [] run w held = held
    run_group-Held (first ∷ rest) run w held = if_read-Held first (first ∷ rest) _ run w held

    run_groups-Held :
        (groups : Groups) (run : TaskSchedulerRun) (w : TaskWorld)
        → Held id key since w
        → Held id key since (run_groups format deps at groups run w).1
    unfolding run_groups
    run_groups-Held [] run w held = held
    run_groups-Held ((bot, group) ∷ groups) run w held =
        run_groups-Held groups _ _ (run_group-Held group run w held)

  abbrev pub IsWithin : ℕ × List TaskParts → Type 0
  IsWithin tick = (since ≤ tick.0) × (tick.0 ≤ since + retention_ms)

  run_task_ticks-Held :
      (format : ℕ → String → Option Parts) (deps : TaskSchedulerDeps)
      (ticks : List (ℕ × List TaskParts)) (w : TaskWorld)
      → All IsWithin ticks
      → Held id key since w
      → Held id key since (run_task_ticks format deps ticks w)
  unfolding run_task_ticks run_task_scheduler_tick
  run_task_ticks-Held format deps [] w within held = held
  run_task_ticks-Held format deps ((at, tasks) ∷ ticks) w ((recent, in_time), rest) held =
      run_task_ticks-Held format deps ticks _ rest (
        run_groups-Held format deps at recent (by_instance tasks) _ _
          (sweep-Held id key since deps at w in_time held))

  -- Over the ticks of any seven days, with whatever tasks enabled at each of them and whatever faults,
  -- the steps of a task are sent at most once for a claim: the sweeps of the ticks delete no run that
  -- was claimed in these days.
  pub carries-run_task_ticks :
      (format : ℕ → String → Option Parts) (deps : TaskSchedulerDeps)
      (ticks : List (ℕ × List TaskParts)) (w : TaskWorld)
      → All IsWithin ticks
      → carries id key w.events ≡ 0
      → carries id key (run_task_ticks format deps ticks w).events ≤ 1
  carries-run_task_ticks format deps ticks w within unsent =
      ground (arith, run_task_ticks-Held format deps ticks w within (inl unsent))
