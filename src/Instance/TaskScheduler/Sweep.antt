-- ===== src/Instance/TaskScheduler/Sweep.antt =====
-- The sweep of a tick of the task scheduler: abandonStaleRuns and pruneRuns of
-- packages/core/src/instance/task.repository.ts, as apps/server/src/bootstrap.ts calls them. The
-- pruning of the signals changes no run.
pub mod Kept
use Prim.Native.String
use open_mcc_manager.Prelude.{
  ℕ, ◌-◌, ◌*◌, String, Bool, true, false, not, ◌&&◌, ◌||◌, Option, none, some, List, map, keep, ltb,
  if◌then◌else◌,
}
use open_mcc_manager.Instance.TaskScheduler.{
  RunOutcome, TaskRunRow, told, TaskWorld, SweepStop, at_abandon, at_prune, at_signals,
  TaskSchedulerDeps, log_task,
}

abbrev pub task_run_retention_days : ℕ
task_run_retention_days = 7

abbrev task_abandoned_after_ms : ℕ
task_abandoned_after_ms = 15 * 60 * 1000

abbrev task_abandoned_reason : String
task_abandoned_reason = "The manager stopped part-way through this task"

abbrev pub retention_ms : ℕ
retention_ms = task_run_retention_days * 24 * 60 * 60 * 1000

abbrev pub is_underway : RunOutcome → Bool
is_underway RunOutcome.running = true
is_underway _ = false

pub abandon_row : ℕ → String → TaskRunRow → TaskRunRow
abandon_row before reason run =
    if is_underway run.outcome && ltb run.started_at before
    then record run { outcome = RunOutcome.abandoned; error = some reason }
    else run

pub abandon_stale_runs : ℕ → String → TaskWorld → TaskWorld
unfolding abandon_row
abandon_stale_runs before reason w = record w { runs = map (abandon_row before reason) w.runs }

pub is_kept : ℕ → TaskRunRow → Bool
is_kept before run = not (ltb run.started_at before && not (is_underway run.outcome))

pub prune_runs : ℕ → TaskWorld → TaskWorld
unfolding is_kept
prune_runs before w = record w { runs = keep (is_kept before) w.runs }

-- What is swept before the query that throws, if one does.
pub swept_until : Option SweepStop → ℕ → ℕ → TaskWorld → TaskWorld
unfolding abandon_stale_runs prune_runs
swept_until (some at_abandon) abandon_before runs_before w = w
swept_until (some at_prune) abandon_before runs_before w =
    abandon_stale_runs abandon_before task_abandoned_reason w
swept_until _ abandon_before runs_before w =
    prune_runs runs_before (abandon_stale_runs abandon_before task_abandoned_reason w)

-- `onError` where the sweep threw.
pub told_unswept : Option SweepStop → TaskWorld → TaskWorld
unfolding log_task
told_unswept none w = w
told_unswept (some stop) w = log_task (told "Task runs could not be swept") w

unfoldable pub sweep : TaskSchedulerDeps → ℕ → TaskWorld → TaskWorld
unfolding told_unswept swept_until
sweep deps at w =
    let stop = deps.sweep_stop w.events in
    told_unswept stop (swept_until stop (at - task_abandoned_after_ms) (at - retention_ms) w)
