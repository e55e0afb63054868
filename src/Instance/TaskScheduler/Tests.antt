-- ===== src/Instance/TaskScheduler/Tests.antt =====
-- A task of a bot that has just joined.
use open_mcc_manager.Prelude.{ℕ, ◌≤◌, refl, String, true, false, Option, none, some, [], ◌∷◌}
use open_mcc_manager.Instance.Due.{Parts}
use open_mcc_manager.Instance.Task.{InstanceSignalRow, login, of_login}
use open_mcc_manager.Instance.TaskScheduler.{
  TaskParts, TaskMoment, TaskSchedulerDeps, TaskSchedulerRun, TaskWorld, all_sent, got,
}
use open_mcc_manager.Instance.TaskScheduler.Consider.{consider_task, consider_each}
use open_mcc_manager.Instance.TaskScheduler.Consider.Claims.{carries, carries-consider_each}
use open_mcc_manager.Instance.TaskScheduler.Consider.Stopped.{
  IsUntouched, consider_task-IsUntouched,
}

abbrev greeter : TaskParts
greeter = record {
  task = record {
    id = "t1";
    organization_id = "o1";
    instance_id = "i1";
    timezone = "UTC";
    created_at = 1000;
    on_first_login = false;
    on_login = true;
    on_respawn = false;
    interval_min_seconds = none;
    interval_max_seconds = none;
    interval_next_run_at = none;
    interval_observed_at = none;
  };
  times = [];
}

abbrev join : InstanceSignalRow
join = record { kind = login; identity = "j1"; occurred_at = 2000; first_for_process = true }

abbrev moment : ℕ → TaskMoment
moment at = record { at = at; running = true; signals = join ∷ [] }

abbrev willing : TaskSchedulerDeps
willing = record {
  is_running = λ events org instance. got true;
  observe_fault = λ events. false;
  signals_since = λ events org instance since. got (join ∷ []);
  sweep_stop = λ events. none;
  send = λ events parts. all_sent 1;
  arm_fault = λ events. false;
  claim_fault = λ events. none;
  finish_fault = λ events. none;
  outcome_fault = λ events. some "database is gone";
  describe_failure = λ error. error;
  unknown_zone = "Unknown timezone";
  jitter = λ low high. low;
}

abbrev nothing_run : TaskSchedulerRun
nothing_run = record { considered = 0; fired = []; failed = []; unclaimed = 0; observed = 0 }

abbrev empty_world : TaskWorld
empty_world = record {
  tasks = λ id. none;
  last_runs = λ id. some (record { at = none; error = none });
  runs = [];
  next_run_id = 0;
  events = [];
}

abbrev no_zone : ℕ → String → Option Parts
no_zone at timezone = none

-- Two ticks see the same join.
two_ticks_carry :
    carries "t1"
      (of_login "j1")
      (consider_each no_zone willing
        ((greeter, moment 3000) ∷ (greeter, moment 33000) ∷ [])
        nothing_run
        empty_world).1.events
    ≤ 1
unfolding carries
two_ticks_carry =
    carries-consider_each "t1" (of_login "j1") no_zone willing
      ((greeter, moment 3000) ∷ (greeter, moment 33000) ∷ []) nothing_run empty_world refl

abbrev stopped_moment : TaskMoment
stopped_moment = record { at = 3000; running = false; signals = join ∷ [] }

consider_task-IsUntouched_example :
    IsUntouched "t1"
      (of_login "j1")
      empty_world
      (consider_task no_zone willing greeter stopped_moment nothing_run empty_world).1
consider_task-IsUntouched_example =
    consider_task-IsUntouched "t1" (of_login "j1") no_zone willing greeter stopped_moment
      nothing_run empty_world refl
