-- ===== src/Instance/TaskScheduler/Tick/Tests.antt =====
-- Two bots whose tasks are enabled, over two ticks.
use open_mcc_manager.Prelude.{
  ℕ, ◌≤◌, ◌≡◌, refl, String, true, false, Option, none, some, List, [], ◌∷◌, keep, arith,
}
use open_mcc_manager.Instance.Due.{Parts}
use open_mcc_manager.Instance.Task.{InstanceSignalRow, login, of_login}
use open_mcc_manager.Instance.TaskScheduler.{TaskParts, TaskSchedulerDeps, TaskWorld, all_sent, got}
use open_mcc_manager.Instance.TaskScheduler.Consider.Claims.{carries}
use open_mcc_manager.Instance.TaskScheduler.Tick.{by_instance, run_task_ticks}
use open_mcc_manager.Instance.TaskScheduler.Tick.Groups.{
  is_of, group_of, IsGrouping, by_instance-IsGrouping,
}
use open_mcc_manager.Instance.TaskScheduler.Tick.Ticks.{carries-run_task_ticks}

abbrev task_of : String → String → TaskParts
task_of id bot = record {
  task = record {
    id = id;
    organization_id = "o1";
    instance_id = bot;
    timezone = "UTC";
    created_at = 1000;
    on_first_login = false;
    on_login = true;
    on_respawn = false;
    interval_min_seconds = none;
    interval_max_seconds = none;
    interval_next_run_at = none;
    interval_observed_at = none;
  };
  times = [];
}

abbrev enabled : List TaskParts
enabled = task_of "t1" "b1" ∷ task_of "t2" "b2" ∷ task_of "t3" "b1" ∷ []

abbrev joined : InstanceSignalRow
joined = record { kind = login; identity = "j1"; occurred_at = 2000; first_for_process = true }

abbrev calm : TaskSchedulerDeps
calm = record {
  is_running = λ events org bot. got true;
  observe_fault = λ events. true;
  signals_since = λ events org bot since. got (joined ∷ []);
  sweep_stop = λ events. none;
  send = λ events parts. all_sent 1;
  arm_fault = λ events. false;
  claim_fault = λ events. none;
  finish_fault = λ events. none;
  outcome_fault = λ events. none;
  describe_failure = λ error. error;
  unknown_zone = "Unknown timezone";
  jitter = λ low high. low;
}

abbrev quiet : TaskWorld
quiet = record {
  tasks = λ id. none;
  last_runs = λ id. some (record { at = none; error = none });
  runs = [];
  next_run_id = 0;
  events = [];
}

abbrev no_zone : ℕ → String → Option Parts
no_zone at timezone = none

by_instance-IsGrouping_example :
    IsGrouping (by_instance enabled)
    × ((key : String) → group_of key (by_instance enabled) ≡ keep (is_of key) enabled)
by_instance-IsGrouping_example = by_instance-IsGrouping enabled

carries-run_task_ticks_example :
    carries "t3"
      (of_login "j1")
      (run_task_ticks no_zone calm ((30000, enabled) ∷ (60000, enabled) ∷ []) quiet).events
    ≤ 1
unfolding carries
carries-run_task_ticks_example =
    carries-run_task_ticks "t3" (of_login "j1") 30000 no_zone calm
      ((30000, enabled) ∷ (60000, enabled) ∷ []) quiet
      ((omega arith, omega arith), ((omega arith, omega arith), tt)) refl
