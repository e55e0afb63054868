-- ===== src/Instance/TaskScheduler/Consider/Claimed.antt =====
-- That what a task is asked to do is done.
use open_mcc_manager.Prelude.{ℕ, ◌≤◌, ◌≡◌, ◌⊎◌, String, true, false, Option, none, List, some_of}
use open_mcc_manager.Instance.Due.{Parts}
use open_mcc_manager.Instance.Task.{ClaimKey, TaskClaim}
use open_mcc_manager.Instance.TaskScheduler.{
  TaskParts, TaskEvent, TaskWorld, TaskSchedulerDeps, is_run_of,
}
use open_mcc_manager.Instance.TaskScheduler.Consider.Claims.{carries}

module _ (id : String) (key : ClaimKey) (before : TaskWorld) where
  -- Done before, or by now.
  abbrev pub IsServed : TaskWorld → Type 0
  IsServed w = (some_of (is_run_of id key) before.runs ≡ true) ⊎ (1 ≤ carries id key w.events)

  abbrev pub IsOpen : TaskWorld → Type 0
  IsOpen w = (some_of (is_run_of id key) w.runs ≡ false) ⊎ IsServed w

module _ (format : ℕ → String → Option Parts) (deps : TaskSchedulerDeps)
    (calm : (events : List TaskEvent) → deps.claim_fault events ≡ none) (parts : TaskParts) (at : ℕ)
    (before : TaskWorld) where
  abbrev Serves : TaskWorld → TaskClaim → Type 0
  Serves w claim = IsServed parts.task.id claim.claim_key before w

  abbrev Opens : TaskWorld → Type 0
  Opens w = (claim : TaskClaim) → IsOpen parts.task.id claim.claim_key before w
