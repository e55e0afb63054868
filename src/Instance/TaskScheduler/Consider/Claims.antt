-- ===== src/Instance/TaskScheduler/Consider/Claims.antt =====
-- How often the steps of a task are sent for one claim.
use open_mcc_manager.Prelude.{
  ℕ, suc, ◌≤◌, ◌≡◌, ◌⊎◌, inl, inr, refl, String, Bool, true, false, ◌&&◌, Bool-cases, Option, List,
  [], ◌∷◌, map, some_of, str_eq, str_eq_iff, if◌then◌else◌, arith, leb, le→leb, All,
}
use open_mcc_manager.Instance.Due.{Parts}
use open_mcc_manager.Instance.Task.{
  ClaimKey, of_login, of_respawn, of_time, of_interval, TaskClaim, time_claims,
}
use open_mcc_manager.Instance.TaskScheduler.{
  TaskParts, RunOutcome, TaskRunRow, TaskEvent, carried, told, TaskWorld, TaskSchedulerRun,
  TaskSchedulerDeps, TaskMoment, key_eq, is_run_of, log_task, add_run, finish_row, finish_run,
  record_task_outcome, store_arm,
}
use open_mcc_manager.Instance.TaskScheduler.Consider.{consider_task, consider_each}
use open_mcc_manager.Instance.TaskScheduler.Consider.Keeping.{IsKept, with_claims-Kept}

key_eq-eq : (a b : ClaimKey) → key_eq a b ≡ true → a ≡ b
unfolding key_eq
key_eq-eq (of_login a) (of_login b) e = ground (arith, e, str_eq_iff a b)
key_eq-eq (of_respawn a) (of_respawn b) e = ground (arith, e, str_eq_iff a b)
key_eq-eq (of_time a m) (of_time b n) e = ground (arith, e, str_eq_iff a b)
key_eq-eq (of_interval a) (of_interval b) e = ground (arith, e)
key_eq-eq a b e = cc

module _ (id : String) (key : ClaimKey) where
  -- How often the steps of the task were sent for the claim.
  unfoldable pub carries : List TaskEvent → ℕ
  carries [] = 0
  carries (carried other k ∷ events) =
      if str_eq other id && key_eq k key then suc (carries events) else carries events
  carries (told _ ∷ events) = carries events

module _ (id : String) (key : ClaimKey) (since : ℕ) where
  -- A run of the task for the claim, started at `since` or later.
  abbrev pub is_recent_run_of : TaskRunRow → Bool
  is_recent_run_of run = is_run_of id key run && leb since run.started_at

  abbrev IsClaimed : TaskWorld → Type 0
  IsClaimed w = some_of is_recent_run_of w.runs ≡ true

  abbrev pub Held : TaskWorld → Type 0
  Held w = (carries id key w.events ≡ 0) ⊎ ((carries id key w.events ≡ 1) × IsClaimed w)

  not_recent :
      (runs : List TaskRunRow)
      → some_of (is_run_of id key) runs ≡ false
      → some_of is_recent_run_of runs ≡ false
  not_recent [] none_of = refl
  not_recent (run ∷ runs) none_of =
      ground (arith, not_recent runs (ground (arith, none_of)), none_of)

  finish_run-runs :
      (run_id : ℕ) (outcome : RunOutcome) (n : ℕ) (error : Option String) (runs : List TaskRunRow)
      → some_of is_recent_run_of (map (finish_row run_id outcome n error) runs)
        ≡ some_of is_recent_run_of runs
  unfolding finish_row
  finish_run-runs run_id outcome n error [] = refl
  finish_run-runs run_id outcome n error (run ∷ runs) =
      ground (arith, finish_run-runs run_id outcome n error runs)

  module _ (at : ℕ) (parts : TaskParts) where
    -- The claim is new in the table, so nothing was sent for it yet.
    unsent_if_free :
        (claim : TaskClaim) (w : TaskWorld)
        → some_of (is_run_of parts.task.id claim.claim_key) w.runs ≡ false
        → Held w
        → (carries id key w.events ≡ 0)
          ⊎ ((str_eq parts.task.id id && key_eq claim.claim_key key) ≡ false)
    unsent_if_free claim w free held =
        elim (Bool-cases (str_eq parts.task.id id && key_eq claim.claim_key key)) [
          | inr other ↦ inr other
          | inl same ↦
              let same_id : parts.task.id ≡ id =
                ground (arith, same, str_eq_iff parts.task.id id) in
              let same_key : claim.claim_key ≡ key =
                key_eq-eq claim.claim_key key (ground (arith, same)) in
              let unclaimed : some_of (is_run_of id key) w.runs ≡ false =
                rw (same_id, same_key) at free in
              inl (ground (arith, held, not_recent w.runs unclaimed))
        ]

    add_run-Held :
        (claim : TaskClaim) (w : TaskWorld)
        → some_of (is_run_of parts.task.id claim.claim_key) w.runs ≡ false
        → since ≤ at
        → Held w
        → Held (log_task (carried parts.task.id claim.claim_key) (add_run parts.task.id claim at w))
    unfolding log_task carries add_run
    add_run-Held claim w free recent held =
        ground (arith, unsent_if_free claim w free held, held, le→leb since at recent)

    Held-IsKept : since ≤ at → IsKept Held parts at
    unfolding carries log_task finish_run record_task_outcome store_arm
    Held-IsKept recent = record {
      logged = λ text w held. held;
      finished =
          λ run_id outcome n error w held. rw (finish_run-runs run_id outcome n error w.runs) held;
      recorded = λ other ran_at error w held. held;
      stored = λ other arm w held. held;
      claimed = λ claim w free held. add_run-Held claim w free recent held;
    }

  pub consider_each-Held :
      (format : ℕ → String → Option Parts) (deps : TaskSchedulerDeps)
      (each : List (TaskParts × TaskMoment)) (run : TaskSchedulerRun) (w : TaskWorld)
      → All (λ considered. since ≤ considered.1.at) each
      → Held w
      → Held (consider_each format deps each run w).1
  unfolding consider_each consider_task
  consider_each-Held format deps [] run w recent held = held
  consider_each-Held format deps ((parts, moment) ∷ rest) run w (first, others) held =
      consider_each-Held format deps rest _ _ others (
        with_claims-Kept Held format deps moment.at parts (Held-IsKept moment.at parts first) moment
          (time_claims format parts.task.timezone parts.times moment.at) run w held)

always_recent :
    (each : List (TaskParts × TaskMoment)) → All (λ considered. 0 ≤ considered.1.at) each
always_recent [] = tt
always_recent (considered ∷ rest) = (omega arith, always_recent rest)

-- Whatever tasks are considered, at whatever moments and with whatever faults, the steps of a task
-- are sent at most once for a claim: once in all for a login, a respawn, a time of a day or an
-- arming of the interval.
pub carries-consider_each :
    (id : String) (key : ClaimKey) (format : ℕ → String → Option Parts) (deps : TaskSchedulerDeps)
    (each : List (TaskParts × TaskMoment)) (run : TaskSchedulerRun) (w : TaskWorld)
    → carries id key w.events ≡ 0
    → carries id key (consider_each format deps each run w).1.events ≤ 1
carries-consider_each id key format deps each run w unsent =
    ground
      (arith, consider_each-Held id key 0 format deps each run w (always_recent each) (inl unsent))
