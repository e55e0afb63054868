-- ===== src/Instance/TaskScheduler/Sweep/Kept.antt =====
-- What a sweep keeps of the runs.
use open_mcc_manager.Prelude.{
  ℕ, ◌+◌, ◌≤◌, ◌≡◌, inl, inr, refl, String, false, ◌&&◌, Bool-cases, Option, none, some, List, [],
  ◌∷◌, map, keep, some_of, ltb, leb, arith,
}
use open_mcc_manager.Instance.Task.{ClaimKey}
use open_mcc_manager.Instance.TaskScheduler.{
  TaskRunRow, TaskWorld, SweepStop, at_abandon, at_prune, at_signals, TaskSchedulerDeps, log_task,
}
use open_mcc_manager.Instance.TaskScheduler.Sweep.{
  retention_ms, abandon_row, abandon_stale_runs, is_underway, is_kept, prune_runs, swept_until,
  told_unswept, sweep,
}
use open_mcc_manager.Instance.TaskScheduler.Consider.Claims.{carries, is_recent_run_of, Held}

module _ (id : String) (key : ClaimKey) (since : ℕ) where
  abandon_row-recent :
      (before : ℕ) (reason : String) (runs : List TaskRunRow)
      → some_of (is_recent_run_of id key since) (map (abandon_row before reason) runs)
        ≡ some_of (is_recent_run_of id key since) runs
  unfolding abandon_row
  abandon_row-recent before reason [] = refl
  abandon_row-recent before reason (run ∷ runs) =
      elim (Bool-cases (is_underway run.outcome && ltb run.started_at before)) [
        | inl stale ↦ rw (stale, abandon_row-recent before reason runs) refl
        | inr other ↦ rw (other, abandon_row-recent before reason runs) refl
      ]

  prune-recent :
      (before : ℕ) (runs : List TaskRunRow)
      → before ≤ since
      → some_of (is_recent_run_of id key since) (keep (is_kept before) runs)
        ≡ some_of (is_recent_run_of id key since) runs
  unfolding is_kept
  prune-recent before [] early = refl
  prune-recent before (run ∷ runs) early = elim (Bool-cases (is_kept before run)) [
    | inl kept ↦ rw (kept, prune-recent before runs early) refl
    | inr pruned ↦
        let old : leb since run.started_at ≡ false = ground (arith, pruned, early) in
        rw (pruned, prune-recent before runs early) (ground (arith, old))
  ]

  swept_until-Held :
      (stop : Option SweepStop) (abandon_before runs_before : ℕ) (w : TaskWorld)
      → runs_before ≤ since
      → Held id key since w
      → Held id key since (swept_until stop abandon_before runs_before w)
  unfolding swept_until abandon_stale_runs prune_runs
  swept_until-Held (some at_abandon) abandon_before runs_before w early held = held
  swept_until-Held (some at_prune) abandon_before runs_before w early held =
      rw (abandon_row-recent abandon_before _ w.runs) held
  swept_until-Held (some at_signals) abandon_before runs_before w early held =
      rw (prune-recent runs_before _ early, abandon_row-recent abandon_before _ w.runs) held
  swept_until-Held none abandon_before runs_before w early held =
      rw (prune-recent runs_before _ early, abandon_row-recent abandon_before _ w.runs) held

  told_unswept-Held :
      (stop : Option SweepStop) (w : TaskWorld)
      → Held id key since w
      → Held id key since (told_unswept stop w)
  unfolding told_unswept log_task carries
  told_unswept-Held none w held = held
  told_unswept-Held (some stop) w held = held

  pub sweep-Held :
      (deps : TaskSchedulerDeps) (at : ℕ) (w : TaskWorld)
      → at ≤ since + retention_ms
      → Held id key since w
      → Held id key since (sweep deps at w)
  unfolding sweep
  sweep-Held deps at w in_time held =
      told_unswept-Held (deps.sweep_stop w.events) _
        (swept_until-Held (deps.sweep_stop w.events) _ _ w (omega (arith, in_time)) held)
