-- ===== src/Instance/Scheduler/Tally.antt =====
-- What a tick of the scheduler counts.
use open_mcc_manager.Prelude.{
  ℕ, suc, ◌+◌, ◌≡◌, inl, inr, refl, String, Bool, true, false, Option-cases, Option, none, some,
  List, [], ◌∷◌, length, length-append, arith,
}
use open_mcc_manager.Instance.Due.{Parts, is_due, start_of_local_day}
use open_mcc_manager.Instance.Scheduler.{
  CommandRow, World, SchedulerRun, SchedulerDeps, candidate_for, claim_run, failed_with, send_row,
  unclaimable, after_claim, call_claim, claim_and_send, when_due, run_row, run_rows,
  run_scheduler_tick,
}

-- The rows of a tick that its result has counted.
unfoldable pub tally : SchedulerRun → ℕ
tally run = length run.fired + length run.failed + run.skipped + run.unclaimed

module _ (format : ℕ → String → Option Parts) (deps : SchedulerDeps) (at : ℕ) where
  -- The row is counted once, and `considered` stays.
  abbrev CountsOne : SchedulerRun → SchedulerRun → Type 0
  CountsOne run next = (tally next ≡ suc (tally run)) × (next.considered ≡ run.considered)

  failed_with-CountsOne :
      (id reason : String) (run : SchedulerRun) → CountsOne run (failed_with id reason run)
  unfolding tally failed_with
  failed_with-CountsOne id reason run = ground (arith, length-append run.failed ((id, reason) ∷ []))

  send_row-CountsOne :
      (row : CommandRow) (run : SchedulerRun) (w : World)
      → CountsOne run (send_row format deps at row run w).0
  unfolding send_row tally
  send_row-CountsOne row run w = elim (Option-cases (deps.send w.events row)) [
    | inl sent_it ↦ rw (sent_it, send_row) (ground (arith, length-append run.fired (row.id ∷ [])))
    | inr (error, thrown) ↦
        rw (thrown, send_row) (failed_with-CountsOne row.id (deps.describe_failure error) run)
  ]

  unclaimable-CountsOne :
      (row : CommandRow) (reason : String) (run : SchedulerRun) (w : World)
      → CountsOne run (unclaimable format deps at row reason run w).0
  unfolding unclaimable
  unclaimable-CountsOne row reason run w = failed_with-CountsOne row.id reason run

  after_claim-CountsOne :
      (row : CommandRow) (run : SchedulerRun) (claim : Bool × World)
      → CountsOne run (after_claim format deps at row run claim).0
  unfolding after_claim tally
  after_claim-CountsOne row run (true, w) = send_row-CountsOne row run w
  after_claim-CountsOne row run (false, w) = ground arith

  claim_and_send-CountsOne :
      (row : CommandRow) (run : SchedulerRun) (w : World) (start : Option ℕ)
      → CountsOne run (claim_and_send format deps at row run w start).0
  unfolding claim_and_send call_claim
  claim_and_send-CountsOne row run w none = unclaimable-CountsOne row deps.unknown_zone run w
  claim_and_send-CountsOne row run w (some since) = called (deps.claim_fault w.events)
    where
      called :
          (fault : Option String)
          → CountsOne run (call_claim format deps at row run w since fault).0
      called none = after_claim-CountsOne row run (claim_run row.id at since w)
      called (some error) = unclaimable-CountsOne row error run w

  skipped-CountsOne :
      (run : SchedulerRun) → CountsOne run (record run { skipped = run.skipped + 1 })
  unfolding tally
  skipped-CountsOne run = ground arith

  when_due-CountsOne :
      (row : CommandRow) (run : SchedulerRun) (w : World) (due : Option Bool)
      → CountsOne run (when_due format deps at row run w due).0
  unfolding when_due
  when_due-CountsOne row run w none = failed_with-CountsOne row.id deps.unknown_zone run
  when_due-CountsOne row run w (some true) =
      claim_and_send-CountsOne row run w (start_of_local_day format row.timezone at)
  when_due-CountsOne row run w (some false) = skipped-CountsOne run

  run_row-CountsOne :
      (row : CommandRow) (run : SchedulerRun) (w : World)
      → CountsOne run (run_row format deps at row run w).0
  unfolding run_row
  run_row-CountsOne row run w = when_due-CountsOne row run w (is_due format (candidate_for row) at)

  run_rows-tally :
      (rows : List CommandRow) (run : SchedulerRun) (w : World)
      → (tally (run_rows format deps at rows run w).0 ≡ tally run + length rows)
        × ((run_rows format deps at rows run w).0.considered ≡ run.considered)
  unfolding run_rows
  run_rows-tally [] run w = (omega arith, refl)
  run_rows-tally (row ∷ rows) run w = ground (
    arith,
    run_row-CountsOne row run w,
    run_rows-tally rows (run_row format deps at row run w).0 (run_row format deps at row run w).1,
  )

  -- A tick counts each command it considered once: as fired, failed, skipped or unclaimed.
  pub tally-run_scheduler_tick :
      (rows : List CommandRow) (w : World)
      → tally (run_scheduler_tick format deps at rows w).0
        ≡ (run_scheduler_tick format deps at rows w).0.considered
  unfolding run_scheduler_tick tally
  tally-run_scheduler_tick rows w = ground (
    arith,
    run_rows-tally rows
        (record { considered = length rows; fired = []; failed = []; skipped = 0; unclaimed = 0 })
        w,
  )
