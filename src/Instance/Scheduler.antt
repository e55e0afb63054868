-- ===== src/Instance/Scheduler.antt =====
-- packages/core/src/instance/scheduler.ts: a tick of the scheduler, over claimRun and recordRun of
-- packages/core/src/instance/command.repository.ts. The table of commands is a map from an id to
-- what the two of them read and write; `events` is what the tick did, the latest first. Whether
-- the database or the game's console throws is a parameter that may look at all that was done.
pub mod Tally
pub mod Once
mod Tests
use Prim.Native.String
use open_mcc_manager.Prelude.{
  ℕ, ◌+◌, String, Bool, true, false, Option, none, some, List, [], ◌∷◌, ◌++◌, ltb, str_eq, length,
  if◌then◌else◌,
}
use open_mcc_manager.Instance.Schedule.{parse_days_of_week}
use open_mcc_manager.Instance.Due.{Parts, DueCandidate, is_due, start_of_local_day}

pub record CommandRow : Type 0 where
  pub id : String
  pub days_of_week : List ℕ
  pub minute_of_day : ℕ
  pub timezone : String
  pub enabled : Bool
  pub last_run_at : Option ℕ

-- The columns of a command that a tick writes.
pub record LastRun : Type 0 where
  pub at : Option ℕ
  pub error : Option String

pub data SchedulerEvent : Type 0 where
  sent : String → SchedulerEvent
  told : String → SchedulerEvent

pub record World : Type 0 where
  pub commands : String → Option LastRun
  pub events : List SchedulerEvent

pub record SchedulerRun : Type 0 where
  pub considered : ℕ
  pub fired : List String
  pub failed : List (String × String)
  pub skipped : ℕ
  pub unclaimed : ℕ

-- A `some` is what was thrown.
pub record SchedulerDeps : Type 0 where
  pub send : List SchedulerEvent → CommandRow → Option String
  pub claim_fault : List SchedulerEvent → Option String
  pub record_fault : List SchedulerEvent → Bool
  pub describe_failure : String → String
  pub unknown_zone : String

candidate_for : CommandRow → DueCandidate
candidate_for row = record {
  days_of_week = parse_days_of_week row.days_of_week;
  minute_of_day = row.minute_of_day;
  timezone = row.timezone;
  enabled = row.enabled;
  last_run_at = row.last_run_at;
}

set_run : String → LastRun → World → World
set_run id run w = record w {
  commands = λ other. if str_eq other id then some run else w.commands other;
}

log : SchedulerEvent → World → World
log e w = record w { events = e ∷ w.events }

-- `lastRunAt is null or lastRunAt < notRunSince`
may_claim : ℕ → Option LastRun → Bool
may_claim since none = false
may_claim since (some run) = elim run.at [ none ↦ true | some last ↦ ltb last since ]

-- Whether the update wrote a row.
claim_run : String → ℕ → ℕ → World → Bool × World
unfolding may_claim set_run
claim_run id at since w =
    if may_claim since (w.commands id)
    then (true, set_run id (record { at = some at; error = none }) w)
    else (false, w)

record_run : String → ℕ → String → World → World
unfolding set_run
record_run id at error w = elim (w.commands id) [
  | none ↦ w
  | some _ ↦ set_run id (record { at = some at; error = some error }) w
]

failed_with : String → String → SchedulerRun → SchedulerRun
failed_with id reason run = record run { failed = run.failed ++ (id, reason) ∷ [] }

module _ (format : ℕ → String → Option Parts) (deps : SchedulerDeps) (at : ℕ) where
  -- `await deps.recordRun(…).catch(() => undefined)`
  try_record : CommandRow → String → World → World
  unfolding record_run
  try_record row reason w = if deps.record_fault w.events then w else record_run row.id at reason w

  send_row : CommandRow → SchedulerRun → World → SchedulerRun × World
  unfolding try_record failed_with log
  send_row row run w =
      let after = log (sent row.id) w in
      elim (deps.send w.events row) [
        | none ↦ (record run { fired = run.fired ++ row.id ∷ [] }, after)
        | some error ↦
            let reason = deps.describe_failure error in
            (
              failed_with row.id reason run,
              try_record row reason (
                  log (told (String.◌++◌ "Scheduled command " (String.◌++◌ row.id " failed")))
                    after),
            )
      ]

  unclaimable : CommandRow → String → SchedulerRun → World → SchedulerRun × World
  unfolding failed_with log
  unclaimable row reason run w = (
    failed_with row.id reason run,
    log (told (String.◌++◌ "Scheduled command " (String.◌++◌ row.id " could not be claimed"))) w,
  )

  after_claim : CommandRow → SchedulerRun → Bool × World → SchedulerRun × World
  unfolding send_row
  after_claim row run (claimed, w) =
      if claimed then send_row row run w else (record run { unclaimed = run.unclaimed + 1 }, w)

  -- The call of `claimRun`, which may throw.
  call_claim : CommandRow → SchedulerRun → World → ℕ → Option String → SchedulerRun × World
  unfolding claim_run after_claim unclaimable
  call_claim row run w since (some error) = unclaimable row error run w
  call_claim row run w since none = after_claim row run (claim_run row.id at since w)

  claim_and_send : CommandRow → SchedulerRun → World → Option ℕ → SchedulerRun × World
  unfolding call_claim unclaimable
  claim_and_send row run w none = unclaimable row deps.unknown_zone run w
  claim_and_send row run w (some since) = call_claim row run w since (deps.claim_fault w.events)

  when_due : CommandRow → SchedulerRun → World → Option Bool → SchedulerRun × World
  unfolding try_record failed_with claim_and_send
  when_due row run w none =
      (failed_with row.id deps.unknown_zone run, try_record row deps.unknown_zone w)
  when_due row run w (some false) = (record run { skipped = run.skipped + 1 }, w)
  when_due row run w (some true) =
      claim_and_send row run w (start_of_local_day format row.timezone at)

  -- The body of the loop.
  run_row : CommandRow → SchedulerRun → World → SchedulerRun × World
  unfolding candidate_for when_due
  run_row row run w = when_due row run w (is_due format (candidate_for row) at)

  run_rows : List CommandRow → SchedulerRun → World → SchedulerRun × World
  unfolding run_row
  run_rows [] run w = (run, w)
  run_rows (row ∷ rows) run w = let (next, after) = run_row row run w in run_rows rows next after

  pub run_scheduler_tick : List CommandRow → World → SchedulerRun × World
  unfolding run_rows
  run_scheduler_tick rows w =
      run_rows rows
        (record { considered = length rows; fired = []; failed = []; skipped = 0; unclaimed = 0 }) w

-- The ticks of a scheduler, one after the other (`running` keeps them apart): each has its instant
-- and the commands it read.
pub run_ticks :
    (ℕ → String → Option Parts) → SchedulerDeps → List (ℕ × List CommandRow) → World → World
unfolding run_scheduler_tick
run_ticks format deps [] w = w
run_ticks format deps ((at, rows) ∷ ticks) w =
    run_ticks format deps ticks (run_scheduler_tick format deps at rows w).1
