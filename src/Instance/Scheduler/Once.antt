-- ===== src/Instance/Scheduler/Once.antt =====
-- How often the ticks of a day can send a command.
use open_mcc_manager.Prelude.{
  ℕ, suc, ◌≤◌, ◌≡◌, ◌≢◌, ◌⊎◌, inl, inr, refl, String, Bool, true, false, Bool-cases, Option-cases,
  Option, none, some, List, [], ◌∷◌, leb, str_eq, str_eq_iff, if◌then◌else◌, arith, All,
}
use open_mcc_manager.Instance.Due.{Parts, is_due, start_of_local_day}
use open_mcc_manager.Instance.Scheduler.{
  CommandRow, LastRun, World, SchedulerEvent, sent, told, SchedulerRun, SchedulerDeps,
  candidate_for, set_run, log, may_claim, claim_run, record_run, try_record, send_row, unclaimable,
  after_claim, call_claim, claim_and_send, when_due, run_row, run_rows, run_scheduler_tick,
  run_ticks,
}

-- How often a command was sent.
unfoldable pub sends : String → List SchedulerEvent → ℕ
sends id [] = 0
sends id (sent other ∷ events) = if str_eq other id then suc (sends id events) else sends id events
sends id (told _ ∷ events) = sends id events

-- The command is gone, or it was run at `day` or later.
has_run : ℕ → Option LastRun → Bool
has_run day none = true
has_run day (some run) = elim run.at [ none ↦ false | some last ↦ leb day last ]

module _ (day : ℕ) (id : String) where
  abbrev Settled : World → Type 0
  Settled w =
      (sends id w.events ≡ 0) ⊎ ((sends id w.events ≡ 1) × (has_run day (w.commands id) ≡ true))

  has_run-may_claim :
      (since : ℕ) (run : Option LastRun)
      → since ≤ day
      → may_claim since run ≡ true
      → has_run day run ≡ false
  unfolding has_run may_claim
  has_run-may_claim since none old may = ground (arith, may)
  has_run-may_claim since (some run) old may = ground (arith, may, Option-cases run.at)

  set_run-Settled :
      (other : String) (at : ℕ) (error : Option String) (w : World)
      → day ≤ at
      → Settled w
      → Settled (set_run other (record { at = some at; error = error }) w)
  unfolding set_run has_run
  set_run-Settled other at error w later settled = ground (arith, settled)

  record_run-Settled :
      (other : String) (at : ℕ) (error : String) (w : World)
      → day ≤ at
      → Settled w
      → Settled (record_run other at error w)
  unfolding record_run
  record_run-Settled other at error w later settled =
      ground (arith, settled, set_run-Settled other at (some error) w later settled)

  module _ (format : ℕ → String → Option Parts) (deps : SchedulerDeps) (at : ℕ)
      (later : day ≤ at) where
    try_record-Settled :
        (row : CommandRow) (reason : String) (w : World)
        → Settled w
        → Settled (try_record format deps at row reason w)
    unfolding try_record
    try_record-Settled row reason w settled =
        ground (arith, settled, record_run-Settled row.id at reason w later settled)

    sent_once :
        (row : CommandRow) (w : World)
        → (sends id w.events ≡ 0) ⊎ (row.id ≢ id)
        → Settled w
        → (has_run day (w.commands row.id) ≡ true)
        → Settled (log (sent row.id) w)
    unfolding log sends
    sent_once row w unsent settled ran = ground (arith, unsent, settled, str_eq_iff row.id id)

    send_row-Settled :
        (row : CommandRow) (run : SchedulerRun) (w : World)
        → Settled (log (sent row.id) w)
        → Settled (send_row format deps at row run w).1
    unfolding send_row log sends
    send_row-Settled row run w settled = elim (Option-cases (deps.send w.events row)) [
      | inl sent_it ↦ rw (sent_it, send_row) settled
      | inr (error, thrown) ↦
          rw (thrown, send_row) (try_record-Settled row (deps.describe_failure error) _ settled)
    ]

    unsent_if_claimed :
        (row : CommandRow) (since : ℕ) (w : World)
        → (row.id ≡ id → since ≤ day)
        → Settled w
        → may_claim since (w.commands row.id) ≡ true
        → (sends id w.events ≡ 0) ⊎ (row.id ≢ id)
    unsent_if_claimed row since w old settled may = elim (Bool-cases (str_eq row.id id)) [
      | inr other ↦ inr (ground (arith, other, str_eq_iff row.id id))
      | inl same_test ↦
          let same : row.id ≡ id = ground (arith, same_test, str_eq_iff row.id id) in
          inl (
            ground
              (arith, settled, has_run-may_claim since (w.commands id) (old same) (rw same at may)))
    ]

    set_run-has_run :
        (row : CommandRow) (w : World)
        → has_run day ((set_run row.id (record { at = some at; error = none }) w).commands row.id)
          ≡ true
    unfolding set_run has_run
    set_run-has_run row w = ground (arith, str_eq_iff row.id row.id)

    claimed-Settled :
        (row : CommandRow) (run : SchedulerRun) (since : ℕ) (w : World)
        → (row.id ≡ id → since ≤ day)
        → Settled w
        → Settled (after_claim format deps at row run (claim_run row.id at since w)).1
    unfolding after_claim claim_run
    claimed-Settled row run since w old settled =
        elim (Bool-cases (may_claim since (w.commands row.id))) [
          | inr unclaimed ↦ rw (unclaimed, claim_run) settled
          | inl may ↦
              let claimed : World = set_run row.id (record { at = some at; error = none }) w in
              rw (may, claim_run)
                (send_row-Settled row run claimed (
                  sent_once row claimed (unsent_if_claimed row since w old settled may)
                    (set_run-Settled row.id at none w later settled) (set_run-has_run row w)))
        ]

    unclaimable-Settled :
        (row : CommandRow) (reason : String) (run : SchedulerRun) (w : World)
        → Settled w
        → Settled (unclaimable format deps at row reason run w).1
    unfolding unclaimable log sends
    unclaimable-Settled row reason run w settled = settled

    call_claim-Settled :
        (row : CommandRow) (run : SchedulerRun) (w : World) (since : ℕ) (fault : Option String)
        → (row.id ≡ id → since ≤ day)
        → Settled w
        → Settled (call_claim format deps at row run w since fault).1
    unfolding call_claim
    call_claim-Settled row run w since none old settled =
        claimed-Settled row run since w old settled
    call_claim-Settled row run w since (some error) old settled =
        unclaimable-Settled row error run w settled

    claim_and_send-Settled :
        (row : CommandRow) (run : SchedulerRun) (w : World) (start : Option ℕ)
        → (row.id ≡ id → (since : ℕ) → start ≡ some since → since ≤ day)
        → Settled w
        → Settled (claim_and_send format deps at row run w start).1
    unfolding claim_and_send
    claim_and_send-Settled row run w none old settled =
        unclaimable-Settled row deps.unknown_zone run w settled
    claim_and_send-Settled row run w (some since) old settled =
        call_claim-Settled row run w since (deps.claim_fault w.events) (λ same. old same since refl)
          settled

    -- The local day of the command with this id began by `day`.
    abbrev BegunBy : CommandRow → Type 0
    BegunBy row =
        row.id ≡ id
        → (since : ℕ) → start_of_local_day format row.timezone at ≡ some since
        → since ≤ day

    when_due-Settled :
        (row : CommandRow) (run : SchedulerRun) (w : World) (due : Option Bool)
        → BegunBy row
        → Settled w
        → Settled (when_due format deps at row run w due).1
    unfolding when_due
    when_due-Settled row run w none old settled = try_record-Settled row deps.unknown_zone w settled
    when_due-Settled row run w (some true) old settled =
        claim_and_send-Settled row run w (start_of_local_day format row.timezone at) old settled
    when_due-Settled row run w (some false) old settled = settled

    run_rows-Settled :
        (rows : List CommandRow) (run : SchedulerRun) (w : World)
        → All BegunBy rows
        → Settled w
        → Settled (run_rows format deps at rows run w).1
    unfolding run_rows run_row
    run_rows-Settled [] run w old settled = settled
    run_rows-Settled (row ∷ rows) run w old settled =
        run_rows-Settled rows _ _ old.1
          (when_due-Settled row run w (is_due format (candidate_for row) at) old.0 settled)

  -- A tick at `day` or later, on a local day of the command that began by then, as startOfLocalDay
  -- reckons it: it keeps the seconds of the tick.
  abbrev pub IsOfDay : (ℕ → String → Option Parts) → ℕ × List CommandRow → Type 0
  IsOfDay format (at, rows) =
      (day ≤ at)
      × All
          (λ row.
            row.id ≡ id
            → (since : ℕ) → start_of_local_day format row.timezone at ≡ some since
            → since ≤ day)
          rows

  run_ticks-Settled :
      (format : ℕ → String → Option Parts) (deps : SchedulerDeps)
      (ticks : List (ℕ × List CommandRow)) (w : World)
      → All (IsOfDay format) ticks
      → Settled w
      → Settled (run_ticks format deps ticks w)
  unfolding run_ticks run_scheduler_tick
  run_ticks-Settled format deps [] w ofday settled = settled
  run_ticks-Settled format deps ((at, rows) ∷ ticks) w ofday settled =
      run_ticks-Settled format deps ticks _ ofday.1
        (run_rows-Settled format deps at ofday.0.0 rows _ w ofday.0.1 settled)

-- Over ticks at an instant `day` or later, whose local day, as startOfLocalDay reckons it, began by
-- `day`, a command is sent at most once, however many there are and whatever fails in them: a claim
-- before each send takes the day. As startOfLocalDay keeps the seconds of the tick, this covers the
-- ticks of a local day that come after its first minute, where no clock is put back on that day.
pub sends-run_ticks :
    (day : ℕ) (id : String) (format : ℕ → String → Option Parts) (deps : SchedulerDeps)
    (ticks : List (ℕ × List CommandRow)) (w : World)
    → All (IsOfDay day id format) ticks
    → sends id w.events ≡ 0
    → sends id (run_ticks format deps ticks w).events ≤ 1
sends-run_ticks day id format deps ticks w ofday unsent =
    ground (arith, run_ticks-Settled day id format deps ticks w ofday (inl unsent))
