-- ===== src/Status/Drain.antt =====
-- packages/core/src/status/instance-observer.ts: reading a bot's journal, round by round.
-- `JournalResult` is what the parsers of packages/contracts/src/boundary/journal.ts make of a
-- command's output; `is_cursor` is `isJournalCursor`.
pub mod Threading
pub mod Rounds
mod Tests
use open_mcc_manager.Prelude.{
  ℕ, zero, suc, ◌+◌, ◌-◌, String, Bool, true, false, not, ◌&&◌, Option, none, some, List, [], ◌∷◌,
  ◌++◌, ltb, length, last_of, str_eq, if◌then◌else◌,
}
use open_mcc_manager.Status.Events.{instance_joined, instance_stopped, instance_connection_lost}
use open_mcc_manager.Status.Connection.{
  ConnectionState, ConnectionSignal, stopped, ConnectionCurrent, ConnectionChange,
  changes_from_signals,
}
use open_mcc_manager.Status.Connection.Changes.{connection_after}

abbrev pub journal_max_lines : ℕ
journal_max_lines = 2000

abbrev pub journal_drain_rounds : ℕ
journal_drain_rounds = 4

-- The exit code is 0 or not; whether the error says that the cursor was refused; how many lines
-- came; their signals; the signals of the last line alone; and the cursor shown.
pub record JournalResult : Type 0 where
  pub succeeded : Bool
  pub says_refused : Bool
  pub line_count : ℕ
  pub sighted : List ConnectionSignal
  pub last_line : List ConnectionSignal
  pub cursor : Option String

pub record InstanceReading : Type 0 where
  pub changes : List ConnectionChange
  pub cursor : Option String
  pub full : Bool
  pub refused : Bool

-- `list.slice(0, count)`
unfoldable pub first_of {ℓ} : {A : Type ℓ} → ℕ → List A → List A
first_of zero xs = []
first_of (suc n) [] = []
first_of (suc n) (x ∷ xs) = x ∷ first_of n xs

-- `a ?? b`
unfoldable pub or_else : Option String → Option String → Option String
or_else none b = b
or_else (some a) b = some a

-- The one change that a first reading makes of the latest signal.
seed_changes : Option ConnectionSignal → List ConnectionChange
seed_changes none = []
seed_changes (some (ConnectionSignal.joined at pid)) =
    record {
      state = ConnectionState.joined;
      at = at;
      pid = some pid;
      event = instance_joined;
      reason = none;
    }
    ∷ []
seed_changes (some (stopped at pid)) =
    record {
      state = ConnectionState.down;
      at = at;
      pid = some pid;
      event = instance_stopped;
      reason = none;
    }
    ∷ []
seed_changes (some (ConnectionSignal.disconnected at pid reason)) =
    record {
      state = ConnectionState.interrupted;
      at = at;
      pid = some pid;
      event = instance_connection_lost;
      reason = reason;
    }
    ∷ []

-- The signals but those of the line past the limit, which the next round reads again.
unfoldable pub within_limit : Bool → JournalResult → List ConnectionSignal
unfolding first_of
within_limit full result =
    if full
    then first_of (length result.sighted - length result.last_line) result.sighted
    else result.sighted

module _ (is_cursor : String → Bool) where
  unfoldable pub journal_resume : Option String → Option String
  journal_resume none = none
  journal_resume (some cursor) = if is_cursor cursor then some cursor else none

  read_from : ConnectionCurrent → Option String → Option String → JournalResult → InstanceReading
  unfolding within_limit seed_changes or_else
  read_from current cursor none result = record {
    changes = seed_changes (last_of (within_limit false result));
    cursor = or_else result.cursor cursor;
    full = false;
    refused = false;
  }
  read_from current cursor (some resume) result =
      let full = ltb journal_max_lines result.line_count in
      record {
        changes = changes_from_signals current (within_limit full result);
        cursor = or_else result.cursor cursor;
        full = full;
        refused = false;
      }

  unread : Option String → Option String → JournalResult → InstanceReading
  unread cursor none result = record {
    changes = [];
    cursor = cursor;
    full = false;
    refused = false;
  }
  unread cursor (some resume) result = record {
    changes = [];
    cursor = cursor;
    full = false;
    refused = result.says_refused;
  }

  unfoldable pub read_connection_changes :
      JournalResult → ConnectionCurrent → Option String → InstanceReading
  unfolding journal_resume read_from unread
  read_connection_changes result current cursor =
      if result.succeeded
      then read_from current cursor (journal_resume cursor) result
      else unread cursor (journal_resume cursor) result

pub data DrainOutcome : Type 0 where
  drained unleased : DrainOutcome

-- What a drain does, the first first.
pub data DrainEvent : Type 0 where
  recorded : List ConnectionChange → DrainEvent
  saved : String → DrainEvent
  refused_at : String → DrainEvent

-- `if (next !== at) await drain.saveCursor(next)`
save_if_new : String → Option String → List DrainEvent
save_if_new next none = saved next ∷ []
save_if_new next (some at) = if str_eq next at then [] else saved next ∷ []

pub record JournalDrain : Type 0 where
  pub leases : ℕ → Bool
  pub exec : ℕ → Option String → JournalResult

abbrev also : List DrainEvent → DrainOutcome × List DrainEvent → DrainOutcome × List DrainEvent
also done (outcome, rest) = (outcome, done ++ rest)

-- What follows a reading that was not full, and one that was: `on_from` is the next rounds.
after_reading :
    Option String
    → Option String
    → Bool
    → DrainOutcome × List DrainEvent
    → DrainOutcome × List DrainEvent
unfolding save_if_new
after_reading at none full on_from = (drained, [])
after_reading at (some next) false on_from = (drained, save_if_new next at)
after_reading at (some next) true on_from = also (saved next ∷ []) on_from

-- A refused cursor is dropped, and the next round reads afresh.
if_refused :
    Option String
    → Bool
    → DrainOutcome × List DrainEvent
    → DrainOutcome × List DrainEvent
    → DrainOutcome × List DrainEvent
if_refused (some at) true afresh otherwise = also (refused_at at ∷ []) afresh
if_refused (some at) false afresh otherwise = otherwise
if_refused none refused afresh otherwise = otherwise

module _ (is_cursor : String → Bool) (drain : JournalDrain) where
  -- The rest of the drain, where `left` rounds are left from `round` on.
  drain_from : ℕ → ℕ → ConnectionCurrent → Option String → DrainOutcome × List DrainEvent
  unfolding after_reading if_refused
  drain_from zero round seen at = (drained, [])
  drain_from (suc left) round seen at =
      let reading = read_connection_changes is_cursor (drain.exec round at) seen at in
      let afresh = drain_from left (suc round) seen none in
      let on_from =
        drain_from left (suc round) (connection_after seen reading.changes) reading.cursor in
      if drain.leases round
      then also (recorded reading.changes ∷ []) (
          if_refused at reading.refused afresh
            (after_reading at reading.cursor reading.full on_from))
      else (unleased, [])

  pub drain_connection_changes : ConnectionCurrent → Option String → DrainOutcome × List DrainEvent
  unfolding drain_from
  drain_connection_changes current cursor = drain_from journal_drain_rounds 0 current cursor
