-- ===== src/Status/Drain/Threading.antt =====
-- A drain reads a journal in rounds as one reading would.
use open_mcc_manager.Prelude.{
  ℕ, zero, suc, ◌≡◌, refl, ap, ◌∙◌, String, Bool, true, false, Bool-cases, Option-cases, inl, inr,
  Option, none, some, List, [], ◌∷◌, ◌++◌, append-nil, arith, ltb, get_or_else, if◌then◌else◌,
}
use open_mcc_manager.Status.Connection.{
  ConnectionSignal, ConnectionCurrent, ConnectionChange, changes_from_signals,
}
use open_mcc_manager.Status.Connection.Changes.{connection_after, changes_from_signals-append}
use open_mcc_manager.Status.Drain.{
  JournalDrain, DrainOutcome, DrainEvent, recorded, saved, refused_at, journal_max_lines,
  within_limit, or_else, journal_resume, read_from, unread, read_connection_changes, save_if_new,
  after_reading, if_refused, drain_from, drain_connection_changes,
}

-- The changes that a drain records, in their order.
unfoldable pub changes_in : List DrainEvent → List ConnectionChange
changes_in [] = []
changes_in (recorded changes ∷ events) = changes ++ changes_in events
changes_in (saved _ ∷ events) = changes_in events
changes_in (refused_at _ ∷ events) = changes_in events

module _ (is_cursor : String → Bool) (drain : JournalDrain) where
  -- The signals that the rounds of a drain read, whatever is made of them.
  unfoldable pub signals_read : ℕ → ℕ → String → List ConnectionSignal
  signals_read zero round at = []
  signals_read (suc left) round at =
      let result = drain.exec round (some at) in
      let full = ltb journal_max_lines result.line_count in
      let rest = signals_read left (suc round) (get_or_else result.cursor at) in
      if drain.leases round
      then if result.succeeded then within_limit full result ++ (if full then rest else []) else []
      else []

  -- Every cursor that the journal shows is one, and it refuses none.
  pub record IsSteady : Type 0 where
    pub shown :
        (round : ℕ) (at : Option String) (c : String)
        → (drain.exec round at).cursor ≡ some c
        → is_cursor c ≡ true
    pub taken : (round : ℕ) (at : Option String) → (drain.exec round at).says_refused ≡ false

  module _ (steady : IsSteady) where
    next-is_cursor :
        (round : ℕ) (at : String)
        → is_cursor at ≡ true
        → is_cursor (get_or_else (drain.exec round (some at)).cursor at) ≡ true
    next-is_cursor round at valid = elim (Option-cases (drain.exec round (some at)).cursor) [
      | inl kept ↦ rw kept valid
      | inr (c, shown) ↦ rw shown (steady.shown round (some at) c shown)
    ]

    -- What is recorded after a reading that was not refused: the later rounds, if it was full.
    changes_in-after_reading :
        (at : Option String) (next : String) (full : Bool)
        (on_from : DrainOutcome × List DrainEvent)
        → changes_in (after_reading at (some next) full on_from).1
          ≡ (if full then changes_in on_from.1 else [])
    unfolding changes_in after_reading save_if_new
    changes_in-after_reading at next true on_from = refl
    changes_in-after_reading none next false on_from = refl
    changes_in-after_reading (some c) next false on_from = ground arith

    or_else-some :
        (shown : Option String) (at : String)
        → or_else shown (some at) ≡ some (get_or_else shown at)
    unfolding or_else
    or_else-some none at = refl
    or_else-some (some c) at = refl

    changes-if_full :
        (seen : ConnectionCurrent) (full : Bool) (xs rest : List ConnectionSignal)
        (later : List ConnectionChange)
        → later ≡ changes_from_signals (connection_after seen (changes_from_signals seen xs)) rest
        → changes_from_signals seen xs ++ (if full then later else [])
          ≡ changes_from_signals seen (xs ++ (if full then rest else []))
    changes-if_full seen true xs rest later e = cc (e, changes_from_signals-append seen xs rest)
    changes-if_full seen false xs rest later e =
        cc (append-nil xs, append-nil (changes_from_signals seen xs))

    -- What a round reads from a cursor, where the command fails and where it succeeds.
    read-failed :
        (round : ℕ) (seen : ConnectionCurrent) (at : String)
        → is_cursor at ≡ true
        → (drain.exec round (some at)).succeeded ≡ false
        → read_connection_changes is_cursor (drain.exec round (some at)) seen (some at)
          ≡ record { changes = []; cursor = some at; full = false; refused = false }
    unfolding read_connection_changes unread journal_resume
    read-failed round seen at valid failed =
        rw (failed, read_connection_changes, valid, journal_resume, steady.taken round (some at))
          refl

    read-succeeded :
        (round : ℕ) (seen : ConnectionCurrent) (at : String)
        → is_cursor at ≡ true
        → (drain.exec round (some at)).succeeded ≡ true
        → read_connection_changes is_cursor (drain.exec round (some at)) seen (some at) ≡ record {
          changes = changes_from_signals seen (
              within_limit
                (ltb journal_max_lines (drain.exec round (some at)).line_count)
                (drain.exec round (some at)));
          cursor = some (get_or_else (drain.exec round (some at)).cursor at);
          full = ltb journal_max_lines (drain.exec round (some at)).line_count;
          refused = false;
        }
    unfolding read_connection_changes read_from journal_resume
    read-succeeded round seen at valid read =
        rw
          (
            read,
            read_connection_changes,
            valid,
            journal_resume,
            or_else-some (drain.exec round (some at)).cursor at,
          )
          refl

    signals-failed :
        (left round : ℕ) (at : String)
        → (drain.exec round (some at)).succeeded ≡ false
        → signals_read (suc left) round at ≡ []
    unfolding signals_read
    signals-failed left round at failed = ground (arith, failed)

    signals-succeeded :
        (left round : ℕ) (at : String)
        → drain.leases round ≡ true
        → (drain.exec round (some at)).succeeded ≡ true
        → signals_read (suc left) round at
          ≡ within_limit
              (ltb journal_max_lines (drain.exec round (some at)).line_count)
              (drain.exec round (some at))
            ++ (if ltb journal_max_lines (drain.exec round (some at)).line_count
                then signals_read left
                    (suc round)
                    (get_or_else (drain.exec round (some at)).cursor at)
                else [])
    unfolding signals_read
    signals-succeeded left round at leased read = ground (arith, leased, read)

    -- A round, given what the later rounds do.
    changes_in-round :
        (left round : ℕ) (seen : ConnectionCurrent) (at : String)
        → is_cursor at ≡ true
        → ((next : ConnectionCurrent) (c : String)
            → is_cursor c ≡ true
            → changes_in (drain_from is_cursor drain left (suc round) next (some c)).1
              ≡ changes_from_signals next (signals_read left (suc round) c))
        → drain.leases round ≡ true
        → changes_in (drain_from is_cursor drain (suc left) round seen (some at)).1
          ≡ changes_from_signals seen (signals_read (suc left) round at)
    unfolding changes_in drain_from if_refused changes_from_signals
    changes_in-round left round seen at valid later leased =
        elim (Bool-cases (drain.exec round (some at)).succeeded) [
          | inr failed ↦
              rw
                (
                  leased,
                  drain_from,
                  read-failed round seen at valid failed,
                  signals-failed left round at failed,
                )
                (changes_in-after_reading (some at) at false (
                  drain_from is_cursor drain left (suc round) (connection_after seen []) (some at)))
          | inl read ↦
              rw
                (
                  leased,
                  drain_from,
                  read-succeeded round seen at valid read,
                  signals-succeeded left round at leased read,
                )
                (ap (λ rest. changes_from_signals seen signals ++ rest)
                    (changes_in-after_reading (some at) next full on_from)
                  ∙ changes-if_full seen full signals (signals_read left (suc round) next)
                      (changes_in on_from.1) (later seen_then next (next-is_cursor round at valid)))
        ]
      where
        full : Bool
        full = ltb journal_max_lines (drain.exec round (some at)).line_count

        signals : List ConnectionSignal
        signals = within_limit full (drain.exec round (some at))

        next : String
        next = get_or_else (drain.exec round (some at)).cursor at

        seen_then : ConnectionCurrent
        seen_then = connection_after seen (changes_from_signals seen signals)

        on_from : DrainOutcome × List DrainEvent
        on_from = drain_from is_cursor drain left (suc round) seen_then (some next)

    changes_in-drain_from :
        (left round : ℕ) (seen : ConnectionCurrent) (at : String)
        → is_cursor at ≡ true
        → changes_in (drain_from is_cursor drain left round seen (some at)).1
          ≡ changes_from_signals seen (signals_read left round at)
    unfolding changes_in drain_from signals_read changes_from_signals
    changes_in-drain_from zero round seen at valid = refl
    changes_in-drain_from (suc left) round seen at valid = elim (Bool-cases (drain.leases round)) [
      | inr unleased_ ↦ rw (unleased_, drain_from, signals_read) refl
      | inl leased ↦
          changes_in-round left round seen at valid
            (λ next c ok. changes_in-drain_from left (suc round) next c ok) leased
    ]

-- What a drain records is what one reading of all the signals that its rounds read would record.
pub drain_connection_changes-signals_read :
    (is_cursor : String → Bool) (drain : JournalDrain) (current : ConnectionCurrent)
    (cursor : String)
    → IsSteady is_cursor drain
    → is_cursor cursor ≡ true
    → changes_in (drain_connection_changes is_cursor drain current (some cursor)).1
      ≡ changes_from_signals current (signals_read is_cursor drain 4 0 cursor)
unfolding drain_connection_changes
drain_connection_changes-signals_read is_cursor drain current cursor steady valid =
    changes_in-drain_from is_cursor drain steady 4 0 current cursor valid
