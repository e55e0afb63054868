-- ===== src/Status/Reachability.antt =====
-- packages/core/src/status/reachability.ts: whether a host is up, suspect or down.
-- A `Date` is its time in milliseconds.
pub mod History
use open_mcc_manager.Prelude.{ℕ, ◌+◌, Bool, true, false, Option, none, some, leb, if◌then◌else◌}
use open_mcc_manager.Status.Events.{
  StatusEventKind, host_recovered, host_check_recovered, host_unreachable, host_check_failed,
}

pub data ReachabilityState : Type 0 where
  up suspect down unknown : ReachabilityState

pub record ReachabilityCurrent : Type 0 where
  pub state : ReachabilityState
  pub failure_started_at : Option ℕ

pub record ReachabilityDecision : Type 0 where
  pub state : ReachabilityState
  pub failure_started_at : Option ℕ
  pub event : Option StatusEventKind
  pub changed : Bool

abbrev pub unobserved : ReachabilityCurrent
unobserved = record { state = unknown; failure_started_at = none }

-- The branch `if (reached)`.
when_reached : ReachabilityState → ReachabilityDecision
when_reached up = record { state = up; failure_started_at = none; event = none; changed = false }
when_reached down = record {
  state = up;
  failure_started_at = none;
  event = some host_recovered;
  changed = true;
}
when_reached suspect = record {
  state = up;
  failure_started_at = none;
  event = some host_check_recovered;
  changed = true;
}
when_reached unknown = record {
  state = up;
  failure_started_at = none;
  event = none;
  changed = true;
}

-- `failingSince`
failing_start : ReachabilityState → Option ℕ → ℕ → ℕ
failing_start suspect (some started) now = started
failing_start _ _ now = now

-- The last two returns: the host is not down, and has failed for less than the limit.
still_suspect : ReachabilityState → ℕ → ReachabilityDecision
still_suspect suspect since = record {
  state = suspect;
  failure_started_at = some since;
  event = none;
  changed = false;
}
still_suspect _ since = record {
  state = suspect;
  failure_started_at = some since;
  event = some host_check_failed;
  changed = true;
}

-- `now - failingSince >= suspectToDownMs`, with the subtraction moved to the other side.
when_failed : ReachabilityState → Option ℕ → ℕ → ℕ → ReachabilityDecision
when_failed down started now limit = record {
  state = down;
  failure_started_at = started;
  event = none;
  changed = false;
}
when_failed state started now limit =
    let since = failing_start state started now in
    if leb (since + limit) now
    then record {
      state = down;
      failure_started_at = some since;
      event = some host_unreachable;
      changed = true;
    }
    else still_suspect state since

unfoldable pub next_reachability : ReachabilityCurrent → Bool → ℕ → ℕ → ReachabilityDecision
unfolding when_reached when_failed failing_start still_suspect
next_reachability current true now limit = when_reached current.state
next_reachability current false now limit =
    when_failed current.state current.failure_started_at now limit
