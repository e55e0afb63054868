-- ===== src/Status/Rollup.antt =====
-- packages/core/src/status/rollup.ts: how much of a window a subject spent in each state.
-- A `Date` is its time in milliseconds.
pub mod Totals
pub mod Buckets
use open_mcc_manager.Prelude.{
  ℕ, zero, suc, ◌+◌, ◌-◌, ◌*◌, ◌/◌, min, max, Option, none, some, List, [], ◌∷◌, leb, ◌==◌,
  get_or_else, if◌then◌else◌,
}

-- `StatusState` of packages/contracts/src/status.ts
pub data StatusState : Type 0 where
  up suspect down unknown joined interrupted never_joined excluded : StatusState
  running stuck stopped_expected stopped_unexpected degraded healthy drifting clear : StatusState

pub record RollableInterval : Type 0 where
  pub state : StatusState
  pub started_at : ℕ
  pub ended_at : Option ℕ

pub data AvailabilityBucket : Type 0 where
  good_seconds bad_seconds degraded_seconds unknown_seconds excluded_seconds : AvailabilityBucket

pub record Availability : Type 0 where
  pub good : ℕ
  pub bad : ℕ
  pub degraded : ℕ
  pub unknown : ℕ
  pub excluded : ℕ

abbrev pub empty_availability : Availability
empty_availability = record { good = 0; bad = 0; degraded = 0; unknown = 0; excluded = 0 }

unfoldable pub bucket_of : StatusState → AvailabilityBucket
bucket_of StatusState.up = good_seconds
bucket_of StatusState.joined = good_seconds
bucket_of StatusState.running = good_seconds
bucket_of StatusState.healthy = good_seconds
bucket_of StatusState.clear = good_seconds
bucket_of StatusState.down = bad_seconds
bucket_of StatusState.interrupted = bad_seconds
bucket_of StatusState.never_joined = bad_seconds
bucket_of StatusState.stopped_unexpected = bad_seconds
bucket_of StatusState.degraded = degraded_seconds
bucket_of StatusState.drifting = degraded_seconds
bucket_of StatusState.stuck = degraded_seconds
bucket_of StatusState.suspect = unknown_seconds
bucket_of StatusState.unknown = unknown_seconds
bucket_of StatusState.excluded = excluded_seconds
bucket_of StatusState.stopped_expected = excluded_seconds

-- `Math.round(ms / 1000)`: halves go up.
unfoldable pub overlap_seconds : RollableInterval → ℕ → ℕ → ℕ
overlap_seconds interval day_start day_end =
    let from = max interval.started_at day_start in
    let until = min (get_or_else interval.ended_at day_end) day_end in
    if leb until from then 0 else (until - from + 500) / 1000

-- `{ ...totals, [bucket]: totals[bucket] + seconds }`
unfoldable pub add_to : Availability → AvailabilityBucket → ℕ → Availability
add_to totals good_seconds s = record totals { good = totals.good + s }
add_to totals bad_seconds s = record totals { bad = totals.bad + s }
add_to totals degraded_seconds s = record totals { degraded = totals.degraded + s }
add_to totals unknown_seconds s = record totals { unknown = totals.unknown + s }
add_to totals excluded_seconds s = record totals { excluded = totals.excluded + s }

-- The callback of `reduce`.
unfoldable pub roll_up_one : Availability → RollableInterval → ℕ → ℕ → Availability
unfolding add_to bucket_of
roll_up_one totals interval start end =
    let seconds = overlap_seconds interval start end in
    if seconds == 0 then totals else add_to totals (bucket_of interval.state) seconds

roll_up_from : Availability → List RollableInterval → ℕ → ℕ → Availability
roll_up_from totals [] start end = totals
roll_up_from totals (i ∷ is) start end = roll_up_from (roll_up_one totals i start end) is start end

unfoldable pub roll_up_window : List RollableInterval → ℕ → ℕ → Availability
unfolding roll_up_from
roll_up_window intervals start end = roll_up_from empty_availability intervals start end

pub data StatusRange : Type 0 where
  last_24h last_7d last_30d : StatusRange

unfoldable pub range_seconds : StatusRange → ℕ
range_seconds last_24h = 24 * 60 * 60
range_seconds last_7d = 7 * 24 * 60 * 60
range_seconds last_30d = 30 * 24 * 60 * 60

unfoldable pub bucket_seconds : StatusRange → ℕ
bucket_seconds last_24h = 15 * 60
bucket_seconds last_7d = 2 * 60 * 60
bucket_seconds last_30d = 8 * 60 * 60

-- One element of the array. The subtractions stop at 0, the start of the epoch.
bucket_start : (count step current since index : ℕ) → ℕ
bucket_start count step current since index =
    if index == 0 then since else current - (count - 1 - index) * step

-- `Array.from({ length: count }, …)`, from an index on.
bucket_starts : (count step current since index : ℕ) → ℕ → List ℕ
bucket_starts count step current since index zero = []
bucket_starts count step current since index (suc left) =
    bucket_start count step current since index
    ∷ bucket_starts count step current since (suc index) left

unfoldable pub bucket_starts_for : StatusRange → ℕ → List ℕ
unfolding bucket_starts bucket_start range_seconds bucket_seconds
bucket_starts_for range now =
    let step = bucket_seconds range * 1000 in
    let count = range_seconds range / bucket_seconds range in
    let current = now / step * step in
    let since = now - range_seconds range * 1000 in bucket_starts count step current since 0 count

-- `starts.map(…)`: a window ends where the next starts, and the last after `bucket_seconds`.
unfoldable pub roll_up_buckets : List RollableInterval → List ℕ → ℕ → List (ℕ × Availability)
roll_up_buckets intervals [] seconds = []
roll_up_buckets intervals (start ∷ []) seconds =
    (start, roll_up_window intervals start (start + seconds * 1000)) ∷ []
roll_up_buckets intervals (start ∷ next ∷ rest) seconds =
    (start, roll_up_window intervals start next) ∷ roll_up_buckets intervals (next ∷ rest) seconds
