-- ===== src/Instance/Due.antt =====
-- packages/core/src/instance/due.ts: whether a schedule is due.
-- A `Date` is its time in milliseconds. `format` is `Intl.DateTimeFormat(…).formatToParts`: the
-- parts of an instant in a time zone, `none` where the zone is unknown and it throws.
pub mod Day
use Prim.Native.String
use open_mcc_manager.Prelude.{
  ℕ, ◌+◌, ◌-◌, ◌*◌, String, Bool, true, false, not, ◌||◌, Option, none, some, List, [], ◌∷◌, ltb,
  str_eq, text_eq, codes, find_first, if◌then◌else◌,
}
use open_mcc_manager.Instance.Schedule.{DayOfWeek, days_of_week, day_name, has_day}

pub record Parts : Type 0 where
  pub weekday : List ℕ
  pub year : String
  pub month : String
  pub day : String
  pub hour : ℕ
  pub minute : ℕ

pub record ZonedMoment : Type 0 where
  pub weekday : DayOfWeek
  pub minute_of_day : ℕ
  pub date_key : String

pub record DueCandidate : Type 0 where
  pub days_of_week : List DayOfWeek
  pub minute_of_day : ℕ
  pub timezone : String
  pub enabled : Bool
  pub last_run_at : Option ℕ

abbrev pub catch_up_grace_minutes : ℕ
catch_up_grace_minutes = 60

-- A computation that may throw.
infixl 5 ◌>>=◌
abbrev pub ◌>>=◌ {ℓ κ} : {A : Type ℓ} {B : Type κ} → Option A → (A → Option B) → Option B
none >>= f = none
some a >>= f = f a

-- `WEEKDAY_BY_SHORT_NAME[…]`
weekday_of : List ℕ → Option DayOfWeek
weekday_of name = find_first (λ day. text_eq (day_name day) name) days_of_week

date_key_of : Parts → String
date_key_of p = String.◌++◌ p.year (String.◌++◌ "-" (String.◌++◌ p.month (String.◌++◌ "-" p.day)))

moment_of : Parts → Option ZonedMoment
unfolding weekday_of date_key_of
moment_of p = do
  weekday ← weekday_of p.weekday
  some (record {
    weekday = weekday;
    minute_of_day = p.hour * 60 + p.minute;
    date_key = date_key_of p;
  })

is_empty : List DayOfWeek → Bool
is_empty [] = true
is_empty (day ∷ days) = false

module _ (format : ℕ → String → Option Parts) where
  unfoldable pub zoned_moment : ℕ → String → Option ZonedMoment
  unfolding moment_of
  zoned_moment at timezone = do parts ← format at timezone; moment_of parts

  -- The last lines: not yet today, in the candidate's own time zone.
  not_run_on : DueCandidate → ZonedMoment → Option ℕ → Option Bool
  not_run_on candidate now none = some true
  not_run_on candidate now (some last) = do
    then_ ← zoned_moment last candidate.timezone
    some (not (str_eq then_.date_key now.date_key))

  -- `elapsed < 0 || elapsed > grace`, with the subtraction moved to the other side.
  is_out_of_time : DueCandidate → ZonedMoment → Bool
  is_out_of_time candidate now =
      ltb now.minute_of_day candidate.minute_of_day
      || ltb (candidate.minute_of_day + catch_up_grace_minutes) now.minute_of_day

  at_moment : DueCandidate → ZonedMoment → Option Bool
  unfolding is_out_of_time
  at_moment candidate now =
      if not (has_day candidate.days_of_week now.weekday)
      then some false
      else if is_out_of_time candidate now
      then some false
      else not_run_on candidate now candidate.last_run_at

  unfoldable pub is_due : DueCandidate → ℕ → Option Bool
  unfolding is_empty at_moment not_run_on
  is_due candidate at =
      if not candidate.enabled
      then some false
      else if is_empty candidate.days_of_week
      then some false
      else zoned_moment at candidate.timezone >>= at_moment candidate

  -- The start of the epoch stops the subtraction.
  unfoldable pub start_of_local_day : String → ℕ → Option ℕ
  start_of_local_day timezone at = do
    now ← zoned_moment at timezone
    some (at - now.minute_of_day * 60000)
