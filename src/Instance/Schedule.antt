-- ===== src/Instance/Schedule.antt =====
-- packages/core/src/instance/schedule.ts and packages/contracts/src/schedule.ts: days of the week
-- as they are stored, and times of day.
pub mod Days
use open_mcc_manager.Prelude.{
  ℕ, ◌+◌, ◌*◌, ◌/◌, ◌%◌, String, Bool, true, false, ◌&&◌, ◌||◌, Option, none, some, List, [], ◌∷◌,
  ◌++◌, codes, text_eq, split_at, keep, some_of, ◌==◌, length, if◌then◌else◌,
}

pub data DayOfWeek : Type 0 where
  mon tue wed thu fri sat sun : DayOfWeek

-- `DAYS_OF_WEEK`
abbrev pub days_of_week : List DayOfWeek
days_of_week = mon ∷ tue ∷ wed ∷ thu ∷ fri ∷ sat ∷ sun ∷ []

abbrev pub day_name : DayOfWeek → List ℕ
day_name mon = codes "Mon"
day_name tue = codes "Tue"
day_name wed = codes "Wed"
day_name thu = codes "Thu"
day_name fri = codes "Fri"
day_name sat = codes "Sat"
day_name sun = codes "Sun"

abbrev pub day_eq : DayOfWeek → DayOfWeek → Bool
day_eq mon mon = true
day_eq tue tue = true
day_eq wed wed = true
day_eq thu thu = true
day_eq fri fri = true
day_eq sat sat = true
day_eq sun sun = true
day_eq _ _ = false

-- `days.includes(day)`
abbrev pub has_day : List DayOfWeek → DayOfWeek → Bool
has_day days day = some_of (day_eq day) days

unfoldable pub ordered_days : List DayOfWeek → List DayOfWeek
ordered_days days = keep (has_day days) days_of_week

-- `join(",")`
abbrev join_days : List DayOfWeek → List ℕ
join_days [] = []
join_days (day ∷ []) = day_name day
join_days (day ∷ d ∷ days) = day_name day ++ b',' ∷ join_days (d ∷ days)

render_ordered : List DayOfWeek → Option (List ℕ)
render_ordered [] = none
render_ordered (day ∷ days) =
    if length (day ∷ days) == 7 then some (codes "*") else some (join_days (day ∷ days))

-- `none` where the code throws: a window must name at least one day.
unfoldable pub render_days_of_week : List DayOfWeek → Option (List ℕ)
unfolding ordered_days render_ordered
render_days_of_week days = render_ordered (ordered_days days)

calendar_prefix : List DayOfWeek → Option (List ℕ)
calendar_prefix [] = none
calendar_prefix (day ∷ days) =
    if length (day ∷ days) == 7 then some [] else some (join_days (day ∷ days) ++ b' ' ∷ [])

unfoldable pub calendar_weekday_prefix : List DayOfWeek → Option (List ℕ)
unfolding ordered_days calendar_prefix
calendar_weekday_prefix days = calendar_prefix (ordered_days days)

-- Whether one of the names is the day's; the names that are no day's drop out.
names_day : List (List ℕ) → DayOfWeek → Bool
names_day names day = some_of (text_eq (day_name day)) names

unfoldable pub parse_days_of_week : List ℕ → List DayOfWeek
unfolding names_day split_at
parse_days_of_week stored =
    if text_eq stored (codes "*")
    then days_of_week
    else keep (names_day (split_at b',' stored)) days_of_week

pub record TimeOfDay : Type 0 where
  pub hour : ℕ
  pub minute : ℕ

unfoldable pub minute_of_day : TimeOfDay → ℕ
minute_of_day time = time.hour * 60 + time.minute

unfoldable pub time_of_day : ℕ → TimeOfDay
time_of_day minutes = record { hour = minutes / 60; minute = minutes % 60 }
