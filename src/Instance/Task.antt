-- ===== src/Instance/Task.antt =====
-- packages/core/src/instance/task.ts: what makes a task run. A claim key is one of four template
-- strings: a constructor each, with what the template interpolates. The jitter is drawn by `draw`,
-- a number below the one it is given.
pub mod Interval
pub mod Signals
use open_mcc_manager.Prelude.{
  ℕ, ◌+◌, ◌-◌, ◌*◌, String, Bool, true, false, ◌&&◌, ◌||◌, Option, none, some, List, [], ◌∷◌, ◌++◌,
  ltb, leb, keep, if◌then◌else◌,
}
use open_mcc_manager.Instance.Schedule.{parse_days_of_week}
use open_mcc_manager.Instance.Due.{Parts, is_due, zoned_moment, ◌>>=◌}

pub data SignalKind : Type 0 where
  login respawn : SignalKind

pub record InstanceSignalRow : Type 0 where
  pub kind : SignalKind
  pub identity : String
  pub occurred_at : ℕ
  pub first_for_process : Bool

pub record InstanceTaskRow : Type 0 where
  pub id : String
  pub organization_id : String
  pub instance_id : String
  pub timezone : String
  pub created_at : ℕ
  pub on_first_login : Bool
  pub on_login : Bool
  pub on_respawn : Bool
  pub interval_min_seconds : Option ℕ
  pub interval_max_seconds : Option ℕ
  pub interval_next_run_at : Option ℕ
  pub interval_observed_at : Option ℕ

pub record InstanceTaskTimeRow : Type 0 where
  pub days_of_week : List ℕ
  pub minute_of_day : ℕ

pub data TaskTrigger : Type 0 where
  on_first_login on_login on_respawn on_time on_interval : TaskTrigger

pub data ClaimKey : Type 0 where
  of_login : String → ClaimKey
  of_respawn : String → ClaimKey
  of_time : String → ℕ → ClaimKey
  of_interval : ℕ → ClaimKey

pub record TaskClaim : Type 0 where
  pub trigger : TaskTrigger
  pub claim_key : ClaimKey

abbrev pub wants_join_signal : InstanceTaskRow → Bool
wants_join_signal row = row.on_first_login || row.on_login

abbrev pub wants_respawn_signal : InstanceTaskRow → Bool
wants_respawn_signal row = row.on_respawn

abbrev pub is_kind : SignalKind → InstanceSignalRow → Bool
is_kind login signal = elim signal.kind [ login ↦ true | respawn ↦ false ]
is_kind respawn signal = elim signal.kind [ login ↦ false | respawn ↦ true ]

newer : Option InstanceSignalRow → InstanceSignalRow → Option InstanceSignalRow
newer none signal = some signal
newer (some newest) signal =
    if ltb newest.occurred_at signal.occurred_at then some signal else some newest

-- The `reduce` of `latestOf`.
newest_from : Option InstanceSignalRow → List InstanceSignalRow → Option InstanceSignalRow
unfolding newer
newest_from newest [] = newest
newest_from newest (signal ∷ signals) = newest_from (newer newest signal) signals

latest_of : List InstanceSignalRow → SignalKind → Option InstanceSignalRow
unfolding newest_from
latest_of signals kind = newest_from none (keep (is_kind kind) signals)

login_claims : InstanceTaskRow → Option InstanceSignalRow → List TaskClaim
login_claims row none = []
login_claims row (some signal) =
    let as_first_login = row.on_first_login && signal.first_for_process in
    if ltb row.created_at signal.occurred_at && (row.on_login || as_first_login)
    then record {
      trigger = if as_first_login then on_first_login else on_login;
      claim_key = of_login signal.identity;
    }
      ∷ []
    else []

respawn_claims : InstanceTaskRow → Option InstanceSignalRow → List TaskClaim
respawn_claims row none = []
respawn_claims row (some signal) =
    if row.on_respawn && ltb row.created_at signal.occurred_at
    then record { trigger = on_respawn; claim_key = of_respawn signal.identity } ∷ []
    else []

pub signal_claims : InstanceTaskRow → List InstanceSignalRow → List TaskClaim
unfolding latest_of login_claims respawn_claims
signal_claims row signals =
    login_claims row (latest_of signals login) ++ respawn_claims row (latest_of signals respawn)

module _ (format : ℕ → String → Option Parts) where
  time_claim : String → InstanceTaskTimeRow → ℕ → Bool → Option (List TaskClaim)
  time_claim timezone time at false = some []
  time_claim timezone time at true = do
    now ← zoned_moment format at timezone
    some (record { trigger = on_time; claim_key = of_time now.date_key time.minute_of_day } ∷ [])

  -- `none` where the time zone is unknown and the code throws.
  unfoldable pub time_claims : String → List InstanceTaskTimeRow → ℕ → Option (List TaskClaim)
  unfolding time_claim
  time_claims timezone [] at = some []
  time_claims timezone (time ∷ times) at = do
    due ←
        is_due format
          (record {
            days_of_week = parse_days_of_week time.days_of_week;
            minute_of_day = time.minute_of_day;
            timezone = timezone;
            enabled = true;
            last_run_at = none;
          })
          at
    claims ← time_claim timezone time at due
    rest ← time_claims timezone times at
    some (claims ++ rest)

pub record IntervalArm : Type 0 where
  pub next_run_at : ℕ
  pub observed_at : ℕ

pub data IntervalPlan : Type 0 where
  unarmed : IntervalPlan
  arm : IntervalArm → IntervalPlan
  hold : IntervalArm → IntervalPlan
  wait : IntervalArm → IntervalPlan
  fire : TaskClaim → IntervalArm → IntervalPlan

unfoldable pub even_jitter : (ℕ → ℕ) → ℕ → ℕ → ℕ
even_jitter draw min_seconds max_seconds =
    if leb max_seconds min_seconds
    then min_seconds
    else min_seconds + draw (max_seconds - min_seconds + 1)

-- `rearmed`
unfoldable pub rearmed : (ℕ → ℕ → ℕ) → ℕ → ℕ → ℕ → IntervalArm
rearmed jitter min_seconds max_seconds at = record {
  next_run_at = at + jitter min_seconds max_seconds * 1000;
  observed_at = at;
}

-- The plan of an interval that is armed; `again` is what it is armed with if it fires.
unfoldable pub armed_plan : IntervalArm → IntervalArm → ℕ → Bool → IntervalPlan
armed_plan again armed at running =
    if running
    then if ltb at armed.next_run_at
      then wait (record { next_run_at = armed.next_run_at; observed_at = at })
      else fire (record { trigger = on_interval; claim_key = of_interval armed.next_run_at }) again
    else hold
        (record { next_run_at = armed.next_run_at + (at - armed.observed_at); observed_at = at })

plan_between : (ℕ → ℕ → ℕ) → InstanceTaskRow → ℕ → Bool → Option ℕ → Option ℕ → IntervalPlan
unfolding rearmed armed_plan
plan_between jitter row at running (some min_seconds) (some max_seconds) =
    let again = rearmed jitter min_seconds max_seconds at in
    elim row.interval_next_run_at [
      | none ↦ arm again
      | some next ↦ elim row.interval_observed_at [
        | none ↦ arm again
        | some observed ↦
            armed_plan again (record { next_run_at = next; observed_at = observed }) at running
      ]
    ]
plan_between jitter row at running (some min_seconds) none = unarmed
plan_between jitter row at running none max_seconds = unarmed

unfoldable pub interval_plan : InstanceTaskRow → ℕ → Bool → (ℕ → ℕ → ℕ) → IntervalPlan
unfolding plan_between
interval_plan row at running jitter =
    plan_between jitter row at running row.interval_min_seconds row.interval_max_seconds

unfoldable pub interval_claim_of : IntervalPlan → Option TaskClaim
interval_claim_of unarmed = none
interval_claim_of (arm a) = none
interval_claim_of (hold a) = none
interval_claim_of (wait a) = none
interval_claim_of (fire claim a) = some claim

unfoldable pub interval_arm_of : IntervalPlan → Option IntervalArm
interval_arm_of unarmed = none
interval_arm_of (arm a) = some a
interval_arm_of (hold a) = some a
interval_arm_of (wait a) = some a
interval_arm_of (fire claim a) = some a

-- `armInterval` of packages/core/src/instance/task.repository.ts, where the task is still there.
unfoldable pub arm_interval : InstanceTaskRow → IntervalArm → InstanceTaskRow
arm_interval row a = record row {
  interval_next_run_at = some a.next_run_at;
  interval_observed_at = some a.observed_at;
}
