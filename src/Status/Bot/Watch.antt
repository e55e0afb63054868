-- ===== src/Status/Bot/Watch.antt =====
-- An outage of a bot never goes unwatched, and its history has no gap.
use open_mcc_manager.Prelude.{
  ℕ, ◌+◌, ◌≤◌, ◌≡◌, refl, sym, ◌∙◌, ◌⊎◌, inl, inr, String, Bool, true, false, Option, none, some,
  List, [], ◌∷◌, arith, some_of, str_eq, str_eq_iff, bit, All,
}
use mathlib.Core.Path.{subst}
use open_mcc_manager.Status.Events.{StatusEventKind}
use open_mcc_manager.Status.Connection.{ConnectionChange}
use open_mcc_manager.Status.Incident.{IncidentDecision}
use open_mcc_manager.Status.Rollup.{StatusState, RollableInterval}
use open_mcc_manager.Status.Host.{close_open_interval, open_interval}
use open_mcc_manager.Notification.Announce.{AnnounceJob}
use open_mcc_manager.Status.Bot.{
  BotCondition, BotTables, Recorded, EscalationJob, state_of, start_at, upsert_condition,
  write_interval, active_of, is_known, schedule_check, record_change, record_changes, decide,
  committed, record_instance_connection, ◌>>=◌,
}
use open_mcc_manager.Status.Bot.Rounds.{IsAside, record_event-IsAside, record_flapping-IsAside}
use open_mcc_manager.Status.Bot.Tiles.{Tiled, Tiled-next}
use open_mcc_manager.Status.Bot.Decided.{
  is_lost, is_joined, has_value, IsMade, IsDecided, ended, goes_on, begins, decide-IsDecided,
}

-- The check of an outage is among the queued jobs.
abbrev pub Watched : Option String → List EscalationJob → Type 0
Watched none jobs = Unit {0}
Watched (some id) jobs = some_of (λ j. str_eq j.incident_id id) jobs ≡ true

-- A row of intervals without a gap or an overlap, its last one open and in the given state; it is
-- asked for as long as the row is `in_order`.
abbrev pub RowIf : Bool → List RollableInterval → StatusState → Type 0
RowIf true is state = (from : ℕ) × Tiled is state from
RowIf false is state = Unit

-- A condition: while the bot is interrupted it has an outage, while it is joined it has none, and
-- the check of its outage was queued; and, as long as the row is in order, the last interval is
-- open, in the state of the condition.
pub record IsKept (in_order : Bool) (c : BotCondition) (t : BotTables) : Type 0 where
  pub outage : bit (is_lost c.state) ≤ bit (has_value c.active_incident_id)
  pub no_outage : bit (is_joined c.state) + bit (has_value c.active_incident_id) ≤ 1
  pub watched : Watched c.active_incident_id t.escalations
  pub row : RowIf in_order t.intervals (state_of c.state)

abbrev pub Keeps : Bool → Option BotCondition → BotTables → Type 0
Keeps true none t = t.intervals ≡ []
Keeps false none t = Unit
Keeps in_order (some c) t = IsKept in_order c t

abbrev Ensures : (BotTables → Type 0) → Option BotTables → Type 0
Ensures P none = Unit {0}
Ensures P (some t) = P t

Ensures-bind :
    (P Q : BotTables → Type 0) (m : Option BotTables) (f : BotTables → Option BotTables)
    → Ensures P m
    → ((t : BotTables) → P t → Ensures Q (f t))
    → Ensures Q (m >>= f)
Ensures-bind P Q none f p q = tt
Ensures-bind P Q (some t) f p q = q t p

-- The row of intervals is empty or has no gap, if it is in order.
abbrev HasRow : Bool → List RollableInterval → Type 0
HasRow true is = (is ≡ []) ⊎ ((state : StatusState) × RowIf true is state)
HasRow false is = Unit

record IsOn (incident : Option String) (row : List RollableInterval) (t : BotTables) : Type 0 where
  same_row : t.intervals ≡ row
  on_watch : Watched incident t.escalations

IsOn-IsAside :
    (incident : Option String) (row : List RollableInterval) (t : BotTables) (m : Option BotTables)
    → IsOn incident row t
    → Ensures (IsAside t) m
    → Ensures (IsOn incident row) m
IsOn-IsAside incident row t none o a = tt
IsOn-IsAside incident row t (some u) o a = record {
  same_row = a.same_intervals ∙ o.same_row;
  on_watch = subst (Watched incident) (sym a.same_checks) o.on_watch;
}

Watched-new :
    (id : String) (seconds : ℕ) (jobs : List EscalationJob)
    → Watched (some id) (record { incident_id = id; start_after_seconds = seconds } ∷ jobs)
Watched-new id seconds jobs = ground (arith, str_eq_iff id id)

outage_of :
    (incident : Option String) (c : ConnectionChange) (fresh : String) (d : IncidentDecision)
    → IsDecided incident c fresh d
    → (bit (is_lost c.state) ≤ bit (has_value d.incident_id))
      × (bit (is_joined c.state) + bit (has_value d.incident_id) ≤ 1)
outage_of incident c fresh d (ended e o s) = rw e (ground arith, ground arith)
outage_of incident c fresh d (goes_on e o s j) = rw e (s, ground arith)
outage_of incident c fresh d (begins e o j) = rw e (ground arith, ground arith)

next_row :
    (in_order : Bool) (at : ℕ) (state : StatusState) (is : List RollableInterval)
    → HasRow in_order is
    → RowIf in_order (open_interval state (start_at at is) (close_open_interval at is)) state
next_row false at state is has = tt
next_row true at state is (inl empty) = (
  start_at at is,
  subst
      (λ is.
        Tiled (open_interval state (start_at at is) (close_open_interval at is)) state
          (start_at at is))
      (sym empty) (unfold open_interval close_open_interval in (refl, refl, refl)),
)
next_row true at state is (inr (old, row)) =
    (start_at at is, Tiled-next at state old row.0 is row.1)

keeps_row :
    (in_order : Bool) (m : Option BotCondition) (t : BotTables)
    → Keeps in_order m t
    → HasRow in_order t.intervals × Watched (active_of m) t.escalations
keeps_row true none t k = (inl k, tt)
keeps_row true (some c) t k = (inr (state_of c.state, k.row), k.watched)
keeps_row false none t k = (tt, tt)
keeps_row false (some c) t k = (tt, k.watched)

commit :
    (in_order : Bool) (m : Option BotTables) (t : BotTables)
    → Ensures (λ t. Keeps in_order t.condition t) m
    → Keeps in_order t.condition t
    → Keeps in_order (committed m t).condition (committed m t)
unfolding committed
commit in_order none t e k = k
commit in_order (some after) t e k = e

module _ (copy : StatusEventKind → String → String × String) (accepts : AnnounceJob → Bool)
    (bot_id bot_name : String) (in_order : Bool) where
  schedule_check-IsOn :
      (accepts_check : Bool) (incident : Option String) (c : ConnectionChange) (fresh : String)
      (d : IncidentDecision) (row : List RollableInterval) (t : BotTables)
      → IsDecided incident c fresh d
      → IsOn incident row t
      → Ensures
          (IsOn d.incident_id row)
          (schedule_check copy accepts bot_id bot_name accepts_check d.opened d.incident_id t)
  unfolding schedule_check
  schedule_check-IsOn accepts_check incident c fresh d row t (ended e o s) on =
      rw (e, o) (record { same_row = on.same_row; on_watch = tt })
  schedule_check-IsOn accepts_check incident c fresh d row t (goes_on e o s j) on = rw (e, o) on
  schedule_check-IsOn true incident c fresh d row t (begins e o j) on =
      rw (e, o) (record { same_row = on.same_row; on_watch = Watched-new fresh 120 t.escalations })
  schedule_check-IsOn false incident c fresh d row t (begins e o j) on = rw (e, o) tt

  written :
      (incident : Option String) (r : Recorded) (d : IncidentDecision) (row : List RollableInterval)
      (t : BotTables)
      → HasRow in_order row
      → IsDecided incident r.change r.fresh_incident d
      → IsOn d.incident_id row t
      → let after =
          upsert_condition r.change.state r.change.at r.now d.incident_id
            (write_interval r.change.state r.change.at t) in
        Keeps in_order after.condition after × (active_of after.condition ≡ d.incident_id)
  unfolding upsert_condition write_interval
  written incident r d row t has dec on = (
    record {
      outage = (outage_of incident r.change r.fresh_incident d dec).0;
      no_outage = (outage_of incident r.change r.fresh_incident d dec).1;
      watched = on.on_watch;
      row =
          next_row in_order r.change.at (state_of r.change.state) t.intervals
            (subst (HasRow in_order) (sym on.same_row) has);
    },
    refl,
  )

  abbrev Goes : Option String → BotTables → Type 0
  Goes incident t = Keeps in_order t.condition t × (active_of t.condition ≡ incident)

  record_change-Goes :
      (accepts_check opening : Bool) (incident : Option String) (r : Recorded) (t : BotTables)
      → IsMade r
      → HasRow in_order t.intervals
      → Watched incident t.escalations
      → Ensures (Goes (decide copy accepts bot_id bot_name incident r).incident_id) (
          record_change copy accepts bot_id bot_name accepts_check opening r
            (decide copy accepts bot_id bot_name incident r)
            t)
  unfolding record_change
  record_change-Goes accepts_check opening incident r t m has on_watch =
      Ensures-bind (IsOn incident t.intervals) (Goes d.incident_id) _ _
        (IsOn-IsAside incident t.intervals t _ (record { same_row = refl; on_watch = on_watch })
          (record_event-IsAside copy accepts bot_id bot_name _ _ t))
        (λ t1 on1.
          Ensures-bind (IsOn d.incident_id t.intervals) (Goes d.incident_id) _ _
            (schedule_check-IsOn accepts_check incident r.change r.fresh_incident d t.intervals t1
              dec on1)
            (λ t2 on2.
              Ensures-bind (IsOn d.incident_id t.intervals) (Goes d.incident_id) _ _
                (IsOn-IsAside d.incident_id t.intervals t2 _ on2
                  (record_flapping-IsAside copy accepts bot_id bot_name opening r d.incident_id t2))
                (λ t3 on3. written incident r d t.intervals t3 has dec on3)))
    where
      d : IncidentDecision
      d = decide copy accepts bot_id bot_name incident r

      dec : IsDecided incident r.change r.fresh_incident d
      dec = decide-IsDecided copy accepts bot_id bot_name incident r m

  record_changes-Keeps :
      (accepts_check opening : Bool) (incident : Option String) (rs : List Recorded) (t : BotTables)
      → All IsMade rs
      → Goes incident t
      → Ensures
          (λ t. Keeps in_order t.condition t)
          (record_changes copy accepts bot_id bot_name accepts_check opening incident rs t)
  unfolding record_changes
  record_changes-Keeps accepts_check opening incident [] t m g = g.0
  record_changes-Keeps accepts_check opening incident (r ∷ rs) t m g =
      let had = keeps_row in_order t.condition t g.0 in
      Ensures-bind (Goes (decide copy accepts bot_id bot_name incident r).incident_id)
        (λ t. Keeps in_order t.condition t) _ _
        (record_change-Goes accepts_check opening incident r t m.0 had.0
          (subst (λ i. Watched i t.escalations) g.1 had.1))
        (λ t1 g1.
          record_changes-Keeps accepts_check opening
            (decide copy accepts bot_id bot_name incident r).incident_id rs t1 m.1 g1)

  -- Recording what a journal says of a bot, all of it or, where it throws, nothing.
  pub record_instance_connection-Keeps :
      (accepts_check : Bool) (rs : List Recorded) (t : BotTables)
      → All IsMade rs
      → Keeps in_order t.condition t
      → let after = record_instance_connection copy accepts bot_id bot_name accepts_check rs t in
        Keeps in_order after.condition after
  unfolding record_instance_connection
  record_instance_connection-Keeps accepts_check rs t m k =
      commit in_order _ t
        (record_changes-Keeps accepts_check (is_known t.condition) _ rs t m (k, refl)) k
