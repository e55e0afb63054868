-- ===== src/Status/Bot/Rounds.antt =====
-- What each part of recording a change leaves as it is.
use open_mcc_manager.Prelude.{
  ℕ, ◌≡◌, refl, ◌∙◌, inl, inr, String, Bool, true, false, ◌&&◌, Option, none, some, Bool-cases,
  some_of,
}
use open_mcc_manager.Status.Events.{StatusEventKind}
use open_mcc_manager.Status.Incident.{loss_window, counts_as_loss, worth_claiming_flapping}
use open_mcc_manager.Status.Bot.{
  BotCondition, BotEvent, BotTables, Recorded, insert_event, fact_of, announce_row, with_announced,
  announce_new, record_event, claim_flapping, may_flap, flapped, record_flapping, recent_losses_at,
  flapping_window_ms, same_key,
}
use open_mcc_manager.Notification.Announce.{PlannedNotification, AnnounceTables, AnnounceJob}
use open_mcc_manager.Notification.Announce.Dispatch.{announce}

-- The condition keeps its state and its outage; the intervals and the queued checks stay.
pub record IsAside (t t' : BotTables) : Type 0 where
  pub same_intervals : t'.intervals ≡ t.intervals
  pub same_checks : t'.escalations ≡ t.escalations

pub IsAside-trans : {t u v : BotTables} → IsAside t u → IsAside u v → IsAside t v
IsAside-trans a b = record {
  same_intervals = b.same_intervals ∙ a.same_intervals;
  same_checks = b.same_checks ∙ a.same_checks;
}

abbrev pub OrThrows : BotTables → Option BotTables → Type 0
OrThrows t none = Unit {0}
OrThrows t (some t') = IsAside t t'

pub IsAside-self : (t : BotTables) → IsAside t t
IsAside-self t = record { same_intervals = refl; same_checks = refl }

insert_event-IsAside : (event : BotEvent) (t : BotTables) → OrThrows t (insert_event event t)
unfolding insert_event
insert_event-IsAside event t =
    elim (Bool-cases (some_of (λ e. same_key e.source_key event.source_key) t.events)) [
      | inl known ↦ rw known tt
      | inr new ↦ rw new (record { same_intervals = refl; same_checks = refl })
    ]

claim_flapping-IsAside :
    (now : ℕ) (m : Option BotCondition) (t : BotTables) → IsAside t (claim_flapping now m t).1
unfolding claim_flapping
claim_flapping-IsAside now none t = IsAside-self t
claim_flapping-IsAside now (some c) t = elim (Bool-cases (may_flap c.last_flapped_at now)) [
  | inl free ↦ rw free (record { same_intervals = refl; same_checks = refl })
  | inr cooling ↦ rw cooling (IsAside-self t)
]

after_aside : (t u : BotTables) (m : Option BotTables) → IsAside t u → OrThrows u m → OrThrows t m
after_aside t u none a b = tt
after_aside t u (some v) a b = IsAside-trans a b

with_announced-IsAside :
    (m : Option (Option PlannedNotification × AnnounceTables)) (t : BotTables)
    → OrThrows t (with_announced m t)
unfolding with_announced
with_announced-IsAside none t = tt
with_announced-IsAside (some (planned, after)) t = record {
  same_intervals = refl;
  same_checks = refl;
}

module _ (copy : StatusEventKind → String → String × String) (accepts : AnnounceJob → Bool)
    (bot_id bot_name : String) where
  announce_row-IsAside :
      (event : BotEvent) (incident : Option String) (t : BotTables)
      → OrThrows t (announce_row copy accepts bot_id bot_name event incident t)
  unfolding announce_row
  announce_row-IsAside event incident t =
      with_announced-IsAside
        (announce copy accepts (fact_of copy accepts bot_id bot_name event incident)
          t.announcements)
        t

  announce_new-IsAside :
      (event : BotEvent) (incident : Option String) (m : Option BotTables) (t : BotTables)
      → OrThrows t m
      → OrThrows t (announce_new copy accepts bot_id bot_name event incident m t)
  unfolding announce_new
  announce_new-IsAside event incident none t a = IsAside-self t
  announce_new-IsAside event incident (some after) t a =
      after_aside t after _ a (announce_row-IsAside event incident after)

  pub record_event-IsAside :
      (event : BotEvent) (incident : Option String) (t : BotTables)
      → OrThrows t (record_event copy accepts bot_id bot_name event incident t)
  unfolding record_event
  record_event-IsAside event incident t =
      announce_new-IsAside event incident _ t (insert_event-IsAside event t)

  flapped-IsAside :
      (r : Recorded) (incident : Option String) (claim : Bool × BotTables)
      → OrThrows claim.1 (flapped copy accepts bot_id bot_name r incident claim)
  unfolding flapped
  flapped-IsAside r incident (false, t) = IsAside-self t
  flapped-IsAside r incident (true, t) = record_event-IsAside _ none t

  pub record_flapping-IsAside :
      (opening : Bool) (r : Recorded) (incident : Option String) (t : BotTables)
      → OrThrows t (record_flapping copy accepts bot_id bot_name opening r incident t)
  unfolding record_flapping
  record_flapping-IsAside opening r incident t =
      elim (Bool-cases (
        counts_as_loss (some r.change.event)
        && opening
        && worth_claiming_flapping
            (recent_losses_at (loss_window r.change.at flapping_window_ms) t.events) r.change.at)) [
              | inl often ↦ rw often (
                  after_aside t _ _ (claim_flapping-IsAside r.change.at t.condition t)
                    (flapped-IsAside r incident (claim_flapping r.change.at t.condition t)))
              | inr seldom ↦ rw seldom (IsAside-self t)
            ]
