-- ===== src/Status/Bot/Escalate/Written.antt =====
-- What a check that acts writes.
use open_mcc_manager.Prelude.{
  ◌≡◌, refl, ap, ◌∙◌, inl, inr, String, Bool, true, false, Option, none, some, some_of, Bool-cases,
}
use open_mcc_manager.Status.Events.{StatusEventKind}
use open_mcc_manager.Status.Connection.{ConnectionChange}
use open_mcc_manager.Status.Host.{close_open_interval, open_interval}
use open_mcc_manager.Notification.Announce.{PlannedNotification, AnnounceTables, AnnounceJob}
use open_mcc_manager.Notification.Announce.Dispatch.{announce}
use open_mcc_manager.Status.Bot.{
  BotEvent, BotTables, same_key, state_of, insert_event, with_announced, announce_row, fact_of,
}
use open_mcc_manager.Status.Bot.Escalate.{write_down, with_event}

-- Only the events and the announcements change.
pub record IsStill (t t' : BotTables) : Type 0 where
  pub same_condition : t'.condition ≡ t.condition
  pub same_intervals : t'.intervals ≡ t.intervals
  pub same_checks : t'.escalations ≡ t.escalations

abbrev pub StillOr : BotTables → Option BotTables → Type 0
StillOr t none = Unit {0}
StillOr t (some t') = IsStill t t'

pub insert_event-Still : (event : BotEvent) (t : BotTables) → StillOr t (insert_event event t)
unfolding insert_event
insert_event-Still event t =
    elim (Bool-cases (some_of (λ e. same_key e.source_key event.source_key) t.events)) [
      | inl known ↦ rw known tt
      | inr new ↦
          rw new (record { same_condition = refl; same_intervals = refl; same_checks = refl })
    ]

with_announced-Still :
    (m : Option (Option PlannedNotification × AnnounceTables)) (t : BotTables)
    → StillOr t (with_announced m t)
unfolding with_announced
with_announced-Still none t = tt
with_announced-Still (some (planned, after)) t = record {
  same_condition = refl;
  same_intervals = refl;
  same_checks = refl;
}

-- What a check that succeeds has written over the tables `u`.
pub record IsWritten (change : ConnectionChange) (u t' : BotTables) : Type 0 where
  pub kept_condition : t'.condition ≡ u.condition
  pub next_interval :
      t'.intervals
      ≡ open_interval (state_of change.state) change.at (close_open_interval change.at u.intervals)
  pub kept_checks : t'.escalations ≡ u.escalations

abbrev pub WrittenIf : ConnectionChange → BotTables → Option (Bool × BotTables) → Type 0
WrittenIf change u none = Unit {0}
WrittenIf change u (some (false, t')) = Unit {0}
WrittenIf change u (some (true, t')) = IsWritten change u t'

write_down-Written :
    (change : ConnectionChange) (u v : BotTables) (m : Option BotTables)
    → IsStill u v
    → StillOr v m
    → WrittenIf change u (write_down change m)
unfolding write_down
write_down-Written change u v none s a = tt
write_down-Written change u v (some w) s a = record {
  kept_condition = a.same_condition ∙ s.same_condition;
  next_interval =
      ap (λ is. open_interval (state_of change.state) change.at (close_open_interval change.at is))
        (a.same_intervals ∙ s.same_intervals);
  kept_checks = a.same_checks ∙ s.same_checks;
}

module _ (copy : StatusEventKind → String → String × String) (accepts : AnnounceJob → Bool)
    (bot_id bot_name : String) where
  pub with_event-Written :
      (event : BotEvent) (incident : String) (change : ConnectionChange) (m : Option BotTables)
      (u : BotTables)
      → StillOr u m
      → WrittenIf change u (with_event copy accepts bot_id bot_name event incident change m u)
  unfolding with_event announce_row
  with_event-Written event incident change none u s = tt
  with_event-Written event incident change (some v) u s = write_down-Written change u v _ s (
      with_announced-Still
        (announce copy accepts (fact_of copy accepts bot_id bot_name event (some incident))
          v.announcements)
        v)
