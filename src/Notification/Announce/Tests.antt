-- ===== src/Notification/Announce/Tests.antt =====
-- A bot that is lost and comes back.
use open_mcc_manager.Prelude.{refl, String, true, some, List, [], ◌∷◌, keep}
use open_mcc_manager.Status.Events.{
  StatusEventKind, instance_disconnected, instance_reconnected, problem_resolved_by,
}
use open_mcc_manager.Notification.Announce.{EventFact, instance_, AnnounceTables, is_among}
use open_mcc_manager.Notification.Announce.Dispatch.{announce_each}
use open_mcc_manager.Notification.Announce.Dispatch.Pairs.{IsPaired, IsPaired-announce_each}

abbrev fact : String → StatusEventKind → EventFact
fact id kind = record {
  status_event_id = id;
  kind = kind;
  subject_type = instance_;
  subject_id = "bot";
  subject_name = "Bot";
  incident_id = some "i1";
}

abbrev one_subscriber : AnnounceTables
one_subscriber = record {
  subscribers = λ kind. record { id = "dest"; uses_email = true } ∷ [];
  notifications = [];
  deliveries = [];
  jobs = [];
}

abbrev plain : StatusEventKind → String → String × String
plain kind name = (name, name)

abbrev facts : List EventFact
facts =
    fact "e1" instance_reconnected
    ∷ fact "e2" instance_disconnected
    ∷ fact "e3" instance_reconnected
    ∷ []

IsPaired-announce_each_example : IsPaired instance_disconnected instance_reconnected (
    keep
      (is_among instance_ "bot" (instance_disconnected ∷ instance_reconnected ∷ []) (some "i1"))
      (announce_each plain (λ job. true) facts one_subscriber).notifications)
unfolding problem_resolved_by
IsPaired-announce_each_example =
    IsPaired-announce_each plain instance_disconnected instance_reconnected instance_ "bot" "i1"
      (λ job. true) facts one_subscriber refl refl
