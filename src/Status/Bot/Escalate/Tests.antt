-- ===== src/Status/Bot/Escalate/Tests.antt =====
-- A bot that loses its connection, and the check two minutes later.
use open_mcc_manager.Prelude.{◌≡◌, refl, String, Bool, true, false, none, some, [], ◌∷◌}
use open_mcc_manager.Status.Events.{
  StatusEventKind, instance_connection_lost, instance_disconnected, is_notifying_event,
  problem_resolved_by,
}
use open_mcc_manager.Status.Connection.{
  joined, interrupted, down, ConnectionSignal, change_from, looks_like_kick, escalate_if_still_down,
}
use open_mcc_manager.Status.Incident.{next_incident, counts_as_loss, incident_of_event}
use open_mcc_manager.Status.Rollup.{StatusState}
use open_mcc_manager.Status.Host.{close_open_interval, open_interval}
use open_mcc_manager.Notification.Announce.{
  AnnounceTables, AnnounceJob, plan_notification, worth_announcing, subscription_kind_for,
}
use open_mcc_manager.Notification.Announce.Dispatch.{announce}
use open_mcc_manager.Status.Bot.{
  BotTables, Recorded, change_key, escalation_key, start_at, state_of, upsert_condition,
  record_instance_connection,
}
use open_mcc_manager.Status.Bot.Decided.{IsMade}
use open_mcc_manager.Status.Bot.Watch.{Keeps}
use open_mcc_manager.Status.Bot.Escalate.{escalate_instance}
use open_mcc_manager.Status.Bot.Escalate.Checks.{IsDue, escalate_instance-IsDue, escalated_once}
use open_mcc_manager.Status.Bot.Escalate.Histories.{
  nothing_recorded, begun, later, records, checks_in_time, History-Keeps,
}

abbrev plain : StatusEventKind → String → String × String
plain kind name = (name, name)

abbrev all_taken : AnnounceJob → Bool
all_taken job = true

abbrev nobody : AnnounceTables
nobody = record { subscribers = λ kind. []; notifications = []; deliveries = []; jobs = [] }

abbrev lost : Recorded
lost = record {
  change = record {
    state = interrupted;
    at = 60000;
    pid = some "7";
    event = instance_connection_lost;
    reason = none;
  };
  now = 61000;
  fresh_incident = "outage-1";
  fresh_event = "event-1";
  fresh_flap = "event-2";
}

lost-IsMade : IsMade lost
unfolding change_from looks_like_kick
lost-IsMade = record {
  before = joined;
  signal = ConnectionSignal.disconnected 60000 "7" none;
  made = refl;
}

abbrev cut_off : BotTables
cut_off =
    record_instance_connection plain all_taken "bot-1" "Bot" true (lost ∷ [])
      (nothing_recorded nobody)

abbrev given_up : BotTables
given_up = record cut_off {
  condition = some (record {
    state = down;
    started_at = 200000;
    last_observed_at = 200000;
    failure_started_at = some 60000;
    active_incident_id = some "outage-1";
    last_flapped_at = none;
  });
  intervals =
      record { state = StatusState.interrupted; started_at = 60000; ended_at = some 200000 }
      ∷ record { state = StatusState.down; started_at = 200000; ended_at = none }
      ∷ [];
  events =
      record {
        id = "event-3";
        kind = instance_disconnected;
        occurred_at = 200000;
        incident_id = some "outage-1";
        source_key = escalation_key "outage-1";
      }
      ∷ record {
        id = "event-1";
        kind = instance_connection_lost;
        occurred_at = 60000;
        incident_id = some "outage-1";
        source_key = change_key 60000 instance_connection_lost;
      }
      ∷ [];
}

check_acts :
    escalate_instance plain all_taken "bot-1" "Bot" "outage-1" 200000 "event-3" cut_off
    ≡ some (true, given_up)
unfolding escalate_instance record_instance_connection announce next_incident start_at state_of
    upsert_condition close_open_interval open_interval plan_notification is_notifying_event
    problem_resolved_by counts_as_loss escalate_if_still_down worth_announcing subscription_kind_for
    incident_of_event
check_acts = refl

check_in_time : start_at 200000 cut_off.intervals ≡ 200000
unfolding escalate_instance record_instance_connection announce next_incident start_at state_of
    upsert_condition close_open_interval open_interval plan_notification is_notifying_event
    problem_resolved_by counts_as_loss escalate_if_still_down worth_announcing subscription_kind_for
    incident_of_event
check_in_time = refl

History-Keeps_example : Keeps true given_up.condition given_up
History-Keeps_example = History-Keeps plain all_taken "bot-1" "Bot" (
    later (later (begun nobody) (records true (lost ∷ []) (lost-IsMade, tt)))
      (checks_in_time "outage-1" 200000 "event-3" check_acts check_in_time))

escalate_instance-IsDue_example : IsDue "outage-1" 200000 cut_off given_up
escalate_instance-IsDue_example =
    escalate_instance-IsDue plain all_taken "bot-1" "Bot" "outage-1" 200000 "event-3" cut_off
      check_acts

escalated_once_example :
    escalate_instance plain all_taken "bot-1" "Bot" "outage-1" 320000 "event-4" given_up
    ≡ some (false, given_up)
escalated_once_example =
    escalated_once plain all_taken "bot-1" "Bot" "outage-1" 200000 "event-3" cut_off check_acts
      "outage-1" 320000 "event-4"
