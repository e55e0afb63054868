-- ===== src/Status/Bot/Escalate/Histories.antt =====
-- A bot over all that is recorded of it, and the checks of its outages in between.
use open_mcc_manager.Prelude.{
  ℕ, ◌≡◌, refl, sym, inl, inr, String, Bool, true, false, Option, none, some, List, [], arith, All,
}
use mathlib.Core.Path.{subst}
use open_mcc_manager.Status.Events.{StatusEventKind}
use open_mcc_manager.Status.Rollup.{StatusState}
use open_mcc_manager.Status.Host.{close_open_interval, open_interval}
use open_mcc_manager.Notification.Announce.{AnnounceTables, AnnounceJob}
use open_mcc_manager.Status.Bot.{
  BotCondition, BotTables, Recorded, state_of, start_at, record_instance_connection,
}
use open_mcc_manager.Status.Bot.Tiles.{Tiled, Tiled-next}
use open_mcc_manager.Status.Bot.Decided.{IsMade}
use open_mcc_manager.Status.Bot.Watch.{
  Watched, RowIf, IsKept, Keeps, record_instance_connection-Keeps,
}
use open_mcc_manager.Status.Bot.Escalate.{escalate_instance}
use open_mcc_manager.Status.Bot.Escalate.Checks.{IsDue, escalate_instance-IsDue}
use open_mcc_manager.Status.Bot.Escalate.Unrecorded.{
  IsClaimed, SameOrClaimed, claim_of, escalate_instance-SameOrClaimed,
}

abbrev pub nothing_recorded : AnnounceTables → BotTables
nothing_recorded announcements = record {
  condition = none;
  intervals = [];
  events = [];
  escalations = [];
  announcements = announcements;
}

module _ (copy : StatusEventKind → String → String × String) (accepts : AnnounceJob → Bool)
    (bot_id bot_name : String) where
  -- What can happen to a bot. `in_order` goes from true to false where a check changes something and
  -- does not record its event, or runs before the last interval began.
  pub data Happens (in_order : Bool) (t : BotTables) : Bool → BotTables → Type 0 where
    records :
        (accepts_check : Bool) (rs : List Recorded)
        → All IsMade rs
        → Happens in_order t in_order
            (record_instance_connection copy accepts bot_id bot_name accepts_check rs t)
    checks_in_time :
        {t' : BotTables} (incident : String) (now : ℕ) (fresh : String)
        → escalate_instance copy accepts bot_id bot_name incident now fresh t ≡ some (true, t')
        → start_at now t.intervals ≡ now
        → Happens in_order t in_order t'
    checks_idly :
        (incident : String) (now : ℕ) (fresh : String) (acted : Bool)
        → escalate_instance copy accepts bot_id bot_name incident now fresh t ≡ some (acted, t)
        → Happens in_order t in_order t
    checks :
        {t' : BotTables} (incident : String) (now : ℕ) (fresh : String) (acted : Bool)
        → escalate_instance copy accepts bot_id bot_name incident now fresh t ≡ some (acted, t')
        → Happens in_order t false t'

  pub data History : Bool → BotTables → Type 0 where
    begun : (announcements : AnnounceTables) → History true (nothing_recorded announcements)
    later :
        {in_order in_order' : Bool} {t t' : BotTables}
        → History in_order t
        → Happens in_order t in_order' t'
        → History in_order' t'

  -- A row that is in order is also one of which no order is asked.
  disorder :
      (in_order : Bool) (m : Option BotCondition) (t : BotTables)
      → Keeps in_order m t
      → Keeps false m t
  disorder in_order none t k = tt
  disorder in_order (some c) t k = record {
    outage = k.outage;
    no_outage = k.no_outage;
    watched = k.watched;
    row = tt;
  }

  -- A bot that goes down keeps its outage, and the check of it.
  claimed-Keeps :
      (in_order : Bool) (incident : String) (now : ℕ) (t t' : BotTables)
      (claim : IsClaimed incident now t t')
      → RowIf in_order t'.intervals StatusState.down
      → Keeps false t.condition t
      → Keeps in_order t'.condition t'
  unfolding state_of
  claimed-Keeps in_order incident now t t' claim row k =
      subst (λ m. Keeps in_order m t') (sym claim.claimed)
        (record {
          outage = omega arith;
          no_outage = rw claim.same_outage (omega arith);
          watched =
              subst (Watched claim.before.active_incident_id) (sym claim.same_checks) kept.watched;
          row = row;
        })
    where
      kept : IsKept false claim.before t
      kept = subst (λ m. Keeps false m t) claim.found k

  next_down :
      (in_order : Bool) (incident : String) (now : ℕ) (t t' : BotTables)
      → IsDue incident now t t'
      → start_at now t.intervals ≡ now
      → Keeps in_order t.condition t
      → RowIf in_order t'.intervals StatusState.down
  next_down false incident now t t' due in_time k = tt
  next_down true incident now t t' due in_time k = (
    now,
    subst (λ is. Tiled is StatusState.down now) (sym due.ended)
        (subst
          (λ at.
            Tiled (open_interval StatusState.down at (close_open_interval now t.intervals))
              StatusState.down at)
          in_time
          (Tiled-next now StatusState.down (state_of due.before.state) kept.row.0 t.intervals
            kept.row.1)),
  )
    where
      kept : IsKept true due.before t
      kept = subst (λ m. Keeps true m t) due.found k

  check-Keeps :
      (incident : String) (now : ℕ) (t t' : BotTables)
      → SameOrClaimed incident now t t'
      → Keeps false t.condition t
      → Keeps false t'.condition t'
  check-Keeps incident now t t' (inl same) k = subst (λ u. Keeps false u.condition u) (sym same) k
  check-Keeps incident now t t' (inr claim) k = claimed-Keeps false incident now t t' claim tt k

  -- Whatever a journal says of a bot, in batches, with any checks of its outages in between, at any
  -- times and whatever they return: while the bot is recorded as interrupted it has an outage, while
  -- it is recorded as joined it has none, and any outage it has was queued for a check. As long as
  -- every check that changed something also recorded its event, and ran no earlier than the last
  -- interval began, the intervals follow one another without a gap or an overlap, the last open and
  -- in the recorded state.
  pub History-Keeps :
      {in_order : Bool} {t : BotTables} → History in_order t → Keeps in_order t.condition t
  History-Keeps (begun a) = refl
  History-Keeps (later {in_order} h (records accepts_check rs made)) =
      record_instance_connection-Keeps copy accepts bot_id bot_name in_order accepts_check rs _ made
        (History-Keeps h)
  History-Keeps
        (later {in_order} {t = t} {t'} h (checks_in_time incident now fresh escalated in_time)) =
      claimed-Keeps in_order incident now t t'
        (claim_of incident now t t'
          (escalate_instance-IsDue copy accepts bot_id bot_name incident now fresh t escalated))
        (next_down in_order incident now t t'
          (escalate_instance-IsDue copy accepts bot_id bot_name incident now fresh t escalated)
          in_time (History-Keeps h))
        (disorder in_order t.condition t (History-Keeps h))
  History-Keeps (later h (checks_idly incident now fresh acted escalated)) = History-Keeps h
  History-Keeps (later {in_order} {t = t} {t'} h (checks incident now fresh acted escalated)) =
      check-Keeps incident now t t'
        (escalate_instance-SameOrClaimed copy accepts bot_id bot_name incident now fresh acted t t'
          escalated)
        (disorder in_order t.condition t (History-Keeps h))
