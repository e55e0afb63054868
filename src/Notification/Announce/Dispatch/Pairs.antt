-- ===== src/Notification/Announce/Dispatch/Pairs.antt =====
-- A recovery is announced after its problem.
use open_mcc_manager.Prelude.{
  ℕ, ◌≡◌, ◌⊎◌, inl, inr, refl, ap, String, Bool, true, Bool-cases, Option-cases, Option, none, some,
  List, [], ◌∷◌, keep, find_first, str_eq_iff, length, arith,
}
use open_mcc_manager.Status.Events.{StatusEventKind, is_notifying_event, problem_resolved_by}
use open_mcc_manager.Status.Events.Kinds.{kind_eq-eq}
use open_mcc_manager.Notification.Announce.{
  EventFact, PlannedNotification, Announced, Destination, AnnounceJob, AnnounceTables, SubjectType,
  host, instance_, is_among, same_subject_type, of_incident, relevant_kinds, worth_announcing,
  last_announced, plan_notification, planned_kind, plan_kind, as_notification_kind, previous_kind,
  kind_of, is_kind, worth_given,
}
use open_mcc_manager.Notification.Announce.Dispatch.{
  add_delivery, deliver_to, add_notification, announce_to, announce_planned, announce,
  announce_each,
}

abbrev pub HeadIs : StatusEventKind → List Announced → Type 0
HeadIs kind [] = ⊥
HeadIs kind (row ∷ rows) = row.planned.kind ≡ kind

-- Each recovery stands right after its problem; the rows stand newest first.
abbrev pub IsPaired : StatusEventKind → StatusEventKind → List Announced → Type 0
IsPaired problem recovery [] = Unit
IsPaired problem recovery (row ∷ rows) =
    (row.planned.kind ≡ recovery → HeadIs problem rows) × IsPaired problem recovery rows

keep-head :
    (test : Announced → Bool) (kind : StatusEventKind) (rows : List Announced)
    → kind_of (find_first test rows) ≡ some kind
    → HeadIs kind (keep test rows)
keep-head test kind [] e = cc e
keep-head test kind (row ∷ rows) e = elim (Bool-cases (test row)) [
  | inl kept ↦ rw kept (ground (arith, rw kept at e))
  | inr dropped ↦ rw dropped (keep-head test kind rows (rw dropped at e))
]

keep-IsPaired :
    (problem recovery : StatusEventKind) (test : Announced → Bool) (row : Announced)
    (rows : List Announced)
    → (test row ≡ true → row.planned.kind ≡ recovery → HeadIs problem (keep test rows))
    → IsPaired problem recovery (keep test rows)
    → IsPaired problem recovery (keep test (row ∷ rows))
keep-IsPaired problem recovery test row rows head paired = elim (Bool-cases (test row)) [
  | inl kept ↦ rw kept (head kept, paired)
  | inr dropped ↦ rw dropped paired
]

resolved-relevant :
    (problem recovery : StatusEventKind)
    → problem_resolved_by recovery ≡ some problem
    → relevant_kinds recovery ≡ problem ∷ recovery ∷ []
unfolding problem_resolved_by relevant_kinds as_notification_kind is_notifying_event
resolved-relevant problem recovery e = ground (arith, e)

same_subject_type-eq : (a b : SubjectType) → same_subject_type a b ≡ true → a ≡ b
unfolding same_subject_type
same_subject_type-eq host host e = refl
same_subject_type-eq instance_ instance_ e = refl
same_subject_type-eq host instance_ e = cc e
same_subject_type-eq instance_ host e = cc e

of_incident-eq :
    (incident : String) (row : Option String)
    → of_incident (some incident) row ≡ true
    → row ≡ some incident
unfolding of_incident
of_incident-eq incident none e = cc e
of_incident-eq incident (some id) e = ground (arith, e, str_eq_iff id incident)

-- A row of the subject and of the incident.
is_among-fields :
    (subject_type : SubjectType) (subject_id : String) (kinds : List StatusEventKind)
    (incident : String) (row : Announced)
    → is_among subject_type subject_id kinds (some incident) row ≡ true
    → (row.planned.subject_type ≡ subject_type)
      × (row.planned.subject_id ≡ subject_id)
      × (row.incident_id ≡ some incident)
unfolding is_among
is_among-fields subject_type subject_id kinds incident row e = ground (
  arith,
  e,
  same_subject_type-eq row.planned.subject_type subject_type,
  str_eq_iff row.planned.subject_id subject_id,
  of_incident-eq incident row.incident_id,
)

module _ (copy : StatusEventKind → String → String × String) where
  deliver_to-notifications :
      (accepts : AnnounceJob → Bool) (id : ℕ) (destinations : List Destination)
      (t after : AnnounceTables)
      → deliver_to copy accepts id destinations t ≡ some after
      → after.notifications ≡ t.notifications
  unfolding deliver_to add_delivery
  deliver_to-notifications accepts id [] t after e = ground (arith, e)
  deliver_to-notifications accepts id (d ∷ ds) t after e = ground (
    arith,
    e,
    deliver_to-notifications accepts id ds t after,
    deliver_to-notifications accepts id ds (add_delivery copy id d t) after,
  )

  -- The row that an announcement adds.
  abbrev row_for : EventFact → PlannedNotification → List Announced → Announced
  row_for fact planned rows = record {
    id = length rows;
    planned = planned;
    incident_id = fact.incident_id;
  }

  announce_to-notifications :
      (accepts : AnnounceJob → Bool) (fact : EventFact) (planned : PlannedNotification)
      (destinations : List Destination) (t : AnnounceTables)
      (result : Option PlannedNotification × AnnounceTables)
      → announce_to copy accepts fact planned destinations t ≡ some result
      → (result.1.notifications ≡ t.notifications)
        ⊎ (result.1.notifications ≡ row_for fact planned t.notifications ∷ t.notifications)
  unfolding announce_to add_notification
  announce_to-notifications accepts fact planned [] t result e = ground (arith, e)
  announce_to-notifications accepts fact planned (d ∷ ds) t result e =
      elim (Option-cases (
        deliver_to copy accepts (length t.notifications) (d ∷ ds)
          (add_notification copy fact planned t))) [
            | inl refused ↦ ground (arith, e, refused)
            | inr (after, taken) ↦ ground (
              arith,
              e,
              taken,
              deliver_to-notifications accepts (length t.notifications) (d ∷ ds)
                  (add_notification copy fact planned t) after,
            )
          ]

  announce_planned-notifications :
      (accepts : AnnounceJob → Bool) (fact : EventFact) (planned : Option PlannedNotification)
      (t : AnnounceTables) (result : Option PlannedNotification × AnnounceTables)
      → announce_planned copy accepts fact planned t ≡ some result
      → (result.1.notifications ≡ t.notifications)
        ⊎ ((p : PlannedNotification) × (planned ≡ some p)
            × (result.1.notifications ≡ row_for fact p t.notifications ∷ t.notifications))
  unfolding announce_planned
  announce_planned-notifications accepts fact none t result e = inl (ground (arith, e))
  announce_planned-notifications accepts fact (some p) t result e =
      elim (announce_to-notifications accepts fact p _ t result e) [
        | inl same ↦ inl same
        | inr added ↦ inr (p, refl, added)
      ]

  is_kind-some :
      (problem : StatusEventKind) (last : Option StatusEventKind)
      → is_kind problem last ≡ true
      → last ≡ some problem
  is_kind-some problem none e = cc e
  is_kind-some problem (some kind) e = ap some (kind_eq-eq kind problem e)

  last_announced-of :
      (fact : EventFact) (rows : List Announced)
      → last_announced fact rows
        ≡ kind_of (
            find_first
              (is_among fact.subject_type fact.subject_id
                (relevant_kinds fact.kind)
                fact.incident_id)
              rows)
  unfolding last_announced
  last_announced-of fact rows = refl

  plan-worth :
      (fact : EventFact) (rows : List Announced) (planned : PlannedNotification)
      (problem : StatusEventKind)
      → plan_notification copy fact rows ≡ some planned
      → problem_resolved_by fact.kind ≡ some problem
      → last_announced fact rows ≡ some problem
  unfolding plan_notification planned_kind worth_announcing worth_given previous_kind
  plan-worth fact rows planned problem e resolves =
      ground (arith, e, resolves, is_kind-some problem (last_announced fact rows))

  plan-fields :
      (fact : EventFact) (rows : List Announced) (planned : PlannedNotification)
      → plan_notification copy fact rows ≡ some planned
      → (planned.kind ≡ fact.kind)
        × (planned.subject_type ≡ fact.subject_type)
        × (planned.subject_id ≡ fact.subject_id)
  unfolding plan_notification planned_kind plan_kind as_notification_kind
  plan-fields fact rows planned e = ground (arith, e)

  module _ (problem recovery : StatusEventKind)
      (resolves : problem_resolved_by recovery ≡ some problem) (subject_type : SubjectType)
      (subject_id incident : String) where
    -- The announcements of the problem and of its recovery, for a subject and an incident.
    abbrev pub history : List Announced → List Announced
    history rows =
        keep (is_among subject_type subject_id (problem ∷ recovery ∷ []) (some incident)) rows

    row_for-IsPaired :
        (fact : EventFact) (rows : List Announced) (planned : PlannedNotification)
        → plan_notification copy fact rows ≡ some planned
        → IsPaired problem recovery (history rows)
        → IsPaired problem recovery (history (row_for fact planned rows ∷ rows))
    row_for-IsPaired fact rows planned e paired =
        keep-IsPaired problem recovery
          (is_among subject_type subject_id (problem ∷ recovery ∷ []) (some incident))
          (row_for fact planned rows) rows head paired
      where
        head :
            is_among subject_type subject_id
                (problem ∷ recovery ∷ [])
                (some incident)
                (row_for fact planned rows)
              ≡ true
            → planned.kind ≡ recovery
            → HeadIs problem (history rows)
        head among is_recovery =
            let (same_kind, same_type, same_id) = plan-fields fact rows planned e in
            let (of_type, of_id, of_incident_) =
              is_among-fields subject_type subject_id (problem ∷ recovery ∷ []) incident
                (row_for fact planned rows) among in
            let kind : fact.kind ≡ recovery = cc (same_kind, is_recovery) in
            let relevant : relevant_kinds fact.kind ≡ problem ∷ recovery ∷ [] =
              rw kind (resolved-relevant problem recovery resolves) in
            let last : last_announced fact rows ≡ some problem =
              plan-worth fact rows planned problem e (cc (kind, resolves)) in
            keep-head (is_among subject_type subject_id (problem ∷ recovery ∷ []) (some incident))
              problem rows
              (cc (
                last_announced-of fact rows,
                last,
                relevant,
                same_type,
                same_id,
                of_type,
                of_id,
                of_incident_,
              ))

    announce_each-IsPaired :
        (accepts : AnnounceJob → Bool) (facts : List EventFact) (t : AnnounceTables)
        → IsPaired problem recovery (history t.notifications)
        → IsPaired problem recovery (history (announce_each copy accepts facts t).notifications)
    unfolding announce_each announce
    announce_each-IsPaired accepts [] t paired = paired
    announce_each-IsPaired accepts (fact ∷ facts) t paired =
        elim (Option-cases (announce copy accepts fact t)) [
          | inl thrown ↦ rw (thrown, announce_each) (announce_each-IsPaired accepts facts t paired)
          | inr (result, done) ↦
              rw (done, announce_each)
                (announce_each-IsPaired accepts facts result.1
                  (elim (announce_planned-notifications accepts fact
                    (plan_notification copy fact t.notifications) t result done) [
                      | inl same ↦ rw same paired
                      | inr (planned, is_planned, added) ↦
                          rw added (row_for-IsPaired fact t.notifications planned is_planned paired)
                    ]))
        ]

-- Whatever events are announced, with whatever destinations and faults of the queue: among the
-- announcements on a subject's incident, a recovery comes right after the problem it resolves, so
-- never without it and never twice.
pub IsPaired-announce_each :
    (copy : StatusEventKind → String → String × String) (problem recovery : StatusEventKind)
    (subject_type : SubjectType) (subject_id incident : String) (accepts : AnnounceJob → Bool)
    (facts : List EventFact) (t : AnnounceTables)
    → problem_resolved_by recovery ≡ some problem
    → t.notifications ≡ []
    → IsPaired problem recovery (
        keep
          (is_among subject_type subject_id (problem ∷ recovery ∷ []) (some incident))
          (announce_each copy accepts facts t).notifications)
IsPaired-announce_each copy problem recovery subject_type subject_id incident accepts facts t
      resolves empty =
    announce_each-IsPaired copy problem recovery resolves subject_type subject_id incident accepts
      facts t (rw empty tt)
