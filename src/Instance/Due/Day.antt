-- ===== src/Instance/Due/Day.antt =====
-- When a schedule is due, and that it is not due twice on one day.
use open_mcc_manager.Prelude.{
  ℕ, ◌+◌, ◌≤◌, ◌≡◌, ◌≢◌, ◌↔◌, inl, inr, refl, Option-cases, String, true, false, Option, none, some,
  List, [], ◌∷◌, arith, str_eq_iff,
}
use open_mcc_manager.Instance.Schedule.{has_day, DayOfWeek}
use open_mcc_manager.Instance.Due.{
  Parts, ZonedMoment, DueCandidate, zoned_moment, at_moment, is_due, not_run_on, is_empty, ◌>>=◌,
}

module _ (format : ℕ → String → Option Parts) (c : DueCandidate) where
  -- The last run, if there is one, was not on the date of `now` in the schedule's time zone.
  abbrev pub NotToday : ZonedMoment → Option ℕ → Type 0
  NotToday now none = Unit
  NotToday now (some last) =
      (ran : ZonedMoment) × (zoned_moment format last c.timezone ≡ some ran)
      × (ran.date_key ≢ now.date_key)

  not_run_on_iff :
      (now : ZonedMoment) (last : Option ℕ)
      → (not_run_on format c now last ≡ some true) ↔ NotToday now last
  unfolding not_run_on
  not_run_on_iff now none = (λ _. tt, λ _. refl)
  not_run_on_iff now (some last) = elim (Option-cases (zoned_moment format last c.timezone)) [
    | inl unknown ↦ (λ e. cc (rw (unknown, ◌>>=◌) at e), λ t. cc (t.1))
    | inr (ran, known) ↦ (
      λ e. (
        ran,
        known,
        ground (arith, rw (known, ◌>>=◌) at e, str_eq_iff ran.date_key now.date_key),
      ),
      λ t.
          rw (known, ◌>>=◌) (ground (arith, known, t.1, t.2, str_eq_iff ran.date_key now.date_key)),
    )
  ]

  -- When a schedule is due: it is enabled, this is one of its days, its minute has come and is no
  -- more than an hour past, and it has not run on this date.
  pub record IsTimely (now : ZonedMoment) : Type 0 where
    pub enabled : c.enabled ≡ true
    pub on_day : has_day c.days_of_week now.weekday ≡ true
    pub begun : c.minute_of_day ≤ now.minute_of_day
    pub recent : now.minute_of_day ≤ c.minute_of_day + 60
    pub fresh : NotToday now c.last_run_at

  at_moment_iff :
      (now : ZonedMoment)
      → (at_moment format c now ≡ some true) ↔ (
          (has_day c.days_of_week now.weekday ≡ true)
          × (c.minute_of_day ≤ now.minute_of_day)
          × (now.minute_of_day ≤ c.minute_of_day + 60)
          × NotToday now c.last_run_at)
  unfolding at_moment
  at_moment_iff now = ground (arith, not_run_on_iff now c.last_run_at)

  is_empty-has_day :
      (days : List DayOfWeek) (day : DayOfWeek) → has_day days day ≡ true → is_empty days ≡ false
  unfolding is_empty
  is_empty-has_day [] day on = ground (arith, on)
  is_empty-has_day (_ ∷ _) day on = refl

  is_due-guards :
      (at : ℕ)
      → (is_due format c at ≡ some true) ↔ (
          (c.enabled ≡ true)
          × (is_empty c.days_of_week ≡ false)
          × ((zoned_moment format at c.timezone >>= at_moment format c) ≡ some true))
  unfolding is_due
  is_due-guards at = ground arith

  -- Exactly when a schedule is due at an instant whose local time is known: it is enabled, the
  -- day is one of its days, its minute has come and is no more than an hour past, and its last
  -- run, if any, fell on another local date.
  pub is_due_iff :
      (at : ℕ) (now : ZonedMoment)
      → zoned_moment format at c.timezone ≡ some now
      → (is_due format c at ≡ some true) ↔ IsTimely now
  is_due_iff at now known = (
    λ e. timely (rw (known, ◌>>=◌) at (is_due-guards at).0 e),
    λ t. (is_due-guards at).1 (
      t.enabled,
      is_empty-has_day c.days_of_week now.weekday t.on_day,
      rw (known, ◌>>=◌) ((at_moment_iff now).1 (t.on_day, t.begun, t.recent, t.fresh)),
    ),
  )
    where
      timely :
          (c.enabled ≡ true)
            × (is_empty c.days_of_week ≡ false)
            × (at_moment format c now ≡ some true)
          → IsTimely now
      timely (on, _, due) =
          let (day, begun, recent, fresh) = (at_moment_iff now).0 due in
          record { enabled = on; on_day = day; begun = begun; recent = recent; fresh = fresh }
