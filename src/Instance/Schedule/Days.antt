-- ===== src/Instance/Schedule/Days.antt =====
-- What is stored of a schedule can be read again.
use open_mcc_manager.Prelude.{
  ℕ, ◌<◌, ◌≡◌, refl, Bool, true, false, ◌&&◌, none, some, List, [], ◌∷◌, arith, if◌then◌else◌,
}
use open_mcc_manager.Instance.Schedule.{
  DayOfWeek, mon, tue, wed, thu, fri, sat, sun, day_eq, has_day, ordered_days, render_ordered,
  render_days_of_week, parse_days_of_week, TimeOfDay, minute_of_day, time_of_day,
}

abbrev put_if : Bool → DayOfWeek → List DayOfWeek → List DayOfWeek
put_if true day days = day ∷ days
put_if false day days = days

abbrev week : Bool → Bool → Bool → Bool → Bool → Bool → Bool → List DayOfWeek
week a b c d e f g =
    put_if a mon
      (put_if b tue (put_if c wed (put_if d thu (put_if e fri (put_if f sat (put_if g sun []))))))

abbrev days_eq : List DayOfWeek → List DayOfWeek → Bool
days_eq [] [] = true
days_eq (x ∷ xs) (y ∷ ys) = day_eq x y && days_eq xs ys
days_eq _ _ = false

-- Reading gives back what was rendered, or nothing was rendered.
abbrev reads_back : List DayOfWeek → Bool
reads_back days = elim (render_ordered days) [
  | none ↦ days_eq days []
  | some stored ↦ days_eq (parse_days_of_week stored) days
]

both : (Bool → Bool) → Bool
both p = p true && p false

all_weeks :
    both (λ a. both (λ b.
      both (λ c. both (λ d. both (λ e. both (λ f. both (λ g. reads_back (week a b c d e f g))))))))
    ≡ true
unfolding both render_ordered parse_days_of_week
all_weeks = refl

both_sound : (p : Bool → Bool) (b : Bool) → both p ≡ true → p b ≡ true
unfolding both
both_sound p true h = ground arith
both_sound p false h = ground arith

week-reads_back : (a b c d e f g : Bool) → reads_back (week a b c d e f g) ≡ true
week-reads_back a b c d e f g = both_sound _ g (
    both_sound _ f (
      both_sound _ e (both_sound _ d (both_sound _ c (both_sound _ b (both_sound _ a all_weeks))))))

put_if_lem :
    (b : Bool) (day : DayOfWeek) (days : List DayOfWeek)
    → (if b then day ∷ days else days) ≡ put_if b day days
put_if_lem true day days = refl
put_if_lem false day days = refl

ordered_days-week :
    (days : List DayOfWeek)
    → ordered_days days
      ≡ week
          (has_day days mon)
          (has_day days tue)
          (has_day days wed)
          (has_day days thu)
          (has_day days fri)
          (has_day days sat)
          (has_day days sun)
unfolding ordered_days
ordered_days-week days = simp put_if_lem

day_eq-eq : (x y : DayOfWeek) → day_eq x y ≡ true → x ≡ y
day_eq-eq x y e = ground arith

days_eq-eq : (xs ys : List DayOfWeek) → days_eq xs ys ≡ true → xs ≡ ys
days_eq-eq [] [] e = refl
days_eq-eq [] (y ∷ ys) e = cc
days_eq-eq (x ∷ xs) [] e = cc
days_eq-eq (x ∷ xs) (y ∷ ys) e = grind (arith, day_eq-eq x y, days_eq-eq xs ys)

ordered_days-reads_back : (days : List DayOfWeek) → reads_back (ordered_days days) ≡ true
ordered_days-reads_back days = rw (ordered_days-week days) (
    week-reads_back (has_day days mon) (has_day days tue) (has_day days wed) (has_day days thu)
      (has_day days fri) (has_day days sat) (has_day days sun))

-- Whatever days a window names, in whatever order and however often, what is stored of them reads
-- back as the same days, each once and in the order of the week.
pub parse-render :
    (days : List DayOfWeek) (stored : List ℕ)
    → render_days_of_week days ≡ some stored
    → parse_days_of_week stored ≡ ordered_days days
unfolding render_days_of_week
parse-render days stored e =
    days_eq-eq (parse_days_of_week stored) (ordered_days days)
      (rw (e, reads_back) at (ordered_days-reads_back days))

-- A time of day is kept by the number of its minutes.
pub time_of_day-minute_of_day :
    (time : TimeOfDay) → time.minute < 60 → time_of_day (minute_of_day time) ≡ time
unfolding time_of_day minute_of_day
time_of_day-minute_of_day time h = ground arith
