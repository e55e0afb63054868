-- ===== src/Status/Rollup/Totals.antt =====
-- The seconds of a window are neither lost nor counted twice.
use open_mcc_manager.Prelude.{
  ℕ, ◌+◌, ◌-◌, ◌/◌, ◌%◌, ◌≤◌, ◌≡◌, max, ◌⊎◌, inl, inr, none, some, List, [], ◌∷◌, arith,
}
use open_mcc_manager.Status.Rollup.{
  RollableInterval, Availability, empty_availability, overlap_seconds, roll_up_one, roll_up_from,
  roll_up_window,
}

abbrev pub total : Availability → ℕ
total a = a.good + a.bad + a.degraded + a.unknown + a.excluded

abbrev overlap_sum : List RollableInterval → ℕ → ℕ → ℕ
overlap_sum [] start end = 0
overlap_sum (i ∷ is) start end = overlap_seconds i start end + overlap_sum is start end

-- The intervals follow one another without a gap from a time on, each ending at a whole second;
-- only the last may be open, and a closed history reaches the end of the window.
abbrev pub Covers : ℕ → List RollableInterval → ℕ → Type 0
Covers from [] end = end ≤ from
Covers from (i ∷ is) end =
    (i.started_at ≡ from)
    × ((i.ended_at ≡ none) × (is ≡ [])
        ⊎ ((until : ℕ) × (i.ended_at ≡ some until)
            × (from ≤ until)
            × (until % 1000 ≡ 0)
            × Covers until is end))

total-roll_up_one :
    (totals : Availability) (i : RollableInterval) (start end : ℕ)
    → total (roll_up_one totals i start end) ≡ total totals + overlap_seconds i start end
unfolding roll_up_one
total-roll_up_one totals i start end = ground arith

total-roll_up_from :
    (totals : Availability) (is : List RollableInterval) (start end : ℕ)
    → total (roll_up_from totals is start end) ≡ total totals + overlap_sum is start end
unfolding roll_up_from
total-roll_up_from totals [] start end = omega arith
total-roll_up_from totals (i ∷ is) start end = omega (
  arith,
  total-roll_up_one totals i start end,
  total-roll_up_from (roll_up_one totals i start end) is start end,
)

-- One interval of a history that covers the window takes its part of what is left.
overlap-closed :
    (from until start end : ℕ) (i : RollableInterval)
    → i.started_at ≡ from
    → i.ended_at ≡ some until
    → from ≤ until
    → from % 1000 ≡ 0
    → until % 1000 ≡ 0
    → start % 1000 ≡ 0
    → end % 1000 ≡ 0
    → overlap_seconds i start end + (end - max until start) / 1000 ≡ (end - max from start) / 1000
unfolding overlap_seconds
overlap-closed from until start end i s e h a b c d = ground arith

overlap-open :
    (from start end : ℕ) (i : RollableInterval)
    → i.started_at ≡ from
    → i.ended_at ≡ none
    → from % 1000 ≡ 0
    → start % 1000 ≡ 0
    → end % 1000 ≡ 0
    → overlap_seconds i start end ≡ (end - max from start) / 1000
unfolding overlap_seconds
overlap-open from start end i s e a c d = ground arith

overlap_sum-Covers :
    (from start end : ℕ) (is : List RollableInterval)
    → from % 1000 ≡ 0
    → start % 1000 ≡ 0
    → end % 1000 ≡ 0
    → Covers from is end
    → overlap_sum is start end ≡ (end - max from start) / 1000
overlap_sum-Covers from start end [] a c d h = omega arith
overlap_sum-Covers from start end (i ∷ is) a c d (s, inl (running, last)) =
    rw last (omega (arith, overlap-open from start end i s running a c d))
overlap_sum-Covers from start end (i ∷ is) a c d (s, inr (until, e, h, b, covers)) = omega (
  arith,
  overlap-closed from until start end i s e h a b c d,
  overlap_sum-Covers until start end is b c d covers,
)

-- Over a history that covers the window and whose times are whole seconds, the five totals add up
-- to the length of the window.
pub total-roll_up_window :
    (from start end : ℕ) (is : List RollableInterval)
    → from ≤ start
    → from % 1000 ≡ 0
    → start % 1000 ≡ 0
    → end % 1000 ≡ 0
    → Covers from is end
    → total (roll_up_window is start end) ≡ (end - start) / 1000
unfolding roll_up_window
total-roll_up_window from start end is h a c d covers = omega (
  arith,
  total-roll_up_from empty_availability is start end,
  overlap_sum-Covers from start end is a c d covers,
)
