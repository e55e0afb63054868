-- ===== src/Status/Rollup/Buckets.antt =====
-- The windows of a status range follow one another and reach up to now.
use mathlib.Core.List.{head?}
use open_mcc_manager.Prelude.{
  ℕ, zero, suc, ◌+◌, ◌-◌, ◌*◌, ◌/◌, ◌≤◌, ◌<◌, ◌≡◌, refl, some, List, [], ◌∷◌, arith, last_of,
}
use open_mcc_manager.Status.Rollup.{
  StatusRange, last_24h, last_7d, last_30d, range_seconds, bucket_seconds, bucket_start,
  bucket_starts, bucket_starts_for,
}

-- Each start lies at least a step behind the one before it.
abbrev pub IsSpaced : ℕ → List ℕ → Type 0
IsSpaced step [] = Unit
IsSpaced step (x ∷ []) = Unit
IsSpaced step (x ∷ y ∷ ys) = (x + step ≤ y) × IsSpaced step (y ∷ ys)

module _ (count step current since : ℕ) where
  bucket_start_past :
      (index k : ℕ)
      → index + suc k ≡ count
      → 0 < index
      → bucket_start count step current since index ≡ current - k * step
  unfolding bucket_start
  bucket_start_past index k e p =
      let left : count - 1 - index ≡ k = omega arith in rw (← left) (ground arith)

  -- Past the first start, each start is the next one less a step.
  bucket_start_step :
      (index k : ℕ)
      → index + suc (suc k) ≡ count
      → 0 < index
      → suc k * step ≤ current
      → bucket_start count step current since index + step
        ≤ bucket_start count step current since (suc index)
  bucket_start_step index k e p h = omega (
    arith,
    bucket_start_past index (suc k) (omega arith) p,
    bucket_start_past (suc index) k (omega arith) (omega arith),
  )

  bucket_starts-IsSpaced :
      (index left : ℕ)
      → index + left ≡ count
      → 0 < index
      → left * step ≤ current + step
      → IsSpaced step (bucket_starts count step current since index left)
  unfolding bucket_starts
  bucket_starts-IsSpaced index zero e p h = tt
  bucket_starts-IsSpaced index (suc zero) e p h = tt
  bucket_starts-IsSpaced index (suc (suc k)) e p h = (
    bucket_start_step index k (omega arith) p (omega arith),
    bucket_starts-IsSpaced (suc index) (suc k) (omega arith) (omega arith) (omega arith),
  )

  last_of-bucket_starts :
      (index left : ℕ)
      → index + suc left ≡ count
      → 0 < index
      → last_of (bucket_starts count step current since index (suc left)) ≡ some current
  unfolding bucket_starts
  last_of-bucket_starts index zero e p =
      let at_end = bucket_start_past index 0 (omega arith) p in rw at_end (ground arith)
  last_of-bucket_starts index (suc left) e p =
      last_of-bucket_starts (suc index) left (omega arith) (omega arith)

-- What the starts of a range are: the first lies the whole range back, they are a step apart at
-- least, and the last step is the one that holds the present.
pub record AreWindows (step span now : ℕ) (starts : List ℕ) : Type 0 where
  pub spaced : IsSpaced step starts
  pub first : head? starts ≡ some (now - span)
  pub last : ℕ
  pub at_end : last_of starts ≡ some last
  pub begun : last ≤ now
  pub running : now < last + step

bucket_starts-AreWindows :
    (k step now current : ℕ)
    → current ≤ now
    → now < current + step
    → suc (suc k) * step ≤ now
    → AreWindows step
        (suc (suc k) * step)
        now
        (bucket_starts (suc (suc k)) step current (now - suc (suc k) * step) 0 (suc (suc k)))
unfolding bucket_starts
bucket_starts-AreWindows k step now current h j fits =
    let since = now - suc (suc k) * step in
    let second =
      bucket_start_past (suc (suc k)) step current since 1 k (omega arith) (omega arith) in
    record {
      spaced = (
        rw second (unfold bucket_start in omega arith),
        bucket_starts-IsSpaced (suc (suc k)) step current since 1 (suc k) (omega arith)
            (omega arith) (omega arith),
      );
      first = unfold bucket_start in refl;
      last = current;
      at_end =
          last_of-bucket_starts (suc (suc k)) step current since 1 k (omega arith) (omega arith);
      begun = h;
      running = j;
    }

-- Once a whole range has passed since the epoch, the windows of a range are in order, begin where
-- the range begins, and the last of them holds the present.
pub bucket_starts_for-AreWindows :
    (range : StatusRange) (now : ℕ)
    → range_seconds range * 1000 ≤ now
    → AreWindows
        (bucket_seconds range * 1000)
        (range_seconds range * 1000)
        now
        (bucket_starts_for range now)
unfolding bucket_starts_for range_seconds bucket_seconds
bucket_starts_for-AreWindows last_24h now h =
    bucket_starts-AreWindows 94 900000 now (now / 900000 * 900000) (omega arith) (omega arith) h
bucket_starts_for-AreWindows last_7d now h =
    bucket_starts-AreWindows 82 7200000 now (now / 7200000 * 7200000) (omega arith) (omega arith) h
bucket_starts_for-AreWindows last_30d now h =
    bucket_starts-AreWindows 88 28800000 now (now / 28800000 * 28800000) (omega arith) (omega arith)
      h
