-- ===== src/Transport/Limiter/Line.antt =====
-- The line of a limiter as the set of those that wait.
use open_mcc_manager.Prelude.{
  ℕ, ◌-◌, ◌≤◌, ◌<◌, ◌++◌, false, ltb, Bool-cases, inl, inr, ◌+◌, ◌≡◌, refl, none, some, List, [],
  ◌∷◌, arith, ◌==◌, if◌then◌else◌, times_in,
}
use open_mcc_manager.Transport.Limiter.{
  Limiter, granted, queued, without, abandon, acquire, release,
}

times_in-without :
    (id j : ℕ) (ws : List ℕ)
    → times_in j (without id ws) ≡ (if id == j then times_in j ws - 1 else times_in j ws)
unfolding without times_in
times_in-without id j [] = ground arith
times_in-without id j (w ∷ ws) = ground (arith, times_in-without id j ws)

pub times_in-abandon :
    (id j : ℕ) (l : Limiter)
    → times_in j (abandon id l).waiting
      ≡ (if id == j then times_in j l.waiting - 1 else times_in j l.waiting)
unfolding abandon
times_in-abandon id j l = times_in-without id j l.waiting

pub active-abandon : (id : ℕ) (l : Limiter) → (abandon id l).active ≡ l.active
unfolding abandon
active-abandon id l = refl

without-nil : (id : ℕ) (ws : List ℕ) → ws ≡ [] → without id ws ≡ []
unfolding without
without-nil id [] h = refl
without-nil id (w ∷ ws) h = cc

pub abandon-nil : (id : ℕ) (l : Limiter) → l.waiting ≡ [] → (abandon id l).waiting ≡ []
unfolding abandon
abandon-nil id l h = without-nil id l.waiting h

-- A release with nobody in the line, and with a first waiter.
pub data IsReleased (l : Limiter) : Type 0 where
  nobody :
      l.waiting ≡ []
      → release l ≡ (none, record { active = l.active - 1; waiting = [] })
      → IsReleased l
  first :
      (w : ℕ) (ws : List ℕ)
      → l.waiting ≡ w ∷ ws
      → release l ≡ (some w, record { active = l.active - 1 + 1; waiting = ws })
      → IsReleased l

released : (line : List ℕ) (active : ℕ) → IsReleased (record { active = active; waiting = line })
unfolding release
released [] active = nobody refl refl
released (w ∷ ws) active = first w ws refl refl

pub release-IsReleased : (l : Limiter) → IsReleased l
release-IsReleased l = released l.waiting l.active

-- A caller that has not given up gets a free slot, or joins the end of the line.
pub data IsAcquired (limit id : ℕ) (l : Limiter) : Type 0 where
  free :
      l.active < limit
      → acquire limit false id l ≡ (granted, record { active = l.active + 1; waiting = l.waiting })
      → IsAcquired limit id l
  full :
      limit ≤ l.active
      → acquire limit false id l
        ≡ (queued, record { active = l.active; waiting = l.waiting ++ id ∷ [] })
      → IsAcquired limit id l

pub acquire-IsAcquired : (limit id : ℕ) (l : Limiter) → IsAcquired limit id l
unfolding acquire
acquire-IsAcquired limit id l = elim (Bool-cases (ltb l.active limit)) [
  | inl e ↦ free (ground arith) (rw e refl)
  | inr e ↦ full (ground arith) (rw e refl)
]
