-- ===== src/Transport/Limiter.antt =====
-- packages/transport/src/ssh/limiter.ts: at most `limit` channels at a time, the others wait.
-- A waiter is a number; its promise settles when `acquire` grants it or `release` returns it.
pub mod Line
pub mod Slots
use open_mcc_manager.Prelude.{
  ℕ, ◌+◌, ◌-◌, Bool, true, false, Option, none, some, List, [], ◌∷◌, ◌++◌, ltb, ◌==◌, if◌then◌else◌,
}

pub record Limiter : Type 0 where
  pub active : ℕ
  pub waiting : List ℕ

abbrev pub create_channel_limiter : Limiter
create_channel_limiter = record { active = 0; waiting = [] }

pub data Acquired : Type 0 where
  granted queued rejected : Acquired

unfoldable pub acquire : ℕ → Bool → ℕ → Limiter → Acquired × Limiter
acquire limit aborted id l =
    if aborted
    then (rejected, l)
    else if ltb l.active limit
    then (granted, record l { active = l.active + 1 })
    else (queued, record l { waiting = l.waiting ++ id ∷ [] })

-- `indexOf` and `splice`: the first such waiter goes.
without : ℕ → List ℕ → List ℕ
without id [] = []
without id (w ∷ ws) = if w == id then ws else w ∷ without id ws

unfoldable pub abandon : ℕ → Limiter → Limiter
unfolding without
abandon id l = record l { waiting = without id l.waiting }

-- `waiting.shift()`, and the waiter that is admitted.
admit_next : ℕ → List ℕ → Option ℕ × Limiter
admit_next active [] = (none, record { active = active; waiting = [] })
admit_next active (w ∷ ws) = (some w, record { active = active + 1; waiting = ws })

-- `Math.max(0, active - 1)` is the subtraction that stops at 0.
unfoldable pub release : Limiter → Option ℕ × Limiter
unfolding admit_next
release l = admit_next (l.active - 1) l.waiting
