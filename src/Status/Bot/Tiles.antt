-- ===== src/Status/Bot/Tiles.antt =====
-- The intervals of a bot follow one another without a gap or an overlap.
use open_mcc_manager.Prelude.{
  ℕ, ◌≤◌, ◌≡◌, refl, ap, sym, ◌∙◌, none, some, List, [], ◌∷◌, max, arith, find_first,
}
use open_mcc_manager.Status.Rollup.{StatusState, RollableInterval}
use open_mcc_manager.Status.Host.{close_open_interval, open_interval}
use open_mcc_manager.Status.Host.Intervals.{started-close_interval, ended-close_interval}
use open_mcc_manager.Status.Bot.{start_at, is_open}

-- Each interval ends where the next begins; the last is open, in a state, and began at a time.
abbrev pub Tiled : List RollableInterval → StatusState → ℕ → Type 0
Tiled [] state from = ⊥
Tiled (i ∷ []) state from = (i.state ≡ state) × (i.started_at ≡ from) × (i.ended_at ≡ none)
Tiled (i ∷ j ∷ js) state from =
    (i.ended_at ≡ some j.started_at) × (i.started_at ≤ j.started_at) × Tiled (j ∷ js) state from

find_open :
    (is : List RollableInterval) (state : StatusState) (from : ℕ)
    → Tiled is state from
    → (i : RollableInterval) × (find_first is_open is ≡ some i) × (i.started_at ≡ from)
unfolding is_open
find_open [] state from t = elim t [ ]
find_open (i ∷ []) state from (s, b, e) = (i, rw e refl, b)
find_open (i ∷ j ∷ js) state from (e, le, t) =
    let (o, found, begun) = find_open (j ∷ js) state from t in (o, rw e found, begun)

-- The next interval begins at the time of the change, but not before the last began.
pub start_at-Tiled :
    (at : ℕ) (is : List RollableInterval) (state : StatusState) (from : ℕ)
    → Tiled is state from
    → start_at at is ≡ max at from
unfolding start_at
start_at-Tiled at is state from t =
    let (i, found, begun) = find_open is state from t in rw found (ground arith)

close-next :
    (at u : ℕ) (state' state : StatusState) (from : ℕ) (is : List RollableInterval)
    → max at from ≡ u
    → Tiled is state from
    → Tiled (open_interval state' u (close_open_interval at is)) state' u
unfolding open_interval close_open_interval
close-next at u state' state from [] e t = elim t [ ]
close-next at u state' state from (i ∷ []) e (s, b, o) = (
  (ended-close_interval at i).0 o ∙ ap (λ (n : ℕ). some (max at n)) b ∙ ap (λ (n : ℕ). some n) e,
  omega (arith, e, b, started-close_interval at i),
  (refl, refl, refl),
)
close-next at u state' state from (i ∷ j ∷ js) e (o, le, t) = (
  (ended-close_interval at i).1 j.started_at o
      ∙ ap (λ (n : ℕ). some n) (sym (started-close_interval at j)),
  omega (arith, le, started-close_interval at i, started-close_interval at j),
  close-next at u state' state from (j ∷ js) e t,
)

-- Closing what is open and opening the next keeps the row without a gap or an overlap.
pub Tiled-next :
    (at : ℕ) (state' state : StatusState) (from : ℕ) (is : List RollableInterval)
    → Tiled is state from
    → Tiled
        (open_interval state' (start_at at is) (close_open_interval at is))
        state'
        (start_at at is)
Tiled-next at state' state from is t =
    close-next at (start_at at is) state' state from is (sym (start_at-Tiled at is state from t)) t
