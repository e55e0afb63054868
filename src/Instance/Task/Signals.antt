-- ===== src/Instance/Task/Signals.antt =====
-- Which signals a task claims a run for.
use open_mcc_manager.Prelude.{◌≤◌, ◌<◌, ◌≡◌, ◌⊎◌, true, List, [], ◌∷◌, All, ◌||◌}
use open_mcc_manager.Instance.Task.{
  SignalKind, login, respawn, InstanceSignalRow, InstanceTaskRow, TaskClaim, of_login, of_respawn,
  is_kind,
}

abbrev pub Member : InstanceSignalRow → List InstanceSignalRow → Type 0
Member s [] = ⊥
Member s (t ∷ ts) = (s ≡ t) ⊎ Member s ts

-- Of its kind and no older than any other of that kind.
pub record IsLatest (signals : List InstanceSignalRow) (kind : SignalKind) (s : InstanceSignalRow)
    : Type 0 where
  pub member : Member s signals
  pub of_kind : is_kind kind s ≡ true
  pub latest : All (λ t. is_kind kind t ≡ true → t.occurred_at ≤ s.occurred_at) signals

-- A claim that the task asked for, by a signal that is the newest of its kind and newer than the
-- task itself.
abbrev pub IsAsked : InstanceTaskRow → List InstanceSignalRow → TaskClaim → Type 0
IsAsked row signals claim =
    (s : InstanceSignalRow) × (row.created_at < s.occurred_at)
    × ((IsLatest signals login s
          × (claim.claim_key ≡ of_login s.identity)
          × ((row.on_login || row.on_first_login) ≡ true))
        ⊎ (IsLatest signals respawn s
            × (claim.claim_key ≡ of_respawn s.identity)
            × (row.on_respawn ≡ true)))
