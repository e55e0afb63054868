-- ===== src/Status/Events/Kinds.antt =====
-- When two event kinds are the same.
use open_mcc_manager.Prelude.{
  ℕ, ◌≡◌, refl, Bool, true, Option, some, List, [], ◌∷◌, find_first, arith, ◌==◌,
}
use open_mcc_manager.Status.Events.{
  StatusEventKind, host_check_failed, host_check_recovered, host_unreachable, host_recovered,
  host_degraded, host_healthy, host_drift_started, host_drift_resolved, instance_joined,
  instance_disconnected, instance_reconnected, instance_kicked, instance_connection_lost,
  instance_flapping, instance_never_joined, instance_started, instance_stopped,
  instance_unexpected_stop, instance_process_recovered, instance_needs_auth, instance_drift_started,
  instance_drift_resolved, monitoring_gap,
}

-- The place of a kind in the list, and the kind at a place: two kinds are the same text when their
-- places are the same.
abbrev pub kind_index : StatusEventKind → ℕ
kind_index host_check_failed = 0
kind_index host_check_recovered = 1
kind_index host_unreachable = 2
kind_index host_recovered = 3
kind_index host_degraded = 4
kind_index host_healthy = 5
kind_index host_drift_started = 6
kind_index host_drift_resolved = 7
kind_index instance_joined = 8
kind_index instance_disconnected = 9
kind_index instance_reconnected = 10
kind_index instance_kicked = 11
kind_index instance_connection_lost = 12
kind_index instance_flapping = 13
kind_index instance_never_joined = 14
kind_index instance_started = 15
kind_index instance_stopped = 16
kind_index instance_unexpected_stop = 17
kind_index instance_process_recovered = 18
kind_index instance_needs_auth = 19
kind_index instance_drift_started = 20
kind_index instance_drift_resolved = 21
kind_index monitoring_gap = 22

abbrev pub kind_eq : StatusEventKind → StatusEventKind → Bool
kind_eq a b = kind_index a == kind_index b

all_kinds : List StatusEventKind
all_kinds =
    host_check_failed ∷ host_check_recovered ∷ host_unreachable ∷ host_recovered ∷ host_degraded
    ∷ host_healthy ∷ host_drift_started ∷ host_drift_resolved ∷ instance_joined
    ∷ instance_disconnected ∷ instance_reconnected ∷ instance_kicked ∷ instance_connection_lost
    ∷ instance_flapping ∷ instance_never_joined ∷ instance_started ∷ instance_stopped
    ∷ instance_unexpected_stop ∷ instance_process_recovered ∷ instance_needs_auth
    ∷ instance_drift_started ∷ instance_drift_resolved ∷ monitoring_gap ∷ []

kind_at : ℕ → Option StatusEventKind
unfolding all_kinds
kind_at n = find_first (λ kind. kind_index kind == n) all_kinds

kind_at-kind_index : (k : StatusEventKind) → kind_at (kind_index k) ≡ some k
unfolding kind_at
kind_at-kind_index host_check_failed = refl
kind_at-kind_index host_check_recovered = refl
kind_at-kind_index host_unreachable = refl
kind_at-kind_index host_recovered = refl
kind_at-kind_index host_degraded = refl
kind_at-kind_index host_healthy = refl
kind_at-kind_index host_drift_started = refl
kind_at-kind_index host_drift_resolved = refl
kind_at-kind_index instance_joined = refl
kind_at-kind_index instance_disconnected = refl
kind_at-kind_index instance_reconnected = refl
kind_at-kind_index instance_kicked = refl
kind_at-kind_index instance_connection_lost = refl
kind_at-kind_index instance_flapping = refl
kind_at-kind_index instance_never_joined = refl
kind_at-kind_index instance_started = refl
kind_at-kind_index instance_stopped = refl
kind_at-kind_index instance_unexpected_stop = refl
kind_at-kind_index instance_process_recovered = refl
kind_at-kind_index instance_needs_auth = refl
kind_at-kind_index instance_drift_started = refl
kind_at-kind_index instance_drift_resolved = refl
kind_at-kind_index monitoring_gap = refl

pub kind_eq-eq : (a b : StatusEventKind) → kind_eq a b ≡ true → a ≡ b
kind_eq-eq a b e =
    let same : kind_index a ≡ kind_index b = ground (arith, e) in
    cc (kind_at-kind_index a, kind_at-kind_index b, same)
