-- ===== src/Notification/Egress/Tests.antt =====
-- Verdicts on given addresses.
use open_mcc_manager.Prelude.{
  ℕ, ◌≤◌, ◌≡◌, ◌↔◌, ◌⊎◌, refl, arith, true, false, List, [], ◌∷◌, length,
}
use open_mcc_manager.Notification.Egress.{
  EgressPolicy, public_only, within, normalised, never_for, is_named, verify_bytes, soft_deny,
  verdict_on, within_from,
}
use open_mcc_manager.Notification.Egress.Ranges.{Allowance}
use open_mcc_manager.Notification.Egress.Prefix.{bits_of, AgreeFor, within_iff}
use open_mcc_manager.Notification.Egress.Safety.{
  Outside, IsPublic, mapped, verify_bytes-safe, verify_bytes-mapped,
}

abbrev pub home : List ℕ
home = 192 ∷ 168 ∷ 1 ∷ 20 ∷ []

abbrev home_range : Allowance
home_range = record { bytes = 192 ∷ 168 ∷ 0 ∷ 0 ∷ []; bits = 16 }

-- A policy that names a home network and allows plain http.
abbrev pub home_policy : EgressPolicy
home_policy = record { allow_http = true; allowed_hosts = []; allowed_addresses = home_range ∷ [] }

verify_bytes-safe_example :
    Outside (normalised home) (never_for (normalised home))
    × (true ≡ is_named home_policy false (normalised home))
    × ((true ≡ true) ⊎ IsPublic (normalised home))
unfolding verify_bytes verdict_on soft_deny within within_from normalised
verify_bytes-safe_example = verify_bytes-safe home_policy false home true refl

mapped_verdict :
    verify_bytes public_only false (mapped 127 0 0 1)
    ≡ verify_bytes public_only false (127 ∷ 0 ∷ 0 ∷ 1 ∷ [])
mapped_verdict = verify_bytes-mapped public_only false 127 0 0 1

within_iff_example : (within home home_range ≡ true) ↔ (
    (length home ≡ length home_range.bytes)
    × (16 ≤ 32)
    × AgreeFor 16 (bits_of home) (bits_of home_range.bytes))
within_iff_example =
    within_iff home home_range (omega arith, (omega arith, (omega arith, (omega arith, tt))))
      (omega arith, (omega arith, (omega arith, (omega arith, tt))))
