-- ===== src/Notification/Egress/Safety.antt =====
-- What an allowed address is, whatever the policy.
use open_mcc_manager.Prelude.{
  ℕ, ◌≡◌, ◌⊎◌, inl, inr, refl, Bool, true, false, Option, none, some, List, [], ◌∷◌, arith, All,
  find_first, length,
}
use open_mcc_manager.Notification.Egress.{
  EgressPolicy, allowed, within, is_within, normalised, never_for, is_named, within_from, soft_deny,
  verdict_on, verify_bytes,
}
use open_mcc_manager.Notification.Egress.Ranges.{Range, forbidden_v4, forbidden_v6, global_v6}

-- An address lies in none of the ranges.
abbrev pub Outside : List ℕ → List Range → Type 0
Outside bytes ranges = All (λ r. is_within bytes r ≡ false) ranges

-- What an address must be that no policy has to name: outside the private and the reserved ranges
-- of its kind, and, for 16 bytes, inside the global unicast range.
abbrev pub IsPublic : List ℕ → Type 0
IsPublic bytes =
    (length bytes ≡ 4) × Outside bytes forbidden_v4
    ⊎ (is_within bytes global_v6 ≡ true) × Outside bytes forbidden_v6

find_first-none :
    (bytes : List ℕ) (ranges : List Range)
    → find_first (is_within bytes) ranges ≡ none
    → Outside bytes ranges
find_first-none bytes [] e = tt
find_first-none bytes (r ∷ rs) e = ground (arith, find_first-none bytes rs)

soft_deny-none : (bytes : List ℕ) → soft_deny bytes ≡ none → IsPublic bytes
unfolding soft_deny
soft_deny-none bytes e =
    ground (arith, find_first-none bytes forbidden_v4, find_first-none bytes forbidden_v6)

verdict_on-allowed :
    (policy : EgressPolicy) (host_allowed : Bool) (bytes : List ℕ) (never : Option Range)
    (named : Bool)
    → verdict_on policy host_allowed bytes never ≡ allowed named
    → (never ≡ none)
      × (named ≡ is_named policy host_allowed bytes)
      × ((named ≡ true) ⊎ (soft_deny bytes ≡ none))
unfolding verdict_on
verdict_on-allowed policy host_allowed bytes (some never) named e = cc
verdict_on-allowed policy host_allowed bytes none named e = ground arith

-- Whatever the policy and whether or not the host is one of its hosts, an address that is allowed
-- lies in no range that is never allowed; and if no host and no range of the policy names it, it is
-- a public address.
pub verify_bytes-safe :
    (policy : EgressPolicy) (host_allowed : Bool) (parsed : List ℕ) (named : Bool)
    → verify_bytes policy host_allowed parsed ≡ allowed named
    → Outside (normalised parsed) (never_for (normalised parsed))
      × (named ≡ is_named policy host_allowed (normalised parsed))
      × ((named ≡ true) ⊎ IsPublic (normalised parsed))
unfolding verify_bytes
verify_bytes-safe policy host_allowed parsed named e =
    let bytes = normalised parsed in
    let (never, same, soft) =
      verdict_on-allowed policy host_allowed bytes (find_first (is_within bytes) (never_for bytes))
        named e in
    (
      find_first-none bytes (never_for bytes) never,
      same,
      elim soft [ inl yes_named ↦ inl yes_named | inr clear ↦ inr (soft_deny-none bytes clear) ],
    )

-- `::ffff:a.b.c.d`
abbrev pub mapped : ℕ → ℕ → ℕ → ℕ → List ℕ
mapped a b c d = 0 ∷ 0 ∷ 0 ∷ 0 ∷ 0 ∷ 0 ∷ 0 ∷ 0 ∷ 0 ∷ 0 ∷ 0xff ∷ 0xff ∷ a ∷ b ∷ c ∷ d ∷ []

-- An IPv4 address that is written as IPv6 gets the verdict of the IPv4 address.
pub verify_bytes-mapped :
    (policy : EgressPolicy) (host_allowed : Bool) (a b c d : ℕ)
    → verify_bytes policy host_allowed (mapped a b c d)
      ≡ verify_bytes policy host_allowed (a ∷ b ∷ c ∷ d ∷ [])
unfolding verify_bytes normalised within within_from
verify_bytes-mapped policy host_allowed a b c d = refl
