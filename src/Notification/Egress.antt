-- ===== src/Notification/Egress.antt =====
-- packages/core/src/notification/egress.ts: which addresses a delivery may go to.
-- An address is its bytes, 4 or 16 of them.
pub mod Parse
pub mod Ranges
pub mod Url
pub mod Prefix
pub mod Safety
mod Tests
use Prim.Native.Nat.{bit_and}
use open_mcc_manager.Prelude.{
  ℕ, zero, suc, ◌-◌, ◌*◌, ◌^◌, ◌%◌, Bool, true, false, ◌&&◌, ◌||◌, Option, none, some, List, [],
  ◌∷◌, min, ltb, ◌==◌, length, some_of, find_first, if◌then◌else◌,
}
use Ranges.{
  Category, Reason, unreadable, Allowance, Range, never_v4, never_v6, forbidden_v4, forbidden_v6,
  non_global_v6, global_v6, mapped_v4,
}

pub record EgressPolicy : Type 0 where
  pub allow_http : Bool
  pub allowed_hosts : List (List ℕ)
  pub allowed_addresses : List Allowance

abbrev pub public_only : EgressPolicy
public_only = record { allow_http = false; allowed_hosts = []; allowed_addresses = [] }

pub data AddressVerdict : Type 0 where
  allowed : (named : Bool) → AddressVerdict
  denied : (reason : Reason) (category : Category) → AddressVerdict

-- `(0xff << (8 - width)) & 0xff`
abbrev pub mask : ℕ → ℕ
mask width = (255 * 2 ^ (8 - width)) % 256

-- The loop of `within`: `remaining` bits are still to be compared, on the bytes that are left.
unfoldable pub within_from : ℕ → List ℕ → List ℕ → Bool
within_from zero bytes limit = true
within_from (suc r) [] limit = false
within_from (suc r) (left ∷ ls) [] = false
within_from (suc r) (left ∷ ls) (right ∷ rs) =
    let width = min 8 (suc r) in
    let rest = within_from (suc r - width) ls rs in
    if bit_and left (mask width) == bit_and right (mask width) then rest else false

unfoldable pub within : List ℕ → Allowance → Bool
within bytes limit =
    if length bytes == length limit.bytes
    then if ltb (length limit.bytes * 8) limit.bits
      then false
      else within_from limit.bits bytes limit.bytes
    else false

abbrev pub is_within : List ℕ → Range → Bool
is_within bytes limit = within bytes limit.allowance

-- `list.find((limit) => within(bytes, limit)) ?? fallback`
abbrev or_range : Option Range → Range → Option Range
or_range none fallback = some fallback
or_range (some found) fallback = some found

unfoldable pub soft_deny : List ℕ → Option Range
soft_deny bytes =
    if length bytes == 4
    then find_first (is_within bytes) forbidden_v4
    else if is_within bytes global_v6
    then find_first (is_within bytes) forbidden_v6
    else or_range (find_first (is_within bytes) non_global_v6) global_v6

-- `bytes.slice(12)`, on 16 bytes.
slice_12 : List ℕ → List ℕ
slice_12 (_ ∷ _ ∷ _ ∷ _ ∷ _ ∷ _ ∷ _ ∷ _ ∷ _ ∷ _ ∷ _ ∷ _ ∷ rest) = rest
slice_12 _ = []

unfoldable pub normalised : List ℕ → List ℕ
unfolding slice_12
normalised bytes =
    if (length bytes == 16) && is_within bytes mapped_v4 then slice_12 bytes else bytes

abbrev pub never_for : List ℕ → List Range
never_for bytes = if length bytes == 4 then never_v4 else never_v6

abbrev pub is_named : EgressPolicy → Bool → List ℕ → Bool
is_named policy host_allowed bytes = host_allowed || some_of (within bytes) policy.allowed_addresses

-- The verdict on bytes that are not in a range that is never allowed.
soft_verdict : Bool → Option Range → AddressVerdict
soft_verdict named none = allowed named
soft_verdict named (some hit) = if named then allowed true else denied hit.reason hit.category

verdict_on : EgressPolicy → Bool → List ℕ → Option Range → AddressVerdict
unfolding soft_verdict
verdict_on policy host_allowed bytes (some never) = denied never.reason never.category
verdict_on policy host_allowed bytes none =
    soft_verdict (is_named policy host_allowed bytes) (soft_deny bytes)

-- `verifyAddress`, once the address is read.
pub verify_bytes : EgressPolicy → Bool → List ℕ → AddressVerdict
unfolding verdict_on
verify_bytes policy host_allowed parsed =
    let bytes = normalised parsed in
    verdict_on policy host_allowed bytes (find_first (is_within bytes) (never_for bytes))

unfoldable pub verify_parsed : EgressPolicy → Bool → Option (List ℕ) → AddressVerdict
verify_parsed policy host_allowed none = denied Reason.could_not_be_read unreadable
verify_parsed policy host_allowed (some parsed) = verify_bytes policy host_allowed parsed
