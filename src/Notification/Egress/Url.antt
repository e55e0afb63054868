-- ===== src/Notification/Egress/Url.antt =====
-- The checks of packages/core/src/notification/egress.ts on a destination's address as it is
-- written. `is_ip` is `isIP` of node:net; `parse_url` is `new URL`, `none` where it throws.
-- `toLowerCase` is that of ASCII letters.
pub mod Insecure
mod Tests
use open_mcc_manager.Prelude.{
  ℕ, Bool, true, false, not, ◌&&◌, ◌||◌, Option, none, some, List, [], ◌∷◌, map, ◌==◌, text_eq,
  some_of, codes, ends_with, lower, trim, split_at, keep, if◌then◌else◌,
}
use open_mcc_manager.Notification.Egress.{
  EgressPolicy, AddressVerdict, allowed, denied, verify_parsed,
}
use open_mcc_manager.Notification.Egress.Parse.{bare_hostname, parse_address, allowance_of}
use open_mcc_manager.Notification.Egress.Ranges.{
  Allowance, Category, Reason, loopback, unreadable, insecure, credentials, fragment, parameters,
  points_back, not_a_web_address, must_be_https, no_credentials, no_fragment, not_a_server_address,
  address_only,
}

-- The parts of a URL that are looked at.
pub record Url : Type 0 where
  pub protocol : List ℕ
  pub username : List ℕ
  pub password : List ℕ
  pub hash : List ℕ
  pub hostname : List ℕ

pub data UrlVerdict : Type 0 where
  accepted : (hostname : List ℕ) → UrlVerdict
  refused : (reason : Reason) (category : Category) → UrlVerdict

abbrev local_suffixes : List (List ℕ)
local_suffixes = codes ".localhost" ∷ codes ".local" ∷ codes ".internal" ∷ codes ".home.arpa" ∷ []

looks_local_name : List ℕ → Bool
looks_local_name hostname =
    text_eq hostname (codes "localhost")
    || some_of (λ suffix. ends_with suffix hostname) local_suffixes

unfoldable pub host_is_allowed : List ℕ → EgressPolicy → Bool
host_is_allowed hostname policy =
    some_of (λ host. text_eq host (map lower (bare_hostname hostname))) policy.allowed_hosts

abbrev pub is_http : Url → Bool
is_http url = text_eq url.protocol (codes "http:")

abbrev is_web : Url → Bool
is_web url = text_eq url.protocol (codes "https:") || is_http url

abbrev is_empty : List ℕ → Bool
is_empty [] = true
is_empty (c ∷ cs) = false

-- The last check: plain http is for named hosts and addresses, where the policy allows it.
by_protocol : EgressPolicy → Url → Bool → UrlVerdict
by_protocol policy url named =
    if is_http url && (not policy.allow_http || not named)
    then refused must_be_https insecure
    else accepted url.hostname

by_address : EgressPolicy → Url → Bool → AddressVerdict → UrlVerdict
by_address policy url host_allowed (denied reason category) = refused reason category
by_address policy url host_allowed (allowed named) = by_protocol policy url (host_allowed || named)

module _ (is_ip : List ℕ → ℕ) where
  unfoldable pub verify_address : List ℕ → EgressPolicy → Bool → AddressVerdict
  verify_address address policy host_allowed =
      verify_parsed policy host_allowed (parse_address is_ip address)

  by_host : EgressPolicy → Url → List ℕ → Bool → UrlVerdict
  by_host policy url hostname host_allowed =
      if is_ip hostname == 0
      then if not host_allowed && looks_local_name hostname
        then refused points_back loopback
        else by_protocol policy url host_allowed
      else by_address policy url host_allowed (verify_address hostname policy host_allowed)

  verify_url : EgressPolicy → Url → UrlVerdict
  verify_url policy url =
      let hostname = bare_hostname url.hostname in
      if not (is_web url)
      then refused must_be_https insecure
      else if not (is_empty url.username) || not (is_empty url.password)
      then refused no_credentials credentials
      else if not (is_empty url.hash)
      then refused no_fragment fragment
      else if is_empty hostname
      then refused not_a_web_address unreadable
      else by_host policy url hostname (host_is_allowed hostname policy)

  pub verify_destination_url : (List ℕ → Option Url) → List ℕ → EgressPolicy → UrlVerdict
  unfolding verify_url
  verify_destination_url parse_url raw policy = elim (parse_url raw) [
    | none ↦ refused not_a_web_address unreadable
    | some url ↦ verify_url policy url
  ]

  of_address : List ℕ → AddressVerdict → UrlVerdict
  of_address hostname (allowed named) = accepted hostname
  of_address hostname (denied reason category) = refused reason category

  -- A server address may hold no `/`, `@` or `:`.
  abbrev has_more : List ℕ → Bool
  has_more hostname = some_of (λ c. c == b'/' || c == b'@' || c == b':') hostname

  pub verify_destination_host : List ℕ → EgressPolicy → UrlVerdict
  unfolding of_address looks_local_name
  verify_destination_host raw policy =
      let hostname = map lower (bare_hostname (trim raw)) in
      let host_allowed = host_is_allowed hostname policy in
      if is_empty hostname
      then refused not_a_server_address unreadable
      else if not (is_ip hostname == 0)
      then of_address hostname (verify_address hostname policy host_allowed)
      else if has_more hostname
      then refused address_only parameters
      else if not host_allowed && looks_local_name hostname
      then refused points_back loopback
      else accepted hostname

  -- `listed`
  unfoldable pub listed : List ℕ → List (List ℕ)
  listed raw =
      keep (λ entry. not (is_empty entry))
        (map (λ entry. map lower (trim entry)) (split_at b',' raw))

  -- The allowances of a setting; `none` where an entry is refused by an error.
  allowances : List (List ℕ) → Option (List Allowance)
  allowances [] = some []
  allowances (entry ∷ entries) = elim (allowance_of is_ip entry) [
    | none ↦ none
    | some allowance ↦ elim (allowances entries) [
      | none ↦ none
      | some rest ↦ some (allowance ∷ rest)
    ]
  ]

  pub egress_policy : Bool → List ℕ → List ℕ → Option EgressPolicy
  unfolding allowances listed
  egress_policy allow_http hosts addresses = elim (allowances (listed addresses)) [
    | none ↦ none
    | some list ↦ some (record {
      allow_http = allow_http;
      allowed_hosts = map bare_hostname (listed hosts);
      allowed_addresses = list;
    })
  ]
