-- ===== src/Notification/Egress/Url/Insecure.antt =====
-- Which destinations pass the checks.
use open_mcc_manager.Prelude.{
  ℕ, ◌≡◌, ◌⊎◌, inl, inr, refl, ap, ◌∙◌, Option-cases, Bool, true, Option, some, List, [], ◌∷◌,
  arith, ◌==◌, Bool-cases, false, not, ◌&&◌, ◌||◌, ◌≢◌, text_eq, ends_with, codes, if◌then◌else◌,
}
use open_mcc_manager.Notification.Egress.{EgressPolicy, AddressVerdict, allowed, denied}
use open_mcc_manager.Notification.Egress.Parse.{bare_hostname}
use open_mcc_manager.Notification.Egress.Ranges.{loopback, points_back}
use open_mcc_manager.Notification.Egress.Url.{
  Url, accepted, refused, looks_local_name, is_empty, is_http, host_is_allowed, verify_address,
  by_protocol, by_address, by_host, verify_url, verify_destination_url,
}

or_of_five : (a b c d e : Bool) → a || b || c || d || e ≡ a || (b || (c || (d || (e || false))))
or_of_five true b c d e = refl
or_of_five false true c d e = refl
or_of_five false false true d e = refl
or_of_five false false false true e = refl
or_of_five false false false false true = refl
or_of_five false false false false false = refl

not_local : (named looks : Bool) → (not named && looks) ≡ false → (looks ≡ false) ⊎ (named ≡ true)
not_local true looks e = inr refl
not_local false looks e = inl e

is_filled : (text : List ℕ) → not (is_empty text) ≡ true → text ≢ []
is_filled [] e empty = cc
is_filled (c ∷ cs) e empty = cc

module _ (is_ip : List ℕ → ℕ) (policy : EgressPolicy) (url : Url) where
  abbrev host : List ℕ
  host = bare_hostname url.hostname

  abbrev host_allowed : Bool
  host_allowed = host_is_allowed host policy

  abbrev verdict : AddressVerdict
  verdict = verify_address is_ip host policy host_allowed

  -- A host name that stays on this machine or network.
  abbrev pub is_local : Bool
  is_local =
      text_eq host (codes "localhost")
      || ends_with (codes ".localhost") host
      || ends_with (codes ".local") host
      || ends_with (codes ".internal") host
      || ends_with (codes ".home.arpa") host

  pub record IsFit (hostname : List ℕ) : Type 0 where
    pub same_host : hostname ≡ url.hostname
    pub some_host : host ≢ []
    pub web : (text_eq url.protocol (codes "https:") || text_eq url.protocol (codes "http:")) ≡ true
    pub no_username : url.username ≡ []
    pub no_password : url.password ≡ []
    pub no_fragment : url.hash ≡ []
    pub address :
        ((is_ip host ≡ 0) × ((is_local ≡ false) ⊎ (host_allowed ≡ true)))
        ⊎ ((named : Bool) × (verdict ≡ allowed named))
    pub secure :
        text_eq url.protocol (codes "http:") ≡ true
        → (policy.allow_http ≡ true) × ((host_allowed ≡ true) ⊎ (verdict ≡ allowed true))

  by_protocol-host :
      (named : Bool) (hostname : List ℕ)
      → by_protocol policy url named ≡ accepted hostname
      → hostname ≡ url.hostname
  unfolding by_protocol
  by_protocol-host named hostname e =
      elim (Bool-cases (is_http url && (not policy.allow_http || not named))) [
        | inl insecure_ ↦ absurd (cc (rw (insecure_, by_protocol) at e))
        | inr secure ↦ let e' = rw (secure, by_protocol) at e in cc
      ]

  by_address-secure :
      (named_host : Bool) (v : AddressVerdict) (hostname : List ℕ)
      → by_address policy url named_host v ≡ accepted hostname
      → (named : Bool) × (v ≡ allowed named)
        × (hostname ≡ url.hostname)
        × (is_http url ≡ true → (policy.allow_http ≡ true) × ((named_host ≡ true) ⊎ (named ≡ true)))
  unfolding by_address by_protocol
  by_address-secure named_host (denied r c) hostname e = cc
  by_address-secure named_host (allowed named) hostname e =
      (named, refl, by_protocol-host (named_host || named) hostname e, ground arith)

  named_verdict :
      (named : Bool)
      → verdict ≡ allowed named
      → (host_allowed ≡ true) ⊎ (named ≡ true)
      → (host_allowed ≡ true) ⊎ (verdict ≡ allowed true)
  named_verdict named v (inl h) = inl h
  named_verdict named v (inr n) = inr (v ∙ ap allowed n)

  far_name :
      (named : Bool)
      → (not named && looks_local_name host) ≡ false
      → (is_local ≡ false) ⊎ (named ≡ true)
  unfolding looks_local_name
  far_name named far = elim (not_local named (looks_local_name host) far) [
    | inr allowed_ ↦ inr allowed_
    | inl away ↦ inl (
        or_of_five (text_eq host (codes "localhost")) (ends_with (codes ".localhost") host)
          (ends_with (codes ".local") host) (ends_with (codes ".internal") host)
          (ends_with (codes ".home.arpa") host)
        ∙ away)
  ]

  by_name :
      (hostname : List ℕ)
      → is_ip host ≡ 0
      → (if not host_allowed && looks_local_name host
          then refused points_back loopback
          else by_protocol policy url host_allowed)
        ≡ accepted hostname
      → (hostname ≡ url.hostname)
        × (((is_ip host ≡ 0) × ((is_local ≡ false) ⊎ (host_allowed ≡ true)))
            ⊎ ((named : Bool) × (verdict ≡ allowed named)))
        × (is_http url ≡ true
            → (policy.allow_http ≡ true) × ((host_allowed ≡ true) ⊎ (verdict ≡ allowed true)))
  unfolding looks_local_name
  by_name hostname name e = elim (Bool-cases (not host_allowed && looks_local_name host)) [
    | inl back ↦ absurd (cc (rw back at e))
    | inr far ↦
        let e' : by_protocol policy url host_allowed ≡ accepted hostname = rw far at e in
        (
          by_protocol-host host_allowed hostname e',
          inl (name, far_name host_allowed far),
          unfold by_protocol in ground (arith, e'),
        )
  ]

  by_host-secure :
      (hostname : List ℕ)
      → by_host is_ip policy url host host_allowed ≡ accepted hostname
      → (hostname ≡ url.hostname)
        × (((is_ip host ≡ 0) × ((is_local ≡ false) ⊎ (host_allowed ≡ true)))
            ⊎ ((named : Bool) × (verdict ≡ allowed named)))
        × (is_http url ≡ true
            → (policy.allow_http ≡ true) × ((host_allowed ≡ true) ⊎ (verdict ≡ allowed true)))
  unfolding by_host
  by_host-secure hostname e = elim (Bool-cases (is_ip host == 0)) [
    | inl name ↦ let e' = rw (name, by_host) at e in by_name hostname (ground (arith, name)) e'
    | inr literal ↦
        let e' = rw (literal, by_host) at e in
        let (named, v, same, secure) = by_address-secure host_allowed verdict hostname e' in
        (same, inr (named, v), λ http. let s = secure http in (s.0, named_verdict named v s.1))
  ]

  verify_url-IsFit :
      (hostname : List ℕ) → verify_url is_ip policy url ≡ accepted hostname → IsFit hostname
  unfolding verify_url
  verify_url-IsFit hostname e =
      let final : by_host is_ip policy url host host_allowed ≡ accepted hostname = ground arith in
      let (same, address, secure) = by_host-secure hostname final in
      record {
        same_host = same;
        some_host = is_filled host (ground arith);
        web = ground arith;
        no_username = ground arith;
        no_password = ground arith;
        no_fragment = ground arith;
        address = address;
        secure = secure;
      }

-- An accepted destination has an https or an http URL, without credentials and without a fragment,
-- with a host, which is the one that is accepted. The host is an address with an allowing verdict;
-- or it is a name that is not localhost and does not end like a name of this machine or network,
-- unless the policy names the host. And it is plain http only if the policy allows that and names the
-- host or the address.
pub verify_destination_url-IsFit :
    (is_ip : List ℕ → ℕ) (parse_url : List ℕ → Option Url) (raw : List ℕ) (policy : EgressPolicy)
    (hostname : List ℕ)
    → verify_destination_url is_ip parse_url raw policy ≡ accepted hostname
    → (url : Url) × (parse_url raw ≡ some url) × IsFit is_ip policy url hostname
unfolding verify_destination_url
verify_destination_url-IsFit is_ip parse_url raw policy hostname e =
    elim (Option-cases (parse_url raw)) [
      | inl bad ↦ absurd (cc (rw (bad, verify_destination_url) at e))
      | inr (url, read) ↦ (
        url,
        read,
        verify_url-IsFit is_ip policy url hostname (rw (read, verify_destination_url) at e),
      )
    ]
