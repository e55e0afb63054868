-- ===== src/Notification/Egress/Url/Tests.antt =====
-- A destination on a home network.
use open_mcc_manager.Prelude.{◌≡◌, refl, true, some, [], ◌∷◌, codes, split_at, decimal}
use open_mcc_manager.Notification.Egress.{
  EgressPolicy, verify_parsed, verify_bytes, verdict_on, normalised, within, within_from, soft_deny,
}
use open_mcc_manager.Notification.Egress.Parse.{parse_address, parse_v4, bare_hostname}
use open_mcc_manager.Notification.Egress.Url.{
  Url, verify_destination_url, verify_url, by_host, by_address, by_protocol, verify_address,
  host_is_allowed,
}
use open_mcc_manager.Notification.Egress.Url.Insecure.{IsFit, verify_destination_url-IsFit}

-- A policy that names a home network and allows plain http.
abbrev home_policy : EgressPolicy
home_policy = record {
  allow_http = true;
  allowed_hosts = [];
  allowed_addresses = record { bytes = 192 ∷ 168 ∷ 0 ∷ 0 ∷ []; bits = 16 } ∷ [];
}

abbrev home_url : Url
home_url = record {
  protocol = codes "http:";
  username = [];
  password = [];
  hash = [];
  hostname = codes "192.168.1.20";
}

verify_destination_url-IsFit_example :
    (url : Url) × (some home_url ≡ some url)
    × IsFit (λ text. 4) home_policy url (codes "192.168.1.20")
unfolding verify_destination_url verify_url by_host by_address by_protocol verify_address
    verify_parsed bare_hostname host_is_allowed parse_address parse_v4 split_at decimal verify_bytes
    verdict_on normalised within within_from soft_deny
verify_destination_url-IsFit_example =
    verify_destination_url-IsFit (λ text. 4) (λ raw. some home_url)
      (codes "http://192.168.1.20/hook") home_policy (codes "192.168.1.20") refl
