-- ===== src/System/Dns.antt =====
-- internal/system/settings.go: whether a domain's records lead to this server. The resolver is a
-- parameter: the addresses of a name, or none where the look-up fails.
use liteploy.Common.{
  Bool, true, false, ◌&&◌, ◌||◌, not, Option, none, some, List, [], ◌++◌, ◌==◌, if◌then◌else◌,
  is_empty, any, Outcome, ok, err,
}
use liteploy.Common.Text.{Text, codes, text_eq, trim_space, to_lower}
use liteploy.System.Settings.{DomainError, validate_domain}

pub data DnsError : Type 0 where
  unresolved wrong_address : DnsError

pub record DnsResult : Type 0 where
  pub domain : Text
  pub dashboard_domain : Text
  pub expected_ip : Text
  pub found_ips : List Text
  pub dashboard_found_ips : List Text
  pub apex_verified : Bool
  pub dashboard_verified : Bool
  pub verified : Bool
  pub error : Option DnsError

abbrev pub addresses : Option (List Text) → List Text
addresses none = []
addresses (some ips) = ips

abbrev pub leads_here : Text → List Text → Bool
leads_here expected ips = any (λ ip. not (is_empty expected) && ip == expected) ips

abbrev dns_error : Bool → List Text → List Text → Option DnsError
dns_error true apex dash = none
dns_error false apex dash =
    if is_empty apex && is_empty dash then some unresolved else some wrong_address

unfoldable pub verify_domain_dns :
    (Text → Option (List Text)) → Text → Text → Outcome DomainError DnsResult
verify_domain_dns lookup raw expected =
    let domain = trim_space (to_lower raw) in
    elim (validate_domain domain) [
      | some e ↦ err e
      | none ↦
          let dashboard = codes "liteploy." ++ domain in
          let apex = addresses (lookup domain) in
          let dash = addresses (lookup dashboard) in
          let verified =
            leads_here expected dash
            || leads_here expected apex && not (is_empty dash)
            || is_empty expected && (not (is_empty apex) || not (is_empty dash)) in
          ok (record {
            domain = domain;
            dashboard_domain = dashboard;
            expected_ip = expected;
            found_ips = apex;
            dashboard_found_ips = dash;
            apex_verified = leads_here expected apex;
            dashboard_verified = leads_here expected dash;
            verified = verified;
            error = dns_error verified apex dash;
          })
    ]
