-- ===== src/Application/Validation/Accepted.antt =====
-- What an application has once `Validate` returned no error.
use liteploy.Common.{
  ℕ, ◌≤◌, ◌≡◌, refl, Bool, true, false, ◌&&◌, not, List, [], ◌∷◌, ◌++◌, All, is_empty, arith,
  Outcome, ok, err,
}
use liteploy.Common.Int.{ℤ, pos, negsuc}
use liteploy.Common.Text.{Text}
use liteploy.Application.Types.{ServiceType, other_service, Application, is_private}
use liteploy.Application.Domain.{DomainError, HostPath, parse_domain_route, validate_domain}
use liteploy.Application.Validation.{
  ValidationError, is_app_name, SourceError, validate_source, service_errors, port_errors,
  source_errors, entry_errors, domain_errors, name_errors, validate, default_service, when,
  private_domains, id_required,
}

none_in_append : {A : Type 0} (xs ys : List A) → xs ++ ys ≡ [] → (xs ≡ []) × (ys ≡ [])
none_in_append [] ys h = (refl, h)
none_in_append (x ∷ xs) ys h = cc

-- The entry parses, and the host is a valid domain name.
abbrev pub IsRoutable : Text → Type 0
IsRoutable d = (r : HostPath) × (parse_domain_route d ≡ ok r) × (validate_domain r.host ≡ ok tt)

abbrev pub IsPort : ℤ → Type 0
IsPort p = (n : ℕ) × (p ≡ pos n) × (n ≤ 65535)

abbrev pub IsService : ServiceType → Type 0
IsService t = (u : Text) → ¬ (t ≡ other_service u)

entry-IsRoutable :
    (d : Text) (o : Outcome DomainError HostPath)
    → parse_domain_route d ≡ o
    → entry_errors d o ≡ []
    → IsRoutable d
unfolding entry_errors
entry-IsRoutable d (err e) q h = cc
entry-IsRoutable d (ok r) q h = (r, q, by_host (validate_domain r.host) refl)
  where
    by_host :
        (v : Outcome DomainError (Unit {0}))
        → validate_domain r.host ≡ v
        → validate_domain r.host ≡ ok tt
    by_host (ok tt) e = e
    by_host (err e) q' = absurd (ground arith)

domains-IsRoutable : (ds : List Text) → domain_errors ds ≡ [] → All IsRoutable ds
unfolding domain_errors
domains-IsRoutable [] h = tt
domains-IsRoutable (d ∷ ds) h =
    let (here, rest) =
      none_in_append (entry_errors d (parse_domain_route d)) (domain_errors ds) h in
    (entry-IsRoutable d (parse_domain_route d) refl here, domains-IsRoutable ds rest)

port_errors-IsPort : (p : ℤ) → port_errors p ≡ [] → IsPort p
unfolding port_errors
port_errors-IsPort (negsuc n) h = cc
port_errors-IsPort (pos n) h = (n, refl, ground arith)

service-IsService : (t : ServiceType) → service_errors t ≡ [] → IsService t
unfolding service_errors
service-IsService t h u e = ground arith

source-ok : (o : Outcome SourceError (Unit {0})) → source_errors o ≡ [] → o ≡ ok tt
unfolding source_errors
source-ok (ok tt) h = refl
source-ok (err e) h = cc

false_of_when : (b : Bool) (e : ValidationError) → when b e ≡ [] → b ≡ false
false_of_when true e h = cc
false_of_when false e h = refl

name_is_valid : (name : Text) → name_errors name ≡ [] → is_app_name name ≡ true
unfolding name_errors
name_is_valid name h = ground arith

private_without_domains :
    (t : ServiceType) (ds : List Text)
    → is_private t && not (is_empty ds) ≡ false
    → is_private t ≡ true
    → ds ≡ []
private_without_domains t [] h p = refl
private_without_domains t (d ∷ ds) h p = ground arith

-- An application without a validation error has an id, a valid name, a source that passes, a port
-- of at most 65535 and a known service type; every entry of its domains parses to a valid host
-- name, and a worker or an internal service has none.
pub validate-accepts :
    (a : Application)
    → (validate a).1 ≡ []
    → (is_empty a.id ≡ false)
      × (is_app_name a.name ≡ true)
      × (validate_source a.source ≡ ok tt)
      × IsPort a.port
      × IsService (validate a).0.service_type
      × (is_private (validate a).0.service_type ≡ true → a.domains ≡ [])
      × All IsRoutable a.domains
unfolding validate
validate-accepts a h =
    let t : ServiceType = default_service a.service_type in
    let (no_id, h1) = none_in_append (when (is_empty a.id) id_required) _ h in
    let (no_name, h2) = none_in_append (name_errors a.name) _ h1 in
    let (no_source, h3) = none_in_append (source_errors (validate_source a.source)) _ h2 in
    let (no_port, h4) = none_in_append (port_errors a.port) _ h3 in
    let (no_service, h5) = none_in_append (service_errors t) _ h4 in
    let (no_private, no_domain) =
      none_in_append (when (is_private t && not (is_empty a.domains)) private_domains) _ h5 in
    (
      false_of_when (is_empty a.id) id_required no_id,
      name_is_valid a.name no_name,
      source-ok (validate_source a.source) no_source,
      port_errors-IsPort a.port no_port,
      service-IsService t no_service,
      private_without_domains t a.domains (false_of_when _ private_domains no_private),
      domains-IsRoutable a.domains no_domain,
    )
