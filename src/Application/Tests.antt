-- ===== src/Application/Tests.antt =====
-- Tests and witnesses for the applications.
use liteploy.Common.{
  ◌++◌, false, ◌≡◌, ◌≢◌, ◌⊎◌, refl, ok, err, true, false, none, [], ◌∷◌, All, is_empty,
}
use liteploy.Common.{◌+◌, ◌^◌, ◌<◌, arith}
use liteploy.Common.Table.{get, put}
use liteploy.Common.Decimal.{print, print_padded, scan, scan_after}
use liteploy.Application.Service
use liteploy.Application.Service.{max_app_number, generate_id}
use liteploy.Application.Service.Fresh.{generate_id_fresh}
use liteploy.Storage.{Disk}
use liteploy.Application.Service.{create, update}
use liteploy.Application.Service.Names.{IsNamed, one-IsNamed}
use liteploy.Application.Service.Naming.{create_update-IsNamed}
use liteploy.Common.Text.{
  codes, text_beq, includes_any, trim_space, to_lower, has_prefix, has_suffix, trim_suffix,
  trim_right, before, from_byte, split, includes, strip_suffix, strip_prefix, first_part,
}
use liteploy.Application.Domain.{parse_domain_route, validate_domain}
use liteploy.Application.Domain.{domain_empty, HostPath}
use liteploy.Application.Domain.Host.{IsParsed, parse_domain_route_result}
use liteploy.Application.Types.{is_private}
use liteploy.Application.Samples.{shop}
use liteploy.Application.Validation.{is_app_name, validate_source, validate}
use liteploy.Application.Validation.Accepted.{IsPort, IsService, IsRoutable, validate-accepts}

parse_full_url :
    parse_domain_route (codes " HTTPS://Example.com:80/api/ ")
    ≡ ok (record { host = codes "example.com"; path = codes "/api/*" })
unfolding parse_domain_route text_beq trim_space to_lower has_prefix has_suffix trim_suffix
    trim_right before from_byte split includes strip_suffix strip_prefix first_part
parse_full_url = refl

valid_name : validate_domain (codes "a-b.example.com") ≡ ok tt
unfolding validate_domain split
valid_name = refl

parse_domain_route_result_example :
    ((trim_space (codes "a.io/x") ≡ []) × (parse_domain_route (codes "a.io/x") ≡ err domain_empty))
    ⊎ ((trim_space (codes "a.io/x") ≢ [])
        × ((r : HostPath) × (parse_domain_route (codes "a.io/x") ≡ ok r) × IsParsed r))
parse_domain_route_result_example = parse_domain_route_result (codes "a.io/x")

shop_is_accepted : (validate shop).1 ≡ []
unfolding validate is_app_name validate_source includes_any parse_domain_route trim_space
    validate_domain includes to_lower strip_prefix before split
shop_is_accepted = refl

validate-accepts_example :
    (is_empty shop.id ≡ false)
    × (is_app_name shop.name ≡ true)
    × (validate_source shop.source ≡ ok tt)
    × IsPort shop.port
    × IsService (validate shop).0.service_type
    × (is_private (validate shop).0.service_type ≡ true → shop.domains ≡ [])
    × All IsRoutable shop.domains
validate-accepts_example = validate-accepts shop shop_is_accepted

abbrev service : Service.Service
service = record {
  store = record { root = codes "/d"; files = [] };
  apps = (codes "app-007", shop) ∷ [];
}

few_apps : max_app_number service.apps 0 + 1 < 2 ^ 63
unfolding max_app_number scan_after scan strip_prefix
few_apps = omega arith

next_id : generate_id service ≡ codes "app-008"
unfolding generate_id max_app_number scan_after scan strip_prefix print print_padded
next_id = refl

generate_id_fresh_example : get service.apps (generate_id service) ≡ none
generate_id_fresh_example = generate_id_fresh service few_apps

abbrev working : Disk
working = record { mkdir_fails = λ _. false; fault = λ _. none; temp_name = λ p. p ++ codes ".tmp" }

abbrev small : Service.Service
small = record { store = record { root = codes "/d"; files = [] }; apps = put [] shop.id shop }

create_update-IsNamed_example :
    IsNamed (create working 3 shop small).0.apps × IsNamed (update working 3 shop small).0.apps
create_update-IsNamed_example = create_update-IsNamed working 3 shop small (one-IsNamed shop)
