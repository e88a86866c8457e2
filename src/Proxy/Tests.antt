-- ===== src/Proxy/Tests.antt =====
-- Tests and witnesses for the proxy.
use mathlib.Core.List.{Perm}
use liteploy.Common.{
  ◌≡◌, ◌⊎◌, refl, true, false, Option, none, some, [], ◌∷◌, ◌++◌, map, All, ok, err,
}
use liteploy.Common.Text.{
  Text, codes, text_beq, trim_space, to_lower, has_prefix, has_suffix, trim_suffix, trim_right,
  before, from_byte, split, includes, strip_suffix, strip_prefix, first_part,
}
use liteploy.Common.Table.{Table, put}
use liteploy.Common.Decimal.{scan}
use liteploy.Application.Domain.{HostPath, parse_domain_route}
use liteploy.Proxy.{
  Route, loopback, validate_upstream, validate_route, validate_routes, split_host_port, is_port,
  claim,
}
use liteploy.Proxy.Config.{
  items, is_catch_all, specific_items, catch_all_items, specific_route, catch_all_route,
  dashboard_routes, build_caddy_config,
}
use liteploy.Proxy.Applying.{
  Manager, Caddy, IsAnswered, IsInvalid, IsRestored, upsert_route, upsert_route_result,
}
use liteploy.Proxy.Conflicts.{validate_routes-owner}
use liteploy.Proxy.Ordering.{IsLongestFirst, build_caddy_config-order}

abbrev shop : Route
shop = record {
  app_id = codes "shop";
  domains = codes "a.io" ∷ codes "a.io/api" ∷ [];
  upstream = codes "liteploy-app-shop:80";
}

abbrev blog : Route
blog = record {
  app_id = codes "blog";
  domains = codes "a.io/blog/*" ∷ [];
  upstream = codes "liteploy-app-blog:8080";
}

abbrev table : Table Route
table = (codes "shop", shop) ∷ (codes "blog", blog) ∷ []

abbrev manager : Manager
manager = record {
  routes = table;
  dashboard_domain = [];
  dashboard_target = [];
  last_known_good = none;
}

abbrev refusing : Caddy
refusing _ = some 500

loopback_is_refused : validate_upstream (codes "localhost:80") ≡ err loopback
unfolding validate_upstream trim_space split_host_port includes has_prefix strip_prefix before
    from_byte text_beq
loopback_is_refused = refl

table_is_valid : validate_routes table ≡ ok tt
unfolding validate_routes validate_upstream is_port scan parse_domain_route text_beq trim_space
    to_lower has_prefix has_suffix trim_suffix trim_right before from_byte split includes
    strip_suffix strip_prefix first_part validate_route claim
table_is_valid = refl

validate_routes-owner_example :
    All (λ e. validate_route e.1 ≡ ok tt) table
    × ((owner_of : HostPath → Option Text) × All
          (λ e.
            All
              (λ d. (k : HostPath) → parse_domain_route d ≡ ok k → owner_of k ≡ some e.0)
              e.1.domains)
          table)
validate_routes-owner_example = validate_routes-owner table table_is_valid

upsert_route_result_example :
    (IsInvalid blog manager × IsRestored manager (upsert_route refusing blog manager))
    ⊎ ((validate_route blog ≡ ok tt)
        × (validate_routes (put table (codes "blog") blog) ≡ ok tt)
        × ((upsert_route refusing blog manager).0.routes ≡ put table (codes "blog") blog)
        × IsAnswered refusing
            (record manager { routes = put table (codes "blog") blog })
            (upsert_route refusing blog manager))
upsert_route_result_example = upsert_route_result refusing blog manager

build_caddy_config-order_example :
    ((build_caddy_config [] [] table).routes
      ≡ dashboard_routes [] []
        ++ (map specific_route (specific_items table)
            ++ map catch_all_route (catch_all_items table)))
    × IsLongestFirst (specific_items table)
    × All (λ i. is_catch_all i ≡ false) (specific_items table)
    × All (λ i. is_catch_all i ≡ true) (catch_all_items table)
    × Perm (specific_items table ++ catch_all_items table) (items table)
build_caddy_config-order_example = build_caddy_config-order [] [] table
