-- ===== src/Proxy/Config.antt =====
-- internal/proxy/proxy.go: `buildCaddyConfig`. A configuration keeps what differs between two of
-- them: the admin address, the listeners, and of each route its match, its handler and its end.
use liteploy.Common.{
  Bool, true, ◌&&◌, ◌||◌, not, List, [], ◌∷◌, ◌++◌, map, ◌==◌, nat_eq, ltb, if◌then◌else◌, length,
  is_empty, keep_if, Outcome, ok, err,
}
use liteploy.Common.Text.{Text, codes, text_eq, text_lt, trim_suffix}
use liteploy.Common.Table.{Table}
use liteploy.Common.Sorting.{sort}
use liteploy.Application.Domain.{DomainError, HostPath, parse_domain_route, any_path}
use liteploy.Proxy.{Route}

-- caddyRouteItem
pub record Item : Type 0 where
  pub app_id : Text
  pub host : Text
  pub path : Text
  pub upstream : Text

pub record CaddyRoute : Type 0 where
  pub hosts : List Text
  pub paths : List Text  -- no path key if empty
  pub handler : Text
  pub dial : Text
  pub terminal : Bool

pub record Config : Type 0 where
  pub admin_listen : Text
  pub listen : List Text
  pub routes : List CaddyRoute

item_of : Text → Text → Outcome DomainError HostPath → List Item
item_of app upstream (err _) = []
item_of app upstream (ok r) =
    if is_empty r.host
    then []
    else record { app_id = app; host = r.host; path = r.path; upstream = upstream } ∷ []

-- The items of one route, and of all routes.
unfoldable pub items_of : Text → Text → List Text → List Item
unfolding item_of
items_of app upstream [] = []
items_of app upstream (d ∷ ds) =
    item_of app upstream (parse_domain_route d) ++ items_of app upstream ds

unfoldable pub items : Table Route → List Item
unfolding items_of
items [] = []
items ((app, r) ∷ t) =
    let rest = items t in
    if is_empty r.domains || is_empty r.upstream
    then rest
    else items_of app r.upstream r.domains ++ rest

abbrev pub is_catch_all : Item → Bool
is_catch_all i = i.path == any_path || is_empty i.path

-- By a key first, and by `less` where the keys are equal.
abbrev pub by_text : (Item → Text) → (Item → Item → Bool) → Item → Item → Bool
by_text key less a b = if not (key a == key b) then text_lt (key a) (key b) else less a b

abbrev pub by_app : Item → Item → Bool
by_app a b = text_lt a.app_id b.app_id

-- The order of the specific routes: the longest path first, then host, path and application.
unfoldable pub more_specific : Item → Item → Bool
more_specific a b =
    if not (length a.path == length b.path)
    then ltb (length b.path) (length a.path)
    else by_text (λ i. i.host) (by_text (λ i. i.path) by_app) a b

-- The order of the catch-all routes: host, then application.
unfoldable pub by_host : Item → Item → Bool
by_host a b = by_text (λ i. i.host) by_app a b

unfoldable pub specific_items : Table Route → List Item
unfolding items sort more_specific
specific_items t = sort more_specific (keep_if (λ i. not (is_catch_all i)) (items t))

unfoldable pub catch_all_items : Table Route → List Item
unfolding items sort by_host
catch_all_items t = sort by_host (keep_if is_catch_all (items t))

abbrev pub proxied : List Text → List Text → Text → CaddyRoute
proxied hosts paths dial = record {
  hosts = hosts;
  paths = paths;
  handler = codes "reverse_proxy";
  dial = dial;
  terminal = true;
}

-- The path, and without its "/*" too if anything but "/" is left.
unfoldable pub path_patterns : Text → List Text
path_patterns path =
    let prefix = trim_suffix path any_path in
    if not (is_empty prefix) && not (prefix == codes "/") then path ∷ prefix ∷ [] else path ∷ []

unfoldable pub specific_route : Item → CaddyRoute
unfolding path_patterns
specific_route i = proxied (i.host ∷ []) (path_patterns i.path) i.upstream

unfoldable pub catch_all_route : Item → CaddyRoute
catch_all_route i = proxied (i.host ∷ []) [] i.upstream

unfoldable pub dashboard_routes : Text → Text → List CaddyRoute
dashboard_routes domain target =
    if not (is_empty domain) && not (is_empty target)
    then proxied (domain ∷ []) [] target ∷ []
    else []

unfoldable pub build_caddy_config : Text → Text → Table Route → Config
unfolding specific_items catch_all_items specific_route catch_all_route dashboard_routes
build_caddy_config domain target t = record {
  admin_listen = codes "0.0.0.0:2019";
  listen = codes ":80" ∷ codes ":443" ∷ [];
  routes =
      dashboard_routes domain target
      ++ (map specific_route (specific_items t) ++ map catch_all_route (catch_all_items t));
}
