-- ===== src/Proxy.antt =====
-- internal/proxy/proxy.go: the routes, their checks, and the manager that posts a whole configuration
-- to Caddy. Caddy's admin API is a parameter: the status code with which it answers a configuration,
-- or `none` where the request fails. `posted` lists the bodies that were sent, in order.
pub mod Config
pub mod Conflicts
pub mod Applying
pub mod Ordering
mod Tests
use liteploy.Common.{
  ℕ, Bool, true, false, ◌&&◌, ◌||◌, not, Option, none, some, List, [], ◌∷◌, ◌++◌, ◌==◌, nat_eq, ltb,
  leb, if◌then◌else◌, is_empty, all, Outcome, ok, err, fail_if, ◌>>=◌, ◌>>◌,
}
use liteploy.Common.Text.{Text, codes, text_eq, trim_space, includes, before, from_byte}
use liteploy.Common.Table.{Table, get, put, delete}
use liteploy.Common.Decimal.{is_digit, scan}
use liteploy.Application.Domain.{DomainError, HostPath, parse_domain_route}

pub record Route : Type 0 where
  pub app_id : Text
  pub domains : List Text
  pub upstream : Text

pub data UpstreamError : Type 0 where
  upstream_empty bad_format host_empty loopback bad_port : UpstreamError

pub data RouteError : Type 0 where
  app_id_required no_domains : RouteError
  bad_upstream : UpstreamError → RouteError
  bad_domain : Text → DomainError → RouteError
  empty_host : Text → RouteError
  conflict : HostPath → Text → Text → RouteError

-- The part behind the colon, in `[host]:port` behind the bracket.
unfoldable pub port_of : Text → Option Text
port_of [] = none
port_of (c ∷ port) =
    if c == b':' && not (includes port (codes ":") || includes port (codes "]"))
    then some port
    else none

unfoldable pub bracketed : Text → Text → Option (Text × Text)
bracketed host [] = none
bracketed host (_ ∷ rest) =
    if includes host (codes "[") || includes rest (codes "[")
    then none
    else elim (port_of rest) [ none ↦ none | some port ↦ some (host, port) ]

-- `net.SplitHostPort`
unfoldable pub split_host_port : Text → Option (Text × Text)
unfolding bracketed port_of
split_host_port [] = none
split_host_port (c ∷ t) =
    if c == b'['
    then bracketed (before b']' t) (from_byte b']' t)
    else if includes (c ∷ t) (codes "[") || includes (c ∷ t) (codes "]")
    then none
    else elim (port_of (from_byte b':' (c ∷ t))) [
      | none ↦ none
      | some port ↦ some (before b':' (c ∷ t), port)
    ]

without_sign : Text → Text
without_sign [] = []
without_sign (c ∷ t) = if c == b'+' then t else c ∷ t

-- `strconv.Atoi` gives a number from 1 to 65535.
unfoldable pub is_port : Text → Bool
unfolding without_sign
is_port t =
    let digits = without_sign t in
    not (is_empty digits) && all is_digit digits && leb 1 (scan digits) && leb (scan digits) 65535

unfoldable pub validate_upstream : Text → Outcome UpstreamError (Unit {0})
unfolding split_host_port is_port
validate_upstream raw =
    let upstream = trim_space raw in
    if is_empty upstream then err upstream_empty else elim (split_host_port upstream) [
      | none ↦ err bad_format
      | some (host, port) ↦
          if is_empty host
          then err host_empty
          else if host == codes "localhost" || host == codes "127.0.0.1" || host == codes "0.0.0.0"
          then err loopback
          else if is_port port
          then ok tt
          else err bad_port
    ]

unfoldable pub upstream_checked : Outcome UpstreamError (Unit {0}) → Outcome RouteError (Unit {0})
upstream_checked (err e) = err (bad_upstream e)
upstream_checked (ok _) = ok tt

unfoldable pub entry_checked : Text → Outcome DomainError HostPath → Outcome RouteError (Unit {0})
entry_checked d (err e) = err (bad_domain d e)
entry_checked d (ok r) = fail_if (is_empty r.host) (empty_host d)

-- The loop of `ValidateRoute` over the domains.
unfoldable pub validate_entries : List Text → Outcome RouteError (Unit {0})
unfolding entry_checked
validate_entries [] = ok tt
validate_entries (d ∷ ds) = entry_checked d (parse_domain_route d) >> validate_entries ds

unfoldable pub validate_route : Route → Outcome RouteError (Unit {0})
unfolding upstream_checked validate_entries
validate_route r = do
  fail_if (is_empty r.app_id) app_id_required
  fail_if (is_empty r.domains) no_domains
  upstream_checked (validate_upstream r.upstream)
  validate_entries r.domains

abbrev pub host_path_beq : HostPath → HostPath → Bool
host_path_beq a b = a.host == b.host && a.path == b.path

-- The map `seen`. A later entry hides an earlier one with the same key.
abbrev pub Seen : Type 0
Seen = List (HostPath × Text)

unfoldable pub owner : Seen → HostPath → Option Text
owner [] k = none
owner ((j, app) ∷ seen) k = if host_path_beq j k then some app else owner seen k

-- One turn of the inner loop of `ValidateRoutes`.
unfoldable pub claim : Text → HostPath → Seen → Outcome RouteError Seen
unfolding owner
claim app k seen = elim (owner seen k) [
  | none ↦ ok ((k, app) ∷ seen)
  | some other ↦ if other == app then ok ((k, app) ∷ seen) else err (conflict k other app)
]

unfoldable pub claim_parsed :
    Text → Text → Outcome DomainError HostPath → Seen → Outcome RouteError Seen
claim_parsed app d (err e) seen = err (bad_domain d e)
claim_parsed app d (ok k) seen = claim app k seen

unfoldable pub claim_domains : Text → List Text → Seen → Outcome RouteError Seen
unfolding claim_parsed
claim_domains app [] seen = ok seen
claim_domains app (d ∷ ds) seen =
    claim_parsed app d (parse_domain_route d) seen >>= claim_domains app ds

unfoldable pub claim_routes : Table Route → Seen → Outcome RouteError Seen
unfolding claim_domains
claim_routes [] seen = ok seen
claim_routes ((app, r) ∷ t) seen =
    validate_route r >> (claim_domains app r.domains seen >>= claim_routes t)

unfoldable pub validate_routes : Table Route → Outcome RouteError (Unit {0})
unfolding claim_routes
validate_routes t = do _ ← claim_routes t []; ok tt
