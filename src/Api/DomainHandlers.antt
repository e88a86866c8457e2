-- ===== src/Api/DomainHandlers.antt =====
-- internal/api/handlers_extra.go: the handlers that give an application a domain and take it away,
-- with the route that follows.
use liteploy.Common.{
  ◌&&◌, not, Option, none, some, [], ◌∷◌, ◌++◌, ◌==◌, if◌then◌else◌, is_empty, any, keep_if, ltb,
  Outcome, ok, err,
}
use liteploy.Common.Int.{pos, negsuc}
use liteploy.Common.Decimal.{print}
use liteploy.Common.Text.{Text, codes, text_eq, trim_space, to_lower}
use liteploy.Http.{Request, Response, Reply, redirect, fail, answer, form_value}
use liteploy.Application.Types.{Application, is_private}
use liteploy.Application.Domain.{
  DomainError, HostPath, parse_domain_route, normalize_path, any_path,
}
use liteploy.Application.Service as Applications
use liteploy.Application.Service.{update}
use liteploy.Proxy.Applying.{upsert_route, remove_route}
use liteploy.System.Recovery.{is_running}
use liteploy.Api.{Handler, Host, Server, require_csrf}
use liteploy.Api.AppHandlers.{id_of, with_app, with_apps}

-- `resolveAppUpstream`: empty without a port.
unfoldable pub upstream_of : Application → Text
upstream_of app = elim app.port [
  | pos n ↦ if ltb 0 n then codes "liteploy-app-" ++ app.id ++ b':' ∷ print n else []
  | negsuc _ ↦ []
]

abbrev pub host_of : Outcome DomainError HostPath → Text
host_of (ok p) = p.host
host_of (err _) = []

abbrev path_of : Outcome DomainError HostPath → Text
path_of (ok p) = p.path
path_of (err _) = []

-- The entry that a domain and a path make.
unfoldable pub entry_of : Text → Text → Text
entry_of domain path =
    let parsed = parse_domain_route domain in
    if not (is_empty path) && not (path == any_path) && not (path == codes "/")
    then (if is_empty (host_of parsed) then domain else host_of parsed) ++ normalize_path path
    else if not (is_empty (path_of parsed)) && not (path_of parsed == any_path)
    then host_of parsed ++ path_of parsed
    else host_of parsed

-- The route of an application with a port that runs. An error of the proxy is logged only.
unfoldable pub routed : Host → Application → Server → Server
unfolding upstream_of
routed h app s =
    if not (is_empty (upstream_of app)) && is_running app.status
    then record s {
      proxy =
          (upsert_route h.caddy
            (record { app_id = app.id; domains = app.domains; upstream = upstream_of app })
            s.proxy).0;
    }
    else s

abbrev with_message : Request → Text → Reply
with_message r message = redirect (codes "/applications/" ++ id_of r ++ message)

abbrev pub domain_added :
    Host
    → Request
    → Application
    → Server
    → Applications.Service × Option Applications.ServiceError
    → Server × Response
domain_added h r app s (apps, some e) =
    (with_apps s apps, answer (with_message r (codes "?error=" ++ h.messages.of_app e)))
domain_added h r app s (apps, none) =
    (routed h app (with_apps s apps), answer (with_message r (codes "?msg=domain_added")))

unfoldable pub application_add_domain : Handler
unfolding entry_of routed
application_add_domain h r session s = require_csrf r session s (
    with_app (answer (fail 404)) (id_of r) s λ app.
      let domain = trim_space (to_lower (form_value r (codes "domain"))) in
      let entry = entry_of domain (trim_space (form_value r (codes "path"))) in
      let new = record app { domains = app.domains ++ entry ∷ [] } in
      if not r.form_parses
      then (s, answer (fail 400))
      else if is_private app.service_type
      then (s, answer (with_message r (codes "?error=Public+domains+cannot+be+assigned")))
      else if is_empty domain
      then (s, answer (with_message r (codes "?error=domain_empty")))
      else if any (λ d. d == entry) app.domains
      then (s, answer (with_message r (codes "?msg=domain_exists")))
      else domain_added h r new s (update h.disk h.now new s.apps))

-- Without a domain the route goes, too. With some left it follows if the application runs.
unfoldable pub unrouted : Host → Application → Server → Server
unfolding routed
unrouted h app s =
    if is_empty app.domains
    then record s { proxy = (remove_route h.caddy app.id s.proxy).0 }
    else routed h app s

abbrev pub domain_deleted :
    Host
    → Request
    → Application
    → Server
    → Applications.Service × Option Applications.ServiceError
    → Server × Response
domain_deleted h r app s (apps, some e) =
    (with_apps s apps, answer (with_message r (codes "?error=" ++ h.messages.of_app e)))
domain_deleted h r app s (apps, none) =
    (unrouted h app (with_apps s apps), answer (with_message r (codes "?msg=domain_deleted")))

unfoldable pub application_delete_domain : Handler
unfolding unrouted
application_delete_domain h r session s = require_csrf r session s (
    with_app (answer (fail 404)) (id_of r) s λ app.
      let gone = trim_space (form_value r (codes "domain")) in
      let new = record app { domains = keep_if (λ d. not (d == gone)) app.domains } in
      if not r.form_parses
      then (s, answer (fail 400))
      else domain_deleted h r new s (update h.disk h.now new s.apps))
