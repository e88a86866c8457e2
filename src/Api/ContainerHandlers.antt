-- ===== src/Api/ContainerHandlers.antt =====
-- internal/api/handlers_app.go: the handlers that call Docker.
use liteploy.Common.{not, none, some, ◌∷◌, ◌++◌, if◌then◌else◌, is_empty}
use liteploy.Common.Text.{codes, text_eq}
use liteploy.Http.{Request, Response, redirect, fail, panics, answer}
use liteploy.Application.Types.{Application, Status, running, stopped}
use liteploy.Application.Service.{update_status}
use liteploy.Api.{Handler, Host, Server, DockerCall, require_csrf}
use liteploy.Api.AppHandlers.{id_of, app_page, with_apps, with_app}

-- `_ = s.appSvc.UpdateStatus(app.ID, status, app.ContainerID)`
unfoldable pub mark : Host → Status → Application → Server → Server
mark h status app s =
    with_apps s (update_status h.disk h.now app.id status app.container_id s.apps).0

abbrev called : DockerCall → Server → Server
called c s = record s { docker = c ∷ s.docker }

-- The checks that starting, stopping and restarting share.
unfoldable pub on_container :
    Host → Request → Server → (Application → Server × Response) → Server × Response
unfolding with_app
on_container h r s next = with_app (answer (fail 404)) (id_of r) s λ app.
    if not h.has_docker
    then (s, answer (fail 503))
    else if is_empty app.container_id
    then (s, answer (fail 400))
    else next app

unfoldable pub application_start : Handler
unfolding on_container mark
application_start h r session s = require_csrf r session s (
    on_container h r s λ app.
      let s' = called (DockerCall.started app.container_id) s in
      if not (h.starts app.container_id)
      then (s', answer (fail 500))
      else (mark h running app s', answer (app_page (id_of r))))

unfoldable pub application_stop : Handler
unfolding on_container mark
application_stop h r session s = require_csrf r session s (
    on_container h r s λ app.
      let s' = called (DockerCall.stopped app.container_id 10) s in
      if not (h.stops app.container_id)
      then (s', answer (fail 500))
      else (mark h stopped app s', answer (app_page (id_of r))))

-- An error of the stop is ignored.
unfoldable pub application_restart : Handler
unfolding on_container mark
application_restart h r session s = require_csrf r session s (
    on_container h r s λ app.
      let s' =
        called (DockerCall.started app.container_id)
          (called (DockerCall.stopped app.container_id 5) s) in
      if not (h.starts app.container_id)
      then (s', answer (fail 500))
      else (mark h running app s', answer (app_page (id_of r))))

-- The client of Docker is not looked for here.
unfoldable pub system_prune : Handler
system_prune h r session s = require_csrf r session s (
    if not h.has_docker then (s, answer panics) else (
      called DockerCall.pruned s,
      answer (
          redirect (elim h.prune_error [
            | some e ↦ codes "/settings?error=" ++ e
            | none ↦ codes "/settings?success=system_pruned"
          ])),
    ))
