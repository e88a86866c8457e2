-- ===== src/Api/AppHandlers.antt =====
-- internal/api/handlers_app.go and handlers_extra.go: the handlers that change applications and
-- deployments.
use liteploy.Common.{not, Option, none, some, ◌++◌, ◌==◌, if◌then◌else◌, Outcome, ok, err}
use liteploy.Common.Text.{Text, codes, text_eq}
use liteploy.Common.Table.{Table, put}
use liteploy.Storage.{Store, StoreError}
use liteploy.Http.{
  Request, Response, Reply, redirect, fail, page, hx_redirect, waits, panics, answer, header,
  path_value, form_value,
}
use liteploy.Application.Types.{Application, RegistryAuth, ResourceLimits}
use liteploy.Application.Service as Applications
use liteploy.Application.Service.{find, create, update, remove, update_status, generate_id, set_env}
use liteploy.Deployment.{Deployment}
use liteploy.Deployment.Service as Deployments
use liteploy.Deployment.Service.{enqueue, enqueue_rollback}
use liteploy.Deployment.Service.Runs.{clear_failed_deployments}
use liteploy.Auth.Users.{UserStore, UserError, change_password}
use liteploy.Api.{Handler, Host, Server, require_csrf}
use liteploy.Api.Forms.{new_application, updated_application}
use liteploy.Api.Environment.{env_of_form}

abbrev pub id_of : Request → Text
id_of r = path_value r (codes "id")

abbrev pub app_page : Text → Reply
app_page id = redirect (codes "/applications/" ++ id)

abbrev pub with_apps : Server → Applications.Service → Server
with_apps s apps = record s { apps = apps }

abbrev pub with_deployments : Server → Deployments.Service → Server
with_deployments s deployments = record s { deployments = deployments }

-- What comes behind `appSvc.Get(id)`, or the answer where there is none.
unfoldable pub with_app :
    Response → Text → Server → (Application → Server × Response) → Server × Response
with_app missing id s next = elim (find id s.apps) [ err _ ↦ (s, missing) | ok app ↦ next app ]

abbrev created_as :
    Host
    → Server
    → Text
    → Applications.Service × Option Applications.ServiceError
    → Server × Response
created_as h s id (apps, none) = (with_apps s apps, answer (app_page id))
created_as h s id (apps, some _) = (with_apps s apps, answer (page (codes "application_new.html")))

unfoldable pub application_create : Handler
application_create h r session s = require_csrf r session s (
    if not r.form_parses
    then (s, answer (fail 400))
    else (let id = generate_id s.apps in
        created_as h s id (create h.disk h.now (new_application h r id) s.apps)))

abbrev kept_auth : Option RegistryAuth → Option RegistryAuth → Option RegistryAuth
kept_auth none new = none
kept_auth (some _) new = new

abbrev kept_limits : Option ResourceLimits → Option ResourceLimits → Option ResourceLimits
kept_limits none new = none
kept_limits (some _) new = new

-- `Get` copies the record, but not what its pointers lead to: the credentials and the limits that are
-- there already are changed in the stored application, too.
unfoldable pub written_through : Application → Application → Application
written_through old new = record old {
  source = record old.source {
    registry_auth = kept_auth old.source.registry_auth new.source.registry_auth;
  };
  resource_limits = kept_limits old.resource_limits new.resource_limits;
}

abbrev pub updated_as :
    Host
    → Server
    → Text
    → Applications.Service × Option Applications.ServiceError
    → Server × Response
updated_as h s id (apps, none) = (
  with_apps s apps,
  answer (redirect (codes "/applications/" ++ id ++ codes "?msg=config_updated")),
)
updated_as h s id (apps, some e) = (
  with_apps s apps,
  answer (redirect (codes "/applications/" ++ id ++ codes "?error=" ++ h.messages.of_app e)),
)

abbrev pub changed_under :
    Text → Application → Application → Applications.Service → Applications.Service
changed_under id old new apps = record apps { apps = put apps.apps id (written_through old new) }

unfoldable pub application_update : Handler
unfolding written_through
application_update h r session s = require_csrf r session s (
    with_app (answer (fail 404)) (id_of r) s λ app.
      if not r.form_parses
      then (s, answer (fail 400))
      else (let new = updated_application h r app in
          updated_as h s (id_of r)
            (update h.disk h.now new (changed_under (id_of r) app new s.apps))))

abbrev pub deleted_as :
    Server
    → Reply
    → (Applications.ServiceError → Reply)
    → Applications.Service × Option Applications.ServiceError
    → Server × Response
deleted_as s done failed (apps, none) = (with_apps s apps, answer done)
deleted_as s done failed (apps, some e) = (with_apps s apps, answer (failed e))

unfoldable pub application_delete : Handler
application_delete h r session s = require_csrf r session s (
    deleted_as s (redirect (codes "/applications")) (λ _. fail 500)
      (remove h.removes (id_of r) s.apps))

abbrev shown : Request → Deployment → Reply
shown r dep =
    if header r (codes "Hx-Request") == codes "true"
    then hx_redirect (codes "/deployments/" ++ dep.id)
    else redirect (codes "/deployments/" ++ dep.id)

abbrev pub queued_as :
    Server
    → (Deployment → Reply)
    → Reply
    → Deployments.Service × Outcome Deployments.ServiceError Deployment
    → Server × Response
queued_as s done failed (deployments, ok dep) = (with_deployments s deployments, answer (done dep))
queued_as s done failed (deployments, err _) = (with_deployments s deployments, answer failed)

unfoldable pub application_deploy : Handler
application_deploy h r session s = require_csrf r session s (
    with_app (answer (fail 404)) (id_of r) s λ app.
      queued_as s (shown r) (fail 409)
        (enqueue h.disk h.now (id_of r) (codes "manual") s.deployments))

abbrev rolled_back :
    Host
    → Server
    → Deployments.Service × Option (Outcome Deployments.ServiceError Deployment)
    → Server × Response
rolled_back h s (deployments, none) = (with_deployments s deployments, answer waits)
rolled_back h s (deployments, some (ok _)) =
    (with_deployments s deployments, answer (redirect (codes "/deployments")))
rolled_back h s (deployments, some (err e)) = (
  with_deployments s deployments,
  answer (redirect (codes "/deployments?error=" ++ h.messages.of_deployment e)),
)

unfoldable pub application_rollback : Handler
application_rollback h r session s = require_csrf r session s (
    rolled_back h s (
      enqueue_rollback h.disk h.now (id_of r) (path_value r (codes "depID")) session.username
        s.deployments))

unfoldable pub clear_failed : Handler
clear_failed h r session s = require_csrf r session s (
  with_deployments s (clear_failed_deployments (id_of r) s.deployments).0,
  answer (app_page (id_of r)),
)

abbrev changed_as : Server → UserStore × Option UserError → Server × Response
changed_as s (users, none) =
    (record s { users = users }, answer (redirect (codes "/settings?success=password_changed")))
changed_as s (users, some _) =
    (record s { users = users }, answer (redirect (codes "/settings?error=invalid_password")))

unfoldable pub settings_change_password : Handler
settings_change_password h r session s = require_csrf r session s (
    if not r.form_parses
    then (s, answer (fail 400))
    else if not (form_value r (codes "new_password") == form_value r (codes "confirm_password"))
    then (s, answer (redirect (codes "/settings?error=passwords_do_not_match")))
    else changed_as s (
        change_password h.bcrypt h.disk h.now session.username (form_value r (codes "old_password"))
          (form_value r (codes "new_password")) s.users))

abbrev pub env_saved :
    Server → Reply → Reply → Store (Table Text) × Option StoreError → Server × Response
env_saved s done failed (envs, none) = (record s { envs = envs }, answer done)
env_saved s done failed (envs, some _) = (record s { envs = envs }, answer failed)

unfoldable pub application_update_env : Handler
application_update_env h r session s = require_csrf r session s (
    with_app (answer (fail 404)) (id_of r) s λ app.
      if not r.form_parses then (s, answer (fail 400)) else elim (env_of_form r) [
        | none ↦ (s, answer panics)
        | some env ↦
            env_saved s (redirect (codes "/applications/" ++ id_of r ++ codes "?msg=env_saved"))
              (fail 500) (set_env h.disk (id_of r) env s.envs)
      ])
