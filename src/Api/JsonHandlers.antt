-- ===== src/Api/JsonHandlers.antt =====
-- internal/api/handlers_app.go and handlers_extra.go: the handlers of the JSON API that change
-- something. The texts of their answers are left out.
use liteploy.Common.{none, some}
use liteploy.Common.Text.{codes, text_eq}
use liteploy.Http.{api_fail, api_ok, reply_status, answer}
use liteploy.Application.Service.{create, remove, generate_id, set_env}
use liteploy.Deployment.Service.{enqueue}
use liteploy.Api.{Handler}
use liteploy.Api.AppHandlers.{id_of, with_app, deleted_as, queued_as, env_saved}

-- None of these checks a CSRF token.
unfoldable pub api_create_application : Handler
api_create_application h r session s = elim (h.app_of_json r.body) [
  | none ↦ (s, answer (api_fail 400))
  | some app ↦
      deleted_as s (api_ok 201) (λ _. api_fail 400)
        (create h.disk h.now (record app { id = generate_id s.apps }) s.apps)
]

unfoldable pub api_delete_application : Handler
api_delete_application h r session s =
    deleted_as s (reply_status 204) (λ _. api_fail 500) (remove h.removes (id_of r) s.apps)

unfoldable pub api_deploy_application : Handler
api_deploy_application h r session s = with_app (answer (api_fail 404)) (id_of r) s λ app.
    queued_as s (λ _. api_ok 202) (api_fail 409)
      (enqueue h.disk h.now (id_of r) (codes "api") s.deployments)

unfoldable pub api_update_env : Handler
api_update_env h r session s = with_app (answer (api_fail 404)) (id_of r) s λ app.
    elim (h.env_of_json r.body) [
      | none ↦ (s, answer (api_fail 400))
      | some env ↦ env_saved s (api_ok 200) (api_fail 500) (set_env h.disk (id_of r) env s.envs)
    ]
