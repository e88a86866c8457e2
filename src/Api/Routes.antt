-- ===== src/Api/Routes.antt =====
-- internal/api/server.go: the routes whose handlers change something, with the checks in front of
-- them. The webhook's route is in Webhook.
use liteploy.Http.{Request, Response}
use liteploy.Api.{
  Handler, Host, Server, authenticated, api_authenticated, login_submit, logout, setup_submit,
}
use liteploy.Api.DomainHandlers.{application_add_domain, application_delete_domain}
use liteploy.Api.SettingsHandlers.{
  setup_domain_submit, setup_domain_dns_page, setup_domain_verify, setup_domain_skip,
  settings_update_primary_domain, settings_verify_domain, settings_toggle_https,
}
use liteploy.Api.AppHandlers.{
  application_create, application_update, application_delete, application_deploy,
  application_rollback, clear_failed, settings_change_password, application_update_env,
}
use liteploy.Api.ContainerHandlers.{
  application_start, application_stop, application_restart, system_prune,
}
use liteploy.Api.JsonHandlers.{
  api_create_application, api_delete_application, api_deploy_application, api_update_env,
}

-- The routes of the forms, behind `authenticated`.
pub data Form : Type 0 where
  create_form update_form delete_form deploy_form start_form stop_form restart_form : Form
  env_form rollback_form clear_failed_form password_form : Form
  add_domain_form delete_domain_form setup_domain_form setup_verify_form setup_skip_form : Form
  primary_domain_form verify_domain_form https_form prune_form : Form

-- The routes of the JSON API, behind `apiAuthenticated`.
pub data Call : Type 0 where
  create_call delete_call deploy_call env_call : Call

pub data Route : Type 0 where
  login_route logout_route setup_route dns_page_route : Route
  form_route : Form → Route
  call_route : Call → Route

unfoldable pub form_handler : Form → Handler
form_handler create_form = application_create
form_handler update_form = application_update
form_handler delete_form = application_delete
form_handler deploy_form = application_deploy
form_handler start_form = application_start
form_handler stop_form = application_stop
form_handler restart_form = application_restart
form_handler env_form = application_update_env
form_handler rollback_form = application_rollback
form_handler clear_failed_form = clear_failed
form_handler password_form = settings_change_password
form_handler add_domain_form = application_add_domain
form_handler delete_domain_form = application_delete_domain
form_handler setup_domain_form = setup_domain_submit
form_handler setup_verify_form = setup_domain_verify
form_handler setup_skip_form = setup_domain_skip
form_handler primary_domain_form = settings_update_primary_domain
form_handler verify_domain_form = settings_verify_domain
form_handler https_form = settings_toggle_https
form_handler prune_form = system_prune

unfoldable pub call_handler : Call → Handler
call_handler create_call = api_create_application
call_handler delete_call = api_delete_application
call_handler deploy_call = api_deploy_application
call_handler env_call = api_update_env

unfoldable pub serve : Route → Host → Request → Server → Server × Response
unfolding form_handler call_handler
serve login_route = login_submit
serve logout_route = λ _ _ s. logout s
serve setup_route = setup_submit
serve dns_page_route = authenticated setup_domain_dns_page
serve (form_route f) = authenticated (form_handler f)
serve (call_route c) = api_authenticated (call_handler c)
