-- ===== src/Api/SettingsHandlers.antt =====
-- internal/api/handlers_domain.go: the handlers of the server's own domain.
use liteploy.Common.{
  true, false, not, Option, none, some, [], ◌++◌, ◌==◌, if◌then◌else◌, is_empty, ok, err,
}
use liteploy.Common.Text.{Text, codes, text_eq, trim_space, has_prefix, includes, split, first_part}
use liteploy.Http.{Request, Response, Reply, redirect, page, answer, form_value}
use liteploy.Proxy.Applying.{Applied, set_dashboard_route, remove_dashboard_route}
use liteploy.System.Settings.{
  SystemSettings, SettingsService, SettingsError, bad_domain, save, skip_setup, set_primary_domain,
  sanitize_host, validate_domain,
}
use liteploy.System.Dns.{DnsResult, DnsError, wrong_address, verify_domain_dns}
use liteploy.Api.{Handler, Host, Server, require_csrf}

abbrev to_page : Text → Reply
to_page path = redirect path

abbrev with_settings : Server → SettingsService → Server
with_settings s settings = record s { settings = settings }

abbrev with_error : Host → Text → SettingsError → Reply
with_error h path e = redirect (path ++ codes "?error=" ++ h.messages.of_settings e)

abbrev pub target_of : Host → Text
target_of h =
    if has_prefix h.http_addr (codes ":") then codes "127.0.0.1" ++ h.http_addr else h.http_addr

-- `r.Host` without its port.
abbrev host_of_request : Request → Text
host_of_request r = if includes r.host (codes ":") then first_part (split b':' r.host) else r.host

abbrev saved_settings : Host → SystemSettings → Server → Server
saved_settings h d s = with_settings s (save h.disk h.now d s.settings).0

abbrev routed_to : Host → Text → Server → Server
routed_to h domain s = record s {
  proxy = (set_dashboard_route h.caddy domain (target_of h) s.proxy).0;
}

abbrev unrouted : Host → Server → Server
unrouted h s = record s { proxy = (remove_dashboard_route h.caddy s.proxy).0 }

abbrev set_up_domain : Host → Server → SettingsService × Option SettingsError → Server × Response
set_up_domain h s (settings, some e) =
    (with_settings s settings, answer (with_error h (codes "/setup/domain") e))
set_up_domain h s (settings, none) =
    (with_settings s settings, answer (to_page (codes "/setup/domain/dns")))

unfoldable pub setup_domain_submit : Handler
setup_domain_submit h r session s = require_csrf r session s (
    if not r.form_parses
    then (s, answer (to_page (codes "/setup/domain?error=invalid_form")))
    else (let domain =
          sanitize_host h.hostname_of (trim_space (form_value r (codes "primary_domain"))) in
        elim (validate_domain domain) [
          | some e ↦ (s, answer (with_error h (codes "/setup/domain") (bad_domain e)))
          | none ↦ set_up_domain h s (set_primary_domain h.disk h.now domain s.settings)
        ]))

abbrev first_given : Text → Text → Text
first_given a b = if is_empty a then b else a

-- A page that is asked for with GET: it saves the server's address where there is none.
unfoldable pub setup_domain_dns_page : Handler
setup_domain_dns_page h r session s =
    let d = s.settings.settings in
    if is_empty d.primary_domain
    then (s, answer (to_page (codes "/setup/domain")))
    else if is_empty d.server_ip
    then (
      saved_settings h (record d { server_ip = first_given h.public_ip (host_of_request r) }) s,
      answer (page (codes "setup_domain.html")),
    )
    else (s, answer (page (codes "setup_domain.html")))

abbrev error_of : Option DnsError → DnsError
error_of none = wrong_address
error_of (some e) = e

abbrev verified_as : Host → SystemSettings → Text → Server → DnsResult → Server × Response
verified_as h d ip s result =
    if not result.verified
    then (
      s,
      answer (
          redirect (codes "/setup/domain/dns?error=" ++ h.messages.of_dns (error_of result.error))),
    )
    else (let new = record d { dns_verified = true; https_enabled = true; server_ip = ip } in
        (
          routed_to h d.dashboard_domain (saved_settings h new s),
          answer (to_page (codes "/setup/domain/success")),
        ))

unfoldable pub setup_domain_verify : Handler
setup_domain_verify h r session s = require_csrf r session s (
    let d = s.settings.settings in
    let ip = first_given d.server_ip h.public_ip in
    if is_empty d.primary_domain
    then (s, answer (to_page (codes "/setup/domain")))
    else elim (verify_domain_dns h.lookup d.primary_domain ip) [
      | err e ↦ (s, answer (with_error h (codes "/setup/domain/dns") (bad_domain e)))
      | ok result ↦ verified_as h d ip s result
    ])

unfoldable pub setup_domain_skip : Handler
setup_domain_skip h r session s =
    require_csrf r session s
      (with_settings s (skip_setup h.disk h.now s.settings).0, answer (to_page (codes "/")))

-- Behind a change of the domain that is saved. If the proxy refuses, the old domain comes back.
abbrev moved_route : Host → Text → Text → Server → Applied → Server × Response
moved_route h old_domain old_dashboard s (proxy, _, none) =
    (record s { proxy = proxy }, answer (to_page (codes "/settings?msg=domain_updated")))
moved_route h old_domain old_dashboard s (proxy, _, some e) =
    let back = with_settings s (set_primary_domain h.disk h.now old_domain s.settings).0 in
    (
      routed_to h old_dashboard (record back { proxy = proxy }),
      answer (to_page (codes "/settings?error=caddy_route_failed")),
    )

abbrev moved_domain :
    Host
    → Text
    → SystemSettings
    → Server
    → SettingsService × Option SettingsError
    → Server × Response
moved_domain h domain old s (settings, some e) =
    (with_settings s settings, answer (with_error h (codes "/settings") e))
moved_domain h domain old s (settings, none) =
    let s' = with_settings s settings in
    if is_empty domain
    then (unrouted h s', answer (to_page (codes "/settings?msg=domain_updated")))
    else if domain == old.primary_domain
    then (s', answer (to_page (codes "/settings?msg=domain_updated")))
    else moved_route h old.primary_domain old.dashboard_domain s'
        (set_dashboard_route h.caddy settings.settings.dashboard_domain (target_of h) s.proxy)

abbrev refused_domain : Text → Option SettingsError
refused_domain [] = none
refused_domain domain = elim (validate_domain domain) [ none ↦ none | some e ↦ some (bad_domain e) ]

unfoldable pub settings_update_primary_domain : Handler
settings_update_primary_domain h r session s = require_csrf r session s (
    let domain = sanitize_host h.hostname_of (trim_space (form_value r (codes "primary_domain"))) in
    if not r.form_parses
    then (s, answer (to_page (codes "/settings?error=invalid_form")))
    else elim (refused_domain domain) [
      | some e ↦ (s, answer (with_error h (codes "/settings") e))
      | none ↦
          moved_domain h domain s.settings.settings s
            (set_primary_domain h.disk h.now domain s.settings)
    ])

-- The result is saved whatever it is. The route is set before that.
abbrev checked_as : Host → SystemSettings → Text → Server → DnsResult → Server × Response
checked_as h d ip s result =
    if result.verified
    then (
      saved_settings h (record d { dns_verified = true; server_ip = ip; https_enabled = true })
          (routed_to h d.dashboard_domain s),
      answer (to_page (codes "/settings?msg=dns_verified")),
    )
    else (
      saved_settings h (record d { dns_verified = false; server_ip = ip }) s,
      answer (redirect (codes "/settings?error=" ++ h.messages.of_dns (error_of result.error))),
    )

unfoldable pub settings_verify_domain : Handler
settings_verify_domain h r session s = require_csrf r session s (
    let d = s.settings.settings in
    let ip = first_given h.public_ip d.server_ip in
    if is_empty d.primary_domain
    then (s, answer (to_page (codes "/settings?error=no_primary_domain")))
    else elim (verify_domain_dns h.lookup d.primary_domain ip) [
      | err e ↦ (s, answer (with_error h (codes "/settings") (bad_domain e)))
      | ok result ↦ checked_as h d ip s result
    ])

unfoldable pub settings_toggle_https : Handler
settings_toggle_https h r session s = require_csrf r session s (
    let d = s.settings.settings in
    if is_empty d.primary_domain
    then (s, answer (to_page (codes "/settings?error=no_primary_domain")))
    else (let changed =
          if d.https_enabled then unrouted h s else routed_to h d.dashboard_domain s in
        (
          saved_settings h (record d { https_enabled = not d.https_enabled }) changed,
          answer (to_page (codes "/settings?msg=https_toggled")),
        )))
