-- ===== src/Startup.antt =====
-- cmd/liteploy/main.go: the routes that the start-up posts, for the applications that run and for the
-- dashboard. An error of the proxy is ignored.
use liteploy.Common.{Bool, ◌&&◌, not, List, [], ◌∷◌, ◌++◌, ltb, if◌then◌else◌, is_empty}
use liteploy.Common.Int.{ℤ, pos, negsuc}
use liteploy.Common.Decimal.{print}
use liteploy.Common.Text.{Text, codes, has_prefix}
use liteploy.Application.Types.{Application}
use liteploy.Application.Service as Applications
use liteploy.Application.Service.{list}
use liteploy.Proxy.Applying.{Manager, Caddy, upsert_route, set_dashboard_route}
use liteploy.System.Settings.{SystemSettings}
use liteploy.System.Recovery.{is_running}

abbrev port_text : ℤ → Text
port_text (pos n) = if ltb 0 n then print n else []
port_text (negsuc _) = []

-- The alias is not the one that the pipeline gives to a container.
unfoldable pub boot_upstream : Application → Text
boot_upstream app = codes "liteploy-" ++ app.id ++ b':' ∷ port_text app.port

abbrev is_routed : Application → Bool
is_routed app =
    is_running app.status && not (is_empty app.domains) && not (is_empty (port_text app.port))

unfoldable pub boot_route : Caddy → Application → Manager → Manager
unfolding boot_upstream
boot_route caddy app m =
    if is_routed app
    then (upsert_route caddy
        (record { app_id = app.id; domains = app.domains; upstream = boot_upstream app }) m).0
    else m

unfoldable pub boot_each : Caddy → List Application → Manager → Manager
unfolding boot_route
boot_each caddy [] m = m
boot_each caddy (app ∷ apps) m = boot_each caddy apps (boot_route caddy app m)

abbrev boot_target : Text → Text
boot_target addr = if has_prefix addr (codes ":") then codes "127.0.0.1" ++ addr else addr

unfoldable pub boot_dashboard : Caddy → Text → SystemSettings → Manager → Manager
boot_dashboard caddy addr d m =
    if not (is_empty d.primary_domain) && not (is_empty d.dashboard_domain) && d.https_enabled
    then (set_dashboard_route caddy d.dashboard_domain (boot_target addr) m).0
    else m

unfoldable pub boot_routes :
    Caddy → Text → SystemSettings → Applications.Service → Manager → Manager
unfolding boot_each boot_dashboard
boot_routes caddy addr d apps m = boot_dashboard caddy addr d (boot_each caddy (list apps) m)
