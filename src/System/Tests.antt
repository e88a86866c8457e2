-- ===== src/System/Tests.antt =====
-- Witnesses for the settings and the recovery.
use liteploy.Common.{◌≡◌, refl, true, false, none, some, [], ◌∷◌, ◌++◌, All}
use liteploy.Common.Text.{codes, text_beq, trim_space, to_lower}
use liteploy.Common.Table.{get}
use liteploy.Storage.{Disk}
use liteploy.Application.Types.{running}
use liteploy.Application.Samples.{shop}
use liteploy.Application.Service as Applications
use liteploy.Application.Service.{list}
use liteploy.System.Settings.{SettingsService, set_primary_domain}
use liteploy.System.Saved.{IsMoved, set_primary_domain-IsMoved}
use liteploy.System.Recovery.{Docker, by_app, reconcile}
use liteploy.System.Reconciled.{IsReal, reconcile-IsReal}

abbrev working : Disk
working = record { mkdir_fails = λ _. false; fault = λ _. none; temp_name = λ p. p ++ codes ".tmp" }

abbrev settings : SettingsService
settings = record {
  store = record { root = codes "/d"; files = [] };
  settings = record {
    primary_domain = codes "a.io";
    dashboard_domain = codes "liteploy.a.io";
    dashboard_sub = codes "liteploy";
    dns_verified = true;
    https_enabled = true;
    server_ip = [];
    setup_skipped = false;
    updated_at = 0;
  };
}

set_primary_domain-IsMoved_example :
    IsMoved
      (trim_space (to_lower (codes " B.io")))
      settings
      (set_primary_domain working 3 (codes " B.io") settings)
set_primary_domain-IsMoved_example = set_primary_domain-IsMoved working 3 (codes " B.io") settings

abbrev apps : Applications.Service
apps = record {
  store = record { root = codes "/d"; files = [] };
  apps = (codes "app-001", record shop { status = running }) ∷ [];
}

-- Docker knows no container of the application.
abbrev docker : Docker
docker = record { containers = some []; inspect = λ _. none }

apps_are_kept : All (λ x. get apps.apps x.id ≡ some x) (record shop { status = running } ∷ [])
unfolding get text_beq
apps_are_kept = (refl, tt)

reconcile-IsReal_example :
    All
      (λ x. IsReal docker (by_app [] []) (reconcile working 3 (some docker) apps).0 x.id)
      (list apps)
reconcile-IsReal_example = reconcile-IsReal working 3 docker [] apps refl apps_are_kept
