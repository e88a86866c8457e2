-- ===== src/System/Settings.antt =====
-- internal/system/settings.go: the settings in memory and in their file. A method returns the new
-- state and its error. `domainRegex` is written out label by label, for a domain in lower case; the
-- classes of letters are those of ASCII. The host of a URL, as `net/url` finds it, is a parameter.
use liteploy.Common.{
  ℕ, Bool, true, false, ◌&&◌, ◌||◌, not, Option, none, some, [], ◌∷◌, ◌++◌, ◌==◌, nat_eq, ltb, leb,
  if◌then◌else◌, is_empty, all, length, Outcome, ok, err,
}
use liteploy.Common.Text.{Text, codes, text_eq, trim_space, to_lower, includes, split}
use liteploy.Storage.{Store, Disk, StoreError, not_exist, write_json, read_json}
use liteploy.Proxy.{split_host_port}

pub record SystemSettings : Type 0 where
  pub primary_domain : Text
  pub dashboard_domain : Text
  pub dashboard_sub : Text
  pub dns_verified : Bool
  pub https_enabled : Bool
  pub server_ip : Text
  pub setup_skipped : Bool
  pub updated_at : ℕ

pub record SettingsService : Type 0 where
  pub store : Store SystemSettings
  pub settings : SystemSettings

pub data DomainError : Type 0 where
  empty_domain too_long has_url_parts bad_format : DomainError

pub data SettingsError : Type 0 where
  bad_domain : DomainError → SettingsError
  not_saved read_failed : StoreError → SettingsError

abbrev pub settings_file : Text
settings_file = codes "config/settings.json"

abbrev pub default_sub : Text
default_sub = codes "liteploy"

abbrev pub sub_or_default : Text → Text
sub_or_default sub = if is_empty sub then default_sub else sub

unfoldable pub load : SettingsService → Outcome SettingsError SettingsService
load s = elim (read_json s.store settings_file) [
  | err not_exist ↦ ok s
  | err e ↦ err (read_failed e)
  | ok found ↦
      ok (record s {
        settings = record found { dashboard_sub = sub_or_default found.dashboard_sub };
      })
]

abbrev blank : SystemSettings
blank = record {
  primary_domain = [];
  dashboard_domain = [];
  dashboard_sub = default_sub;
  dns_verified = false;
  https_enabled = false;
  server_ip = [];
  setup_skipped = false;
  updated_at = 0;
}

unfoldable pub new_settings_service : Store SystemSettings → Outcome SettingsError SettingsService
unfolding load
new_settings_service store = load (record { store = store; settings = blank })

abbrev pub below : Text → Text → Text
below sub domain = sub ++ b'.' ∷ domain

-- What `Save` writes.
unfoldable pub completed : ℕ → SystemSettings → SystemSettings
completed now d =
    let sub = sub_or_default d.dashboard_sub in
    record d {
      dashboard_sub = sub;
      dashboard_domain = if is_empty d.primary_domain then [] else below sub d.primary_domain;
      updated_at = now;
    }

abbrev pub stored :
    SettingsService
    → SystemSettings
    → Store SystemSettings × Option StoreError
    → SettingsService × Option SettingsError
stored s d (store, some e) = (record s { store = store }, some (not_saved e))
stored s d (store, none) = (record { store = store; settings = d }, none)

unfoldable pub save :
    Disk → ℕ → SystemSettings → SettingsService → SettingsService × Option SettingsError
unfolding completed
save disk now d s =
    stored s (completed now d) (write_json disk s.store settings_file (completed now d))

abbrev is_inner : ℕ → Bool
is_inner c = leb b'a' c && leb c b'z' || leb b'0' c && leb c b'9' || c == b'-'

abbrev is_edge : ℕ → Bool
is_edge c = is_inner c && not (c == b'-')

abbrev last_is_edge : ℕ → Text → Bool
last_is_edge c [] = is_edge c
last_is_edge c (d ∷ t) = last_is_edge d t

-- [a-z0-9]([a-z0-9-]{0,61}[a-z0-9])?
unfoldable pub is_host_label : Text → Bool
is_host_label [] = false
is_host_label (c ∷ t) = is_edge c && last_is_edge c t && all is_inner t && leb (length (c ∷ t)) 63

unfoldable pub is_domain : Text → Bool
unfolding is_host_label
is_domain domain = all is_host_label (split b'.' domain) && leb 2 (length (split b'.' domain))

unfoldable pub validate_domain : Text → Option DomainError
unfolding is_domain
validate_domain raw =
    let domain = trim_space (to_lower raw) in
    if is_empty domain
    then some empty_domain
    else if ltb 253 (length domain)
    then some too_long
    else if includes domain (codes "://")
        || includes domain (codes "/")
        || includes domain (codes ":")
    then some has_url_parts
    else if not (is_domain domain)
    then some bad_format
    else none

abbrev pub checked : Text → Option DomainError
checked domain = if is_empty domain then none else validate_domain domain

-- The settings that `SetPrimaryDomain` hands to `Save`. Without a domain nothing is verified.
unfoldable pub with_domain : Text → SystemSettings → SystemSettings
with_domain domain d =
    if is_empty domain
    then record d {
      primary_domain = domain;
      dashboard_domain = [];
      dns_verified = false;
      https_enabled = false;
      setup_skipped = false;
    }
    else record d {
      primary_domain = domain;
      dashboard_sub = sub_or_default d.dashboard_sub;
      dashboard_domain = below (sub_or_default d.dashboard_sub) domain;
      setup_skipped = false;
    }

unfoldable pub set_primary_domain :
    Disk → ℕ → Text → SettingsService → SettingsService × Option SettingsError
unfolding with_domain save
set_primary_domain disk now raw s =
    let domain = trim_space (to_lower raw) in
    elim (checked domain) [
      | some e ↦ (s, some (bad_domain e))
      | none ↦ save disk now (with_domain domain s.settings) s
    ]

unfoldable pub skip_setup : Disk → ℕ → SettingsService → SettingsService × Option SettingsError
unfolding save
skip_setup disk now s = save disk now (record s.settings { setup_skipped = true }) s

unfoldable pub format_dashboard_domain : Text → Text → Text
format_dashboard_domain raw sub =
    let domain = trim_space (to_lower raw) in
    if is_empty domain then [] else below (sub_or_default sub) domain

abbrev host_part : Text → Option (Text × Text) → Text
host_part raw none = to_lower raw
host_part raw (some (host, _)) = if is_empty host then to_lower raw else to_lower host

-- `hostname_of` is the host of a URL, or empty where `url.Parse` fails.
unfoldable pub sanitize_host : (Text → Text) → Text → Text
sanitize_host hostname_of raw =
    let host = trim_space raw in
    if includes host (codes "://") && not (is_empty (hostname_of host))
    then to_lower (hostname_of host)
    else host_part host (split_host_port host)
