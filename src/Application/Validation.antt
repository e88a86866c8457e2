-- ===== src/Application/Validation.antt =====
-- internal/application/application.go: `Validate`. The messages are values of `ValidationError`, in
-- the order in which the program joins them; no message means no error.
pub mod Accepted
use liteploy.Common.{
  ℕ, ◌<◌, Bool, true, false, ◌&&◌, ◌||◌, not, Option, none, some, List, [], ◌∷◌, ◌++◌, ◌==◌, nat_eq,
  nat_beq, ltb, leb, if◌then◌else◌, length, all, is_empty, Outcome, ok, err, fail_if, ◌>>=◌, ◌>>◌,
}
use liteploy.Common.Int.{ℤ, pos, negsuc}
use liteploy.Common.Text.{Text, codes, text_eq, has_prefix, includes_any, to_lower}
use liteploy.Common.FilePath.{is_abs, clean}
use liteploy.Application.Types.{
  SourceType, no_type, git, image, compose, other_type, ServiceType, unset, web, api, worker,
  internal, other_service, Source, Application, is_private,
}
use liteploy.Application.Domain.{
  DomainError, HostPath, parse_domain_route, validate_domain, is_alnum, first_is, last_is,
}

pub data SourceError : Type 0 where
  git_url_required git_url_characters git_url_scheme image_required image_characters : SourceError
  type_required unknown_type : SourceError
  absolute_path path_traversal : Text → SourceError

pub data ValidationError : Type 0 where
  id_required name_required bad_name bad_port bad_service_type private_domains : ValidationError
  bad_source : SourceError → ValidationError
  bad_entry bad_host : Text → DomainError → ValidationError

-- `appNameRe`: letters, digits, `-` and `_`, at most 64, the first and the last a letter or digit.
unfoldable pub is_app_name : Text → Bool
is_app_name s =
    leb (length s) 64
    && first_is is_alnum s
    && last_is is_alnum s
    && all (λ c. is_alnum c || c == b'_' || c == b'-') s

has_drive : Text → Bool
has_drive (_ ∷ c ∷ _) = c == b':'
has_drive _ = false

unfoldable pub validate_relative_subpath : Text → Text → Outcome SourceError (Unit {0})
unfolding has_drive
validate_relative_subpath p field = if is_empty p then ok tt else do
  fail_if (is_abs p || has_prefix p (codes "/") || has_prefix p (codes "\\") || has_drive p)
      (absolute_path field)
  fail_if
      (clean p == codes ".."
        || has_prefix (clean p) (codes "../")
        || has_prefix (clean p) (codes "..\\"))
      (path_traversal field)
  ok tt

unfoldable pub has_git_scheme : Text → Bool
has_git_scheme url =
    let lower = to_lower url in
    has_prefix lower (codes "https://")
    || has_prefix lower (codes "http://")
    || has_prefix lower (codes "git@")
    || has_prefix lower (codes "ssh://")

abbrev pub shell_characters : Text
shell_characters = codes ";|&`$(){}[]<>\\\"'"

validate_git : Source → Outcome SourceError (Unit {0})
validate_git s = do
  fail_if (is_empty s.git_url) git_url_required
  fail_if (includes_any s.git_url shell_characters) git_url_characters
  fail_if (not (has_git_scheme s.git_url)) git_url_scheme
  validate_relative_subpath s.service_path (codes "service_path")
  validate_relative_subpath s.build_context (codes "build_context")
  validate_relative_subpath s.dockerfile_path (codes "dockerfile_path")

validate_image : Source → Outcome SourceError (Unit {0})
validate_image s = do
  fail_if (is_empty s.image_ref) image_required
  fail_if (includes_any s.image_ref (codes ";|&`$()")) image_characters
  ok tt

validate_by_type : SourceType → Source → Outcome SourceError (Unit {0})
validate_by_type git s = validate_git s
validate_by_type image s = validate_image s
validate_by_type compose s = ok tt
validate_by_type no_type s = err type_required
validate_by_type (other_type _) s = err unknown_type

unfoldable pub validate_source : Source → Outcome SourceError (Unit {0})
unfolding validate_by_type validate_git validate_image
validate_source s = validate_by_type s.type s

-- The service type after the default, and its message.
abbrev pub default_service : ServiceType → ServiceType
default_service unset = web
default_service t = t

unfoldable pub service_errors : ServiceType → List ValidationError
service_errors (other_service _) = bad_service_type ∷ []
service_errors _ = []

unfoldable pub port_errors : ℤ → List ValidationError
port_errors (negsuc _) = bad_port ∷ []
port_errors (pos n) = if ltb 65535 n then bad_port ∷ [] else []

unfoldable pub source_errors : Outcome SourceError (Unit {0}) → List ValidationError
source_errors (err e) = bad_source e ∷ []
source_errors (ok _) = []

unfoldable pub entry_errors : Text → Outcome DomainError HostPath → List ValidationError
entry_errors d (err e) = bad_entry d e ∷ []
entry_errors d (ok r) = elim (validate_domain r.host) [ err e ↦ bad_host r.host e ∷ [] | ok _ ↦ [] ]

-- The loop over the domains.
unfoldable pub domain_errors : List Text → List ValidationError
unfolding entry_errors
domain_errors [] = []
domain_errors (d ∷ ds) = entry_errors d (parse_domain_route d) ++ domain_errors ds

abbrev pub when : Bool → ValidationError → List ValidationError
when true e = e ∷ []
when false e = []

unfoldable pub name_errors : Text → List ValidationError
name_errors name =
    if is_empty name then name_required ∷ [] else if is_app_name name then [] else bad_name ∷ []

-- The application with its service type filled in, and the messages.
unfoldable pub validate : Application → Application × List ValidationError
unfolding name_errors source_errors port_errors service_errors domain_errors
validate raw =
    let a = record raw { service_type = default_service raw.service_type } in
    (
      a,
      when (is_empty a.id) id_required
          ++ (name_errors a.name
              ++ (source_errors (validate_source a.source)
                  ++ (port_errors a.port
                      ++ (service_errors a.service_type
                          ++ (when (is_private a.service_type && not (is_empty a.domains))
                                private_domains
                              ++ domain_errors a.domains))))),
    )
