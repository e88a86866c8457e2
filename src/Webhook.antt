-- ===== src/Webhook.antt =====
-- internal/webhook/webhook.go: a deployment on a push, for a request that is signed with the
-- application's secret. HMAC-SHA256 in hexadecimal and the decoding of the two payloads are
-- parameters. `get_secret` and the adapter are those of cmd/liteploy/main.go. A body that
-- cannot be read is left out.
pub mod Signed
mod Tests
use liteploy.Common.{
  ℕ, ◌*◌, Bool, true, false, not, Option, none, some, List, [], ◌∷◌, ◌++◌, ◌==◌, if◌then◌else◌,
  is_empty, take, drop, Outcome, ok, err, fail_if, ◌>>=◌, ◌>>◌,
}
use liteploy.Common.Text.{Text, codes, text_eq, has_prefix, trim_prefix}
use liteploy.Storage.{Disk}
use liteploy.Http.{Request, Response, Reply, fail, reply_status, api_ok, answer, header, path_value}
use liteploy.Application.Service as Applications
use liteploy.Application.Service.{find}
use liteploy.Deployment.Service as Deployments
use liteploy.Deployment.Service.{enqueue}

pub data Provider : Type 0 where
  github gitlab : Provider

pub record Event : Type 0 where
  pub branch : Text
  pub commit_sha : Text
  pub repo_url : Text

-- The fields of a payload that are read: the reference, the commit and the address.
pub record Payload : Type 0 where
  pub ref : Text
  pub commit : Text
  pub url : Text

pub record Codec : Type 0 where
  pub hmac_sha256 : Text → Text → Text
  pub github_payload : Text → Option Payload
  pub gitlab_payload : Text → Option Payload

pub data WebhookError : Type 0 where
  missing_signature bad_format signature_mismatch bad_token bad_payload unknown_provider :
      WebhookError

-- 1 MB
abbrev pub max_body_size : ℕ
max_body_size = 1 * 1024 * 1024

unfoldable pub validate_github_signature :
    Codec → Request → Text → Text → Outcome WebhookError (Unit {0})
validate_github_signature c r body secret = do
  fail_if (is_empty (header r (codes "X-Hub-Signature-256"))) missing_signature
  fail_if (not (has_prefix (header r (codes "X-Hub-Signature-256")) (codes "sha256="))) bad_format
  fail_if (not (drop 7 (header r (codes "X-Hub-Signature-256")) == c.hmac_sha256 secret body))
      signature_mismatch
  ok tt

unfoldable pub validate_gitlab_token : Request → Text → Outcome WebhookError (Unit {0})
validate_gitlab_token r secret =
    fail_if (not (header r (codes "X-Gitlab-Token") == secret)) bad_token

event_of : Option Payload → Outcome WebhookError Event
event_of none = err bad_payload
event_of (some p) = ok (record {
  branch = trim_prefix p.ref (codes "refs/heads/");
  commit_sha = p.commit;
  repo_url = p.url;
})

unfoldable pub parse_github_event : Codec → Request → Text → Outcome WebhookError Event
unfolding event_of
parse_github_event c r body =
    if not (header r (codes "X-Github-Event") == codes "push")
    then ok (record { branch = []; commit_sha = []; repo_url = [] })
    else event_of (c.github_payload body)

unfoldable pub parse_gitlab_event : Codec → Text → Outcome WebhookError Event
unfolding event_of
parse_gitlab_event c body = event_of (c.gitlab_payload body)

abbrev with_provider : Provider → Event → Provider × Event
with_provider p e = (p, e)

unfoldable pub parse_and_validate :
    Codec → Request → Text → Text → Outcome WebhookError (Provider × Event)
unfolding validate_github_signature validate_gitlab_token parse_github_event parse_gitlab_event
parse_and_validate c r body secret =
    if not (is_empty (header r (codes "X-Github-Event")))
    then (validate_github_signature c r body secret
        >> (parse_github_event c r body >>= λ e. ok (with_provider github e)))
    else if not (is_empty (header r (codes "X-Gitlab-Event")))
    then (validate_gitlab_token r secret
        >> (parse_gitlab_event c body >>= λ e. ok (with_provider gitlab e)))
    else err unknown_provider

abbrev provider_name : Provider → Text
provider_name github = codes "github"
provider_name gitlab = codes "gitlab"

-- An application without a secret has no webhook.
unfoldable pub get_secret : Applications.Service → Text → Option Text
get_secret apps id = elim (find id apps) [
  | err _ ↦ none
  | ok app ↦ if is_empty app.webhook_secret then none else some app.webhook_secret
]

abbrev triggered_by : Provider → Text
triggered_by p = codes "webhook:" ++ provider_name p

-- The adapter takes the branch and leaves it out. An error of the queue is answered with 202, too.
unfoldable pub enqueued :
    Disk
    → ℕ
    → Text
    → Outcome WebhookError (Provider × Event)
    → Deployments.Service
    → Deployments.Service × Response
enqueued disk now app (err e) s = (s, answer (fail 401))
enqueued disk now app (ok (p, e)) s =
    let (s', result) = enqueue disk now app (triggered_by p) s in
    elim result [ err _ ↦ (s', answer (reply_status 202)) | ok _ ↦ (s', answer (api_ok 202)) ]

unfoldable pub serve_http :
    Codec
    → Disk
    → ℕ
    → Request
    → Applications.Service
    → Deployments.Service
    → Deployments.Service × Response
unfolding enqueued parse_and_validate get_secret
serve_http c disk now r apps s =
    if not (r.method == codes "POST")
    then (s, answer (fail 405))
    else if is_empty (path_value r (codes "app_id"))
    then (s, answer (fail 400))
    else elim (get_secret apps (path_value r (codes "app_id"))) [
      | none ↦ (s, answer (fail 404))
      | some secret ↦
          enqueued disk now (path_value r (codes "app_id"))
            (parse_and_validate c r (take max_body_size r.body) secret) s
    ]
