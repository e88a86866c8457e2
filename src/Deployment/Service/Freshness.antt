-- ===== src/Deployment/Service/Freshness.antt =====
-- The ids that `nextDeploymentID` gives out.
use liteploy.Common.{
  ℕ, ◌+◌, ◌^◌, ◌≤◌, ◌<◌, ◌≡◌, ◌≢◌, true, not, List, [], ◌∷◌, ◌==◌, ltb, if◌then◌else◌, arith, All,
  ap, ◌∙◌,
}
use liteploy.Common.Text.{Text, text_eq, text_beq}
use liteploy.Common.Table.{values}
use liteploy.Common.Decimal.{print_padded, scan}
use liteploy.Common.Decimal.RoundTrip.{scan-print_padded}
use liteploy.Deployment.{Deployment}
use liteploy.Deployment.Service.{Service, max_id, next_deployment_id}

abbrev next_max : Text → Deployment → ℕ → ℕ
next_max app d m = if not (d.app_id == app) then m else if ltb m (scan d.id) then scan d.id else m

max_id-ge : (app : Text) (ds : List Deployment) (m : ℕ) → m ≤ max_id app ds m
unfolding max_id
max_id-ge app [] m = omega arith
max_id-ge app (d ∷ ds) m = ground (arith, max_id-ge app ds (next_max app d m))

max_id-bound :
    (app : Text) (ds : List Deployment) (m : ℕ)
    → All (λ d. text_beq d.app_id app ≡ true → scan d.id ≤ max_id app ds m) ds
unfolding max_id
max_id-bound app [] m = tt
max_id-bound app (d ∷ ds) m = (
  λ h. ground (arith, max_id-ge app ds (next_max app d m)),
  max_id-bound app ds (next_max app d m),
)

not_next :
    (app : Text) (n : ℕ) (ds : List Deployment)
    → n + 1 < 2 ^ 63
    → All (λ d. text_beq d.app_id app ≡ true → scan d.id ≤ n) ds
    → All (λ d. text_beq d.app_id app ≡ true → d.id ≢ print_padded 4 (n + 1)) ds
not_next app n [] b h = tt
not_next app n (d ∷ ds) b h = (
  λ same e. absurd (omega (arith, h.0 same, ap scan e ∙ scan-print_padded 4 (n + 1) b)),
  not_next app n ds b h.1,
)

-- Below the range of `int`, the id that is given out next is none that a deployment of the
-- application has.
pub next_deployment_id_fresh :
    (app : Text) (s : Service)
    → max_id app (values s.deployments) 0 + 1 < 2 ^ 63
    → All
        (λ d. text_beq d.app_id app ≡ true → d.id ≢ next_deployment_id app s)
        (values s.deployments)
unfolding next_deployment_id
next_deployment_id_fresh app s b =
    not_next app (max_id app (values s.deployments) 0) (values s.deployments) b
      (max_id-bound app (values s.deployments) 0)
