-- ===== src/Deployment/Service/Runs/Retention.antt =====
-- Which records `PruneOldDeployments` and `ClearFailedDeployments` remove.
use liteploy.Common.{
  ℕ, zero, suc, ◌+◌, ◌<◌, ◌≡◌, refl, ◌∙◌, inl, inr, Bool, true, false, ◌&&◌, none, List, [], ◌∷◌,
  arith, ◌==◌, nat_eq, Bool-cases, if◌then◌else◌, All, any, keep_if, count_if, length, take, drop,
  leb,
}
use liteploy.Common.Text.{Text, text_eq}
use liteploy.Common.Table.{get, values}
use liteploy.Common.Table.Laws.{get-delete}
use liteploy.Common.Sorting.{IsSorted, IsWeakOrder, sort-IsSorted}
use liteploy.Deployment.{Deployment}
use liteploy.Deployment.Service.{Service, list_by_app, newer}
use liteploy.Deployment.Service.Runs.{
  is_cleared, remove_deployment, remove_each, prune_old_deployments, clear_each,
  clear_failed_deployments,
}
use liteploy.Deployment.Service.Runs.Outcomes.{remove-deployments}

newer_order : IsWeakOrder newer
newer_order = record { asym = λ a b h. ground arith; trans = λ a b c h k. ground arith }

list_by_app-IsSorted : (app : Text) (s : Service) → IsSorted newer (list_by_app app s)
unfolding list_by_app
list_by_app-IsSorted app s =
    sort-IsSorted newer newer_order (keep_if (λ d. d.app_id == app) (values s.deployments))

All-drop {ℓ κ} : {A : Type ℓ} (P : A → Type κ) (n : ℕ) (xs : List A) → All P xs → All P (drop n xs)
All-drop P zero xs h = h
All-drop P (suc n) [] h = h
All-drop P (suc n) (x ∷ xs) h = All-drop P n xs h.1

taken-before-dropped {ℓ} :
    {A : Type ℓ} (less : A → A → Bool) (n : ℕ) (xs : List A)
    → IsSorted less xs
    → All (λ a. All (λ b. less b a ≡ false) (drop n xs)) (take n xs)
taken-before-dropped less zero xs h = tt
taken-before-dropped less (suc n) [] h = tt
taken-before-dropped less (suc n) (x ∷ xs) h =
    (All-drop (λ b. less b x ≡ false) n xs h.0, taken-before-dropped less n xs h.1)

abbrev pub has_id : List Deployment → Text → Bool
has_id ds k = any (λ d. d.id == k) ds

get-remove_deployment :
    (app : Text) (d : Deployment) (s : Service) (k : Text)
    → get (remove_deployment app d s).deployments k
      ≡ (if d.id == k then none else get s.deployments k)
get-remove_deployment app d s k = rw (remove-deployments app d s) (get-delete s.deployments d.id k)

get-remove_each :
    (app : Text) (ds : List Deployment) (s : Service) (k : Text)
    → get (remove_each app ds s).deployments k ≡ (if has_id ds k then none else get s.deployments k)
unfolding remove_each
get-remove_each app [] s k = refl
get-remove_each app (d ∷ ds) s k =
    ground
      (arith, get-remove_each app ds (remove_deployment app d s) k, get-remove_deployment app d s k)

drop-nil {ℓ} : {A : Type ℓ} (n : ℕ) (xs : List A) → leb (length xs) n ≡ true → drop n xs ≡ []
drop-nil zero [] h = refl
drop-nil zero (x ∷ xs) h = absurd (ground arith)
drop-nil (suc n) [] h = refl
drop-nil (suc n) (x ∷ xs) h = drop-nil n xs (ground arith)

get-prune :
    (app : Text) (n : ℕ) (s : Service) (k : Text)
    → 0 < n
    → get (prune_old_deployments app n s).deployments k
      ≡ (if has_id (drop n (list_by_app app s)) k then none else get s.deployments k)
unfolding prune_old_deployments
get-prune app n s k h = elim (Bool-cases (leb (length (list_by_app app s)) n)) [
  | inl e ↦ rw (drop-nil n (list_by_app app s) e) (ground arith)
  | inr e ↦ ground (arith, get-remove_each app (drop n (list_by_app app s)) s k)
]

-- Pruning to n > 0 records removes exactly the records of the application behind the n newest: the
-- others are found as before, and none that is removed is newer than one that is kept.
pub prune_old_deployments_result :
    (app : Text) (n : ℕ) (s : Service)
    → 0 < n
    → ((k : Text)
        → get (prune_old_deployments app n s).deployments k
          ≡ (if has_id (drop n (list_by_app app s)) k then none else get s.deployments k))
      × All
          (λ a. All (λ b. newer b a ≡ false) (drop n (list_by_app app s)))
          (take n (list_by_app app s))
prune_old_deployments_result app n s h = (
  λ k. get-prune app n s k h,
  taken-before-dropped newer n (list_by_app app s) (list_by_app-IsSorted app s),
)

get-clear_each :
    (app : Text) (ds : List Deployment) (m : ℕ) (s : Service) (k : Text)
    → get (clear_each app ds m s).0.deployments k
      ≡ (if any (λ d. is_cleared d && d.id == k) ds then none else get s.deployments k)
unfolding clear_each
get-clear_each app [] m s k = refl
get-clear_each app (d ∷ ds) m s k = elim (Bool-cases (is_cleared d)) [
  | inl e ↦
      rw (e, clear_each)
        (ground (
          arith,
          get-clear_each app ds (m + 1) (remove_deployment app d s) k,
          get-remove_deployment app d s k,
        ))
  | inr e ↦ rw (e, clear_each) (get-clear_each app ds m s k)
]

count-clear_each :
    (app : Text) (ds : List Deployment) (m : ℕ) (s : Service)
    → (clear_each app ds m s).1 ≡ m + count_if is_cleared ds
unfolding clear_each
count-clear_each app [] m s = omega arith
count-clear_each app (d ∷ ds) m s = elim (Bool-cases (is_cleared d)) [
  | inl e ↦
      rw (e, clear_each)
        (omega (arith, count-clear_each app ds (m + 1) (remove_deployment app d s)))
  | inr e ↦ rw (e, clear_each) (count-clear_each app ds m s)
]

-- Clearing removes exactly the failed and cancelled records that are listed for the application,
-- and returns how many these are.
pub clear_failed_deployments_result :
    (app : Text) (s : Service)
    → ((k : Text)
        → get (clear_failed_deployments app s).0.deployments k ≡ (
            if any (λ d. is_cleared d && d.id == k) (list_by_app app s)
            then none
            else get s.deployments k))
      × ((clear_failed_deployments app s).1 ≡ count_if is_cleared (list_by_app app s))
unfolding clear_failed_deployments
clear_failed_deployments_result app s = (
  λ k. get-clear_each app (list_by_app app s) 0 s k,
  count-clear_each app (list_by_app app s) 0 s ∙ omega arith,
)
