-- ===== src/Proxy/Applying.antt =====
-- internal/proxy/proxy.go: the manager's operations and what a failed one leaves.
use liteploy.Common.{
  ℕ, ap, ◌∙◌, ◌≡◌, refl, ◌≢◌, ◌⊎◌, inl, inr, Option, none, some, List, [], ◌∷◌, ◌==◌, nat_eq,
  if◌then◌else◌, arith, Bool-cases, Option-cases, Outcome, ok, err,
}
use liteploy.Common.Text.{Text, text_eq, text_beq_iff}
use liteploy.Common.Table.{Table, get, put, delete}
use liteploy.Common.Table.Laws.{get-put, get-delete}
use liteploy.Proxy.{Route, RouteError, validate_route, validate_routes}
use liteploy.Proxy.Config.{Config, build_caddy_config}

pub record Manager : Type 0 where
  pub routes : Table Route
  pub dashboard_domain : Text
  pub dashboard_target : Text
  pub last_known_good : Option Config

pub data ProxyError : Type 0 where
  invalid_route validation_failed invalid_routes : RouteError → ProxyError
  unreachable : ProxyError
  caddy_returned : ℕ → ProxyError

-- The manager, the configurations that were posted, and the error if there was one.
abbrev pub Applied : Type 0
Applied = Manager × List Config × Option ProxyError

abbrev pub Caddy : Type 0
Caddy = Config → Option ℕ

abbrev pub config_of : Manager → Config
config_of m = build_caddy_config m.dashboard_domain m.dashboard_target m.routes

abbrev pub listed : Option Config → List Config
listed none = []
listed (some c) = c ∷ []

-- The answer to the new configuration. On a refusal the last one that was accepted is posted again,
-- and the answer to that is not looked at.
answered : Manager → Option ℕ → Applied
answered m none = (m, config_of m ∷ [], some unreachable)
answered m (some code) =
    if code == 200
    then (record m { last_known_good = some (config_of m) }, config_of m ∷ [], none)
    else (m, config_of m ∷ listed m.last_known_good, some (caddy_returned code))

unfoldable pub apply : Caddy → Manager → Applied
unfolding answered
apply caddy m = elim (validate_routes m.routes) [
  | err e ↦ (m, [], some (invalid_routes e))
  | ok _ ↦ answered m (caddy (config_of m))
]

-- The old route comes back, or the new one goes.
restore : Text → Option Route → Table Route → Table Route
restore app none t = delete t app
restore app (some old) t = put t app old

unfoldable pub upsert_route : Caddy → Route → Manager → Applied
unfolding restore apply
upsert_route caddy r m = elim (validate_route r) [
  | err e ↦ (m, [], some (invalid_route e))
  | ok _ ↦
      let stored = record m { routes = put m.routes r.app_id r } in
      elim (validate_routes stored.routes) [
        | err e ↦ (
          record m { routes = restore r.app_id (get m.routes r.app_id) stored.routes },
          [],
          some (validation_failed e),
        )
        | ok _ ↦ apply caddy stored
      ]
]

unfoldable pub remove_route : Caddy → Text → Manager → Applied
unfolding apply
remove_route caddy app m = apply caddy (record m { routes = delete m.routes app })

unfoldable pub set_dashboard_route : Caddy → Text → Text → Manager → Applied
unfolding apply
set_dashboard_route caddy domain target m =
    apply caddy (record m { dashboard_domain = domain; dashboard_target = target })

unfoldable pub remove_dashboard_route : Caddy → Manager → Applied
unfolding apply
remove_dashboard_route caddy m =
    apply caddy (record m { dashboard_domain = []; dashboard_target = [] })

-- What came of the configuration that was posted: Caddy took it, refused it, or was not reached.
abbrev pub IsAnswered : Caddy → Manager → Applied → Type 0
IsAnswered caddy m r =
    ((caddy (config_of m) ≡ some 200)
      × (r ≡ (record m { last_known_good = some (config_of m) }, config_of m ∷ [], none)))
    ⊎ (((code : ℕ) × (code ≢ 200)
          × (caddy (config_of m) ≡ some code)
          × (r ≡ (m, config_of m ∷ listed m.last_known_good, some (caddy_returned code))))
        ⊎ ((caddy (config_of m) ≡ none) × (r ≡ (m, config_of m ∷ [], some unreachable))))

answered_result :
    (caddy : Caddy) (m : Manager) (o : Option ℕ)
    → caddy (config_of m) ≡ o
    → IsAnswered caddy m (answered m o)
unfolding answered
answered_result caddy m none q = inr (inr (q, refl))
answered_result caddy m (some code) q = elim (Bool-cases (code == 200)) [
  | inl e ↦ let same : code ≡ 200 = ground arith in inl (q ∙ ap some same, rw e refl)
  | inr e ↦ inr (inl (code, ground arith, q, rw e refl))
]

answered-routes : (m : Manager) (o : Option ℕ) → (answered m o).0.routes ≡ m.routes
unfolding answered
answered-routes m none = refl
answered-routes m (some code) = ground arith

apply_of_valid :
    (caddy : Caddy) (m : Manager)
    → validate_routes m.routes ≡ ok tt
    → apply caddy m ≡ answered m (caddy (config_of m))
unfolding apply
apply_of_valid caddy m q = rw (q, apply) refl

checked : (o : Outcome RouteError (Unit {0})) → (o ≡ ok tt) ⊎ ((e : RouteError) × (o ≡ err e))
checked (ok tt) = inl refl
checked (err e) = inr (e, refl)

-- What `apply` does on each of its branches. With invalid routes nothing is posted. Otherwise the
-- configuration of the routes is posted; if Caddy answers 200 it becomes the last known good one,
-- on any other answer the last known good one is posted again, if there is one, and a request that
-- fails ends the call. Nothing but the last known good configuration changes.
pub apply_result :
    (caddy : Caddy) (m : Manager)
    → ((e : RouteError) × (validate_routes m.routes ≡ err e)
        × (apply caddy m ≡ (m, [], some (invalid_routes e))))
      ⊎ ((validate_routes m.routes ≡ ok tt) × IsAnswered caddy m (apply caddy m))
unfolding apply
apply_result caddy m = elim (checked (validate_routes m.routes)) [
  | inl q ↦
      inr (q, rw (apply_of_valid caddy m q) (answered_result caddy m (caddy (config_of m)) refl))
  | inr (e, q) ↦ inl (e, q, rw (q, apply) refl)
]

get-restore :
    (app : Text) (r : Route) (t : Table Route) (k : Text)
    → get (restore app (get t app) (put t app r)) k ≡ get t k
unfolding restore
get-restore app r t k = elim (Option-cases (get t app)) [
  | inl e ↦
      rw (e, restore)
        (ground (
          arith,
          get-delete (put t app r) app k,
          get-put t app r k,
          text_beq_iff app k,
          ap (get t),
          e,
        ))
  | inr (old, e) ↦
      rw (e, restore)
        (ground (arith, get-put (put t app r) app old k, get-put t app r k, text_beq_iff app k, e))
]

-- Every application has the route that it had, and nothing was posted.
abbrev pub IsRestored : Manager → Applied → Type 0
IsRestored m (m', posted, e) =
    ((k : Text) → get m'.routes k ≡ get m.routes k) × (posted ≡ []) × (e ≢ none)

refused_of_route :
    (caddy : Caddy) (r : Route) (m : Manager) (e : RouteError)
    → validate_route r ≡ err e
    → upsert_route caddy r m ≡ (m, [], some (invalid_route e))
unfolding upsert_route
refused_of_route caddy r m e q = rw (q, upsert_route) refl

refused_of_routes :
    (caddy : Caddy) (r : Route) (m : Manager) (e : RouteError)
    → validate_route r ≡ ok tt
    → validate_routes (put m.routes r.app_id r) ≡ err e
    → upsert_route caddy r m ≡ (
      record m { routes = restore r.app_id (get m.routes r.app_id) (put m.routes r.app_id r) },
      [],
      some (validation_failed e),
    )
unfolding upsert_route
refused_of_routes caddy r m e q q' = rw (q, q', upsert_route) refl

upsert_of_valid :
    (caddy : Caddy) (r : Route) (m : Manager)
    → validate_route r ≡ ok tt
    → validate_routes (put m.routes r.app_id r) ≡ ok tt
    → upsert_route caddy r m ≡ apply caddy (record m { routes = put m.routes r.app_id r })
unfolding upsert_route
upsert_of_valid caddy r m q q' = rw (q, q', upsert_route) refl

-- The route is invalid, or the table with it is.
abbrev pub IsInvalid : Route → Manager → Type 0
IsInvalid r m =
    ((e : RouteError) × (validate_route r ≡ err e))
    ⊎ ((e : RouteError) × (validate_routes (put m.routes r.app_id r) ≡ err e))

-- `UpsertRoute` on each branch. If the route or the table with it is invalid, the call fails, posts
-- nothing and every application keeps the route that it had. If both are valid the route is stored
-- and the configuration is posted; with an error of Caddy's, too, the route stays in the table.
pub upsert_route_result :
    (caddy : Caddy) (r : Route) (m : Manager)
    → (IsInvalid r m × IsRestored m (upsert_route caddy r m))
      ⊎ ((validate_route r ≡ ok tt)
          × (validate_routes (put m.routes r.app_id r) ≡ ok tt)
          × ((upsert_route caddy r m).0.routes ≡ put m.routes r.app_id r)
          × IsAnswered caddy
              (record m { routes = put m.routes r.app_id r })
              (upsert_route caddy r m))
upsert_route_result caddy r m = elim (checked (validate_route r)) [
  | inr (e, q) ↦ inl (inl (e, q), rw (refused_of_route caddy r m e q) ((λ k. refl), refl, λ n. cc))
  | inl q ↦ elim (checked (validate_routes (put m.routes r.app_id r))) [
    | inr (e, q') ↦ inl (
      inr (e, q'),
      rw (refused_of_routes caddy r m e q q')
          ((λ k. get-restore r.app_id r m.routes k), refl, λ n. cc),
    )
    | inl q' ↦
        let stored : Manager = record m { routes = put m.routes r.app_id r } in
        inr (
          q,
          q',
          rw (upsert_of_valid caddy r m q q', apply_of_valid caddy stored q')
              (answered-routes stored (caddy (config_of stored))),
          rw (upsert_of_valid caddy r m q q', apply_of_valid caddy stored q')
              (answered_result caddy stored (caddy (config_of stored)) refl),
        )
  ]
]
