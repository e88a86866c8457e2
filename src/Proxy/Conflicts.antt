-- ===== src/Proxy/Conflicts.antt =====
-- No two applications claim one host and path in a table that `ValidateRoutes` accepts.
use liteploy.Common.{
  ◌≡◌, refl, sym, ◌∙◌, ap, inl, inr, true, Option, some, List, [], ◌∷◌, All, arith, Bool-cases,
  Option-cases, Outcome, ok, err, ◌>>=◌, ok_of_bind,
}
use liteploy.Common.Text.{Text, text_eq, text_beq_iff}
use liteploy.Common.Table.{Table}
use liteploy.Application.Domain.{DomainError, HostPath, parse_domain_route}
use liteploy.Proxy.{
  Route, validate_route, host_path_beq, Seen, owner, claim, claim_parsed, claim_domains,
  claim_routes, validate_routes,
}

host_path_beq_self : (k : HostPath) → host_path_beq k k ≡ true
host_path_beq_self k = ground (arith, text_beq_iff k.host k.host, text_beq_iff k.path k.path)

host_path_eq : (j k : HostPath) → host_path_beq j k ≡ true → j ≡ k
host_path_eq j k h =
    let eh : j.host ≡ k.host = (text_beq_iff j.host k.host).0 (ground arith) in
    let ep : j.path ≡ k.path = (text_beq_iff j.path k.path).0 (ground arith) in cc

-- What `seen` says of a key, `final` says too.
Keeps : Seen → Seen → Type 0
Keeps seen final = (k : HostPath) (app : Text) → owner seen k ≡ some app → owner final k ≡ some app

-- Each entry that parses belongs to the application.
abbrev pub Owns : Seen → Text → List Text → Type 0
Owns final app ds =
    All (λ d. (k : HostPath) → parse_domain_route d ≡ ok k → owner final k ≡ some app) ds

owner-claimed :
    (app : Text) (k : HostPath) (seen : Seen)
    → ((other : Text) → owner seen k ≡ some other → other ≡ app)
    → (owner ((k, app) ∷ seen) k ≡ some app) × Keeps seen ((k, app) ∷ seen)
unfolding owner Keeps
owner-claimed app k seen same = (rw (host_path_beq_self k) refl, kept)
  where
    kept : (j : HostPath) (a : Text) → owner seen j ≡ some a → owner ((k, app) ∷ seen) j ≡ some a
    kept j a e = elim (Bool-cases (host_path_beq k j)) [
      | inl h ↦ rw h (ap some (sym (same a (ap (owner seen) (host_path_eq k j h) ∙ e))))
      | inr h ↦ rw h e
    ]

claim-result :
    (app : Text) (k : HostPath) (seen later : Seen)
    → claim app k seen ≡ ok later
    → (later ≡ (k, app) ∷ seen) × ((other : Text) → owner seen k ≡ some other → other ≡ app)
unfolding claim
claim-result app k seen later h = elim (Option-cases (owner seen k)) [
  | inl e ↦ (ground arith, λ other q. cc)
  | inr (other, e) ↦ (ground arith, λ other' q. ground (arith, text_beq_iff other app))
]

claim-owner :
    (app : Text) (k : HostPath) (seen later : Seen)
    → claim app k seen ≡ ok later
    → (owner later k ≡ some app) × Keeps seen later
claim-owner app k seen later h =
    let (e, same) = claim-result app k seen later h in rw e (owner-claimed app k seen same)

claim_parsed-owner :
    (app d : Text) (o : Outcome DomainError HostPath) (seen later : Seen)
    → parse_domain_route d ≡ o
    → claim_parsed app d o seen ≡ ok later
    → ((k : HostPath) → parse_domain_route d ≡ ok k → owner later k ≡ some app) × Keeps seen later
unfolding claim_parsed
claim_parsed-owner app d (err e) seen later q h = cc
claim_parsed-owner app d (ok k) seen later q h =
    let (mine, kept) = claim-owner app k seen later h in (λ j e. ground arith, kept)

claim_domains-owner :
    (app : Text) (ds : List Text) (seen later : Seen)
    → claim_domains app ds seen ≡ ok later
    → Owns later app ds × Keeps seen later
unfolding claim_domains Keeps
claim_domains-owner app [] seen later h = (tt, λ k a e. ground arith)
claim_domains-owner app (d ∷ ds) seen later h =
    let (mid, here, there) =
      ok_of_bind (claim_parsed app d (parse_domain_route d) seen) (claim_domains app ds) later h in
    let (mine, kept) = claim_parsed-owner app d (parse_domain_route d) seen mid refl here in
    let (rest, kept') = claim_domains-owner app ds mid later there in
    ((λ k e. kept' k app (mine k e), rest), λ k a e. kept' k a (kept k a e))

-- Every entry of every route belongs to the application under which the route stands.
abbrev pub IsOwned : Seen → Table Route → Type 0
IsOwned final = All (λ e. Owns final e.0 e.1.domains)

owned_later :
    (seen final : Seen) (app : Text) (ds : List Text)
    → Keeps seen final
    → Owns seen app ds
    → Owns final app ds
unfolding Keeps
owned_later seen final app [] k h = tt
owned_later seen final app (d ∷ ds) k h =
    ((λ j e. k j app (h.0 j e)), owned_later seen final app ds k h.1)

claim_routes-owner :
    (t : Table Route) (seen final : Seen)
    → claim_routes t seen ≡ ok final
    → IsOwned final t × Keeps seen final × All (λ e. validate_route e.1 ≡ ok tt) t
unfolding claim_routes Keeps
claim_routes-owner [] seen final h = (tt, (λ k a e. ground arith), tt)
claim_routes-owner ((app, r) ∷ t) seen final h =
    let (u, valid, h1) =
      ok_of_bind (validate_route r) (λ _. claim_domains app r.domains seen >>= claim_routes t) final
        h in
    let (mid, here, there) =
      ok_of_bind (claim_domains app r.domains seen) (claim_routes t) final h1 in
    let (mine, kept) = claim_domains-owner app r.domains seen mid here in
    let (rest, kept', valid') = claim_routes-owner t mid final there in
    (
      (owned_later mid final app r.domains kept' mine, rest),
      (λ k a e. kept' k a (kept k a e)),
      (valid, valid'),
    )

-- In a table that is accepted every route is valid, and there is one owner for each host and path:
-- every entry that parses to them stands in the route of that application.
pub validate_routes-owner :
    (t : Table Route)
    → validate_routes t ≡ ok tt
    → All (λ e. validate_route e.1 ≡ ok tt) t
      × ((owner_of : HostPath → Option Text) × All
            (λ e.
              All
                (λ d. (k : HostPath) → parse_domain_route d ≡ ok k → owner_of k ≡ some e.0)
                e.1.domains)
            t)
unfolding validate_routes
validate_routes-owner t h =
    let (final, claimed, _) = ok_of_bind (claim_routes t []) (λ _. ok tt) tt h in
    let (owned, _, valid) = claim_routes-owner t [] final claimed in (valid, (owner final, owned))
