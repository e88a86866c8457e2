-- ===== src/Deployment/Service/Loading/Restart.antt =====
-- What a deployment that was active means after a restart.
use liteploy.Common.{
  ℕ, ◌≡◌, refl, ap, sym, ◌∙◌, inl, inr, true, false, Bool-cases, Option, none, some, List, [], ◌∷◌,
  ◌==◌, arith, ok, err,
}
use liteploy.Common.Text.{Text, codes, text_eq, text_beq_iff, has_prefix}
use liteploy.Common.Table.{Table, get, values}
use liteploy.Storage.{Store, Disk, write_json}
use liteploy.Storage.Writes.{read_json-write_json}
use liteploy.Application.Service.Names.{true_is_false}
use liteploy.Deployment.{Deployment, is_active}
use liteploy.Deployment.Service.{
  Service, already_active, first_active, is_active_of, meta_path, enqueue, find,
}
use liteploy.Deployment.Service.Loading.{load_all, started_over}
use liteploy.Deployment.Service.Loading.Kept.{is_listed, IsOnly, load_all-reaches}

first_active_of_get :
    (t : Table Deployment) (k : Text) (d : Deployment)
    → get t k ≡ some d
    → is_active_of d.app_id d ≡ true
    → (e : Deployment) × (first_active d.app_id (values t) ≡ some e)
unfolding get first_active
first_active_of_get [] k d h a = cc
first_active_of_get ((j, v) ∷ t) k d h a = elim (Bool-cases (is_active_of d.app_id v)) [
  | inl e ↦ (v, rw (e, first_active) refl)
  | inr e ↦ elim (Bool-cases (j == k)) [
    | inl q ↦
        let same : v ≡ d = some_injective (sym (rw (q, get) refl) ∙ h) in
        absurd (true_is_false (is_active_of d.app_id v) (ap (is_active_of d.app_id) same ∙ a) e)
    | inr q ↦
        let (found, f) = first_active_of_get t k d (sym (rw (q, get) refl) ∙ h) a in
        (found, rw (e, first_active) f)
  ]
]
  where
    some_injective : {x y : Deployment} → some x ≡ some y → x ≡ y
    some_injective e = cc

refuses_of_active :
    (disk : Disk) (now : ℕ) (app triggered_by : Text) (s : Service) (d : Deployment)
    → first_active app (values s.deployments) ≡ some d
    → enqueue disk now app triggered_by s ≡ (s, err (already_active d.id))
unfolding enqueue
refuses_of_active disk now app triggered_by s d h = rw (h, enqueue) refl

found_of_get :
    (id : Text) (s : Service) (d : Deployment) → get s.deployments id ≡ some d → find id s ≡ ok d
unfolding find
found_of_get id s d h = rw (h, find) refl

-- A deployment that was written while it was active is there after a restart as it was written, still
-- active, and from then on `Enqueue` refuses every deployment of its application. The restart may list
-- any applications with any deployments, this one among them. The names of its two directories do not
-- start with a dot, and no other record of the store has its id, under which the records are kept.
pub restart_refuses :
    (disk : Disk) (now : ℕ) (triggered_by : Text) (s : Service) (d : Deployment)
    (apps : List (Text × Option (List Text)))
    → is_active d.status ≡ true
    → has_prefix d.app_id (codes ".") ≡ false
    → has_prefix d.id (codes ".") ≡ false
    → (write_json disk s.store (meta_path d) d).1 ≡ none
    → IsOnly (write_json disk s.store (meta_path d) d).0 d
    → is_listed apps d.app_id d.id ≡ true
    → (s' : Service) × (load_all apps (started_over (write_json disk s.store (meta_path d) d).0)
        ≡ s')
      × (find d.id s' ≡ ok d)
      × ((other : Deployment) × (enqueue disk now d.app_id triggered_by s'
            ≡ (s', err (already_active other.id))))
unfolding meta_path
restart_refuses disk now triggered_by s d apps active shown_app shown wrote only listed =
    let store : Store Deployment = (write_json disk s.store (meta_path d) d).0 in
    let s' : Service = load_all apps (started_over store) in
    let kept : get s'.deployments d.id ≡ some d =
      (load_all-reaches store d only shown_app shown
        (read_json-write_json disk s.store (meta_path d) d wrote) apps (started_over store) refl
        listed).1 in
    let own : is_active_of d.app_id d ≡ true = ground (arith, text_beq_iff d.app_id d.app_id) in
    let (first, f) = first_active_of_get s'.deployments d.id d kept own in
    (
      s',
      refl,
      found_of_get d.id s' d kept,
      (first, refuses_of_active disk now d.app_id triggered_by s' first f),
    )
