-- ===== src/Deployment/RestartTests.antt =====
-- The witness for the deployments after a restart.
use mathlib.Core.Path.{subst}
use liteploy.Common.{
  ◌≡◌, refl, sym, true, false, Option, none, some, List, [], ◌∷◌, ◌++◌, arith, Outcome, ok, err,
}
use liteploy.Common.Table.{get, put, delete}
use liteploy.Common.Text.{Text, codes, text_beq, includes, has_prefix, strip_prefix, split, join}
use liteploy.Common.FilePath.{
  is_abs, clean, clean_parts, resolve, push_part, show_parts, join_all, rel,
}
use liteploy.Storage.{
  Store, atomic_write, write_states, Disk, StoreError, write_json, read_json, safe_path,
}
use liteploy.Deployment.{Deployment, is_active}
use liteploy.Deployment.Service.{Service, already_active, blank, enqueue, find, meta_path}
use liteploy.Deployment.Service.Loading.{load_all, started_over, record_path}
use liteploy.Deployment.Service.Loading.Kept.{is_listed, IsOnly}
use liteploy.Deployment.Service.Loading.Restart.{restart_refuses}

abbrev queued_one : Deployment
queued_one = record blank { id = codes "0001"; app_id = codes "shop"; created_at = 3 }

abbrev working : Disk
working = record { mkdir_fails = λ _. false; fault = λ _. none; temp_name = λ p. p ++ codes ".tmp" }

abbrev empty_service : Service
empty_service = started_over (record { root = codes "/d"; files = [] })

one_is_active : is_active queued_one.status ≡ true
unfolding is_active
one_is_active = refl

app_is_shown : has_prefix queued_one.app_id (codes ".") ≡ false
unfolding has_prefix strip_prefix
app_is_shown = refl

one_is_shown : has_prefix queued_one.id (codes ".") ≡ false
unfolding has_prefix strip_prefix
one_is_shown = refl

one_is_written : (write_json working empty_service.store (meta_path queued_one) queued_one).1 ≡ none
unfolding write_json meta_path safe_path includes has_prefix strip_prefix text_beq rel join_all
    is_abs clean clean_parts resolve push_part show_parts split join
one_is_written = refl

one_file :
    (root path : Text) (v v' : Deployment) (p : Text)
    → read_json (record { root = root; files = (path, some v) ∷ [] }) p ≡ ok v'
    → v' ≡ v
unfolding read_json get
one_file root path v v' p h = by_path (safe_path root p) refl
  where
    by_path : (o : Outcome StoreError Text) → safe_path root p ≡ o → v' ≡ v
    by_path (err e) q = ground arith
    by_path (ok at) q = ground arith

abbrev one_stored : Store Deployment
one_stored = record {
  root = codes "/d";
  files = (codes "/d/applications/shop/deployments/0001/meta.json", some queued_one) ∷ [];
}

one_is_stored :
    (write_json working empty_service.store (meta_path queued_one) queued_one).0 ≡ one_stored
unfolding write_json meta_path safe_path includes has_prefix strip_prefix text_beq rel join_all
    is_abs clean clean_parts resolve push_part show_parts split join atomic_write write_states put
    delete get
one_is_stored = refl

one-IsOnly :
    IsOnly (write_json working empty_service.store (meta_path queued_one) queued_one).0 queued_one
one-IsOnly =
    subst (λ x. IsOnly x queued_one) (sym one_is_stored)
      (λ app id d' h same.
        one_file one_stored.root (codes "/d/applications/shop/deployments/0001/meta.json")
          queued_one d' (record_path app id) h)

-- A directory that is hidden, an application without deployments, and the one with the deployment
-- behind one whose record is gone.
abbrev listings : List (Text × Option (List Text))
listings =
    (codes ".tmp", some (codes "0001" ∷ []))
    ∷ (codes "blog", none)
    ∷ (codes "shop", some (codes "0000" ∷ codes "0001" ∷ []))
    ∷ []

one_is_listed : is_listed listings (codes "shop") (codes "0001") ≡ true
unfolding is_listed text_beq
one_is_listed = refl

restart_refuses_example :
    (s' : Service) × (load_all listings
        (started_over (write_json working empty_service.store (meta_path queued_one) queued_one).0)
      ≡ s')
    × (find (codes "0001") s' ≡ ok queued_one)
    × ((other : Deployment) × (enqueue working 5 (codes "shop") (codes "me") s'
          ≡ (s', err (already_active other.id))))
restart_refuses_example =
    restart_refuses working 5 (codes "me") empty_service queued_one listings one_is_active
      app_is_shown one_is_shown one_is_written one-IsOnly one_is_listed
