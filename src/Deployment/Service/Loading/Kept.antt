-- ===== src/Deployment/Service/Loading/Kept.antt =====
-- A record whose id no other record has is there once the records are read.
use mathlib.Core.Path.{subst}
use liteploy.Common.{
  ◌≡◌, refl, ap, sym, ◌∙◌, inl, inr, Bool, true, false, ◌&&◌, ◌||◌, Bool-cases, contains, Option,
  none, some, List, [], ◌∷◌, ◌==◌, arith, Outcome, ok, err,
}
use liteploy.Common.Text.{Text, codes, text_eq, text_beq_iff, has_prefix}
use liteploy.Common.Table.{get}
use liteploy.Common.Table.Laws.{get-put, get-put_self}
use liteploy.Storage.{Store, StoreError, read_json}
use liteploy.Deployment.{Deployment}
use liteploy.Deployment.Service.{Service}
use liteploy.Deployment.Service.Loading.{record_path, loaded, load_deployments, load_all}

-- Whether the listings have the directory of a deployment.
unfoldable pub is_listed : List (Text × Option (List Text)) → Text → Text → Bool
is_listed [] a i = false
is_listed ((app, none) ∷ apps) a i = is_listed apps a i
is_listed ((app, some ids) ∷ apps) a i = (app == a && contains ids i) || is_listed apps a i

-- Every record of the store that reads with the id of the deployment is the deployment.
abbrev pub IsOnly : Store Deployment → Deployment → Type 0
IsOnly store d =
    (app id : Text) (d' : Deployment)
    → read_json store (record_path app id) ≡ ok d'
    → d'.id ≡ d.id
    → d' ≡ d

loaded-store : (s : Service) (o : Outcome StoreError Deployment) → (loaded s o).store ≡ s.store
loaded-store s (err e) = refl
loaded-store s (ok d') = refl

load_deployments-store :
    (app : Text) (ids : List Text) (s : Service) → (load_deployments app ids s).store ≡ s.store
unfolding load_deployments
load_deployments-store app [] s = refl
load_deployments-store app (id ∷ ids) s = elim (Bool-cases (has_prefix id (codes "."))) [
  | inl e ↦ rw (e, load_deployments) (load_deployments-store app ids s)
  | inr e ↦
      rw (e, load_deployments)
        (load_deployments-store app ids (loaded s (read_json s.store (record_path app id)))
          ∙ loaded-store s (read_json s.store (record_path app id)))
]

module _ (store : Store Deployment) (d : Deployment) (only : IsOnly store d) where
  abbrev IsKept : Service → Type 0
  IsKept s = (s.store ≡ store) × (get s.deployments d.id ≡ some d)

  loaded-IsKept :
      (app id : Text) (s : Service) (o : Outcome StoreError Deployment)
      → read_json store (record_path app id) ≡ o
      → IsKept s
      → IsKept (loaded s o)
  loaded-IsKept app id s (err e) q h = h
  loaded-IsKept app id s (ok d') q h = elim (Bool-cases (d'.id == d.id)) [
    | inl e ↦
        let same : d' ≡ d = only app id d' q ((text_beq_iff d'.id d.id).0 e) in
        (h.0, get-put s.deployments d'.id d' d.id ∙ rw e (ap some same))
    | inr e ↦ (h.0, get-put s.deployments d'.id d' d.id ∙ rw e h.1)
  ]

  read_here :
      (app id : Text) (s : Service)
      → s.store ≡ store
      → read_json store (record_path app id) ≡ read_json s.store (record_path app id)
  read_here app id s e = sym (ap (λ x. read_json x (record_path app id)) e)

  load_deployments-IsKept :
      (app : Text) (ids : List Text) (s : Service) → IsKept s → IsKept (load_deployments app ids s)
  unfolding load_deployments
  load_deployments-IsKept app [] s h = h
  load_deployments-IsKept app (id ∷ ids) s h = elim (Bool-cases (has_prefix id (codes "."))) [
    | inl e ↦ rw (e, load_deployments) (load_deployments-IsKept app ids s h)
    | inr e ↦
        rw (e, load_deployments)
          (load_deployments-IsKept app ids (loaded s (read_json s.store (record_path app id))) (
            loaded-IsKept app id s (read_json s.store (record_path app id)) (read_here app id s h.0)
              h))
  ]

  load_all-IsKept :
      (apps : List (Text × Option (List Text))) (s : Service) → IsKept s → IsKept (load_all apps s)
  unfolding load_all
  load_all-IsKept [] s h = h
  load_all-IsKept ((app, none) ∷ apps) s h = load_all-IsKept apps s h
  load_all-IsKept ((app, some ids) ∷ apps) s h = elim (Bool-cases (has_prefix app (codes "."))) [
    | inl e ↦ rw (e, load_all) (load_all-IsKept apps s h)
    | inr e ↦
        rw (e, load_all)
          (load_all-IsKept apps (load_deployments app ids s) (load_deployments-IsKept app ids s h))
  ]

  module _ (shown_app : has_prefix d.app_id (codes ".") ≡ false)
      (shown : has_prefix d.id (codes ".") ≡ false)
      (there : read_json store (record_path d.app_id d.id) ≡ ok d) where
    load_deployments-reaches :
        (ids : List Text) (s : Service)
        → s.store ≡ store
        → contains ids d.id ≡ true
        → IsKept (load_deployments d.app_id ids s)
    unfolding load_deployments
    load_deployments-reaches [] s same h = cc
    load_deployments-reaches (id ∷ ids) s same h = elim (Bool-cases (id == d.id)) [
      | inl e ↦
          let at : id ≡ d.id = (text_beq_iff id d.id).0 e in
          let reads : read_json s.store (record_path d.app_id id) ≡ ok d =
            ap (λ x. read_json s.store (record_path d.app_id x)) at
            ∙ sym (read_here d.app_id d.id s same)
            ∙ there in
          let visible : has_prefix id (codes ".") ≡ false =
            ap (λ x. has_prefix x (codes ".")) at ∙ shown in
          rw (visible, reads, load_deployments)
            (load_deployments-IsKept d.app_id ids (loaded s (ok d))
              (same, get-put_self s.deployments d.id d))
      | inr e ↦
          let later : contains ids d.id ≡ true = rest_of e h in
          elim (Bool-cases (has_prefix id (codes "."))) [
            | inl k ↦ rw (k, load_deployments) (load_deployments-reaches ids s same later)
            | inr k ↦
                rw (k, load_deployments)
                  (load_deployments-reaches ids
                    (loaded s (read_json s.store (record_path d.app_id id)))
                    (loaded-store s (read_json s.store (record_path d.app_id id)) ∙ same) later)
          ]
    ]
      where
        rest_of : {a b : Bool} → a ≡ false → a || b ≡ true → b ≡ true
        rest_of p q = ground arith

    pub load_all-reaches :
        (apps : List (Text × Option (List Text))) (s : Service)
        → s.store ≡ store
        → is_listed apps d.app_id d.id ≡ true
        → IsKept (load_all apps s)
    unfolding load_all is_listed
    load_all-reaches [] s same h = cc
    load_all-reaches ((app, none) ∷ apps) s same h = load_all-reaches apps s same h
    load_all-reaches ((app, some ids) ∷ apps) s same h =
        elim (Bool-cases (app == d.app_id && contains ids d.id)) [
          | inl e ↦
              let (name, id) = both_of e in
              let at : app ≡ d.app_id = (text_beq_iff app d.app_id).0 name in
              let visible : has_prefix app (codes ".") ≡ false =
                ap (λ x. has_prefix x (codes ".")) at ∙ shown_app in
              rw (visible, load_all)
                (load_all-IsKept apps (load_deployments app ids s) (
                  subst (λ a. IsKept (load_deployments a ids s)) (sym at)
                    (load_deployments-reaches ids s same id)))
          | inr e ↦
              let later : is_listed apps d.app_id d.id ≡ true = rest_of e h in
              elim (Bool-cases (has_prefix app (codes "."))) [
                | inl k ↦ rw (k, load_all) (load_all-reaches apps s same later)
                | inr k ↦
                    rw (k, load_all)
                      (load_all-reaches apps (load_deployments app ids s)
                        (load_deployments-store app ids s ∙ same) later)
              ]
        ]
      where
        both_of : {a b : Bool} → a && b ≡ true → (a ≡ true) × (b ≡ true)
        both_of p = ground arith

        rest_of : {a b : Bool} → a ≡ false → a || b ≡ true → b ≡ true
        rest_of p q = ground arith
