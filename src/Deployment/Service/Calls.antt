-- ===== src/Deployment/Service/Calls.antt =====
-- What a caller of `Enqueue` sees, alone and beside another call.
use mathlib.Core.Path.{subst}
use liteploy.Common.{
  ℕ, ◌+◌, ◌^◌, ◌<◌, ◌≡◌, refl, ◌≢◌, inl, inr, true, none, some, List, [], ◌∷◌, ◌++◌, ◌==◌,
  if◌then◌else◌, arith, Option-cases, All, ap, ◌∙◌, sym, length, count_if, ok, err,
}
use liteploy.Common.Text.{Text, text_eq, text_beq, text_beq_iff, codes}
use liteploy.Common.Table.{Table, get, put, delete, values}
use liteploy.Common.Table.Laws.{get-put, get-put_self}
use liteploy.Storage.{Disk}
use liteploy.Deployment.{is_active, Deployment, fail}
use liteploy.Deployment.Service.{
  Service, already_active, queue_full, queue_capacity, is_active_of, first_active,
  next_deployment_id, persist_deployment, send, admit, enqueue, find, max_id,
}
use liteploy.Deployment.Service.Freshness.{next_deployment_id_fresh}
use liteploy.Deployment.Service.Enqueueing.{
  actives, actives-delete, new_deployment, admit_ok, persist-deployments, actives_of_first_active,
}

-- A call of `Enqueue` that returns a deployment: it is the new queued record, it is found under its
-- id, its job is the last of the queue, there was room, and the application had none active. Each
-- other id finds what it found before.
pub enqueue_ok :
    (disk : Disk) (now : ℕ) (app triggered_by : Text) (s : Service) (d : Deployment)
    → (enqueue disk now app triggered_by s).1 ≡ ok d
    → (d ≡ new_deployment now app triggered_by s)
      × ((j : Text)
          → get (enqueue disk now app triggered_by s).0.deployments j
            ≡ (if d.id == j then some d else get s.deployments j))
      × ((enqueue disk now app triggered_by s).0.queue
          ≡ s.queue ++ record { dep = d; cancel = some s.next_context } ∷ [])
      × (length s.queue < queue_capacity)
      × (actives app s.deployments ≡ 0)
unfolding enqueue
enqueue_ok disk now app triggered_by s d h =
    elim (Option-cases (first_active app (values s.deployments))) [
      | inl e ↦
          let (new, kept, sent, room) =
            admit_ok disk now app triggered_by s d (rw (e, enqueue) at h) in
          (
            new,
            λ j. rw (e, enqueue) (rw kept (get-put s.deployments d.id d j)),
            rw (e, enqueue) sent,
            room,
            actives_of_first_active app (values s.deployments) e,
          )
      | inr (x, e) ↦ absurd (active_err x e)
    ]
  where
    active_err : (x : Deployment) → ¬ (first_active app (values s.deployments) ≡ some x)
    active_err x e = ground arith

active_found :
    (app : Text) (ds : List Deployment) (d : Deployment)
    → first_active app ds ≡ some d
    → is_active_of app d ≡ true
unfolding first_active
active_found app [] d e = cc
active_found app (x ∷ ds) d e = ground (arith, active_found app ds d)

-- An application with an active deployment gets no other: the call names an active deployment of
-- the application and changes nothing.
pub enqueue_refuses :
    (disk : Disk) (now : ℕ) (app triggered_by : Text) (s : Service)
    → 0 < actives app s.deployments
    → (d : Deployment) × (enqueue disk now app triggered_by s ≡ (s, err (already_active d.id)))
      × (is_active_of app d ≡ true)
unfolding enqueue
enqueue_refuses disk now app triggered_by s h =
    elim (Option-cases (first_active app (values s.deployments))) [
      | inl e ↦ absurd (omega (arith, actives_of_first_active app (values s.deployments) e))
      | inr (d, e) ↦ (d, rw (e, enqueue) refl, active_found app (values s.deployments) d e)
    ]

none_of_actives :
    (app : Text) (ds : List Deployment)
    → count_if (is_active_of app) ds ≡ 0
    → first_active app ds ≡ none
unfolding first_active
none_of_actives app [] h = refl
none_of_actives app (d ∷ ds) h = ground (arith, none_of_actives app ds)

send_full :
    (disk : Disk) (now : ℕ) (d : Deployment) (s : Service)
    → length s.queue ≡ queue_capacity
    → ((send disk now d s).1 ≡ err queue_full)
      × (get (send disk now d s).0.deployments d.id
          ≡ some (fail now (codes "queue") (codes "deployment queue is full") d))
      × ((send disk now d s).0.queue ≡ s.queue)
unfolding send persist_deployment
send_full disk now d s h = rw h (refl, get-put_self _ d.id _, refl)

enqueue_of_none :
    (disk : Disk) (now : ℕ) (app by : Text) (s : Service)
    → first_active app (values s.deployments) ≡ none
    → enqueue disk now app by s ≡ admit disk now app by s
unfolding enqueue
enqueue_of_none disk now app by s e = rw (e, enqueue) refl

admit_of_persisted :
    (disk : Disk) (now : ℕ) (app by : Text) (s : Service)
    → (persist_deployment disk (new_deployment now app by s) s).1 ≡ none
    → admit disk now app by s
      ≡ send disk now
          (new_deployment now app by s)
          (persist_deployment disk (new_deployment now app by s) s).0
unfolding admit
admit_of_persisted disk now app by s saved = rw saved refl

-- A queue with no room: the call fails, and the record that it leaves is failed in stage "queue".
pub enqueue_full :
    (disk : Disk) (now : ℕ) (app triggered_by : Text) (s : Service)
    → actives app s.deployments ≡ 0
    → length s.queue ≡ queue_capacity
    → (persist_deployment disk (new_deployment now app triggered_by s) s).1 ≡ none
    → ((enqueue disk now app triggered_by s).1 ≡ err queue_full)
      × (find (next_deployment_id app s) (enqueue disk now app triggered_by s).0
          ≡ ok (
              fail now
                (codes "queue")
                (codes "deployment queue is full")
                (new_deployment now app triggered_by s)))
      × ((enqueue disk now app triggered_by s).0.queue ≡ s.queue)
unfolding find
enqueue_full disk now app triggered_by s z full saved =
    let d : Deployment = new_deployment now app triggered_by s in
    let kept : Service = (persist_deployment disk d s).0 in
    let same : kept.queue ≡ s.queue = (persist-deployments disk d s).1 in
    let (refused, stored, unsent) = send_full disk now d kept (ap length same ∙ full) in
    rw
      (
        enqueue_of_none disk now app triggered_by s (none_of_actives app (values s.deployments) z),
        admit_of_persisted disk now app triggered_by s saved,
      )
      (refused, rw (stored, find) refl, unsent ∙ same)

actives-put_fresh :
    (app : Text) (t : Table Deployment) (d d' : Deployment)
    → actives app t ≡ 0
    → is_active_of app d ≡ true
    → is_active_of app d' ≡ true
    → d.id ≢ d'.id
    → actives app (put (put t d.id d) d'.id d') ≡ 2
unfolding put delete
actives-put_fresh app t d d' z h h' ne = ground (
  arith,
  text_beq_iff d.id d'.id,
  actives-delete app t d.id,
  actives-delete app (delete t d.id) d'.id,
)

new_is_active :
    (now : ℕ) (app trig : Text) (s : Service)
    → is_active_of app (new_deployment now app trig s) ≡ true
unfolding is_active
new_is_active now app trig s = ground (arith, text_beq_iff app app)

fresh_head :
    (app : Text) (t : Table Deployment) (d d' : Deployment) (id : Text)
    → d.app_id ≡ app
    → d'.id ≡ id
    → All (λ x. text_beq x.app_id app ≡ true → x.id ≢ id) (values (put t d.id d))
    → d.id ≢ d'.id
unfolding put
fresh_head app t d d' id same e h q = h.0 ((text_beq_iff d.app_id app).1 same) (q ∙ e)

-- Two calls of `Enqueue` for one application both pass the check before either stores its record, and
-- the second takes its id when the first has stored its own: where both get past their store, two
-- deployments of the application are active. The application has no active deployment before, and its
-- next number fits an `int`.
pub enqueue_race :
    (disk : Disk) (now now' : ℕ) (app by by' : Text) (s : Service) (d d' : Deployment)
    → actives app s.deployments ≡ 0
    → (admit disk now app by s).1 ≡ ok d
    → (admit disk now' app by' (admit disk now app by s).0).1 ≡ ok d'
    → max_id app (values (admit disk now app by s).0.deployments) 0 + 1 < 2 ^ 63
    → actives app (admit disk now' app by' (admit disk now app by s).0).0.deployments ≡ 2
enqueue_race disk now now' app by by' s d d' z h h' b =
    let s' : Service = (admit disk now app by s).0 in
    let (new, kept, _, _) = admit_ok disk now app by s d h in
    let (new', kept', _, _) = admit_ok disk now' app by' s' d' h' in
    let fresh : All (λ x. text_beq x.app_id app ≡ true → x.id ≢ next_deployment_id app s')
        (values (put s.deployments d.id d)) =
      subst
        (λ t. All (λ x. text_beq x.app_id app ≡ true → x.id ≢ next_deployment_id app s') (values t))
        kept (next_deployment_id_fresh app s' b) in
    rw kept' (
      rw kept (
        actives-put_fresh app s.deployments d d' z
          (ap (is_active_of app) new ∙ new_is_active now app by s)
          (ap (is_active_of app) new' ∙ new_is_active now' app by' s')
          (fresh_head app s.deployments d d' (next_deployment_id app s') (ap (λ x. x.app_id) new)
            (ap (λ x. x.id) new') fresh)))

-- Ids count per application, and the records are kept under the id alone. Where the next id of an
-- application is the id of another application's deployment, a call of `Enqueue` that returns a
-- deployment replaces that record: the id finds the new one, which belongs to the caller.
pub enqueue_replaces :
    (disk : Disk) (now : ℕ) (app by : Text) (s : Service) (other d : Deployment)
    → get s.deployments (next_deployment_id app s) ≡ some other
    → other.app_id ≢ app
    → (enqueue disk now app by s).1 ≡ ok d
    → (find (next_deployment_id app s) (enqueue disk now app by s).0 ≡ ok d)
      × (d.app_id ≡ app)
      × (d ≢ other)
unfolding find
enqueue_replaces disk now app by s other d held foreign h =
    let (new, lookup, _, _, _) = enqueue_ok disk now app by s d h in
    let id_eq : d.id ≡ next_deployment_id app s = ap (λ x. x.id) new in
    let app_eq : d.app_id ≡ app = ap (λ x. x.app_id) new in
    (
      rw
          (
            lookup (next_deployment_id app s),
            find,
            (text_beq_iff d.id (next_deployment_id app s)).1 id_eq,
          )
          refl,
      app_eq,
      λ e. foreign (ap (λ x. x.app_id) (sym e) ∙ app_eq),
    )
