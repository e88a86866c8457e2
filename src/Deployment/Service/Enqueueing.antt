-- ===== src/Deployment/Service/Enqueueing.antt =====
-- What `Enqueue` promises.
use liteploy.Common.{
  ℕ, suc, ◌≤◌, ◌<◌, ◌≡◌, refl, inl, inr, false, none, some, List, [], ◌∷◌, ◌++◌, ltb, arith,
  Bool-cases, Option-cases, ap, length, count_if, ok, length-append,
}
use liteploy.Common.Text.{Text, text_eq, text_beq_iff, codes}
use liteploy.Common.Table.{Table, put, delete, values}
use liteploy.Storage.{Disk}
use liteploy.Deployment.{queued, is_active, Deployment, fail}
use liteploy.Deployment.Service.{
  Service, queue_capacity, blank, is_active_of, first_active, next_deployment_id,
  persist_deployment, send, admit, enqueue,
}

abbrev pub actives : Text → Table Deployment → ℕ
actives app t = count_if (is_active_of app) (values t)

pub actives-delete :
    (app : Text) (t : Table Deployment) (k : Text) → actives app (delete t k) ≤ actives app t
unfolding delete
actives-delete app [] k = omega arith
actives-delete app ((j, d) ∷ t) k = ground (arith, actives-delete app t k)

-- A record that is not active, or one of another application, adds nothing.
pub actives-put_ne :
    (app : Text) (t : Table Deployment) (k : Text) (d : Deployment)
    → is_active_of app d ≡ false
    → actives app (put t k d) ≤ actives app t
unfolding put
actives-put_ne app t k d h = rw h (actives-delete app t k)

pub actives-put :
    (app : Text) (t : Table Deployment) (k : Text) (d : Deployment)
    → actives app (put t k d) ≤ suc (actives app t)
unfolding put
actives-put app t k d = ground (arith, actives-delete app t k)

pub actives_of_first_active :
    (app : Text) (ds : List Deployment)
    → first_active app ds ≡ none
    → count_if (is_active_of app) ds ≡ 0
unfolding first_active
actives_of_first_active app [] h = refl
actives_of_first_active app (d ∷ ds) h = ground (arith, actives_of_first_active app ds)

-- What holds of a service between two calls.
pub record IsValid (s : Service) : Type 0 where
  pub bounded : length s.queue ≤ queue_capacity
  pub one_active : (app : Text) → actives app s.deployments ≤ 1

put-one_active :
    (t : Table Deployment) (d : Deployment)
    → actives d.app_id t ≡ 0
    → ((app : Text) → actives app t ≤ 1)
    → (app : Text) → actives app (put t d.id d) ≤ 1
put-one_active t d z h app = elim (Bool-cases (is_active_of app d)) [
  | inl e ↦
      let same : d.app_id ≡ app = (text_beq_iff d.app_id app).0 (ground arith) in
      omega (arith, actives-put app t d.id d, ap (λ a. actives a t) same)
  | inr e ↦ omega (arith, actives-put_ne app t d.id d e, h app)
]

failed_inactive :
    (app : Text) (now : ℕ) (stage msg : Text) (d : Deployment)
    → is_active_of app (fail now stage msg d) ≡ false
unfolding fail is_active
failed_inactive app now stage msg d = ground arith

pub persist-deployments :
    (disk : Disk) (d : Deployment) (s : Service)
    → ((persist_deployment disk d s).0.deployments ≡ s.deployments)
      × ((persist_deployment disk d s).0.queue ≡ s.queue)
unfolding persist_deployment
persist-deployments disk d s = (refl, refl)

send-one_active :
    (disk : Disk) (now : ℕ) (d : Deployment) (s : Service)
    → actives d.app_id s.deployments ≡ 0
    → ((app : Text) → actives app s.deployments ≤ 1)
    → (app : Text) → actives app (send disk now d s).0.deployments ≤ 1
unfolding send
send-one_active disk now d s z h app = elim (Bool-cases (ltb (length s.queue) queue_capacity)) [
  | inl e ↦ rw e (put-one_active s.deployments d z h app)
  | inr e ↦
      let failed = fail now (codes "queue") (codes "deployment queue is full") d in
      rw e (
        omega (
          arith,
          put-one_active s.deployments d z h app,
          actives-put_ne app (put s.deployments d.id d) d.id failed
              (failed_inactive app now (codes "queue") (codes "deployment queue is full") d),
        ))
]

send-bounded :
    (disk : Disk) (now : ℕ) (d : Deployment) (s : Service)
    → length s.queue ≤ queue_capacity
    → length (send disk now d s).0.queue ≤ queue_capacity
unfolding send
send-bounded disk now d s h = elim (Bool-cases (ltb (length s.queue) queue_capacity)) [
  | inl e ↦ rw e (rw length-append (ground arith))
  | inr e ↦ rw e h
]

send-IsValid :
    (disk : Disk) (now : ℕ) (d : Deployment) (s : Service)
    → IsValid s
    → actives d.app_id s.deployments ≡ 0
    → IsValid (send disk now d s).0
send-IsValid disk now d s v z = record {
  bounded = send-bounded disk now d s v.bounded;
  one_active = send-one_active disk now d s z v.one_active;
}

persist-IsValid :
    (disk : Disk) (d : Deployment) (s : Service)
    → IsValid s
    → IsValid (persist_deployment disk d s).0
unfolding persist_deployment
persist-IsValid disk d s v = record { bounded = v.bounded; one_active = v.one_active }

admit-IsValid :
    (disk : Disk) (now : ℕ) (app triggered_by : Text) (s : Service)
    → IsValid s
    → actives app s.deployments ≡ 0
    → IsValid (admit disk now app triggered_by s).0
unfolding admit
admit-IsValid disk now app triggered_by s v z =
    let d : Deployment = record blank {
      id = next_deployment_id app s;
      app_id = app;
      status = queued;
      created_at = now;
      triggered_by = triggered_by;
    } in
    elim (Option-cases (persist_deployment disk d s).1) [
      | inl e ↦ rw e (send-IsValid disk now d _ (persist-IsValid disk d s v) z)
      | inr (x, e) ↦ rw e (persist-IsValid disk d s v)
    ]

-- A call of `Enqueue`, whatever it returns, leaves at most 64 jobs in the queue and at most one
-- active deployment for each application, if there were no more before.
pub enqueue-IsValid :
    (disk : Disk) (now : ℕ) (app triggered_by : Text) (s : Service)
    → IsValid s
    → IsValid (enqueue disk now app triggered_by s).0
unfolding enqueue
enqueue-IsValid disk now app triggered_by s v =
    elim (Option-cases (first_active app (values s.deployments))) [
      | inl e ↦
          rw (e, enqueue)
            (admit-IsValid disk now app triggered_by s v
              (actives_of_first_active app (values s.deployments) e))
      | inr (d, e) ↦ rw (e, enqueue) v
    ]

abbrev pub new_deployment : ℕ → Text → Text → Service → Deployment
new_deployment now app triggered_by s = record blank {
  id = next_deployment_id app s;
  app_id = app;
  status = queued;
  created_at = now;
  triggered_by = triggered_by;
}

pub admit_ok :
    (disk : Disk) (now : ℕ) (app triggered_by : Text) (s : Service) (d : Deployment)
    → (admit disk now app triggered_by s).1 ≡ ok d
    → (d ≡ new_deployment now app triggered_by s)
      × ((admit disk now app triggered_by s).0.deployments ≡ put s.deployments d.id d)
      × ((admit disk now app triggered_by s).0.queue
          ≡ s.queue ++ record { dep = d; cancel = some s.next_context } ∷ [])
      × (length s.queue < queue_capacity)
unfolding admit send persist_deployment
admit_ok disk now app triggered_by s d h = ground arith
