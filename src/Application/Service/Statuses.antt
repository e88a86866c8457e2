-- ===== src/Application/Service/Statuses.antt =====
-- What a change of an application's status leaves of the others.
use liteploy.Common.{
  ℕ, ◌≡◌, ◌≢◌, refl, ap, sym, ◌∙◌, ◌⊎◌, inl, inr, Bool, true, false, none, some, ◌==◌,
  if◌then◌else◌, is_empty, Bool-cases, Option-cases,
}
use liteploy.Common.Text.{Text, text_eq, text_beq_iff}
use liteploy.Common.Table.{Table, get, put}
use liteploy.Common.Table.Laws.{get-put}
use liteploy.Storage.{Disk}
use liteploy.Application.Types.{Application, Status}
use liteploy.Application.Service as Applications
use liteploy.Application.Service.{list, older, update_status, persist}

none_is_some : (app : Application) → none ≢ some app
none_is_some app q = cc

-- What stands under a key after a put.
pub put_at :
    (t : Table Application) (id k : Text) (new app : Application)
    → get (put t id new) k ≡ some app
    → ((id ≢ k) × (get t k ≡ some app)) ⊎ ((id ≡ k) × (new ≡ app))
put_at t id k new app h = elim (Bool-cases (id == k)) [
  | inl e ↦ inr ((text_beq_iff id k).0 e, same (sym (get-put t id new k ∙ choose e) ∙ h))
  | inr e ↦
      inl ((λ q. differ (sym e ∙ (text_beq_iff id k).1 q)), sym (get-put t id new k ∙ choose e) ∙ h)
]
  where
    choose :
        {b : Bool}
        → (id == k) ≡ b
        → (if id == k then some new else get t k) ≡ (if b then some new else get t k)
    choose e = ap (λ b. if b then some new else get t k) e

    same : some new ≡ some app → new ≡ app
    same q = cc

    differ : ¬ (false ≡ true)
    differ q = cc

module _ (disk : Disk) (now : ℕ) where
  abbrev pub changed : Status → Text → Application → Application
  changed status container old = record old {
    status = status;
    container_id = if is_empty container then old.container_id else container;
    updated_at = now;
  }

  pub update_missing :
      (id container : Text) (status : Status) (s : Applications.Service)
      → get s.apps id ≡ none
      → (update_status disk now id status container s).0.apps ≡ s.apps
  unfolding update_status
  update_missing id container status s e = rw (e, update_status) refl

  pub update_found :
      (id container : Text) (status : Status) (s : Applications.Service) (old : Application)
      → get s.apps id ≡ some old
      → (update_status disk now id status container s).0.apps
        ≡ put s.apps id (changed status container old)
  unfolding update_status persist
  update_found id container status s old e = rw (e, update_status, persist) refl

  -- What stands under a key after a change of a status.
  pub update_at :
      (id k container : Text) (status : Status) (s : Applications.Service) (app : Application)
      → get (update_status disk now id status container s).0.apps k ≡ some app
      → ((id ≢ k) × (get s.apps k ≡ some app)) ⊎ ((id ≡ k) × (app.status ≡ status))
  update_at id k container status s app h = elim (Option-cases (get s.apps id)) [
    | inl e ↦
        let there : get s.apps k ≡ some app =
          sym (ap (λ t. get t k) (update_missing id container status s e)) ∙ h in
        inl ((λ q. none_is_some app (sym e ∙ ap (λ x. get s.apps x) q ∙ there)), there)
    | inr (old, e) ↦
        elim (put_at s.apps id k (changed status container old) app
          (sym (ap (λ t. get t k) (update_found id container status s old e)) ∙ h)) [
            | inl (other, there) ↦ inl (other, there)
            | inr (same, new) ↦ inr (same, sym (ap (λ a. a.status) new))
          ]
  ]
