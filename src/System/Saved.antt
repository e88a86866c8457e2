-- ===== src/System/Saved.antt =====
-- What a change of the primary domain leaves, in memory and for the next start.
use mathlib.Core.Path.{subst}
use liteploy.Common.{
  ℕ, ◌≡◌, ◌≢◌, refl, ap, sym, ◌∙◌, ◌⊎◌, inl, inr, false, Option, none, some, [], ◌∷◌, arith,
  Option-cases, ok,
}
use liteploy.Common.Text.{Text, trim_space, to_lower}
use liteploy.Storage.{Store, Disk, StoreError, write_json, read_json}
use liteploy.Storage.Writes.{read_json-write_json}
use liteploy.System.Settings.{
  SystemSettings, SettingsService, SettingsError, bad_domain, settings_file, sub_or_default, below,
  load, new_settings_service, completed, stored, save, validate_domain, checked, with_domain,
  set_primary_domain,
}

-- The name of the dashboard follows from the primary domain.
abbrev pub IsCoherent : SystemSettings → Type 0
IsCoherent d =
    (d.dashboard_sub ≢ [])
    × (((d.primary_domain ≡ []) × (d.dashboard_domain ≡ []))
        ⊎ ((d.primary_domain ≢ []) × (d.dashboard_domain ≡ below d.dashboard_sub d.primary_domain)))

-- After a restart, the service reads these settings.
abbrev pub IsStored : SettingsService → Type 0
IsStored s = new_settings_service s.store ≡ ok s

sub_is_filled : (sub : Text) → sub_or_default sub ≢ []
sub_is_filled [] q = cc
sub_is_filled (c ∷ t) q = cc

sub_stays : (sub : Text) → sub ≢ [] → sub_or_default sub ≡ sub
sub_stays [] h = absurd (h refl)
sub_stays (c ∷ t) h = refl

completed-IsCoherent : (now : ℕ) (d : SystemSettings) → IsCoherent (completed now d)
unfolding completed
completed-IsCoherent now d = (sub_is_filled d.dashboard_sub, by_domain d.primary_domain refl)
  where
    by_domain :
        (t : Text)
        → d.primary_domain ≡ t
        → (((d.primary_domain ≡ []) × ((completed now d).dashboard_domain ≡ []))
            ⊎ ((d.primary_domain ≢ [])
                × ((completed now d).dashboard_domain
                    ≡ below (sub_or_default d.dashboard_sub) d.primary_domain)))
    by_domain [] e = inl (e, rw (e, completed) refl)
    by_domain (c ∷ t) e = inr ((λ q. filled (sym e ∙ q)), rw (e, completed) refl)
      where
        filled : c ∷ t ≢ []
        filled q = cc

-- What `Save` leaves: an error and the settings in memory as before, or the settings completed, which
-- a restart reads again.
abbrev IsSaved :
    ℕ → SystemSettings → SettingsService → SettingsService × Option SettingsError → Type 0
IsSaved now d s (s', e) =
    ((e ≢ none) × (s'.settings ≡ s.settings))
    ⊎ ((e ≡ none) × (s'.settings ≡ completed now d) × IsStored s')

load_of :
    (s : SettingsService) (found : SystemSettings)
    → read_json s.store settings_file ≡ ok found
    → load s
      ≡ ok (record s {
        settings = record found { dashboard_sub = sub_or_default found.dashboard_sub };
      })
unfolding load
load_of s found h = rw (h, load) refl

completed-IsStored :
    (now : ℕ) (d : SystemSettings) (store : Store SystemSettings)
    → read_json store settings_file ≡ ok (completed now d)
    → IsStored (record { store = store; settings = completed now d })
unfolding completed new_settings_service
completed-IsStored now d store h =
    load_of _ (completed now d) h
    ∙ ap (λ sub. ok (with_sub sub))
        (sub_stays (sub_or_default d.dashboard_sub) (sub_is_filled d.dashboard_sub))
  where
    with_sub : Text → SettingsService
    with_sub sub = record {
      store = store;
      settings = record (completed now d) { dashboard_sub = sub };
    }

save-IsSaved :
    (disk : Disk) (now : ℕ) (d : SystemSettings) (s : SettingsService)
    → IsSaved now d s (save disk now d s)
unfolding save
save-IsSaved disk now d s = by_write (write_json disk s.store settings_file (completed now d)) refl
  where
    by_write :
        (p : Store SystemSettings × Option StoreError)
        → write_json disk s.store settings_file (completed now d) ≡ p
        → IsSaved now d s (stored s (completed now d) p)
    by_write (store, some e) q = inl ((λ k. ground arith), refl)
    by_write (store, none) q = inr (
      refl,
      refl,
      completed-IsStored now d store (
          sym (ap (λ p. read_json p.0 settings_file) q)
          ∙ read_json-write_json disk s.store settings_file (completed now d) (ap (λ p. p.1) q)),
    )

-- What `SetPrimaryDomain` leaves: an error and the settings as before, or the new domain, checked, with
-- its dashboard, in memory and for the next start.
abbrev pub IsMoved : Text → SettingsService → SettingsService × Option SettingsError → Type 0
IsMoved domain s (s', e) =
    ((e ≢ none) × (s'.settings ≡ s.settings))
    ⊎ ((e ≡ none)
        × ((domain ≡ []) ⊎ (validate_domain domain ≡ none))
        × (s'.settings.primary_domain ≡ domain)
        × IsCoherent s'.settings
        × IsStored s'
        × (domain ≢ [] → s'.settings.dns_verified ≡ s.settings.dns_verified)
        × (domain ≡ [] → s'.settings.dns_verified ≡ false))

checked_cases :
    (domain : Text) → checked domain ≡ none → (domain ≡ []) ⊎ (validate_domain domain ≡ none)
checked_cases [] h = inl refl
checked_cases (c ∷ t) h = inr h

with_domain-primary :
    (domain : Text) (d : SystemSettings) → (with_domain domain d).primary_domain ≡ domain
unfolding with_domain
with_domain-primary [] d = refl
with_domain-primary (c ∷ t) d = refl

with_domain-verified :
    (domain : Text) (d : SystemSettings)
    → (domain ≢ [] → (with_domain domain d).dns_verified ≡ d.dns_verified)
      × (domain ≡ [] → (with_domain domain d).dns_verified ≡ false)
unfolding with_domain
with_domain-verified [] d = ((λ h. absurd (h refl)), λ h. refl)
with_domain-verified (c ∷ t) d = ((λ h. refl), λ h. cc)

saved-IsMoved :
    (now : ℕ) (domain : Text) (s : SettingsService) (p : SettingsService × Option SettingsError)
    → checked domain ≡ none
    → IsSaved now (with_domain domain s.settings) s p
    → IsMoved domain s p
unfolding completed
saved-IsMoved now domain s (s', e) good (inl (failed, same)) = inl (failed, same)
saved-IsMoved now domain s (s', e) good (inr (done, same, kept)) = inr (
  done,
  checked_cases domain good,
  ap (λ d. d.primary_domain) same ∙ with_domain-primary domain s.settings,
  subst IsCoherent (sym same) (completed-IsCoherent now (with_domain domain s.settings)),
  kept,
  (λ h. ap (λ d. d.dns_verified) same ∙ (with_domain-verified domain s.settings).0 h),
  λ h. ap (λ d. d.dns_verified) same ∙ (with_domain-verified domain s.settings).1 h,
)

-- A change of the primary domain has an error and leaves the settings as they were, or it sets the
-- domain in lower case, which is empty or valid, with the dashboard's name below it, and a restart
-- reads the same settings. A verification of the old domain stays in force for the new one; it is
-- withdrawn only where the domain is removed.
pub set_primary_domain-IsMoved :
    (disk : Disk) (now : ℕ) (raw : Text) (s : SettingsService)
    → IsMoved (trim_space (to_lower raw)) s (set_primary_domain disk now raw s)
unfolding set_primary_domain
set_primary_domain-IsMoved disk now raw s = elim (Option-cases (checked domain)) [
  | inl q ↦
      let moved : set_primary_domain disk now raw s
          ≡ save disk now (with_domain domain s.settings) s =
        rw (q, set_primary_domain) refl in
      subst (IsMoved domain s) (sym moved) (
        saved-IsMoved now domain s (save disk now (with_domain domain s.settings) s) q
          (save-IsSaved disk now (with_domain domain s.settings) s))
  | inr (e, q) ↦
      let stays : set_primary_domain disk now raw s ≡ (s, some (bad_domain e)) =
        rw (q, set_primary_domain) refl in
      subst (IsMoved domain s) (sym stays) (inl ((λ k. ground arith), refl))
]
  where
    domain : Text
    domain = trim_space (to_lower raw)
