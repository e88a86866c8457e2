-- ===== src/Git/Traces.antt =====
-- What the runs of git leave behind and show.
use liteploy.Common.{
  ℕ, suc, ◌<◌, ◌≤◌, ◌≡◌, refl, ◌∙◌, ◌⊎◌, inl, inr, Bool, true, false, ◌&&◌, ◌||◌, not, List, [],
  ◌∷◌, ◌==◌, if◌then◌else◌, is_empty, All, arith, Bool-cases,
}
use liteploy.Common.Text.{Text, text_eq}
use liteploy.Git.{
  CloneOptions, discarded, captured, masked, Command, Action, run, write_key, remove, remove_all,
  Machine,
}
use liteploy.Git.Commands.{progress_sink, sync}
use liteploy.Git.Runs.{IsOwn, sync-R}

-- Whether the file of a key is there.
unfoldable pub is_open : Machine → List Action → Text → Bool
is_open g [] k = false
is_open g (run _ ∷ log) k = is_open g log k
is_open g (write_key path ∷ log) k = path == k || is_open g log k
is_open g (remove path ∷ log) k = not (path == k && g.removes log path) && is_open g log k
is_open g (remove_all _ ∷ log) k = is_open g log k

-- How often the system refused to remove the file.
unfoldable pub refusals : Machine → List Action → Text → ℕ
refusals g [] k = 0
refusals g (run _ ∷ log) k = refusals g log k
refusals g (write_key _ ∷ log) k = refusals g log k
refusals g (remove path ∷ log) k =
    let before = refusals g log k in
    if path == k && not (g.removes log path) then suc before else before
refusals g (remove_all _ ∷ log) k = refusals g log k

-- A key file that is there afterwards was there before, or the system refused to remove it.
abbrev Closes : Machine → List Action → List Action → Type 0
Closes g log log' =
    (k : Text)
    → (refusals g log k ≤ refusals g log' k)
      × (is_open g log' k ≡ true
          → (is_open g log k ≡ true) ⊎ (refusals g log k < refusals g log' k))

Closes-same : (g : Machine) (log : List Action) → Closes g log log
Closes-same g log k = (omega arith, λ q. inl q)

Closes-trans : (g : Machine) (a b c : List Action) → Closes g a b → Closes g b c → Closes g a c
Closes-trans g a b c f h k = (omega (arith, (f k).0, (h k).0), opened)
  where
    opened : is_open g c k ≡ true → (is_open g a k ≡ true) ⊎ (refusals g a k < refusals g c k)
    opened q = elim ((h k).1 q) [
      | inr more ↦ inr (omega (arith, (f k).0, more))
      | inl there ↦ elim ((f k).1 there) [
        | inl first ↦ inl first
        | inr more ↦ inr (omega (arith, (h k).0, more))
      ]
    ]

bracket-Closes :
    (g : Machine) (log log' : List Action) (path : Text)
    → Closes g (write_key path ∷ log) log'
    → Closes g log (remove path ∷ log')
unfolding is_open refusals
bracket-Closes g log log' path h k = elim (Bool-cases (path == k)) [
  | inl e ↦ elim (Bool-cases (g.removes log' path)) [
    | inl r ↦ ground (arith, h k)
    | inr r ↦ ground (arith, h k)
  ]
  | inr e ↦ ground (arith, h k)
]

-- Whatever git and the system answer, a call of `Sync` leaves no file with an SSH key behind, but for
-- one that the system refuses to remove: each one that is there afterwards was there before, or its
-- removal was refused during the call.
pub sync_closes :
    (g : Machine) (o : CloneOptions) (log : List Action) (k : Text)
    → is_open g (sync g o log).0 k ≡ true
    → (is_open g log k ≡ true) ⊎ (refusals g log k < refusals g (sync g o log).0 k)
unfolding is_open refusals
sync_closes g o log k =
    (sync-R g o (Closes g) (Closes-same g) (λ _ _ _ _ h. h) (λ _ _ _ h. h) (Closes-trans g)
      (bracket-Closes g) log k).1

-- Whether the sink of an action hides the token.
abbrev pub Hides : Text → Action → Type 0
Hides token (run command) =
    (command.sink ≡ discarded) ⊎ (command.sink ≡ captured) ⊎ (command.sink ≡ masked token)
Hides token _ = Unit

progress_sink-Hides :
    (o : CloneOptions)
    → is_empty o.auth_token ≡ false
    → (progress_sink o ≡ discarded) ⊎ (progress_sink o ≡ masked o.auth_token)
unfolding progress_sink
progress_sink-Hides o h = elim (Bool-cases o.progress) [
  | inl e ↦ inr (rw (e, h, progress_sink) refl)
  | inr e ↦ inl (rw (e, progress_sink) refl)
]

-- With a token, every command of a `Sync` writes to the token's mask, to the caller or to nowhere.
pub sync-Hides :
    (g : Machine) (o : CloneOptions) (log : List Action)
    → is_empty o.auth_token ≡ false
    → All (Hides o.auth_token) log
    → All (Hides o.auth_token) (sync g o log).0
sync-Hides g o log h =
    sync-R g o (λ a b. All (Hides o.auth_token) a → All (Hides o.auth_token) b) (λ _ q. q) step
      (λ _ _ _ f q. (tt, f q)) (λ _ _ _ f k q. k (f q)) (λ _ _ _ f q. (tt, f (tt, q))) log
  where
    step :
        (a b : List Action) (command : Command)
        → IsOwn o command
        → (All (Hides o.auth_token) a → All (Hides o.auth_token) b)
        → All (Hides o.auth_token) a
        → All (Hides o.auth_token) (run command ∷ b)
    step a b command (inl e) f q = (inr (inl e), f q)
    step a b command (inr e) f q = elim (progress_sink-Hides o h) [
      | inl d ↦ (inl (e ∙ d), f q)
      | inr d ↦ (inr (inr (e ∙ d)), f q)
    ]
