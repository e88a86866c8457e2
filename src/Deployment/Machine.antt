-- ===== src/Deployment/Machine.antt =====
-- The state machine of deployment.go against the diagram of its package comment.
use mathlib.Core.Path.{subst}
use liteploy.Common.{
  ℕ, suc, ◌+◌, ◌≤◌, ◌≡◌, refl, ◌∙◌, ◌↔◌, ◌⊎◌, inl, inr, Bool, true, false, none, some, List, [],
  ◌∷◌, ap, arith, Bool-cases,
}
use liteploy.Deployment.{
  Status, queued, preparing, building, starting, health_check, routing, success, failed, cancelling,
  cancelled, is_terminal, is_active, Deployment, valid_transition, transition,
}

-- The six steps of a deployment, in their order.
pub data ◌▸◌ : Status → Status → Type 0 where
  prepare : queued ▸ preparing
  build : preparing ▸ building
  launch : building ▸ starting
  probe : starting ▸ health_check
  route : health_check ▸ routing
  finish : routing ▸ success

infix 40 ◌▸◌ ◌⟶◌
-- The arrows: a step, a failure or a cancellation of what is not over, and its end.
pub data ◌⟶◌ : Status → Status → Type 0 where
  step : {s t : Status} → s ▸ t → s ⟶ t
  give_up : {s : Status} → is_active s ≡ true → s ⟶ failed
  abort : {s : Status} → is_active s ≡ true → s ⟶ cancelling
  drop_queued : queued ⟶ cancelled
  aborted : cancelling ⟶ cancelled

ruleset diagram =
    (step, give_up, abort, drop_queued, aborted, prepare, build, launch, probe, route, finish)

valid-⟶ : (s t : Status) → valid_transition s t ≡ true → s ⟶ t
unfolding valid_transition
valid-⟶ s t h = grind (arith, diagram)

⟶-valid : {s t : Status} → s ⟶ t → valid_transition s t ≡ true
unfolding valid_transition
⟶-valid (step prepare) = refl
⟶-valid (step build) = refl
⟶-valid (step launch) = refl
⟶-valid (step probe) = refl
⟶-valid (step route) = refl
⟶-valid (step finish) = refl
⟶-valid (give_up {s} h) = ground arith
⟶-valid (abort {s} h) = ground arith
⟶-valid drop_queued = refl
⟶-valid aborted = refl

-- `Transition` succeeds exactly along these arrows: the six steps in their order, from each status that
-- is not over to `failed` and to `cancelling`, and from `queued` and from `cancelling` to `cancelled`.
-- So no arrow leaves a status that is over, though the package comment has one from any status to
-- `failed`.
pub transition-ok_iff :
    (d : Deployment) (next : Status) → ((transition next d).1 ≡ none) ↔ (d.status ⟶ next)
unfolding transition
transition-ok_iff d next = (λ h. valid-⟶ d.status next (ground arith), λ a. rw (⟶-valid a) refl)

-- A transition that succeeds changes the status alone, to the one asked for; one that fails changes
-- nothing and returns both statuses.
pub transition_result :
    (d : Deployment) (next : Status)
    → (((transition next d).1 ≡ none) × ((transition next d).0 ≡ record d { status = next }))
      ⊎ (((transition next d).1 ≡ some (record { from = d.status; to = next }))
          × ((transition next d).0 ≡ d))
unfolding transition
transition_result d next = elim (Bool-cases (valid_transition d.status next)) [
  | inl e ↦ inl (rw e (refl, refl))
  | inr e ↦ inr (rw e (refl, refl))
]

-- The calls `Transition(next)` for each of a list, in order, errors ignored as the pipeline does.
unfoldable pub drive : Deployment → List Status → Deployment
drive d [] = d
drive d (next ∷ rest) = drive (transition next d).0 rest

-- The statuses that were accepted.
unfoldable pub accepted : Deployment → List Status → List Status
accepted d [] = []
accepted d (next ∷ rest) =
    let later = accepted (transition next d).0 rest in
    elim (transition next d).1 [ none ↦ next ∷ later | some _ ↦ later ]

-- The steps that a deployment has before it when it succeeds.
abbrev pub remaining : Status → List Status
remaining queued = preparing ∷ building ∷ starting ∷ health_check ∷ routing ∷ success ∷ []
remaining preparing = building ∷ starting ∷ health_check ∷ routing ∷ success ∷ []
remaining building = starting ∷ health_check ∷ routing ∷ success ∷ []
remaining starting = health_check ∷ routing ∷ success ∷ []
remaining health_check = routing ∷ success ∷ []
remaining routing = success ∷ []
remaining _ = []

abbrev is_lost : Status → Bool
is_lost failed = true
is_lost cancelling = true
is_lost cancelled = true
is_lost _ = false

remaining-transition :
    (d : Deployment) (next : Status)
    → (transition next d).1 ≡ none
    → is_lost (transition next d).0.status ≡ false
    → (next ∷ remaining (transition next d).0.status ≡ remaining d.status)
      × (is_lost d.status ≡ false)
unfolding transition
remaining-transition d next h l = ground arith

remaining_of_success : (s : Status) → s ≡ success → ([] ≡ remaining s) × (is_lost s ≡ false)
remaining_of_success s h = ground arith

accepted-eq-remaining :
    (d : Deployment) (asked : List Status)
    → (drive d asked).status ≡ success
    → (accepted d asked ≡ remaining d.status) × (is_lost d.status ≡ false)
unfolding drive accepted
accepted-eq-remaining d [] h = remaining_of_success d.status h
accepted-eq-remaining d (next ∷ rest) h = elim (transition_result d next) [
  | inl (e, _) ↦
      let (ih, live) = accepted-eq-remaining (transition next d).0 rest h in
      rw (e, accepted) (rw ih (remaining-transition d next e live))
  | inr (e, same) ↦
      rw (e, same, accepted)
        (accepted-eq-remaining d rest (subst (λ x. (drive x rest).status ≡ success) same h))
]

-- Whatever transitions are asked of a queued deployment, if it ends in `success` then those that
-- were accepted are the six steps of the pipeline, each once and in order.
pub success_in_order :
    (d : Deployment) (asked : List Status)
    → d.status ≡ queued
    → (drive d asked).status ≡ success
    → accepted d asked ≡ preparing ∷ building ∷ starting ∷ health_check ∷ routing ∷ success ∷ []
success_in_order d asked q h = (accepted-eq-remaining d asked h).0 ∙ ap remaining q

transition_of_terminal :
    (d : Deployment) (next : Status) → is_terminal d.status ≡ true → (transition next d).0 ≡ d
unfolding transition
transition_of_terminal d next h = ground arith

-- A deployment that is over stays as it is, whatever transitions are asked of it.
pub terminal_absorbs :
    (d : Deployment) (asked : List Status) → is_terminal d.status ≡ true → drive d asked ≡ d
unfolding drive
terminal_absorbs d [] h = refl
terminal_absorbs d (next ∷ rest) h =
    rw (transition_of_terminal d next h) (terminal_absorbs d rest h)

-- How far a deployment is.
rank : Status → ℕ
rank queued = 0
rank preparing = 1
rank building = 2
rank starting = 3
rank health_check = 4
rank routing = 5
rank cancelling = 6
rank _ = 7

-- The transitions of a list but for those to `cancelling`, which may be asked for again.
abbrev pub advances : List Status → ℕ
advances [] = 0
advances (cancelling ∷ l) = advances l
advances (_ ∷ l) = suc (advances l)

rank-transition :
    (d : Deployment) (next : Status)
    → (transition next d).1 ≡ none
    → advances (next ∷ []) + rank d.status ≤ rank (transition next d).0.status
unfolding transition rank valid_transition
rank-transition d next h = ground arith

rank-bound : (s : Status) → rank s ≤ 7
unfolding rank
rank-bound s = ground arith

advances-cons : (s : Status) (l : List Status) → advances (s ∷ l) ≡ advances (s ∷ []) + advances l
advances-cons s l = ground arith

advances_before :
    (d : Deployment) (asked : List Status) → advances (accepted d asked) + rank d.status ≤ 7
unfolding accepted
advances_before d [] = omega (arith, rank-bound d.status)
advances_before d (next ∷ rest) = elim (transition_result d next) [
  | inl (e, _) ↦
      rw (e, accepted)
        (omega (
          arith,
          advances-cons next (accepted (transition next d).0 rest),
          rank-transition d next e,
          advances_before (transition next d).0 rest,
        ))
  | inr (e, same) ↦ rw (e, same, accepted) (advances_before d rest)
]

-- Whatever transitions are asked of a deployment, and however many: at most seven are accepted, not
-- counting those to `cancelling`, which a deployment that is being cancelled accepts again.
pub accepted-bound : (d : Deployment) (asked : List Status) → advances (accepted d asked) ≤ 7
accepted-bound d asked = omega (arith, advances_before d asked)
