-- ===== src/Deployment.antt =====
-- internal/deployment/deployment.go: the record of a deployment and its state machine. A `Status`
-- is one of the ten constants. Times are clock readings, and a duration is a difference of two of
-- them, which is negative where the wall clock was set back.
pub mod Machine
pub mod Service
pub mod Pipeline
mod Tests
mod RestartTests
use liteploy.Common.{
  ℕ, ◌+◌, ◌-◌, ◌≡◌, Bool, true, false, ◌&&◌, ◌||◌, not, Option, none, some, List, [], ◌∷◌, ◌↔◌,
  Equality, ◌==◌, nat_eq, nat_beq, nat_beq_iff, leb, arith, if◌then◌else◌, contains, Outcome, ok,
  err,
}
use liteploy.Common.Int.{ℤ, sub_ℕ}
use liteploy.Common.Text.{Text, codes}

pub data Status : Type 0 where
  queued preparing building starting health_check routing success failed cancelling cancelled :
      Status

abbrev pub status_rank : Status → ℕ
status_rank queued = 0
status_rank preparing = 1
status_rank building = 2
status_rank starting = 3
status_rank health_check = 4
status_rank routing = 5
status_rank success = 6
status_rank failed = 7
status_rank cancelling = 8
status_rank cancelled = 9

abbrev pub status_beq : Status → Status → Bool
status_beq a b = nat_beq (status_rank a) (status_rank b)

pub status_beq_iff : (a b : Status) → (status_beq a b ≡ true) ↔ (a ≡ b)
status_beq_iff a b = ground arith

instance abbrev pub status_eq : Equality Status
status_eq = record { equals = status_beq; equals_iff = status_beq_iff }

unfoldable pub is_terminal : Status → Bool
is_terminal s = s == success || s == failed || s == cancelled

unfoldable pub is_active : Status → Bool
is_active s =
    s == queued
    || s == preparing
    || s == building
    || s == starting
    || s == health_check
    || s == routing
    || s == cancelling

pub record Deployment : Type 0 where
  pub id : Text
  pub app_id : Text
  pub status : Status
  pub created_at : ℕ
  pub started_at : Option ℕ
  pub finished_at : Option ℕ
  pub duration : ℤ
  pub log_path : Text
  pub rollback_to : Text
  pub commit_sha : Text
  pub image_id : Text
  pub container_id : Text
  pub old_container_id : Text
  pub error : Text
  pub stage : Text
  pub triggered_by : Text

pub record TransitionError : Type 0 where
  pub from : Status
  pub to : Status

-- The map literal of `validTransition`.
unfoldable pub allowed : Status → List Status
allowed queued = preparing ∷ failed ∷ cancelled ∷ []
allowed preparing = building ∷ failed ∷ []
allowed building = starting ∷ failed ∷ []
allowed starting = health_check ∷ failed ∷ []
allowed health_check = routing ∷ failed ∷ []
allowed routing = success ∷ failed ∷ []
allowed cancelling = cancelled ∷ []
allowed _ = []

unfoldable pub valid_transition : Status → Status → Bool
unfolding is_terminal is_active allowed
valid_transition from to =
    if to == failed && not (is_terminal from)
    then true
    else if to == cancelling && is_active from
    then true
    else contains (allowed from) to

-- The deployment after the call, and the error if there was one.
unfoldable pub transition : Status → Deployment → Deployment × Option TransitionError
unfolding valid_transition
transition next d =
    if not (valid_transition d.status next)
    then (d, some (record { from = d.status; to = next }))
    else (record d { status = next }, none)

abbrev pub duration_until : ℕ → Deployment → ℤ
duration_until now d = elim d.started_at [ none ↦ d.duration | some t ↦ sub_ℕ now t ]

unfoldable pub fail : ℕ → Text → Text → Deployment → Deployment
fail now stage msg d = record d {
  status = failed;
  stage = stage;
  error = msg;
  finished_at = some now;
  duration = duration_until now d;
}

unfoldable pub succeed : ℕ → Deployment → Deployment
succeed now d = record d {
  status = success;
  stage = [];
  finished_at = some now;
  duration = duration_until now d;
}

unfoldable pub start : ℕ → Deployment → Deployment
start now d = record d { started_at = some now }
