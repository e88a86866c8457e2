-- ===== src/Deployment/Tests.antt =====
-- Tests and witnesses for the deployments.
use mathlib.Core.Path.{subst}
use liteploy.Common.{
  ℕ, ◌+◌, ◌^◌, ◌<◌, ◌≤◌, ◌≡◌, ◌↔◌, ◌≢◌, refl, arith, true, false, none, some, List, [], ◌∷◌, ◌++◌,
  ◌==◌, if◌then◌else◌, All, take, drop, ok,
}
use liteploy.Common.Text.{
  Text, codes, text_eq, text_beq, text_beq_iff, includes, has_prefix, strip_prefix, split, join,
}
use liteploy.Common.Table.{Table, get, put, delete, values}
use liteploy.Common.Decimal.{print, print_padded, scan}
use liteploy.Common.FilePath.{
  is_abs, clean, resolve, push_part, show_parts, clean_parts, join_all, rel,
}
use liteploy.Storage.{Store, Disk, safe_path, write_json}
use liteploy.Deployment.{
  Status, queued, preparing, building, starting, health_check, routing, success, Deployment,
  is_active, is_terminal, valid_transition, allowed, transition,
}
use liteploy.Deployment.Machine.{
  ◌⟶◌, transition-ok_iff, drive, accepted, success_in_order, accepted-bound, advances,
}
use liteploy.Deployment.Service.{
  Service, Job, queue_capacity, blank, first_active, max_id, next_deployment_id, meta_path,
  persist_deployment, send, admit, enqueue, find, list_by_app, newer,
}
use liteploy.Deployment.Service.Freshness.{next_deployment_id_fresh}
use liteploy.Deployment.Service.Enqueueing.{IsValid, actives, new_deployment, enqueue-IsValid}
use liteploy.Deployment.Service.Calls.{enqueue_ok, enqueue_race, enqueue_replaces}
use liteploy.Deployment.Service.Runs.{Executed, prune_old_deployments, run_job}
use liteploy.Deployment.Service.Runs.Outcomes.{
  Holds, IsBrief, IsSilent, run_job-IsBrief, IsSettled, Settles, run_job-IsSettled,
}
use liteploy.Deployment.Service.Runs.Retention.{has_id, prune_old_deployments_result}

abbrev fresh : Deployment
fresh = record blank { id = codes "0001"; app_id = codes "shop"; created_at = 3 }

abbrev all_steps : List Status
all_steps = preparing ∷ building ∷ starting ∷ health_check ∷ routing ∷ success ∷ []

transition-ok_iff_example : ((transition preparing fresh).1 ≡ none) ↔ (queued ⟶ preparing)
transition-ok_iff_example = transition-ok_iff fresh preparing

accepted-bound_example : advances (accepted fresh all_steps) ≤ 7
accepted-bound_example = accepted-bound fresh all_steps

ends_in_success :
    (drive fresh
      (preparing ∷ queued ∷ building ∷ starting ∷ health_check ∷ routing ∷ success ∷ [])).status
    ≡ success
unfolding drive transition valid_transition allowed is_active is_terminal
ends_in_success = refl

success_in_order_example :
    accepted fresh
      (preparing ∷ queued ∷ building ∷ starting ∷ health_check ∷ routing ∷ success ∷ [])
    ≡ all_steps
success_in_order_example =
    success_in_order fresh
      (preparing ∷ queued ∷ building ∷ starting ∷ health_check ∷ routing ∷ success ∷ []) refl
      ends_in_success

abbrev over : Deployment
over = record fresh { status = success }

over_is_terminal : is_terminal success ≡ true
unfolding is_terminal
over_is_terminal = refl

abbrev working : Disk
working = record { mkdir_fails = λ _. false; fault = λ _. none; temp_name = λ p. p ++ codes ".tmp" }

abbrev empty_store : Store Deployment
empty_store = record { root = codes "/d"; files = [] }

abbrev service_with : Table Deployment → List Job → Service
service_with t jobs = record {
  store = empty_store;
  queue = jobs;
  deployments = t;
  cancel_fns = [];
  next_context = 0;
  cancelled = [];
}

abbrev empty_service : Service
empty_service = service_with [] []

abbrev over_service : Service
over_service = service_with ((codes "0001", over) ∷ []) []

few_ids : max_id (codes "shop") (over ∷ []) 0 + 1 < 2 ^ 63
unfolding max_id scan text_beq
few_ids = omega arith

next_deployment_id_fresh_example :
    All
      (λ d.
        text_beq d.app_id (codes "shop") ≡ true
        → d.id ≢ next_deployment_id (codes "shop") over_service)
      (over ∷ [])
next_deployment_id_fresh_example = next_deployment_id_fresh (codes "shop") over_service few_ids

empty_service-IsValid : IsValid empty_service
empty_service-IsValid = record { bounded = omega arith; one_active = λ app. omega arith }

enqueue-IsValid_example : IsValid (enqueue working 5 (codes "shop") (codes "me") empty_service).0
enqueue-IsValid_example =
    enqueue-IsValid working 5 (codes "shop") (codes "me") empty_service empty_service-IsValid

abbrev succeeding : Deployment → Executed
succeeding d = record { dep = record d { status = success }; error = none; context_done = false }

succeeding-Settles : Settles succeeding
unfolding is_active
succeeding-Settles d = (refl, λ _. refl)

abbrev job : Job
job = record { dep = fresh; cancel = some 0 }

some-Settles : (f : Deployment → Executed) → some succeeding ≡ some f → Settles f
some-Settles f e = subst Settles (some_injective e) succeeding-Settles
  where
    some_injective : {x y : Deployment → Executed} → some x ≡ some y → x ≡ y
    some_injective e = cc

run_job-IsSettled_example :
    IsSettled (codes "0001") (run_job working 6 7 true (some succeeding) job over_service)
    × (get (run_job working 6 7 true (some succeeding) job over_service).cancel_fns (codes "0001")
        ≡ none)
run_job-IsSettled_example =
    run_job-IsSettled working 6 7 true (some succeeding) job over_service some-Settles

-- An executor whose error has 600 bytes.
abbrev fifty : Text
fifty = codes "xxxxxxxxxxxxxxxxxxxxxxxxxxxxxxxxxxxxxxxxxxxxxxxxxx"

abbrev hundred : Text
hundred = fifty ++ fifty

abbrev failing : Deployment → Executed
failing d = record {
  dep = d;
  error = some (hundred ++ hundred ++ hundred ++ hundred ++ hundred ++ hundred);
  context_done = false;
}

failing-IsSilent : (f : Deployment → Executed) → some failing ≡ some f → IsSilent f
failing-IsSilent f e d =
    subst (λ g. ((g d).dep.id ≡ d.id) × ((g d).dep.error ≡ d.error)) (some_injective e) (refl, refl)
  where
    some_injective : {g : Deployment → Executed} → some failing ≡ some g → failing ≡ g
    some_injective e = cc

run_job-IsBrief_example :
    Holds IsBrief (codes "0001") (run_job working 6 7 true (some failing) job over_service)
run_job-IsBrief_example =
    run_job-IsBrief working 6 7 true (some failing) job over_service (omega arith) failing-IsSilent

prune_old_deployments_result_example :
    ((k : Text)
      → get (prune_old_deployments (codes "shop") 1 over_service).deployments k ≡ (
          if has_id (drop 1 (list_by_app (codes "shop") over_service)) k
          then none
          else get over_service.deployments k))
    × All
        (λ a. All (λ b. newer b a ≡ false) (drop 1 (list_by_app (codes "shop") over_service)))
        (take 1 (list_by_app (codes "shop") over_service))
prune_old_deployments_result_example =
    prune_old_deployments_result (codes "shop") 1 over_service (omega arith)

abbrev first_record : Deployment
first_record = new_deployment 5 (codes "shop") (codes "me") empty_service

first_call : (enqueue working 5 (codes "shop") (codes "me") empty_service).1 ≡ ok first_record
unfolding enqueue admit next_deployment_id max_id scan print print_padded first_active
    persist_deployment write_json safe_path includes has_prefix strip_prefix text_beq rel join_all
    clean clean_parts resolve push_part is_abs show_parts split join send meta_path
first_call = refl

enqueue_ok_example :
    (first_record ≡ new_deployment 5 (codes "shop") (codes "me") empty_service)
    × ((j : Text)
        → get (enqueue working 5 (codes "shop") (codes "me") empty_service).0.deployments j
          ≡ (if first_record.id == j then some first_record else none))
    × ((enqueue working 5 (codes "shop") (codes "me") empty_service).0.queue
        ≡ record { dep = first_record; cancel = some 0 } ∷ [])
    × (0 < queue_capacity)
    × (actives (codes "shop") [] ≡ 0)
unfolding get
enqueue_ok_example =
    enqueue_ok working 5 (codes "shop") (codes "me") empty_service first_record first_call

abbrev busy : Service
busy = service_with ((codes "0001", fresh) ∷ []) []

one_is_active : 0 < actives (codes "shop") busy.deployments
unfolding is_active text_beq
one_is_active = omega arith

abbrev jobs : ℕ → List Job
jobs Prim.Native.Nat.zero = []
jobs (Prim.Native.Nat.suc n) = job ∷ jobs n

abbrev crowded : Service
crowded = service_with [] (jobs 64)

crowded_is_persisted :
    (persist_deployment working (new_deployment 5 (codes "shop") (codes "me") crowded) crowded).1
    ≡ none
unfolding next_deployment_id max_id print print_padded persist_deployment write_json safe_path
    includes has_prefix strip_prefix text_beq rel join_all clean clean_parts resolve push_part
    is_abs show_parts split join meta_path
crowded_is_persisted = refl

abbrev once_admitted : Service
once_admitted = (admit working 5 (codes "shop") (codes "me") empty_service).0

abbrev second_record : Deployment
second_record = new_deployment 6 (codes "shop") (codes "you") once_admitted

first_admitted : (admit working 5 (codes "shop") (codes "me") empty_service).1 ≡ ok first_record
unfolding admit next_deployment_id max_id scan print print_padded persist_deployment write_json
    safe_path includes has_prefix strip_prefix text_beq rel join_all clean clean_parts resolve
    push_part is_abs show_parts split join send meta_path
first_admitted = refl

second_admitted : (admit working 6 (codes "shop") (codes "you") once_admitted).1 ≡ ok second_record
unfolding admit next_deployment_id max_id scan print print_padded persist_deployment write_json
    safe_path includes has_prefix strip_prefix text_beq rel join_all clean clean_parts resolve
    push_part is_abs show_parts split join send meta_path put delete
second_admitted = refl

few_ids_then : max_id (codes "shop") (values once_admitted.deployments) 0 + 1 < 2 ^ 63
unfolding admit next_deployment_id max_id scan print print_padded persist_deployment write_json
    safe_path includes has_prefix strip_prefix text_beq rel join_all clean clean_parts resolve
    push_part is_abs show_parts split join send meta_path put delete
few_ids_then = omega arith

enqueue_race_example :
    actives
      (codes "shop")
      (admit working 6 (codes "shop") (codes "you") once_admitted).0.deployments
    ≡ 2
enqueue_race_example =
    enqueue_race working 5 6 (codes "shop") (codes "me") (codes "you") empty_service first_record
      second_record refl first_admitted second_admitted few_ids_then

abbrev blog_record : Deployment
blog_record = new_deployment 5 (codes "blog") (codes "me") over_service

id_is_held :
    get over_service.deployments (next_deployment_id (codes "blog") over_service) ≡ some over
unfolding get next_deployment_id max_id text_beq print print_padded
id_is_held = refl

shop_is_not_blog : codes "shop" ≢ codes "blog"
unfolding text_beq
shop_is_not_blog e =
    let same : false ≡ true = (text_beq_iff (codes "shop") (codes "blog")).1 e in ground arith

blog_enqueued : (enqueue working 5 (codes "blog") (codes "me") over_service).1 ≡ ok blog_record
unfolding enqueue admit next_deployment_id max_id scan print print_padded first_active
    persist_deployment write_json safe_path includes has_prefix strip_prefix text_beq rel join_all
    clean clean_parts resolve push_part is_abs show_parts split join send meta_path is_active
blog_enqueued = refl

enqueue_replaces_example :
    (find
        (next_deployment_id (codes "blog") over_service)
        (enqueue working 5 (codes "blog") (codes "me") over_service).0
      ≡ ok blog_record)
    × (codes "blog" ≡ codes "blog")
    × (blog_record ≢ over)
enqueue_replaces_example =
    enqueue_replaces working 5 (codes "blog") (codes "me") over_service over blog_record id_is_held
      shop_is_not_blog blog_enqueued
