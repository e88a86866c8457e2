-- ===== src/Deployment/Pipeline/Cleanup.antt =====
-- Which containers a run of the pipeline leaves.
use liteploy.Common.{
  ◌≡◌, refl, ap, ◌∙◌, inl, inr, false, not, Option, none, some, List, [], ◌∷◌, ◌++◌, ◌==◌,
  if◌then◌else◌, arith, Bool-cases, is_empty, contains, Outcome, ok, err,
}
use liteploy.Common.FilePath.{join_path}
use liteploy.Storage.{StoreError, abs_path}
use liteploy.Deployment.{preparing, building}
use liteploy.Common.Text.{Text, codes, text_eq, text_beq_iff}
use liteploy.Common.Table.{Table}
use liteploy.Application.Types.{Application, SourceType}
use liteploy.Deployment.Pipeline.Steps.{
  Call, synced, wrote_file, built, pulled, created, stopped, removed, World, Run, ExecuteError,
  call, advance, Prepared, prepare, prepare_git, prepare_by_type, prepared_in, context_of, build,
  build_git, build_by_type, pull_image, inject, CloneOptions, clone_options, synced_or_failed,
  sync_into, env_lines, build_options, image_or_failed, dockerfile_checked, build_checked,
  build_failed,
}
use liteploy.Deployment.Pipeline.Execution.{discard}

unfoldable pub without : Text → List Text → List Text
without c [] = []
without c (d ∷ ds) = let rest = without c ds in if d == c then rest else d ∷ rest

-- The containers that exist after a call. One whose removal fails stays.
unfoldable pub effect : World → Call → List Text → List Text
effect w (created spec) cs = elim (w.create spec) [ none ↦ cs | some c ↦ c ∷ cs ]
effect w (removed c) cs = if w.remove c then without c cs else cs
effect w _ cs = cs

unfoldable pub after_calls : World → List Call → List Text → List Text
unfolding effect without
after_calls w [] cs = cs
after_calls w (x ∷ xs) cs = after_calls w xs (effect w x cs)

-- The containers that exist, with `before` those that did at the start.
abbrev pub containers : World → List Text → Run → List Text
containers w before r = after_calls w r.calls before

pub after_calls-append :
    (w : World) (xs : List Call) (x : Call) (cs : List Text)
    → after_calls w (xs ++ x ∷ []) cs ≡ effect w x (after_calls w xs cs)
unfolding after_calls
after_calls-append w [] x cs = refl
after_calls-append w (y ∷ xs) x cs = after_calls-append w xs x (effect w y cs)

without_absent : (c : Text) (cs : List Text) → contains cs c ≡ false → without c cs ≡ cs
unfolding without
without_absent c [] h = refl
without_absent c (d ∷ ds) h = ground (arith, without_absent c ds)

pub without_new : (c : Text) (cs : List Text) → contains cs c ≡ false → without c (c ∷ cs) ≡ cs
unfolding without
without_new c cs h = ground (arith, without_absent c cs, text_beq_iff c c)

module _ (w : World) (before : List Text) where
  -- Neither the containers nor the applications change.
  abbrev pub Same : Run → Run → Type 0
  Same r r' = (containers w before r' ≡ containers w before r) × (r'.apps ≡ r.apps)

  Same-trans : (a b c : Run) → Same a b → Same b c → Same a c
  Same-trans a b c h k = (k.0 ∙ h.0, k.1 ∙ h.1)

  -- A call that concerns no container.
  pub quiet : (x : Call) (r : Run) → ((cs : List Text) → effect w x cs ≡ cs) → Same r (call x r)
  quiet x r h = (after_calls-append w r.calls x before ∙ h (containers w before r), refl)

  prepared_in-Same :
      (app : Application) (d : Text) (o : Outcome ExecuteError Text) (r : Run)
      → Same r (prepared_in app d o r).0
  unfolding prepared_in
  prepared_in-Same app d (ok c) r = (refl, refl)
  prepared_in-Same app d (err e) r = (refl, refl)

  sync_asked-Same :
      (app : Application) (build_dir : Text) (o : CloneOptions) (commit : Option Text) (r : Run)
      → Same r (synced_or_failed w app build_dir commit (call (synced o) r)).0
  unfolding synced_or_failed effect
  sync_asked-Same app build_dir o none r = quiet (synced o) r (λ _. refl)
  sync_asked-Same app build_dir o (some commit) r =
      let asked : Run = call (synced o) r in
      let kept : Run = record asked { dep = record asked.dep { commit_sha = commit } } in
      Same-trans r kept (prepared_in app build_dir (context_of w.links app build_dir) kept).0
        (quiet (synced o) r (λ _. refl))
        (prepared_in-Same app build_dir (context_of w.links app build_dir) kept)

  prepare_git-Same :
      (app : Application) (o : Outcome StoreError Text) (r : Run) → Same r (sync_into w app o r).0
  unfolding sync_into
  prepare_git-Same app (err e) r = (refl, refl)
  prepare_git-Same app (ok build_dir) r =
      sync_asked-Same app build_dir (clone_options app build_dir)
        (w.sync (clone_options app build_dir)) r

  prepare_by_type-Same :
      (t : SourceType) (app : Application) (r : Run) → Same r (prepare_by_type t w app r).0
  unfolding prepare_by_type prepare_git
  prepare_by_type-Same SourceType.git app r =
      prepare_git-Same app (abs_path r.apps.store (join_path (codes "repos") app.id)) r
  prepare_by_type-Same SourceType.image app r = (refl, refl)
  prepare_by_type-Same SourceType.compose app r = (refl, refl)
  prepare_by_type-Same SourceType.no_type app r = (refl, refl)
  prepare_by_type-Same (SourceType.other_type _) app r = (refl, refl)

  pub prepare-Same : (app : Application) (r : Run) → Same r (prepare w app r).0
  unfolding prepare advance
  prepare-Same app r =
      let entered : Run = advance preparing (codes "preparing") r in
      elim (Bool-cases (not (is_empty entered.dep.rollback_to))) [
        | inl e ↦ rw (e, prepare) (refl, refl)
        | inr e ↦ rw (e, prepare) (prepare_by_type-Same app.source.type app entered)
      ]

  inject-Same : (d : Text) (env : Table Text) (r : Run) → Same r (inject d env r)
  unfolding inject effect
  inject-Same d [] r = (refl, refl)
  inject-Same d (e ∷ env) r =
      let first : Call = wrote_file (join_path d (codes ".env")) (env_lines (e ∷ env)) in
      let second : Call =
        wrote_file (join_path d (codes ".env.production")) (env_lines (e ∷ env)) in
      Same-trans r (call first r) (call second (call first r)) (quiet first r (λ _. refl))
        (quiet second (call first r) (λ _. refl))

  pull_image-Same : (app : Application) (p : Prepared) (r : Run) → Same r (pull_image w app p r).0
  unfolding pull_image effect
  pull_image-Same app p r = elim (Bool-cases (w.pull p.image_name app.source.registry_auth)) [
    | inl e ↦ rw e (quiet (pulled p.image_name app.source.registry_auth) r (λ _. refl))
    | inr e ↦ rw e (quiet (pulled p.image_name app.source.registry_auth) r (λ _. refl))
  ]

  pub discard-containers :
      (c : Text) (r : Run)
      → (containers w before (discard c r) ≡ effect w (removed c) (containers w before r))
        × ((discard c r).apps ≡ r.apps)
  unfolding discard effect
  discard-containers c r = (
    after_calls-append w (r.calls ++ stopped c ∷ []) (removed c) before
        ∙ ap (effect w (removed c)) (after_calls-append w r.calls (stopped c) before),
    refl,
  )

  image_or_failed-Same :
      (e : ExecuteError) (o : Option Text) (r : Run) → Same r (image_or_failed e o r).0
  unfolding image_or_failed
  image_or_failed-Same e none r = (refl, refl)
  image_or_failed-Same e (some i) r = (refl, refl)

  build_checked-Same :
      (app : Application) (p : Prepared) (env : Table Text) (o : Outcome ExecuteError (Unit {0}))
      (r : Run)
      → Same r (build_checked w app p env o r).0
  unfolding build_checked effect
  build_checked-Same app p env (err e) r = (refl, refl)
  build_checked-Same app p env (ok tt) r =
      let injected : Run = inject p.context_dir env r in
      let asked : Run = call (built (build_options app p env)) injected in
      Same-trans r injected
        (image_or_failed build_failed (w.build (build_options app p env)) asked).0
        (inject-Same p.context_dir env r)
        (Same-trans injected asked
          (image_or_failed build_failed (w.build (build_options app p env)) asked).0
          (quiet (built (build_options app p env)) injected (λ _. refl))
          (image_or_failed-Same build_failed (w.build (build_options app p env)) asked))

  build_by_type-Same :
      (t : SourceType) (app : Application) (p : Prepared) (env : Table Text) (r : Run)
      → Same r (build_by_type t w app p env r).0
  unfolding build_by_type build_git
  build_by_type-Same SourceType.git app p env r =
      build_checked-Same app p env (dockerfile_checked w.links app p) r
  build_by_type-Same SourceType.image app p env r = pull_image-Same app p r
  build_by_type-Same SourceType.compose app p env r = (refl, refl)
  build_by_type-Same SourceType.no_type app p env r = (refl, refl)
  build_by_type-Same (SourceType.other_type _) app p env r = (refl, refl)

  pub build-Same :
      (app : Application) (p : Prepared) (env : Table Text) (r : Run)
      → Same r (build w app p env r).0
  unfolding build advance
  build-Same app p env r = elim (Bool-cases (is_empty r.dep.rollback_to)) [
    | inl e ↦
        rw (e, build)
          (build_by_type-Same app.source.type app p env (advance building (codes "building") r))
    | inr e ↦ rw (e, build) (refl, refl)
  ]
