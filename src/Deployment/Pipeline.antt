-- ===== src/Deployment/Pipeline.antt =====
-- internal/deployment/pipeline.go: the parts of the pipeline beside its steps. Symbolic links and
-- what Docker reports are parameters.
pub mod Steps
pub mod Execution
pub mod Cleanup
pub mod Endings
mod Tests
use Prim.Native.Nat.{zero}
use liteploy.Common.{
  ℕ, suc, Bool, true, false, ◌&&◌, ◌||◌, not, Option, none, some, List, [], ◌∷◌, ◌++◌, ◌==◌, nat_eq,
  leb, ltb, if◌then◌else◌, length, is_empty, Outcome, ok, err,
}
use liteploy.Common.Int.{ℤ, pos, negsuc}
use liteploy.Common.Text.{Text, codes, text_eq, has_prefix, includes, split, join}
use liteploy.Common.FilePath.{clean, join_path, rel, dot, clean_parts, show_parts}
use liteploy.Application.Types.{Application}

pub data PathError : Type 0 where
  escapes symlink_escapes : PathError

-- `rel` leads out of its base.
abbrev pub leads_out : Text → Bool
leads_out r = has_prefix r (codes "..") || includes r (codes "../")

without_last : List Text → List Text
without_last [] = []
without_last (_ ∷ []) = []
without_last (s ∷ t ∷ r) = s ∷ without_last (t ∷ r)

-- `filepath.Dir(t)` for a cleaned absolute path.
unfoldable pub dir : Text → Text
unfolding without_last
dir t = show_parts true (without_last (clean_parts t))

-- `filepath.EvalSymlinks`: the real path, or `none` where there is nothing at the path.
abbrev pub Links : Type 0
Links = Text → Option Text

-- The loop over the target and its ancestors: the first that exists decides. A path has fewer
-- ancestors than bytes, which the fuel counts.
unfoldable pub inside_links : Links → Text → Text → ℕ → Bool
unfolding dir
inside_links real base curr zero = true
inside_links real base curr (suc fuel) = elim (real curr) [
  | some real_curr ↦ not (leads_out (rel base real_curr))
  | none ↦ elim (dir curr == curr || dir curr == dot) [
    | true ↦ true
    | false ↦ inside_links real base (dir curr) fuel
  ]
]

real_base : Links → Text → Text
real_base real base = elim (real base) [ none ↦ base | some path ↦ path ]

-- For an absolute base.
unfoldable pub safe_path_join : Links → Text → Text → Outcome PathError Text
unfolding inside_links real_base
safe_path_join real base_dir sub =
    let base = clean base_dir in
    if is_empty sub
    then ok base
    else let target = clean (join_path base sub) in
      if leads_out (rel base target)
      then err escapes
      else if inside_links real (real_base real base) target (suc (length target))
      then ok target
      else err symlink_escapes

-- docker.ContainerInfo, as far as the health check reads it.
pub record ContainerInfo : Type 0 where
  pub status : Text
  pub exit_code : ℤ
  pub health : Text
  pub ip_address : Text

-- What one tick before the deadline finds: whether the context is done, what Docker reports, and
-- the status code that the application answers to a request, if it answers.
pub record Tick : Type 0 where
  pub context_done : Bool
  pub info : Option ContainerInfo
  pub answer : Option ℕ

pub data HealthError : Type 0 where
  context_ended timed_out inspect_failed unhealthy : HealthError
  exited : ℤ → HealthError

abbrev pub is_positive : ℤ → Bool
is_positive (pos n) = ltb 0 n
is_positive (negsuc _) = false

is_good_answer : Option ℕ → Bool
is_good_answer none = false
is_good_answer (some code) = leb 200 code && ltb code 400

-- What a tick decides: an end of the wait, with an error or without, or nothing yet.
unfoldable pub judge : Application → Option ℕ → ContainerInfo → Option (Option HealthError)
unfolding is_good_answer
judge app answer info =
    if info.status == codes "exited" || info.status == codes "dead"
    then some (some (exited info.exit_code))
    else if info.status == codes "running"
    then if info.health == codes "healthy"
      then some none
      else if info.health == codes "unhealthy"
      then some (some unhealthy)
      else if not (is_empty app.healthcheck_path)
          && is_positive app.port
          && not (is_empty info.ip_address)
      then if is_good_answer answer then some none else none
      else if is_empty info.health && is_empty app.healthcheck_path
      then some none
      else none
    else none

-- The ticks up to the deadline: the tick behind them is after it and ends the wait.
unfoldable pub wait_for_health : Application → List Tick → Option HealthError
unfolding judge
wait_for_health app [] = some timed_out
wait_for_health app (t ∷ ticks) =
    let rest = wait_for_health app ticks in
    if t.context_done then some context_ended else elim t.info [
      | none ↦ some inspect_failed
      | some info ↦ elim (judge app t.answer info) [ none ↦ rest | some e ↦ e ]
    ]
