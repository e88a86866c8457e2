-- ===== src/Deployment/Service/Runs/Outcomes.antt =====
-- What a run leaves of its deployment.
use mathlib.Core.Path.{subst}
use liteploy.Common.{
  ℕ, ◌+◌, ◌≤◌, ◌≡◌, ◌≢◌, refl, ap, sym, ◌∙◌, inl, inr, Bool, true, false, Option, none, some, List,
  [], ◌∷◌, arith, ◌==◌, Bool-cases, Option-cases, if◌then◌else◌, All, length, length-append,
  length-take, ltb, leb, drop, nat_eq, Outcome, ok, err,
}
use liteploy.Common.Text.{Text, text_eq, text_beq_iff, codes}
use liteploy.Common.Table.{Table, get, put, delete}
use liteploy.Common.Table.Laws.{All-delete, get-delete_self}
use liteploy.Storage.{Disk}
use liteploy.Deployment.{status_eq, cancelled, is_active, Deployment, fail, succeed, start}
use liteploy.Deployment.Service.{Service, Job, update_deployment, list_by_app}
use liteploy.Deployment.Service.Runs.{
  Executed, sanitize_error, remove_deployment, remove_each, prune_old_deployments, conclude,
  started, execute_with, run_body, run_job,
}

-- 512 bytes and a mark.
sanitize_error-bound : (msg : Text) → length (sanitize_error msg) ≤ 527
unfolding sanitize_error
sanitize_error-bound msg = elim (Bool-cases (ltb 512 (length msg))) [
  | inl e ↦
      rw (e, sanitize_error) (omega (arith, length-append (take' msg) mark, length-take 512 msg))
  | inr e ↦ rw (e, sanitize_error) (ground arith)
]
  where
    take' : Text → Text
    take' msg = liteploy.Common.take 512 msg

    mark : Text
    mark = codes "... (truncated)"

unequal : (a b : Text) → (a == b) ≡ false → a ≢ b
unequal a b e same = ground (arith, text_beq_iff a b)

fail-id : (now : ℕ) (stage msg : Text) (d : Deployment) → (fail now stage msg d).id ≡ d.id
unfolding fail
fail-id now stage msg d = refl

succeed-id : (now : ℕ) (d : Deployment) → (succeed now d).id ≡ d.id
unfolding succeed
succeed-id now d = refl

-- Every record under the id has the property.
abbrev pub Holds : (Deployment → Type 0) → Text → Service → Type 0
Holds P id s = All (λ e. e.0 ≡ id → P e.1) s.deployments

pub remove-deployments :
    (app : Text) (d : Deployment) (s : Service)
    → (remove_deployment app d s).deployments ≡ delete s.deployments d.id
unfolding remove_deployment
remove-deployments app d s = ground arith

module _ (P : Deployment → Type 0) where
  keyed_other : (t : Table Deployment) (id : Text) → All (λ e. e.0 ≡ id → P e.1) (delete t id)
  unfolding delete
  keyed_other [] id = tt
  keyed_other ((j, d) ∷ t) id = elim (Bool-cases (j == id)) [
    | inl e ↦ rw e (keyed_other t id)
    | inr e ↦ rw e ((λ same. absurd (unequal j id e same)), keyed_other t id)
  ]

  update-Holds :
      (disk : Disk) (d : Deployment) (s : Service) → P d → Holds P d.id (update_deployment disk d s)
  unfolding update_deployment put
  update-Holds disk d s h = ((λ _. h), keyed_other s.deployments d.id)

  Holds-under :
      (disk : Disk) (d : Deployment) (id : Text) (s : Service)
      → d.id ≡ id
      → P d
      → Holds P id (update_deployment disk d s)
  Holds-under disk d id s e h =
      subst (λ i. Holds P i (update_deployment disk d s)) e (update-Holds disk d s h)

  remove-Holds :
      (app id : Text) (d : Deployment) (s : Service)
      → Holds P id s
      → Holds P id (remove_deployment app d s)
  remove-Holds app id d s h =
      rw (remove-deployments app d s) (All-delete (λ e. e.0 ≡ id → P e.1) s.deployments d.id h)

  remove_each-Holds :
      (app id : Text) (ds : List Deployment) (s : Service)
      → Holds P id s
      → Holds P id (remove_each app ds s)
  unfolding remove_each
  remove_each-Holds app id [] s h = h
  remove_each-Holds app id (d ∷ ds) s h =
      remove_each-Holds app id ds (remove_deployment app d s) (remove-Holds app id d s h)

  prune-Holds :
      (app id : Text) (n : ℕ) (s : Service)
      → Holds P id s
      → Holds P id (prune_old_deployments app n s)
  unfolding prune_old_deployments
  prune-Holds app id n s h = elim (Bool-cases (n == 0)) [
    | inl e ↦ rw e h
    | inr e ↦ rw e (elim (Bool-cases (leb (length (list_by_app app s)) n)) [
      | inl k ↦ rw k h
      | inr k ↦ rw k (remove_each-Holds app id (drop n (list_by_app app s)) s h)
    ])
  ]

  -- What the record of a run needs for the property to hold at its end.
  abbrev Suits : ℕ → Text → Executed → Type 0
  Suits now id r =
      (r.dep.id ≡ id)
      × (r.error ≡ none → P r.dep)
      × P (record r.dep { status = cancelled; finished_at = some now })
      × ((msg : Text) → P (fail now (codes "execute") (sanitize_error msg) r.dep))

  conclude-Holds :
      (disk : Disk) (now : ℕ) (id : Text) (r : Executed) (s : Service)
      → Suits now id r
      → Holds P id (conclude disk now r s)
  unfolding conclude
  conclude-Holds disk now id r s (same, over, stopped, failed) = elim (Option-cases r.error) [
    | inl e ↦ rw e (prune-Holds r.dep.app_id id 10 _ (Holds-under disk r.dep id s same (over e)))
    | inr (msg, e) ↦ rw e (elim (Bool-cases r.context_done) [
      | inl c ↦ rw c (
          Holds-under disk (record r.dep { status = cancelled; finished_at = some now }) id s same
            stopped)
      | inr c ↦ rw c (
          Holds-under disk (fail now (codes "execute") (sanitize_error msg) r.dep) id s
            (fail-id now (codes "execute") (sanitize_error msg) r.dep ∙ same) (failed msg))
    ])
  ]

  run_body-Holds :
      (disk : Disk) (now later : ℕ) (opens : Bool) (execute : Option (Deployment → Executed))
      (d : Deployment) (s : Service)
      → P (fail now (codes "prepare") (codes "failed to open log file") d)
      → Suits later d.id (execute_with execute later (started now d))
      → Holds P d.id (run_body disk now later opens execute d s)
  unfolding run_body start
  run_body-Holds disk now later false execute d s h k =
      Holds-under disk (fail now (codes "prepare") (codes "failed to open log file") d) d.id s
        (fail-id now (codes "prepare") (codes "failed to open log file") d) h
  run_body-Holds disk now later true execute d s h k =
      conclude-Holds disk later d.id (execute_with execute later (started now d)) _ k

-- Every record under the id is over.
abbrev pub IsSettled : Text → Service → Type 0
IsSettled id s = Holds (λ d. is_active d.status ≡ false) id s

-- What the service asks of its executor: the record keeps its id, and it is over where no error is
-- returned.
abbrev pub Settles : (Deployment → Executed) → Type 0
Settles execute =
    (d : Deployment)
    → ((execute d).dep.id ≡ d.id)
      × ((execute d).error ≡ none → is_active (execute d).dep.status ≡ false)

failed_over :
    (now : ℕ) (stage msg : Text) (d : Deployment) → is_active (fail now stage msg d).status ≡ false
unfolding fail is_active
failed_over now stage msg d = refl

cancelled_over : is_active cancelled ≡ false
unfolding is_active
cancelled_over = refl

succeeded_over : (now : ℕ) (d : Deployment) → is_active (succeed now d).status ≡ false
unfolding succeed is_active
succeeded_over now d = refl

settled-Suits :
    (now later : ℕ) (execute : Option (Deployment → Executed)) (d : Deployment)
    → ((f : Deployment → Executed) → execute ≡ some f → Settles f)
    → Suits
        (λ x. is_active x.status ≡ false)
        later
        d.id
        (execute_with execute later (started now d))
settled-Suits now later none d ask = (
  succeed-id later (started now d),
  (λ _. succeeded_over later (started now d)),
  cancelled_over,
  λ msg. failed_over later (codes "execute") (sanitize_error msg) (succeed later (started now d)),
)
settled-Suits now later (some f) d ask =
    let (same, over) = ask f refl (started now d) in
    (
      same,
      over,
      cancelled_over,
      λ msg. failed_over later (codes "execute") (sanitize_error msg) (f (started now d)).dep,
    )

-- When a worker is done with a job, whether the log opened, the executor failed or it was
-- cancelled, no record under the job's id is active any more, and no cancel function stands under
-- the id. The executor is asked to keep the id, and to leave no active record where it returns no
-- error.
pub run_job-IsSettled :
    (disk : Disk) (now later : ℕ) (opens : Bool) (execute : Option (Deployment → Executed))
    (j : Job) (s : Service)
    → ((f : Deployment → Executed) → execute ≡ some f → Settles f)
    → IsSettled j.dep.id (run_job disk now later opens execute j s)
      × (get (run_job disk now later opens execute j s).cancel_fns j.dep.id ≡ none)
unfolding run_job
run_job-IsSettled disk now later opens execute j s ask = (
  run_body-Holds (λ d. is_active d.status ≡ false) disk now later opens execute j.dep _
      (failed_over now (codes "prepare") (codes "failed to open log file") j.dep)
      (settled-Suits now later execute j.dep ask),
  get-delete_self _ j.dep.id,
)

-- The message of a record has at most 527 bytes.
abbrev pub IsBrief : Deployment → Type 0
IsBrief d = length d.error ≤ 527

-- An executor that keeps the id and the message of the record.
abbrev pub IsSilent : (Deployment → Executed) → Type 0
IsSilent execute =
    (d : Deployment) → ((execute d).dep.id ≡ d.id) × ((execute d).dep.error ≡ d.error)

fail-IsBrief :
    (now : ℕ) (stage msg : Text) (d : Deployment)
    → length msg ≤ 527
    → IsBrief (fail now stage msg d)
unfolding fail
fail-IsBrief now stage msg d h = h

succeed-error : (now : ℕ) (d : Deployment) → (succeed now d).error ≡ d.error
unfolding succeed
succeed-error now d = refl

IsBrief-Suits :
    (now later : ℕ) (execute : Option (Deployment → Executed)) (d : Deployment)
    → IsBrief d
    → ((f : Deployment → Executed) → execute ≡ some f → IsSilent f)
    → Suits IsBrief later d.id (execute_with execute later (started now d))
IsBrief-Suits now later execute d h ask = by_error execute refl
  where
    short : (t : Text) → t ≡ d.error → length t ≤ 527
    short t e = subst (λ x. length x ≤ 527) (sym e) h

    by_error :
        (o : Option (Deployment → Executed))
        → execute ≡ o
        → Suits IsBrief later d.id (execute_with o later (started now d))
    by_error none e =
        let t = short _ (succeed-error later (started now d)) in
        (
          succeed-id later (started now d),
          (λ _. t),
          t,
          λ msg.
              fail-IsBrief later (codes "execute") (sanitize_error msg) _
                (sanitize_error-bound msg),
        )
    by_error (some f) e =
        let (same, kept) = ask f e (started now d) in
        let t = short _ kept in
        (
          same,
          (λ _. t),
          t,
          λ msg.
              fail-IsBrief later (codes "execute") (sanitize_error msg) _
                (sanitize_error-bound msg),
        )

-- However long the error of the executor is, the message of each record under the job's id has at most
-- 527 bytes after the run: 512 and a mark. The record is asked to have no longer one before the run,
-- and the executor to keep the record's id and to write no message into it.
pub run_job-IsBrief :
    (disk : Disk) (now later : ℕ) (opens : Bool) (execute : Option (Deployment → Executed))
    (j : Job) (s : Service)
    → IsBrief j.dep
    → ((f : Deployment → Executed) → execute ≡ some f → IsSilent f)
    → Holds IsBrief j.dep.id (run_job disk now later opens execute j s)
unfolding run_job
run_job-IsBrief disk now later opens execute j s h ask =
    run_body-Holds IsBrief disk now later opens execute j.dep _
      (fail-IsBrief now (codes "prepare") (codes "failed to open log file") j.dep (omega arith))
      (IsBrief-Suits now later execute j.dep h ask)
