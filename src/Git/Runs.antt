-- ===== src/Git/Runs.antt =====
-- Relations between the logs before and after that the operations keep.
use mathlib.Core.Path.{subst}
use liteploy.Common.{
  ◌≡◌, refl, sym, ◌⊎◌, inl, inr, false, not, List, [], ◌∷◌, ◌++◌, is_empty, Bool-cases,
  Option-cases, Outcome, ok, err,
}
use liteploy.Common.Text.{Text, codes, text_eq}
use liteploy.Common.FilePath.{is_abs, join_path}
use liteploy.Git.{
  CloneOptions, CloneResult, captured, Command, Action, run, write_key, remove, remove_all, KeyFile,
  not_created, not_written, written, Machine, GitError, validate_ref,
}
use liteploy.Git.Commands.{
  clone_args, progress_sink, asking, rev_parse, current_branch, cloned, clone_with, with_key, clone,
  branch_or_main, in_target, synced, checked_out, reset_branch, sync_with, sync, clone_url,
}

-- Where a command of these options may write to.
abbrev pub IsOwn : CloneOptions → Command → Type 0
IsOwn o command = (command.sink ≡ captured) ⊎ (command.sink ≡ progress_sink o)

-- A relation between the logs before and after that the single actions keep, and that the
-- bracket of a key file keeps, is kept by the operations.
module _ (g : Machine) (o : CloneOptions) (R : List Action → List Action → Type 0)
    (same : (log : List Action) → R log log)
    (ran : (log log' : List Action) (command : Command)
      → IsOwn o command
      → R log log'
      → R log (run command ∷ log'))
    (emptied : (log log' : List Action) (path : Text) → R log log' → R log (remove_all path ∷ log'))
    (after : (a b c : List Action) → R a b → R b c → R a c)
    (bracket : (log log' : List Action) (path : Text)
      → R (write_key path ∷ log) log'
      → R log (remove path ∷ log')) where
  cloned-R :
      (log : List Action) (p : List Action × Outcome GitError Text)
      → R log p.0
      → R log (cloned g o p).0
  unfolding cloned current_branch
  cloned-R log (log', err e) h = h
  cloned-R log (log', ok sha) h = elim (Bool-cases (is_empty o.branch)) [
    | inl e ↦ rw (e, cloned) (ran log log' _ (inl refl) h)
    | inr e ↦ rw (e, cloned) h
  ]

  clone_with-R : (key : Text) (log : List Action) → R log (clone_with g o key log).0
  unfolding clone_with rev_parse
  clone_with-R key log = elim (Option-cases (validate_ref o.branch)) [
    | inr (e, q) ↦ rw (q, clone_with) (same log)
    | inl q ↦ elim (Option-cases (g.runs log command)) [
      | inl k ↦ rw (q, k, clone_with) (ran log log command (inr refl) (same log))
      | inr (out, k) ↦
          rw (q, k, clone_with)
            (cloned-R log (rev_parse g o.target_dir (codes "HEAD") (run command ∷ log)) (
              ran log (run command ∷ log) _ (inl refl) (ran log log command (inr refl) (same log))))
    ]
  ]
    where
      command : Command
      command = record { dir = []; args = clone_args o; key_path = key; sink = progress_sink o }

  with_key-R :
      (body : Text → List Action → List Action × Outcome GitError CloneResult) (log : List Action)
      → ((key : Text) (l : List Action) → R l (body key l).0)
      → R log (with_key g o body log).0
  unfolding with_key
  with_key-R body log h = elim (Bool-cases (is_empty o.ssh_key)) [
    | inl e ↦ rw (e, with_key) (h o.ssh_key_path log)
    | inr e ↦ by_file (g.key_file log) e refl
  ]
    where
      by_file :
          (f : KeyFile)
          → is_empty o.ssh_key ≡ false
          → g.key_file log ≡ f
          → R log (with_key g o body log).0
      by_file not_created e q = rw (e, q, with_key) (same log)
      by_file (not_written path) e q =
          rw (e, q, with_key)
            (bracket log (write_key path ∷ log) path (same (write_key path ∷ log)))
      by_file (written path) e q =
          rw (e, q, with_key)
            (bracket log (body path (write_key path ∷ log)).0 path (h path (write_key path ∷ log)))

  pub clone-R : (log : List Action) → R log (clone g o log).0
  unfolding clone
  clone-R log = elim (Bool-cases (is_empty o.target_dir)) [
    | inl e ↦ rw (e, clone) (same log)
    | inr e ↦ elim (Bool-cases (not (is_abs o.target_dir))) [
      | inl q ↦ rw (e, q, clone) (same log)
      | inr q ↦ rw (e, q, clone) (with_key-R (clone_with g o) log clone_with-R)
    ]
  ]

  checked_out-R : (key : Text) (log : List Action) → R log (checked_out g o key log)
  unfolding checked_out
  checked_out-R key log = elim (Option-cases (g.runs log checkout)) [
    | inl e ↦
        rw (e, checked_out)
          (ran log (run checkout ∷ log) _ (inr refl) (ran log log checkout (inr refl) (same log)))
    | inr (x, e) ↦ rw (e, checked_out) (ran log log checkout (inr refl) (same log))
  ]
    where
      checkout : Command
      checkout = in_target o key (codes "checkout" ∷ codes "-f" ∷ branch_or_main o ∷ [])

  synced_log : (p : List Action × Outcome GitError Text) → (synced o p).0 ≡ p.0
  synced_log (l, err e) = refl
  synced_log (l, ok sha) = refl

  reset_branch-R : (key : Text) (log : List Action) → R log (reset_branch g o key log).0
  unfolding reset_branch rev_parse
  reset_branch-R key log = elim (Option-cases (g.runs log reset)) [
    | inl e ↦ rw (e, reset_branch) (ran log log reset (inr refl) (same log))
    | inr (x, e) ↦
        rw (e, reset_branch)
          (subst (R log)
            (sym
              (synced_log (rev_parse g o.target_dir (codes "HEAD") (run clean ∷ run reset ∷ log))))
            (ran log (run clean ∷ run reset ∷ log) asked (inl refl) (
              ran log (run reset ∷ log) clean (inr refl)
                (ran log log reset (inr refl) (same log)))))
  ]
    where
      reset : Command
      reset =
          in_target o key
            (codes "reset" ∷ codes "--hard" ∷ (codes "origin/" ++ branch_or_main o) ∷ [])

      clean : Command
      clean = in_target o key (codes "clean" ∷ codes "-fd" ∷ [])

      asked : Command
      asked = asking o.target_dir (codes "rev-parse" ∷ codes "--" ∷ codes "HEAD" ∷ [])

  sync_with-R : (key : Text) (log : List Action) → R log (sync_with g o key log).0
  unfolding sync_with
  sync_with-R key log = elim (Option-cases (validate_ref (branch_or_main o))) [
    | inr (e, q) ↦ rw (q, sync_with) (same log)
    | inl q ↦ elim (Option-cases (g.runs (run set_url ∷ log) fetch)) [
      | inl k ↦
          rw (q, k, sync_with)
            (after log (remove_all o.target_dir ∷ run fetch ∷ run set_url ∷ log) _
              (emptied log (run fetch ∷ run set_url ∷ log) o.target_dir fetched)
              (clone-R (remove_all o.target_dir ∷ run fetch ∷ run set_url ∷ log)))
      | inr (out, k) ↦
          rw (q, k, sync_with)
            (after log (run fetch ∷ run set_url ∷ log) _ fetched (
              after (run fetch ∷ run set_url ∷ log)
                (checked_out g o key (run fetch ∷ run set_url ∷ log)) _
                (checked_out-R key (run fetch ∷ run set_url ∷ log))
                (reset_branch-R key (checked_out g o key (run fetch ∷ run set_url ∷ log)))))
    ]
  ]
    where
      set_url : Command
      set_url =
          in_target o key (codes "remote" ∷ codes "set-url" ∷ codes "origin" ∷ clone_url o ∷ [])

      fetch : Command
      fetch =
          in_target o key
            (codes "fetch" ∷ codes "--depth" ∷ codes "1" ∷ codes "origin" ∷ branch_or_main o ∷ [])

      fetched : R log (run fetch ∷ run set_url ∷ log)
      fetched =
          ran log (run set_url ∷ log) fetch (inr refl) (ran log log set_url (inr refl) (same log))

  pub sync-R : (log : List Action) → R log (sync g o log).0
  unfolding sync
  sync-R log = elim (Bool-cases (g.is_repository log (join_path o.target_dir (codes ".git")))) [
    | inl e ↦ rw (e, sync) (with_key-R (sync_with g o) log sync_with-R)
    | inr e ↦
        rw (e, sync)
          (after log (remove_all o.target_dir ∷ log) _ (emptied log log o.target_dir (same log))
            (clone-R (remove_all o.target_dir ∷ log)))
  ]
