-- ===== src/Git/Refusal.antt =====
-- A reference that is refused never reaches git.
use mathlib.Core.Path.{subst}
use liteploy.Common.{
  ◌≡◌, ◌≢◌, refl, sym, inl, inr, false, not, some, List, [], ◌∷◌, is_empty, Bool-cases, Outcome, ok,
  err,
}
use liteploy.Common.Text.{Text, codes}
use liteploy.Common.FilePath.{is_abs, join_path}
use liteploy.Git.{
  CloneOptions, CloneResult, Command, Action, run, write_key, remove, remove_all, KeyFile,
  not_created, not_written, written, Machine, RefError, GitError, bad_ref, validate_ref,
  no_key_file, no_target, relative_target,
}
use liteploy.Git.Commands.{clone_with, removing, with_key, clone, branch_or_main, sync_with, sync}

-- The commands of a log.
unfoldable pub runs_of : List Action → List Command
runs_of [] = []
runs_of (run command ∷ log) = command ∷ runs_of log
runs_of (write_key _ ∷ log) = runs_of log
runs_of (remove _ ∷ log) = runs_of log
runs_of (remove_all _ ∷ log) = runs_of log

-- No command was run, and there is an error.
abbrev pub IsRefused : List Action → List Action × Outcome GitError CloneResult → Type 0
IsRefused log (log', result) = (runs_of log' ≡ runs_of log) × ((r : CloneResult) → result ≢ ok r)

no_result : (e : GitError) (r : CloneResult) → err e ≢ ok r
no_result e r q = cc

nothing_run :
    (log : List Action) (path : Text) → runs_of (remove path ∷ write_key path ∷ log) ≡ runs_of log
unfolding runs_of
nothing_run log path = refl

named : (ref : Text) (e : RefError) → validate_ref ref ≡ some e → is_empty ref ≡ false
unfolding validate_ref
named [] e h = cc
named (c ∷ t) e h = refl

module _ (g : Machine) (o : CloneOptions) (e : RefError)
    (bad : validate_ref o.branch ≡ some e) where
  removing-IsRefused :
      (log : List Action) (path : Text) (p : List Action × Outcome GitError CloneResult)
      → IsRefused (write_key path ∷ log) p
      → IsRefused log (removing path p)
  unfolding runs_of
  removing-IsRefused log path (l, result) h = h

  with_key-IsRefused :
      (body : Text → List Action → List Action × Outcome GitError CloneResult) (log : List Action)
      → ((key : Text) (l : List Action) → IsRefused l (body key l))
      → IsRefused log (with_key g o body log)
  unfolding with_key
  with_key-IsRefused body log h = elim (Bool-cases (is_empty o.ssh_key)) [
    | inl q ↦ subst (IsRefused log) (sym (rw (q, with_key) refl)) (h o.ssh_key_path log)
    | inr q ↦ by_file (g.key_file log) q refl
  ]
    where
      by_file :
          (f : KeyFile)
          → is_empty o.ssh_key ≡ false
          → g.key_file log ≡ f
          → IsRefused log (with_key g o body log)
      by_file not_created q k =
          subst (IsRefused log) (sym (rw (q, k, with_key) refl)) (refl, no_result no_key_file)
      by_file (not_written path) q k =
          subst (IsRefused log) (sym (rw (q, k, with_key) refl))
            (nothing_run log path, no_result no_key_file)
      by_file (written path) q k = subst (IsRefused log) (sym (rw (q, k, with_key) refl)) (
          removing-IsRefused log path (body path (write_key path ∷ log))
            (h path (write_key path ∷ log)))

  clone_with-IsRefused : (key : Text) (log : List Action) → IsRefused log (clone_with g o key log)
  unfolding clone_with
  clone_with-IsRefused key log =
      subst (IsRefused log) (sym (rw (bad, clone_with) refl)) (refl, no_result (bad_ref e))

  clone-IsRefused : (log : List Action) → IsRefused log (clone g o log)
  unfolding clone
  clone-IsRefused log = elim (Bool-cases (is_empty o.target_dir)) [
    | inl q ↦ subst (IsRefused log) (sym (rw (q, clone) refl)) (refl, no_result no_target)
    | inr q ↦ elim (Bool-cases (not (is_abs o.target_dir))) [
      | inl k ↦
          subst (IsRefused log) (sym (rw (q, k, clone) refl)) (refl, no_result relative_target)
      | inr k ↦
          subst (IsRefused log) (sym (rw (q, k, clone) refl))
            (with_key-IsRefused (clone_with g o) log clone_with-IsRefused)
    ]
  ]

  sync_with-IsRefused : (key : Text) (log : List Action) → IsRefused log (sync_with g o key log)
  unfolding sync_with
  sync_with-IsRefused key log =
      let stays : validate_ref (branch_or_main o) ≡ some e = rw (named o.branch e bad) bad in
      subst (IsRefused log) (sym (rw (stays, sync_with) refl)) (refl, no_result (bad_ref e))

-- `Sync` with a branch that `validateRef` refuses runs no command and returns an error, whether the
-- directory is a repository or not.
pub sync-IsRefused :
    (g : Machine) (o : CloneOptions) (log : List Action) (e : RefError)
    → validate_ref o.branch ≡ some e
    → IsRefused log (sync g o log)
unfolding sync runs_of
sync-IsRefused g o log e bad =
    elim (Bool-cases (g.is_repository log (join_path o.target_dir (codes ".git")))) [
      | inl q ↦
          let taken : sync g o log ≡ with_key g o (sync_with g o) log = rw (q, sync) refl in
          subst (IsRefused log) (sym taken)
            (with_key-IsRefused g o e bad (sync_with g o) log (sync_with-IsRefused g o e bad))
      | inr q ↦
          let taken : sync g o log ≡ clone g o (remove_all o.target_dir ∷ log) =
            rw (q, sync) refl in
          subst (IsRefused log) (sym taken)
            (clone-IsRefused g o e bad (remove_all o.target_dir ∷ log))
    ]
