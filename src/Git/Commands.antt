-- ===== src/Git/Commands.antt =====
-- internal/git/git.go: `Clone` and `Sync` with the commands that they run.
use liteploy.Common.{
  ◌&&◌, not, Option, none, some, List, [], ◌∷◌, ◌++◌, ltb, if◌then◌else◌, is_empty, drop, Outcome,
  ok, err,
}
use liteploy.Common.Text.{Text, codes, has_prefix, trim_space}
use liteploy.Common.Decimal.{print}
use liteploy.Common.FilePath.{is_abs, join_path}
use liteploy.Git.{
  CloneOptions, CloneResult, Sink, discarded, captured, plain, masked, Command, Action, run,
  write_key, remove, remove_all, not_created, not_written, written, Machine, GitError, no_target,
  relative_target, no_key_file, timeout, clone_failed, no_commit, reset_failed, bad_ref,
  validate_ref,
}

abbrev Log : Type 0
Log = List Action

abbrev Result : Type 0
Result = Log × Outcome GitError CloneResult

unfoldable pub clone_url : CloneOptions → Text
clone_url o =
    if not (is_empty o.auth_token) && has_prefix o.url (codes "https://")
    then codes "https://oauth2:" ++ o.auth_token ++ b'@' ∷ drop 8 o.url
    else o.url

unfoldable pub progress_sink : CloneOptions → Sink
progress_sink o =
    if o.progress then (if is_empty o.auth_token then plain else masked o.auth_token) else discarded

unfoldable pub clone_args : CloneOptions → List Text
unfolding clone_url
clone_args o =
    (codes "clone" ∷ [])
    ++ (if ltb 0 o.depth then codes "--depth" ∷ print o.depth ∷ [] else [])
    ++ (if is_empty o.branch then [] else codes "--branch" ∷ o.branch ∷ [])
    ++ codes "--" ∷ clone_url o ∷ o.target_dir ∷ []

abbrev pub asking : Text → List Text → Command
asking dir args = record { dir = dir; args = args; key_path = []; sink = captured }

abbrev commit_of : Option Text → Outcome GitError Text
commit_of none = err no_commit
commit_of (some out) = ok (trim_space out)

-- For a reference that is valid, as the callers' "HEAD" is.
unfoldable pub rev_parse : Machine → Text → Text → Log → Log × Outcome GitError Text
rev_parse g dir ref log =
    let command = asking dir (codes "rev-parse" ∷ codes "--" ∷ ref ∷ []) in
    (run command ∷ log, commit_of (g.runs log command))

abbrev branch_or_empty : Option Text → Text
branch_or_empty none = []
branch_or_empty (some out) = trim_space out

unfoldable pub current_branch : Machine → Text → Log → Log × Text
current_branch g dir log =
    let command = asking dir (codes "rev-parse" ∷ codes "--abbrev-ref" ∷ codes "HEAD" ∷ []) in
    (run command ∷ log, branch_or_empty (g.runs log command))

-- The end of `Clone`: the branch is asked for where the options name none.
unfoldable pub cloned : Machine → CloneOptions → Log × Outcome GitError Text → Result
unfolding current_branch
cloned g o (log, err e) = (log, err e)
cloned g o (log, ok sha) =
    if is_empty o.branch
    then (let (log', branch) = current_branch g o.target_dir log in
        (log', ok (record { commit_sha = sha; branch = branch })))
    else (log, ok (record { commit_sha = sha; branch = o.branch }))

-- `Clone` from the building of the arguments on.
unfoldable pub clone_with : Machine → CloneOptions → Text → Log → Result
unfolding cloned rev_parse
clone_with g o key log = elim (validate_ref o.branch) [
  | some e ↦ (log, err (bad_ref e))
  | none ↦
      let command : Command = record {
        dir = [];
        args = clone_args o;
        key_path = key;
        sink = progress_sink o;
      } in
      elim (g.runs log command) [
        | none ↦ (
          run command ∷ log,
          err (if g.timed_out (run command ∷ log) then timeout else clone_failed),
        )
        | some _ ↦ cloned g o (rev_parse g o.target_dir (codes "HEAD") (run command ∷ log))
      ]
]

abbrev pub removing : Text → Result → Result
removing path (log, result) = (remove path ∷ log, result)

-- A body with the path of the key. The temporary file is removed on the way out.
unfoldable pub with_key : Machine → CloneOptions → (Text → Log → Result) → Log → Result
with_key g o body log =
    if is_empty o.ssh_key then body o.ssh_key_path log else elim (g.key_file log) [
      | not_created ↦ (log, err no_key_file)
      | not_written path ↦ (remove path ∷ write_key path ∷ log, err no_key_file)
      | written path ↦ removing path (body path (write_key path ∷ log))
    ]

unfoldable pub clone : Machine → CloneOptions → Log → Result
unfolding with_key clone_with
clone g o log =
    if is_empty o.target_dir
    then (log, err no_target)
    else if not (is_abs o.target_dir)
    then (log, err relative_target)
    else with_key g o (clone_with g o) log

abbrev pub branch_or_main : CloneOptions → Text
branch_or_main o = if is_empty o.branch then codes "main" else o.branch

abbrev pub in_target : CloneOptions → Text → List Text → Command
in_target o key args = record {
  dir = [];
  args = codes "-C" ∷ o.target_dir ∷ args;
  key_path = key;
  sink = progress_sink o;
}

abbrev pub synced : CloneOptions → Log × Outcome GitError Text → Result
synced o (log, err e) = (log, err e)
synced o (log, ok sha) = (log, ok (record { commit_sha = sha; branch = branch_or_main o }))

-- A checkout that fails is tried again from the remote branch.
unfoldable pub checked_out : Machine → CloneOptions → Text → Log → Log
checked_out g o key log =
    let branch = branch_or_main o in
    let checkout = in_target o key (codes "checkout" ∷ codes "-f" ∷ branch ∷ []) in
    let again =
      in_target o key (codes "checkout" ∷ codes "-B" ∷ branch ∷ (codes "origin/" ++ branch) ∷ []) in
    elim (g.runs log checkout) [
      | none ↦ run again ∷ run checkout ∷ log
      | some _ ↦ run checkout ∷ log
    ]

-- The end of `Sync`, from the reset on.
unfoldable pub reset_branch : Machine → CloneOptions → Text → Log → Result
unfolding rev_parse
reset_branch g o key log =
    let remote = codes "origin/" ++ branch_or_main o in
    let reset = in_target o key (codes "reset" ∷ codes "--hard" ∷ remote ∷ []) in
    let clean = in_target o key (codes "clean" ∷ codes "-fd" ∷ []) in
    elim (g.runs log reset) [
      | none ↦ (run reset ∷ log, err reset_failed)
      | some _ ↦ synced o (rev_parse g o.target_dir (codes "HEAD") (run clean ∷ run reset ∷ log))
    ]

-- `Sync` of a directory that is a repository. A fetch that fails is followed by a fresh clone.
unfoldable pub sync_with : Machine → CloneOptions → Text → Log → Result
unfolding checked_out reset_branch clone
sync_with g o key log = elim (validate_ref (branch_or_main o)) [
  | some e ↦ (log, err (bad_ref e))
  | none ↦
      let set_url =
        in_target o key (codes "remote" ∷ codes "set-url" ∷ codes "origin" ∷ clone_url o ∷ []) in
      let fetch =
        in_target o key
          (codes "fetch" ∷ codes "--depth" ∷ codes "1" ∷ codes "origin" ∷ branch_or_main o ∷ []) in
      let log = run set_url ∷ log in
      elim (g.runs log fetch) [
        | none ↦ clone g o (remove_all o.target_dir ∷ run fetch ∷ log)
        | some _ ↦ reset_branch g o key (checked_out g o key (run fetch ∷ log))
      ]
]

unfoldable pub sync : Machine → CloneOptions → Log → Result
unfolding sync_with with_key clone
sync g o log =
    if g.is_repository log (join_path o.target_dir (codes ".git"))
    then with_key g o (sync_with g o) log
    else clone g o (remove_all o.target_dir ∷ log)
