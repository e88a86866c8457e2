-- ===== src/Git.antt =====
-- internal/git/git.go: the runs of git that fetch a repository. What git answers, and what the
-- operating system does, depends on the actions so far; the newest action is the first of the log.
-- An SSH key of the options is written to a temporary file. The time limit is part of what git
-- answers.
pub mod Commands
pub mod Masking
pub mod Runs
pub mod Traces
pub mod Refusal
mod Tests
use liteploy.Common.{
  suc, zero, ◌-◌, ℕ, Bool, true, false, ◌&&◌, ◌||◌, not, Option, none, some, List, [], ◌∷◌, ◌++◌,
  ltb, if◌then◌else◌, is_empty, any, drop, length, Outcome, ok, err,
}
use liteploy.Common.Text.{Text, codes, has_prefix, includes, trim_space}
use liteploy.Common.Decimal.{print}
use liteploy.Common.FilePath.{is_abs, join_path, rel}

pub record CloneOptions : Type 0 where
  pub url : Text
  pub branch : Text
  pub depth : ℕ
  pub target_dir : Text
  pub auth_token : Text
  pub ssh_key : Text
  pub ssh_key_path : Text
  pub progress : Bool  -- whether there is a writer for the output

pub record CloneResult : Type 0 where
  pub commit_sha : Text
  pub branch : Text

-- Where the output of a command goes: nowhere, to the caller, or to the progress writer, as it is or
-- with a secret masked.
pub data Sink : Type 0 where
  discarded captured plain : Sink
  masked : Text → Sink

pub record Command : Type 0 where
  pub dir : Text
  pub args : List Text
  pub key_path : Text  -- of GIT_SSH_COMMAND, or empty
  pub sink : Sink

pub data Action : Type 0 where
  run : Command → Action
  write_key remove remove_all : Text → Action

pub data KeyFile : Type 0 where
  not_created : KeyFile
  not_written written : Text → KeyFile

-- `runs` is a command's output, or none where it fails.
pub record Machine : Type 0 where
  pub runs : List Action → Command → Option Text
  pub is_repository : List Action → Text → Bool
  pub key_file : List Action → KeyFile
  pub timed_out : List Action → Bool
  pub removes : List Action → Text → Bool  -- whether `os.Remove` works, its error ignored

pub data RefError : Type 0 where
  disallowed_characters leading_dash too_long : RefError

pub data GitError : Type 0 where
  no_target relative_target no_key_file timeout clone_failed no_commit reset_failed : GitError
  bad_ref : RefError → GitError

abbrev forbidden : List Text
forbidden =
    codes ".."
    ∷ codes "~"
    ∷ codes "^"
    ∷ codes ":"
    ∷ codes "?"
    ∷ codes "*"
    ∷ codes "["
    ∷ codes "\\"
    ∷ codes " "
    ∷ codes "\t"
    ∷ codes "\n"
    ∷ codes "@{"
    ∷ []

unfoldable pub validate_ref : Text → Option RefError
validate_ref ref =
    if is_empty ref
    then none
    else if any (λ bad. includes ref bad) forbidden
    then some disallowed_characters
    else if has_prefix ref (codes "-")
    then some leading_dash
    else if ltb 256 (length ref)
    then some too_long
    else none

-- Whether the directory is removed, or an error where it is not under the root, for absolute paths.
unfoldable pub cleanup : Text → Text → Outcome (Unit {0}) Bool
cleanup dir root =
    if is_empty dir || is_empty root
    then ok false
    else if has_prefix (rel root dir) (codes "..")
    then err tt
    else ok true

-- `strings.ReplaceAll(t, old, new)` for an `old` that is not empty: the bytes of a match are skipped.
unfoldable pub replace_from : ℕ → Text → Text → Text → Text
replace_from skip old new [] = []
replace_from (suc skip) old new (c ∷ t) = replace_from skip old new t
replace_from zero old new (c ∷ t) =
    let skipped = replace_from (length old - 1) old new t in
    let kept = replace_from 0 old new t in
    if has_prefix (c ∷ t) old then new ++ skipped else c ∷ kept

abbrev pub mask : Text
mask = codes "******"

-- What one `Write` of the mask writer hands on.
unfoldable pub mask_write : Text → Text → Text
unfolding replace_from
mask_write secret t = if is_empty secret then t else replace_from 0 secret mask t
