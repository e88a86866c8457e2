-- ===== src/Storage.antt =====
-- internal/storage/storage.go: files under a root directory. `files` maps an absolute path to the
-- value that the file there decodes to; `none` is a file that holds no whole JSON document. What
-- the operating system does is a `Disk`: which calls fail, and the name that `CreateTemp` picks.
pub mod Writes
pub mod Paths
mod Tests
use liteploy.Common.{
  ℕ, Bool, true, false, ◌||◌, Option, none, some, List, [], ◌∷◌, if◌then◌else◌, Outcome, ok, err,
  ◌>>=◌, ◌==◌, ◌++◌, not, keep_if,
}
use mathlib.Core.Option
use liteploy.Common.Text.{Text, codes, text_eq, includes, has_prefix}
use liteploy.Common.Table.{Table, get, put, delete}
use liteploy.Common.FilePath.{join_path, rel}

-- The call of `atomicWrite` that fails.
pub data Fault : Type 0 where
  at_create at_write at_chmod at_sync at_close at_rename : Fault

pub data StoreError : Type 0 where
  disallowed_dots escapes_root mkdir_failed not_exist decode_failed : StoreError
  write_failed : Fault → StoreError

pub record Disk : Type 0 where
  pub mkdir_fails : Text → Bool
  pub fault : Text → Option Fault
  pub temp_name : Text → Text

pub record Store {ℓ} (V : Type ℓ) : Type ℓ where
  pub root : Text
  pub files : Table (Option V)

unfoldable pub safe_path : Text → Text → Outcome StoreError Text
safe_path root rel_path =
    if includes rel_path (codes "..")
    then err disallowed_dots
    else let joined = join_path root rel_path in
      if has_prefix (rel root joined) (codes "..") then err escapes_root else ok joined

abbrev last_state {ℓ} : {A : Type ℓ} → A → List A → A
last_state s [] = s
last_state s (t ∷ r) = last_state t r

module _ {ℓ} {V : Type ℓ} (tmp path : Text) (v : V) where
  -- The file tables after each call of `atomicWrite` and of its clean-up, in order: the temporary
  -- file is created, filled and renamed, and it is removed if a call fails. The calls of `Chmod`,
  -- `Sync` and `Close` leave the contents alone.
  unfoldable pub write_states : Option Fault → Table (Option V) → List (Table (Option V))
  write_states fault files =
      let created = put files tmp none in
      let filled = put created tmp (some v) in
      elim fault [
        | some at_create ↦ []
        | some at_write ↦ created ∷ delete created tmp ∷ []
        | some at_chmod ↦ created ∷ filled ∷ delete filled tmp ∷ []
        | some at_sync ↦ created ∷ filled ∷ filled ∷ delete filled tmp ∷ []
        | some at_close ↦ created ∷ filled ∷ filled ∷ filled ∷ delete filled tmp ∷ []
        | some at_rename ↦ created ∷ filled ∷ filled ∷ filled ∷ filled ∷ delete filled tmp ∷ []
        | none ↦
            created ∷ filled ∷ filled ∷ filled ∷ filled ∷ put (delete filled tmp) path (some v) ∷ []
      ]

  -- The table that `atomicWrite` leaves.
  unfoldable pub atomic_write : Option Fault → Table (Option V) → Table (Option V)
  unfolding write_states
  atomic_write fault files = last_state files (write_states fault files)

abbrev is_below : Text → Text → Bool
is_below dir path = path == dir || has_prefix path (dir ++ codes "/")

module _ {ℓ} {V : Type ℓ} where
  unfoldable pub write_json : Disk → Store V → Text → V → Store V × Option StoreError
  unfolding atomic_write
  write_json disk s rel_path v = elim (safe_path s.root rel_path) [
    | err e ↦ (s, some e)
    | ok path ↦ if disk.mkdir_fails path then (s, some mkdir_failed) else (
      record s { files = atomic_write (disk.temp_name path) path v (disk.fault path) s.files },
      Option.map write_failed (disk.fault path),
    )
  ]

  unfoldable pub read_json : Store V → Text → Outcome StoreError V
  read_json s rel_path = do
    path ← safe_path s.root rel_path
    elim (get s.files path) [
      | none ↦ err not_exist
      | some none ↦ err decode_failed
      | some (some v) ↦ ok v
    ]

  unfoldable pub abs_path : Store V → Text → Outcome StoreError Text
  abs_path s rel_path = safe_path s.root rel_path

  -- `os.RemoveAll(dir)`
  unfoldable pub remove_all : Text → Store V → Store V
  remove_all dir s = record s { files = keep_if (λ e. not (is_below dir e.0)) s.files }
