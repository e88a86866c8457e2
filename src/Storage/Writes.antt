-- ===== src/Storage/Writes.antt =====
-- A file is replaced whole or not at all.
use liteploy.Common.{
  ◌≡◌, refl, ◌≢◌, ◌⊎◌, inl, Bool, true, false, ◌&&◌, Option, none, some, ◌==◌, arith, if◌then◌else◌,
  All, Outcome, ok, err,
}
use liteploy.Common.Text.{Text, text_eq, text_beq_iff}
use liteploy.Common.Table.{Table, get, put, delete}
use liteploy.Common.Table.Laws.{get-put, get-put_self, get-delete}
use liteploy.Storage.{
  Fault, at_create, at_write, at_chmod, at_sync, at_close, at_rename, write_states, atomic_write,
  Store, Disk, StoreError, write_json, read_json, safe_path,
}

abbrev pub is_none {ℓ} : {A : Type ℓ} → Option A → Bool
is_none none = true
is_none (some _) = false

module _ {ℓ} {V : Type ℓ} (tmp path : Text) (v : V) where
  -- A reader of any file but the temporary one finds it as it was, or finds the new contents under
  -- the path that is written.
  abbrev pub IsWhole : Table (Option V) → Table (Option V) → Type ℓ
  IsWhole files after =
      (j : Text)
      → j ≢ tmp
      → (get after j ≡ get files j) ⊎ ((j ≡ path) × (get after j ≡ some (some v)))

  created-IsWhole : (files : Table (Option V)) → IsWhole files (put files tmp none)
  created-IsWhole files j h = inl (ground (arith, get-put files tmp none j, text_beq_iff tmp j))

  filled-IsWhole :
      (files : Table (Option V)) → IsWhole files (put (put files tmp none) tmp (some v))
  filled-IsWhole files j h = inl (
      ground (
        arith,
        get-put files tmp none j,
        get-put (put files tmp none) tmp (some v) j,
        text_beq_iff tmp j,
      ))

  removed-IsWhole :
      (files after : Table (Option V)) → IsWhole files after → IsWhole files (delete after tmp)
  removed-IsWhole files after w j h =
      ground (arith, get-delete after tmp j, text_beq_iff tmp j, w j h)

  moved-IsWhole :
      (files after : Table (Option V))
      → IsWhole files after
      → IsWhole files (put (delete after tmp) path (some v))
  moved-IsWhole files after w j h = ground (
    arith,
    get-put (delete after tmp) path (some v) j,
    text_beq_iff path j,
    removed-IsWhole files after w j h,
  )

  -- Wherever a crash stops the write, each file but the temporary one has its old contents or, at
  -- the path that is written, the whole new contents.
  pub write_states-IsWhole :
      (fault : Option Fault) (files : Table (Option V))
      → All (IsWhole files) (write_states tmp path v fault files)
  unfolding write_states
  write_states-IsWhole (some at_create) files = tt
  write_states-IsWhole (some at_write) files =
      (created-IsWhole files, (removed-IsWhole files _ (created-IsWhole files), tt))
  write_states-IsWhole (some at_chmod) files = (
    created-IsWhole files,
    (filled-IsWhole files, (removed-IsWhole files _ (filled-IsWhole files), tt)),
  )
  write_states-IsWhole (some at_sync) files =
      let c = created-IsWhole files in
      let f = filled-IsWhole files in (c, (f, (f, (removed-IsWhole files _ f, tt))))
  write_states-IsWhole (some at_close) files =
      let c = created-IsWhole files in
      let f = filled-IsWhole files in (c, (f, (f, (f, (removed-IsWhole files _ f, tt)))))
  write_states-IsWhole (some at_rename) files =
      let c = created-IsWhole files in
      let f = filled-IsWhole files in (c, (f, (f, (f, (f, (removed-IsWhole files _ f, tt))))))
  write_states-IsWhole none files =
      let c = created-IsWhole files in
      let f = filled-IsWhole files in (c, (f, (f, (f, (f, (moved-IsWhole files _ f, tt))))))

  -- The write leaves no temporary file, if there was none under that name.
  pub temp_removed :
      (fault : Option Fault) (files : Table (Option V))
      → get files tmp ≡ none
      → path ≢ tmp
      → get (atomic_write tmp path v fault files) tmp ≡ none
  unfolding atomic_write
  temp_removed fault files h ne = ground (
    arith,
    get-delete (put files tmp none) tmp tmp,
    get-delete (put (put files tmp none) tmp (some v)) tmp tmp,
    get-put (delete (put (put files tmp none) tmp (some v)) tmp) path (some v) tmp,
    text_beq_iff tmp tmp,
    text_beq_iff path tmp,
  )

  -- A write that fails leaves every file as it was; one that succeeds changes the one file.
  pub atomic_write_result :
      (fault : Option Fault) (files : Table (Option V))
      → get files tmp ≡ none
      → path ≢ tmp
      → (j : Text)
      → get (atomic_write tmp path v fault files) j
        ≡ (if is_none fault && path == j then some (some v) else get files j)
  unfolding atomic_write
  atomic_write_result fault files h ne j = ground (
    arith,
    get-delete (put files tmp none) tmp j,
    get-put files tmp none j,
    get-put (put files tmp none) tmp (some v) j,
    get-delete (put (put files tmp none) tmp (some v)) tmp j,
    get-put (delete (put (put files tmp none) tmp (some v)) tmp) path (some v) j,
    text_beq_iff tmp j,
    text_beq_iff path j,
  )

module _ {ℓ} {V : Type ℓ} where
  written :
      (tmp path : Text) (v : V) (fault : Option Fault) (files : Table (Option V))
      → fault ≡ none
      → get (atomic_write tmp path v fault files) path ≡ some (some v)
  unfolding atomic_write
  written tmp path v none files h = get-put_self _ path (some v)
  written tmp path v (some f) files h = cc

  -- A value that was written reads back, through the same path.
  pub read_json-write_json :
      (disk : Disk) (s : Store V) (rel_path : Text) (v : V)
      → (write_json disk s rel_path v).1 ≡ none
      → read_json (write_json disk s rel_path v).0 rel_path ≡ ok v
  unfolding write_json read_json
  read_json-write_json disk s rel_path v h = by_path (safe_path s.root rel_path) refl
    where
      by_path :
          (o : Outcome StoreError Text)
          → safe_path s.root rel_path ≡ o
          → read_json (write_json disk s rel_path v).0 rel_path ≡ ok v
      by_path (err e) q = ground arith
      by_path (ok path) q =
          ground (arith, written (disk.temp_name path) path v (disk.fault path) s.files)
