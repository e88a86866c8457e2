-- ===== src/Auth/Users.antt =====
-- internal/auth/users.go: the users and their passwords. Bcrypt is a parameter: `hash` fails where
-- `GenerateFromPassword` does, `check` compares a password with a hash. The table holds values where
-- the program shares a pointer with the caller only as a copy.
pub mod Passwords
use liteploy.Common.{
  ℕ, ◌≡◌, Bool, true, false, ◌||◌, not, Option, none, some, List, [], ◌∷◌, ◌==◌, ltb, if◌then◌else◌,
  is_empty, length, Outcome, ok, err, fail_if, ◌>>=◌, ◌>>◌,
}
use liteploy.Common.Text.{Text, codes}
use liteploy.Common.Table.{Table, get, put, delete, values}
use liteploy.Storage.{Store, Disk, StoreError, not_exist, write_json, read_json}

pub record User : Type 0 where
  pub id : Text
  pub username : Text
  pub password_hash : Text
  pub created_at : ℕ
  pub updated_at : ℕ

pub record UserStore : Type 0 where
  pub store : Store (List User)
  pub users : Table User

pub record Bcrypt : Type 0 where
  pub hash : Text → Option Text
  pub check : Text → Text → Bool

-- What bcrypt documents: a password matches its own hash.
abbrev pub Matches : Bcrypt → Type 0
Matches b = (password hash : Text) → b.hash password ≡ some hash → b.check password hash ≡ true

pub data UserError : Type 0 where
  short_password hash_failed bad_username already_exists invalid_credentials : UserError
  not_found wrong_password : UserError
  not_saved load_failed : StoreError → UserError

unfoldable pub hash_password : Bcrypt → Text → Outcome UserError Text
hash_password b password =
    if ltb (length password) 8
    then err short_password
    else elim (b.hash password) [ none ↦ err hash_failed | some hash ↦ ok hash ]

unfoldable pub check_password : Bcrypt → Text → Text → Bool
check_password b password hash = b.check password hash

abbrev pub users_file : Text
users_file = codes "config/users.json"

unfoldable pub has_users : UserStore → Bool
has_users us = not (is_empty us.users)

-- The users as they are, in the file.
unfoldable pub save : Disk → UserStore → UserStore × Option StoreError
save disk us =
    let (store, e) = write_json disk us.store users_file (values us.users) in
    (record us { store = store }, e)

-- The user comes out of the table again if the file is not written.
unfoldable pub kept_or_dropped : Text → UserStore × Option StoreError → UserStore × Option UserError
kept_or_dropped name (us, none) = (us, none)
kept_or_dropped name (us, some e) = (record us { users = delete us.users name }, some (not_saved e))

unfoldable pub create_admin :
    Bcrypt → Disk → ℕ → Text → Text → UserStore → UserStore × Option UserError
unfolding hash_password save kept_or_dropped
create_admin b disk now name password us =
    if ltb (length name) 3 || ltb 64 (length name)
    then (us, some bad_username)
    else elim (hash_password b password) [
      | err e ↦ (us, some e)
      | ok hash ↦
          if has_users us
          then (us, some already_exists)
          else let user : User = record {
            id = codes "admin-001";
            username = name;
            password_hash = hash;
            created_at = now;
            updated_at = now;
          } in
            kept_or_dropped name (save disk (record us { users = put us.users name user }))
    ]

unfoldable pub authenticate : Bcrypt → Text → Text → UserStore → Outcome UserError User
unfolding check_password
authenticate b name password us = elim (get us.users name) [
  | none ↦ err invalid_credentials
  | some user ↦
      if not (check_password b password user.password_hash)
      then err invalid_credentials
      else ok user
]

unfoldable pub saved : UserStore × Option StoreError → UserStore × Option UserError
saved (us, none) = (us, none)
saved (us, some e) = (us, some (not_saved e))

-- The end of `ChangePassword` and of `ResetPassword`. The new hash stays in the table if the file is
-- not written.
unfoldable pub set_password :
    Bcrypt → Disk → ℕ → Text → Text → User → UserStore → UserStore × Option UserError
unfolding hash_password save saved
set_password b disk now name password user us = elim (hash_password b password) [
  | err e ↦ (us, some e)
  | ok hash ↦
      let changed = record user { password_hash = hash; updated_at = now } in
      saved (save disk (record us { users = put us.users name changed }))
]

unfoldable pub change_password :
    Bcrypt → Disk → ℕ → Text → Text → Text → UserStore → UserStore × Option UserError
unfolding set_password check_password
change_password b disk now name old new us = elim (get us.users name) [
  | none ↦ (us, some not_found)
  | some user ↦
      if not (check_password b old user.password_hash)
      then (us, some wrong_password)
      else set_password b disk now name new user us
]

unfoldable pub reset_password :
    Bcrypt → Disk → ℕ → Text → Text → UserStore → UserStore × Option UserError
unfolding set_password
reset_password b disk now name new us =
    if ltb (length new) 6 then (us, some short_password) else elim (get us.users name) [
      | none ↦ (us, some not_found)
      | some user ↦ set_password b disk now name new user us
    ]

load_each : List User → Table User → Table User
load_each [] t = t
load_each (u ∷ us) t = load_each us (put t u.username u)

unfoldable pub load : UserStore → Outcome UserError UserStore
unfolding load_each
load us = elim (read_json us.store users_file) [
  | err not_exist ↦ ok us
  | err e ↦ err (load_failed e)
  | ok list ↦ ok (record us { users = load_each list us.users })
]
