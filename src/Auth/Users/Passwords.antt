-- ===== src/Auth/Users/Passwords.antt =====
-- Who can log in after the first setup and after a change of password.
use mathlib.Core.Path.{subst}
use liteploy.Common.{
  ℕ, ◌≡◌, ◌≢◌, refl, ap, sym, ◌∙◌, ◌⊎◌, inl, inr, true, false, ◌||◌, not, Option, none, some, [],
  ◌∷◌, ltb, is_empty, length, arith, Bool-cases, Option-cases, ok, err,
}
use liteploy.Common.Text.{Text, codes, text_eq, text_beq_iff}
use liteploy.Common.Table.{Table, get, put, delete}
use liteploy.Common.Table.Laws.{get-put, get-put_self}
use liteploy.Storage.{Disk, StoreError}
use liteploy.Auth.Users.{
  User, UserStore, Bcrypt, Matches, UserError, short_password, hash_failed, already_exists,
  not_saved, hash_password, has_users, save, saved, kept_or_dropped, create_admin, authenticate,
  set_password, change_password, check_password, not_found, wrong_password, bad_username,
  invalid_credentials,
}

hash_cases :
    (b : Bcrypt) (password : Text)
    → ((e : UserError) × (hash_password b password ≡ err e))
      ⊎ ((hash : Text) × (hash_password b password ≡ ok hash) × (b.hash password ≡ some hash))
unfolding hash_password
hash_cases b password = elim (Bool-cases (ltb (length password) 8)) [
  | inl e ↦ inl (short_password, rw (e, hash_password) refl)
  | inr e ↦ elim (Option-cases (b.hash password)) [
    | inl q ↦ inl (hash_failed, rw (e, q, hash_password) refl)
    | inr (hash, q) ↦ inr (hash, rw (e, q, hash_password) refl, q)
  ]
]

authenticate_of :
    (b : Bcrypt) (name password : Text) (us : UserStore) (user : User)
    → get us.users name ≡ some user
    → b.check password user.password_hash ≡ true
    → authenticate b name password us ≡ ok user
unfolding authenticate
authenticate_of b name password us user found good = rw (found, good, authenticate) refl

unknown :
    (b : Bcrypt) (name password : Text) (us : UserStore)
    → get us.users name ≡ none
    → authenticate b name password us ≡ err invalid_credentials
unfolding authenticate
unknown b name password us missing = rw (missing, authenticate) refl

rejected :
    (b : Bcrypt) (name password : Text) (us : UserStore) (user : User)
    → get us.users name ≡ some user
    → b.check password user.password_hash ≡ false
    → authenticate b name password us ≡ err invalid_credentials
unfolding authenticate check_password
rejected b name password us user found bad = rw (found, bad, authenticate, check_password) refl

never_saved :
    (b : Bcrypt) (password : Text) (x : UserError)
    → hash_password b password ≡ err x
    → (y : StoreError) → x ≢ not_saved y
unfolding hash_password
never_saved b password x q y same = ground arith

save-users : (disk : Disk) (us : UserStore) → (save disk us).0.users ≡ us.users
unfolding save
save-users disk us = refl

no_users : (us : UserStore) → has_users us ≡ false → us.users ≡ []
unfolding has_users
no_users us h = by_users us.users h
  where
    by_users : (t : Table User) → not (is_empty t) ≡ false → t ≡ []
    by_users [] q = refl
    by_users (e ∷ t) q = cc

-- Every user is found as before.
abbrev pub IsUnchanged : UserStore → UserStore → Type 0
IsUnchanged us us' = (k : Text) → get us'.users k ≡ get us.users k

-- The user of that name, and no other, logs in with the password.
abbrev pub IsOnly : Bcrypt → Text → Text → UserStore → Type 0
IsOnly b name password us =
    (user : User) × (us.users ≡ (name, user) ∷ []) × (authenticate b name password us ≡ ok user)

-- Why `CreateAdmin` refuses: the name, the password, a user who is there, or the file that is not
-- written.
abbrev pub IsReason : Bcrypt → Disk → Text → Text → UserStore → UserError → Type 0
IsReason b disk name password us x =
    (ltb (length name) 3 || ltb 64 (length name) ≡ true)
    ⊎ (hash_password b password ≡ err x)
    ⊎ (has_users us ≡ true)
    ⊎ ((user : User) × (y : StoreError) × (x ≡ not_saved y)
        × ((save disk (record us { users = put us.users name user })).1 ≡ some y))

-- What `CreateAdmin` leaves: the one user, or an error with its reason and the users as before.
abbrev pub IsCreated :
    Bcrypt → Disk → Text → Text → UserStore → UserStore × Option UserError → Type 0
IsCreated b disk name password us (us', e) =
    ((e ≡ none) × (has_users us ≡ false) × IsOnly b name password us')
    ⊎ (((x : UserError) × (e ≡ some x) × IsReason b disk name password us x) × IsUnchanged us us')

get_one : (name : Text) (user : User) → get ((name, user) ∷ []) name ≡ some user
unfolding get
get_one name user = ground (arith, text_beq_iff name name)

get_dropped : (name k : Text) (user : User) → get (delete ((name, user) ∷ []) name) k ≡ none
unfolding get delete
get_dropped name k user = ground (arith, text_beq_iff name name)

get_nothing : (t : Table User) (k : Text) → t ≡ [] → get t k ≡ none
unfolding get
get_nothing t k e = rw (e, get) refl

kept-IsCreated :
    (b : Bcrypt) (disk : Disk) (name password : Text) (user : User) (us : UserStore)
    (o : UserStore × Option StoreError)
    → has_users us ≡ false
    → b.check password user.password_hash ≡ true
    → o.0.users ≡ (name, user) ∷ []
    → ((y : StoreError)
        → o.1 ≡ some y
        → (save disk (record us { users = put us.users name user })).1 ≡ some y)
    → IsCreated b disk name password us (kept_or_dropped name o)
unfolding kept_or_dropped
kept-IsCreated b disk name password user us (us', none) h good one wrote = inl (
  refl,
  h,
  (
    user,
    one,
    authenticate_of b name password us' user (ap (λ t. get t name) one ∙ get_one name user) good,
  ),
)
kept-IsCreated b disk name password user us (us', some e) h good one wrote = inr (
  (not_saved e, refl, inr (inr (inr (user, e, refl, wrote e refl)))),
  λ k.
      ap (λ t. get (delete t name) k) one
      ∙ get_dropped name k user
      ∙ sym (get_nothing us.users k (no_users us h)),
)

put_nil :
    (t : Table User) (name : Text) (user : User) → t ≡ [] → put t name user ≡ (name, user) ∷ []
unfolding put delete
put_nil t name user e = rw (e, put, delete) refl

refused :
    (b : Bcrypt) (disk : Disk) (name password : Text) (us : UserStore) (e : UserError)
    → IsReason b disk name password us e
    → IsCreated b disk name password us (us, some e)
refused b disk name password us e why = inr ((e, refl, why), λ k. refl)

abbrev admin : ℕ → Text → Text → User
admin now name hash = record {
  id = codes "admin-001";
  username = name;
  password_hash = hash;
  created_at = now;
  updated_at = now;
}

module _ (b : Bcrypt) (disk : Disk) (now : ℕ) (name password hash : Text) (us : UserStore) where
  create_exists :
      ltb (length name) 3 || ltb 64 (length name) ≡ false
      → hash_password b password ≡ ok hash
      → has_users us ≡ true
      → create_admin b disk now name password us ≡ (us, some already_exists)
  unfolding create_admin
  create_exists e q k = rw (e, q, k, create_admin) refl

  create_first :
      ltb (length name) 3 || ltb 64 (length name) ≡ false
      → hash_password b password ≡ ok hash
      → has_users us ≡ false
      → create_admin b disk now name password us
        ≡ kept_or_dropped name
            (save disk (record us { users = put us.users name (admin now name hash) }))
  unfolding create_admin
  create_first e q k = rw (e, q, k, create_admin) refl

-- The first setup: an administrator is created only where there are no users, and is then the only
-- one and logs in with the password. In every other case there is an error, and each user is found
-- as before.
pub create_admin-IsCreated :
    (b : Bcrypt) (disk : Disk) (now : ℕ) (name password : Text) (us : UserStore)
    → Matches b
    → IsCreated b disk name password us (create_admin b disk now name password us)
unfolding create_admin
create_admin-IsCreated b disk now name password us law =
    elim (Bool-cases (ltb (length name) 3 || ltb 64 (length name))) [
      | inl e ↦
          subst (IsCreated b disk name password us) (sym (rw (e, create_admin) refl))
            (refused b disk name password us bad_username (inl e))
      | inr e ↦ elim (hash_cases b password) [
        | inl (x, q) ↦
            subst (IsCreated b disk name password us) (sym (rw (e, q, create_admin) refl))
              (refused b disk name password us x (inr (inl q)))
        | inr (hash, q, made) ↦ elim (Bool-cases (has_users us)) [
          | inl k ↦
              subst (IsCreated b disk name password us)
                (sym (create_exists b disk now name password hash us e q k))
                (refused b disk name password us already_exists (inr (inr (inl k))))
          | inr k ↦
              let added : UserStore = record us {
                users = put us.users name (admin now name hash);
              } in
              subst (IsCreated b disk name password us)
                (sym (create_first b disk now name password hash us e q k))
                (kept-IsCreated b disk name password (admin now name hash) us (save disk added) k
                  (law password hash made)
                  (save-users disk added
                    ∙ put_nil us.users name (admin now name hash) (no_users us k))
                  (λ y w. w))
        ]
      ]
    ]

-- Why `ChangePassword` refuses: the old password is not the user's, or the new one has no hash.
abbrev pub IsCause : Bcrypt → Text → Text → Text → UserStore → UserError → Type 0
IsCause b name old new us x =
    (authenticate b name old us ≡ err invalid_credentials) ⊎ (hash_password b new ≡ err x)

-- What `ChangePassword` leaves: an error of that kind, which is not one about the file, and the same store, or a user who was known by the old
-- password and is now known by the new one, the others as before, whether or not the file is written.
abbrev pub IsChanged :
    Bcrypt → Text → Text → Text → UserStore → UserStore × Option UserError → Type 0
IsChanged b name old new us (us', e) =
    (((x : UserError) × (e ≡ some x)
        × ((y : StoreError) → x ≢ not_saved y)
        × IsCause b name old new us x)
      × (us' ≡ us))
    ⊎ ((user user' : User) × (authenticate b name old us ≡ ok user)
        × (authenticate b name new us' ≡ ok user')
        × ((k : Text) → k ≢ name → get us'.users k ≡ get us.users k)
        × ((e ≡ none) ⊎ ((x : StoreError) × (e ≡ some (not_saved x)))))

get_other :
    (t : Table User) (name k : Text) (user : User) → k ≢ name → get (put t name user) k ≡ get t k
get_other t name k user h = ground (arith, get-put t name user k, text_beq_iff name k)

IsChanged-to :
    (b : Bcrypt) (name old new : Text) (user user' : User) (us us' : UserStore)
    (e : Option UserError)
    → authenticate b name old us ≡ ok user
    → b.check new user'.password_hash ≡ true
    → us'.users ≡ put us.users name user'
    → (e ≡ none) ⊎ ((x : StoreError) × (e ≡ some (not_saved x)))
    → IsChanged b name old new us (us', e)
IsChanged-to b name old new user user' us us' e known good eq how = inr (
  user,
  user',
  known,
  authenticate_of b name new us' user' (ap (λ t. get t name) eq ∙ get-put_self us.users name user')
      good,
  λ k h. ap (λ t. get t k) eq ∙ get_other us.users name k user' h,
  how,
)

saved-IsChanged :
    (b : Bcrypt) (name old new : Text) (user user' : User) (us : UserStore)
    (o : UserStore × Option StoreError)
    → authenticate b name old us ≡ ok user
    → b.check new user'.password_hash ≡ true
    → o.0.users ≡ put us.users name user'
    → IsChanged b name old new us (saved o)
unfolding saved
saved-IsChanged b name old new user user' us (us', none) known good eq =
    IsChanged-to b name old new user user' us us' none known good eq (inl refl)
saved-IsChanged b name old new user user' us (us', some e) known good eq =
    IsChanged-to b name old new user user' us us' (some (not_saved e)) known good eq (inr (e, refl))

unchanged :
    (b : Bcrypt) (name old new : Text) (us : UserStore) (e : UserError)
    → ((y : StoreError) → e ≢ not_saved y)
    → IsCause b name old new us e
    → IsChanged b name old new us (us, some e)
unchanged b name old new us e h why = inl ((e, refl, h, why), refl)

set_password-IsChanged :
    (b : Bcrypt) (disk : Disk) (now : ℕ) (name old new : Text) (user : User) (us : UserStore)
    → Matches b
    → authenticate b name old us ≡ ok user
    → IsChanged b name old new us (set_password b disk now name new user us)
unfolding set_password
set_password-IsChanged b disk now name old new user us law known = elim (hash_cases b new) [
  | inl (x, q) ↦
      subst (IsChanged b name old new us) (sym (rw (q, set_password) refl))
        (unchanged b name old new us x (never_saved b new x q) (inr q))
  | inr (hash, q, made) ↦
      let user' : User = record user { password_hash = hash; updated_at = now } in
      let stored : UserStore = record us { users = put us.users name user' } in
      subst (IsChanged b name old new us) (sym (rw (q, set_password) refl)) (
        saved-IsChanged b name old new user user' us (save disk stored) known (law new hash made)
          (save-users disk stored))
]

-- A change of password needs the old one. Once it passes, the new password is the one that logs in
-- and every other user is found as before; the one error that it still can have is that the file was
-- not written, and then the new password is in force all the same. Any other error means that the old
-- password is not the user's or that the new one cannot be hashed, and changes nothing.
pub change_password-IsChanged :
    (b : Bcrypt) (disk : Disk) (now : ℕ) (name old new : Text) (us : UserStore)
    → Matches b
    → IsChanged b name old new us (change_password b disk now name old new us)
unfolding change_password check_password
change_password-IsChanged b disk now name old new us law = elim (Option-cases (get us.users name)) [
  | inl e ↦
      subst (IsChanged b name old new us) (sym (rw (e, change_password) refl))
        (unchanged b name old new us not_found (λ y q. cc) (inl (unknown b name old us e)))
  | inr (user, e) ↦ elim (Bool-cases (b.check old user.password_hash)) [
    | inl k ↦ subst (IsChanged b name old new us) (sym (rw (e, k, change_password) refl)) (
        set_password-IsChanged b disk now name old new user us law
          (authenticate_of b name old us user e k))
    | inr k ↦ subst (IsChanged b name old new us) (sym (rw (e, k, change_password) refl)) (
        unchanged b name old new us wrong_password (λ y q. cc)
          (inl (rejected b name old us user e k)))
  ]
]
