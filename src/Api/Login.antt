-- ===== src/Api/Login.antt =====
-- What a login and the first setup lead to.
use mathlib.Core.Path.{subst}
use liteploy.Common.{
  ℕ, ◌+◌, ◌≡◌, ◌≢◌, refl, ap, sym, ◌∙◌, ◌⊎◌, inl, inr, true, false, not, Option, none, some, List,
  [], ◌∷◌, ◌++◌, ◌==◌, arith, ltb, if◌then◌else◌, Bool-cases, Option-cases, Outcome, ok, err,
}
use liteploy.Common.Text.{Text, codes, text_eq, text_beq_iff}
use liteploy.Common.Table.{get}
use liteploy.Http.{Request, Cookie, Response, redirect, fail, answer, form_value}
use liteploy.Auth.Base64.{encode}
use liteploy.Auth.Sessions.{
  SessionData, IsLawful, session_cookie_name, new_session, create_session, validate_session,
  expired,
}
use liteploy.Auth.Sessions.Signed.{session_lifetime}
use liteploy.Auth.Users.{User, UserStore, UserError, Matches, has_users, authenticate, create_admin}
use liteploy.Auth.Users.Passwords.{IsUnchanged, IsOnly, IsReason, IsCreated, create_admin-IsCreated}
use liteploy.Api.{Host, Server, login_submit, setup_submit, set_up}

abbrev pub name_of : Request → Text
name_of r = form_value r (codes "username")

abbrev pub password_of : Request → Text
password_of r = form_value r (codes "password")

abbrev pub user_of : Host → Request → Server → Outcome UserError User
user_of h r s = authenticate h.bcrypt (name_of r) (password_of r) s.users

no_cookies : (session csrf : Cookie) → [] ≢ session ∷ csrf ∷ []
no_cookies session csrf q = cc

login_cookies :
    (h : Host) (r : Request) (s : Server) (session csrf : Cookie)
    → (login_submit h r s).1.cookies ≡ session ∷ csrf ∷ []
    → (user : User) × (user_of h r s ≡ ok user)
      × (create_session h.crypto h.now h.random h.sessions r user.id user.username
          ≡ some (session ∷ csrf ∷ []))
unfolding login_submit
login_cookies h r s session csrf made = elim (Bool-cases (not r.form_parses)) [
  | inl e ↦ absurd (no_cookies session csrf (sym (rw (e, login_submit) refl) ∙ made))
  | inr e ↦ by_user (user_of h r s) e refl
]
  where
    by_user :
        (o : Outcome UserError User)
        → not r.form_parses ≡ false
        → user_of h r s ≡ o
        → (user : User) × (user_of h r s ≡ ok user)
          × (create_session h.crypto h.now h.random h.sessions r user.id user.username
              ≡ some (session ∷ csrf ∷ []))
    by_user (err x) e q =
        absurd (no_cookies session csrf (sym (rw (e, q, login_submit) refl) ∙ made))
    by_user (ok user) e q =
        elim (Option-cases
          (create_session h.crypto h.now h.random h.sessions r user.id user.username)) [
            | inl k ↦
                absurd (no_cookies session csrf (sym (rw (e, q, k, login_submit) refl) ∙ made))
            | inr (cookies, k) ↦
                (user, q, k ∙ ap some (sym (rw (e, q, k, login_submit) refl) ∙ made))
          ]

-- The two cookies of a login are given to a user with that name and password only. The first is then
-- accepted as that user's session until the maximal age is over, and refused from then on.
pub login_submit_session :
    (h : Host) (r r' : Request) (s : Server) (t : ℕ) (session csrf : Cookie)
    → ((user : User) (bytes : List ℕ)
        → user_of h r s ≡ ok user
        → h.random ≡ some bytes
        → IsLawful h.crypto (new_session h.now h.sessions (encode bytes) user.id user.username))
    → (login_submit h r s).1.cookies ≡ session ∷ csrf ∷ []
    → get r'.cookies session_cookie_name ≡ some session.value
    → (user : User) × (d : SessionData) × (user_of h r s ≡ ok user)
      × (validate_session h.crypto t h.sessions r'
          ≡ (if ltb (h.now + h.sessions.max_age) t then err expired else ok d))
      × (d.username ≡ user.username)
      × (d.csrf_token ≡ csrf.value)
login_submit_session h r r' s t session csrf law made sent =
    let (user, known, cookies) = login_cookies h r s session csrf made in
    let (d, valid, id_same, name_same, token_same) =
      session_lifetime h.crypto h.sessions h.now t h.random r r' user.id user.username session csrf
        (λ bytes q. law user bytes known q) cookies sent in
    (user, d, known, valid, name_same, token_same)

-- The answers that refuse a setup, each with its reason.
abbrev pub IsRefused : Host → Request → Server → Response → Type 0
IsRefused h r s reply =
    ((has_users s.users ≡ true) × (reply ≡ answer (redirect (codes "/"))))
    ⊎ ((r.form_parses ≡ false) × (reply ≡ answer (fail 400)))
    ⊎ ((password_of r ≢ form_value r (codes "confirm_password"))
        × (reply ≡ answer (redirect (codes "/setup?error=passwords_do_not_match"))))
    ⊎ ((x : UserError) × IsReason h.bcrypt h.disk (name_of r) (password_of r) s.users x
        × (reply ≡ answer (redirect (codes "/setup?error=" ++ h.messages.of_user x))))

-- What the setup leaves: each user as before, where it is refused, or the one administrator of the form.
abbrev pub IsSetUp : Host → Request → Server → Server × Response → Type 0
IsSetUp h r s p =
    (IsUnchanged s.users p.0.users × IsRefused h r s p.1)
    ⊎ ((has_users s.users ≡ false)
        × IsOnly h.bcrypt (name_of r) (password_of r) p.0.users
        × (p.1 ≡ answer (redirect (codes "/login"))))

set_up-IsSetUp :
    (h : Host) (r : Request) (s : Server) (o : UserStore × Option UserError)
    → IsCreated h.bcrypt h.disk (name_of r) (password_of r) s.users o
    → IsSetUp h r s (set_up h s o)
set_up-IsSetUp h r s (users, none) (inl (e, first, only)) = inr (first, only, refl)
set_up-IsSetUp h r s (users, some x) (inl (e, first, only)) = cc
set_up-IsSetUp h r s (users, none) (inr ((x, e, why), same)) = cc
set_up-IsSetUp h r s (users, some z) (inr ((x, e, why), same)) =
    inl (same, inr (inr (inr (x, why, replied x z e))))
  where
    replied :
        (x z : UserError)
        → some z ≡ some x
        → answer (redirect (codes "/setup?error=" ++ h.messages.of_user z))
          ≡ answer (redirect (codes "/setup?error=" ++ h.messages.of_user x))
    replied x z q = cc

-- The setup works once: where there is a user, or the form is refused, each user is found as before,
-- and the answer is the one for that reason: a form that does not parse, passwords that differ, a name
-- or a password that is not accepted, or the file that is not written.
-- Otherwise the user of the form is the only one, and logs in with the password.
pub setup_submit-IsSetUp :
    (h : Host) (r : Request) (s : Server) → Matches h.bcrypt → IsSetUp h r s (setup_submit h r s)
unfolding setup_submit
setup_submit-IsSetUp h r s law = elim (Bool-cases (has_users s.users)) [
  | inl e ↦ inl ((λ k. ap (λ p. get p.0.users.users k) (stays e)), inl (e, ap (λ p. p.1) (stays e)))
  | inr e ↦ elim (Bool-cases (not r.form_parses)) [
    | inl q ↦ inl (
      (λ k. ap (λ p. get p.0.users.users k) (unread e q)),
      inr (inl (ground arith, ap (λ p. p.1) (unread e q))),
    )
    | inr q ↦ elim (Bool-cases (not (password_of r == form_value r (codes "confirm_password")))) [
      | inl c ↦ inl (
        (λ k. ap (λ p. get p.0.users.users k) (differs e q c)),
        inr (inr (inl (unequal c, ap (λ p. p.1) (differs e q c)))),
      )
      | inr c ↦ subst (IsSetUp h r s) (sym (reached e q c)) (
          set_up-IsSetUp h r s
            (create_admin h.bcrypt h.disk h.now (name_of r) (password_of r) s.users)
            (create_admin-IsCreated h.bcrypt h.disk h.now (name_of r) (password_of r) s.users law))
    ]
  ]
]
  where
    unequal :
        not (password_of r == form_value r (codes "confirm_password")) ≡ true
        → password_of r ≢ form_value r (codes "confirm_password")
    unequal c same =
        ground
          (arith, (text_beq_iff (password_of r) (form_value r (codes "confirm_password"))).1 same)

    stays : has_users s.users ≡ true → setup_submit h r s ≡ (s, answer (redirect (codes "/")))
    stays e = rw (e, setup_submit) refl

    unread :
        has_users s.users ≡ false
        → not r.form_parses ≡ true
        → setup_submit h r s ≡ (s, answer (fail 400))
    unread e q = rw (e, q, setup_submit) refl

    differs :
        has_users s.users ≡ false
        → not r.form_parses ≡ false
        → not (password_of r == form_value r (codes "confirm_password")) ≡ true
        → setup_submit h r s ≡ (s, answer (redirect (codes "/setup?error=passwords_do_not_match")))
    differs e q c = rw (e, q, c, setup_submit) refl

    reached :
        has_users s.users ≡ false
        → not r.form_parses ≡ false
        → not (password_of r == form_value r (codes "confirm_password")) ≡ false
        → setup_submit h r s
          ≡ set_up h s (create_admin h.bcrypt h.disk h.now (name_of r) (password_of r) s.users)
    reached e q c = rw (e, q, c, setup_submit) refl
