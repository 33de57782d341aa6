-- ===== src/Users/Tests.antt =====
-- Ada registers, verifies her address, and signs in with her password and through Google.
use fetchit_be.Base.{
  ℕ, ◌≡◌, refl, true, false, Bool, none, some, [], ◌∷◌, ◌+◌, ◌==◌, find_where, update_where,
  any_where, filter_where,
}
use fetchit_be.Texts.{codes, starts_with}
use fetchit_be.Schema.{
  User, UserRole, UserStatus, Error, customer, handyman, active, suspended, local,
  email_not_verified, email_already_exists, unique_violation, signing_failure,
}
use fetchit_be.World.{World, Result, ok, err}
use fetchit_be.Auth.Sessions.{
  Minted, find_user, find_by_email, create_session, open_session, update_last_login, login,
}
use fetchit_be.Auth.Tokens.{verify_email, send_verification_email_by_user_id, create_verification}
use fetchit_be.Users.Repository.{
  find_by_username, find_by_google_id, has_google, create_user, update_user_row, delete_user,
  soft_delete, restore, update_role, update_email_verified, update_password, email_exists,
  username_exists,
}
use fetchit_be.Users.Service.{
  CreateUserDto, new_user, blank_user, create, create_oauth_user, find_one, update, remove, onboard,
}
use fetchit_be.Auth.Registration.{issue, register}
use fetchit_be.Auth.OAuth.{
  GoogleUser, linked, resolve, link_or_create, link_google_account, open_oauth_session,
  handle_google_login, includes, map_error_to_code, get_frontend_error_url, redirect_url,
  google_auth_callback,
}
use fetchit_be.Auth.Access.{request_user, validate, authenticate, authorize, has_required_role}
use fetchit_be.Auth.Guarded.{IsEntitled, authorize-IsEntitled}
use fetchit_be.Auth.Verified.{register-verify_email-login}
use fetchit_be.Auth.Google.{handle_google_login-again, handle_google_login-activates}

abbrev nothing : World
nothing = record {
  users = [];
  profiles = [];
  categories = [];
  documents = [];
  audit_log = [];
  sessions = [];
  objects = [];
  service_categories = [];
  password_resets = [];
  email_verifications = [];
  requests = [];
  applications = [];
  outbox = [];
}

abbrev dto : CreateUserDto
dto = record { username = "ada"; email = "ada@example.org"; phone = none }

abbrev mint : ℕ → Minted
mint token = record { token = token; exp = some 900 }

abbrev plus_ten : ℕ → ℕ
plus_ten n = n + 10

abbrev google : GoogleUser
google = record { google_id = 77; email = "ada@example.org"; picture = codes "p" }

abbrev suspended_ada : User
suspended_ada = record (new_user 70 dto 1) { status = suspended }

abbrev with_ada : World
with_ada = record nothing { users = suspended_ada ∷ [] }

-- The address of a deleted account is taken, though the check of `create` passes.
deleted_address :
    let gone = record nothing { users = record suspended_ada { deleted_at = some 3 } ∷ [] } in
    ((create 71 dto 1 gone).1 ≡ err unique_violation)
    × ((create 71 dto 1 with_ada).1 ≡ err email_already_exists)
unfolding create find_by_email find_by_username create_user find_where any_where
deleted_address = (refl, refl)

callbacks :
    (google_auth_callback
        (λ e. codes "Boom")
        (codes "https://f")
        (codes "a")
        (codes "r")
        (nothing, ok (suspended_ada, true))
      ≡ codes "https://f/auth/oauth-callback#accessToken=a&refreshToken=r&isNewUser=true")
    × (google_auth_callback
          (λ e. codes "Boom")
          (codes "https://f")
          (codes "a")
          (codes "r")
          (nothing, err fetchit_be.Schema.Error.account_already_linked)
        ≡ codes "https://f/auth/oauth-error?error=account_exists")
    × (google_auth_callback
          (λ e. codes "Boom")
          (codes "https://f")
          (codes "a")
          (codes "r")
          (nothing, err fetchit_be.Schema.Error.account_not_active)
        ≡ codes "https://f/auth/oauth-error?error=account_suspended")
    × (google_auth_callback
          (λ e. codes "Boom")
          (codes "https://f")
          (codes "a")
          (codes "r")
          (nothing, err signing_failure)
        ≡ codes "https://f/auth/oauth-error?error=oauth_failed")
unfolding google_auth_callback redirect_url get_frontend_error_url map_error_to_code includes
    starts_with
callbacks = (refl, refl, refl, refl)

-- An account that the administrator activates is onboarded once, and changes and leaves.
changes :
    let ada = (update_email_verified 70 true with_ada).0 in
    let chosen = (onboard 70 handyman 5 ada).0 in
    ((onboard 70 handyman 5 with_ada).1 ≡ err email_not_verified)
    × ((onboard 70 customer 6 chosen).1 ≡ err fetchit_be.Schema.Error.forbidden)
    × ((remove 70 true 7 chosen).0.users ≡ [])
    × ((find_one 70 (remove 70 false 7 chosen).0).1 ≡ err fetchit_be.Schema.Error.user_not_found)
    × ((find_one 70 (restore 70 (soft_delete 70 7 with_ada).0).0).1 ≡ ok suspended_ada)
    × ((update 70
          (record { username = some "eve"; phone = none; avatar = none; status = none })
          with_ada).1
        ≡ ok (record suspended_ada { username = "eve" }))
    × ((email_exists "ada@example.org" with_ada).1 ≡ ok true)
    × ((username_exists "eve" with_ada).1 ≡ ok false)
    × ((update_password 70 9 with_ada).1 ≡ ok (record suspended_ada { password = some 9 }))
unfolding update_email_verified update_password onboard remove restore soft_delete update find_one
    find_user update_role update_user_row delete_user email_exists username_exists find_where
    any_where update_where filter_where
changes = (refl, refl, refl, refl, refl, refl, refl, refl, refl)

authorize-IsEntitled_example :
    let w = record nothing {
      users = record suspended_ada { status = active; email_verified = true } ∷ [];
    } in
    let found = some (request_user suspended_ada) in
    (false ≡ false)
    × IsEntitled (handyman ∷ customer ∷ []) (some 70) w found
    × ((authorize false (handyman ∷ customer ∷ []) (some 70) w).0 ≡ w)
unfolding authorize authenticate has_required_role validate find_user find_where any_where
authorize-IsEntitled_example =
    authorize-IsEntitled false (handyman ∷ customer ∷ []) (some 70)
      (record nothing {
        users = record suspended_ada { status = active; email_verified = true } ∷ [];
      })
      (some (request_user suspended_ada)) refl refl

register-verify_email-login_example :
    let v = (register plus_ten 70 dto 1 5 (some (mint 2)) 6 600 false 3 nothing).0 in
    let confirmed = verify_email 600 50 v in
    ((login plus_ten "ada@example.org" (λ p. p == 1) 7 (mint 4) 60 v).1 ≡ err email_not_verified)
    × (confirmed.1 ≡ ok tt)
    × ((login plus_ten "ada@example.org" (λ p. p == 1) 7 (mint 4) 60 confirmed.0).1
        ≡ ok (record (new_user 70 dto 1) { email_verified = true; status = active }))
unfolding register issue create find_by_email find_by_username create_user open_session
    create_session send_verification_email_by_user_id create_verification find_where any_where
    update_where
register-verify_email-login_example =
    register-verify_email-login plus_ten 70 dto 1 5 (some (mint 2)) 6 600 false 3 nothing
      (new_user 70 dto 1) (λ p. p == 1) 7 (mint 4) 50 60 900 refl refl refl refl refl refl

abbrev first_login : World × Result (User × Bool)
first_login = handle_google_login plus_ten 71 "ada_1" google 5 (some (mint 2)) 3 nothing

abbrev google_ada : User
google_ada = record (blank_user 71 "ada_1" "ada@example.org") {
  google_id = some 77;
  avatar = some (codes "p");
  provider = fetchit_be.Schema.AuthProvider.google;
  email_verified = true;
  status = active;
}

handle_google_login-again_example :
    let r =
      handle_google_login plus_ten 72 "eve_2"
        (record google { email = "eve@example.org" })
        6
        (some (mint 3))
        4
        first_login.0 in
    (r.1 ≡ ok (record google_ada { last_login_at = some 3 }, false))
    × (r.0.users
        ≡ update_where
            (λ (x : User). x.id == 71)
            (λ (x : User). record x { last_login_at = some 4 })
            first_login.0.users)
unfolding handle_google_login resolve find_by_google_id find_by_email link_or_create
    link_google_account update_user_row create_oauth_user create_user find_user open_oauth_session
    create_session update_last_login find_where any_where update_where
handle_google_login-again_example =
    handle_google_login-again plus_ten 71 "ada_1" google 5 (some (mint 2)) 3 nothing google_ada true
      72 "eve_2" (record google { email = "eve@example.org" }) 6 (mint 3) 900 4 tt refl refl refl
      refl

handle_google_login-activates_example :
    let r = handle_google_login plus_ten 71 "ada_1" google 5 (some (mint 2)) 3 with_ada in
    (r.1 ≡ ok (linked google suspended_ada, false))
    × (find_where (has_google 77) r.0.users
        ≡ some (record (linked google suspended_ada) { last_login_at = some 3 }))
unfolding find_by_email find_where any_where
handle_google_login-activates_example =
    handle_google_login-activates plus_ten 71 "ada_1" google 5 (mint 2) 900 3 with_ada suspended_ada
      (tt, tt) refl refl refl refl refl refl
