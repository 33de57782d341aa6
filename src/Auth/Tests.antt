-- ===== src/Auth/Tests.antt =====
-- Ada signs in on two devices, refreshes, logs out, and resets her password.
use fetchit_be.Base.{
  ℕ, ◌≡◌, ◌≢◌, refl, true, none, some, [], ◌∷◌, ◌+◌, ◌==◌, find_where, update_where, any_where,
  count_where, arith,
}
use fetchit_be.Schema.{
  User, UserRole, UserStatus, local, RefreshSession, OneTimeToken, token_already_used, active,
}
use fetchit_be.World.{World, ok, err}
use fetchit_be.Auth.Sessions.{
  Minted, login, logout, refresh_check, refresh_commit, refresh_tokens, rotate, revoke_by_hash,
  find_user, find_active, find_by_email, open_session, create_session, update_last_login,
}
use fetchit_be.Auth.Tokens.{
  reset_password, reset_commit, find_reset, verify_email, send_verification_email,
  send_verification_email_by_user_id, create_verification,
}
use fetchit_be.Auth.Rotation.{logout-refresh_tokens, refresh_tokens-rotates}
use fetchit_be.Auth.Login.{login-refresh_check}
use fetchit_be.Auth.SingleUse.{reset_password_resubmitted, verify_email_activates}

abbrev user_with : UserStatus → User
user_with status = record {
  id = 70;
  username = "ada";
  email = "ada@example.org";
  password = some 1;
  role = UserRole.customer;
  status = status;
  email_verified = true;
  onboarded_at = none;
  last_login_at = none;
  deleted_at = none;
  provider = local;
  google_id = none;
  avatar = none;
  phone = none;
}

abbrev device : ℕ → ℕ → RefreshSession
device id hash = record {
  id = id;
  user_id = 70;
  token_hash = hash;
  expires_at = 100;
  revoked_at = none;
}

abbrev link : OneTimeToken
link = record { id = 1; token = 500; user_id = 70; expires_at = 50; used_at = none }

abbrev two_devices : UserStatus → World
two_devices status = record {
  users = user_with status ∷ [];
  profiles = [];
  categories = [];
  documents = [];
  audit_log = [];
  sessions = device 1 11 ∷ device 2 12 ∷ [];
  objects = [];
  service_categories = [];
  password_resets = link ∷ [];
  email_verifications = link ∷ [];
  requests = [];
  applications = [];
  outbox = [];
}

-- A token and its hash differ by ten.
abbrev plus_ten : ℕ → ℕ
plus_ten n = n + 10

abbrev minted_with : ℕ → Minted
minted_with token = record { token = token; exp = some 200 }

-- A third device signs in, the first signs out, and the second and third still refresh.
abbrev three_devices : World
three_devices =
    (logout plus_ten 70 (some 1) 6
      (login plus_ten "ada@example.org" (λ p. p == 1) 3 (minted_with 3) 5 (two_devices active)).0).0

others_stay :
    ((refresh_tokens plus_ten 70 1 (minted_with 4) 7 three_devices).1
      ≡ err fetchit_be.Schema.Error.invalid_token)
    × ((refresh_tokens plus_ten 70 2 (minted_with 4) 7 three_devices).1 ≡ ok 4)
    × ((refresh_tokens plus_ten 70 3 (minted_with 4) 7 three_devices).1 ≡ ok 4)
unfolding login logout refresh_tokens refresh_check refresh_commit rotate revoke_by_hash find_user
    find_active find_by_email open_session create_session update_last_login find_where update_where
    any_where count_where
others_stay = (refl, refl, refl)

-- A second link for an address uses up the first.
second_link :
    (send_verification_email_by_user_id 2 600 70 true 9 (two_devices active)).0.email_verifications
    ≡ record { id = 2; token = 600; user_id = 70; expires_at = 86400009; used_at = none }
      ∷ record link { used_at = some 9 }
      ∷ []
unfolding send_verification_email_by_user_id create_verification update_where any_where
second_link = refl

logout-refresh_tokens_example :
    (refresh_tokens plus_ten 70 1
      (minted_with 4)
      7
      (logout plus_ten 70 none 6 (two_devices active)).0).1
    ≢ ok 4
logout-refresh_tokens_example =
    logout-refresh_tokens plus_ten 70 1 (minted_with 4) 6 7 (two_devices active) 4

refresh_tokens-rotates_example :
    (refresh_tokens plus_ten 70 1
      (minted_with 5)
      8
      (refresh_tokens plus_ten 70 1 (minted_with 4) 7 (two_devices active)).0).1
    ≢ ok 5
unfolding refresh_tokens refresh_check refresh_commit rotate find_user find_active find_where
    any_where count_where update_where
refresh_tokens-rotates_example =
    refresh_tokens-rotates plus_ten 70 1 (minted_with 4) 7 (two_devices active) 4 70 (minted_with 5)
      8 5 ((refl, tt), (tt, tt)) (λ e. ground arith) refl

reset_password_resubmitted_example :
    let v = (reset_password 500 true 7 6 (two_devices active)).0 in
    ((reset_password 500 true 9 8 v).1 ≡ err token_already_used)
    × ((reset_commit link 9 8 v).1 ≡ ok tt)
    × (find_where (λ (x : User). x.id == 70) (reset_commit link 9 8 v).0.users
        ≡ some (record (user_with active) { password = some 9 }))
unfolding reset_password reset_commit find_reset find_where any_where
reset_password_resubmitted_example =
    reset_password_resubmitted 500 7 9 6 8 true link (user_with active) (two_devices active) refl
      refl refl

verify_email_activates_example :
    ((verify_email 500 6 (two_devices UserStatus.suspended)).1 ≡ ok tt)
    × (find_where
          (λ (x : User). x.id == 70)
          (verify_email 500 6 (two_devices UserStatus.suspended)).0.users
        ≡ some (user_with active))
unfolding find_where
verify_email_activates_example =
    verify_email_activates 500 6 link (user_with UserStatus.suspended)
      (two_devices UserStatus.suspended) refl refl refl refl

login-refresh_check_example :
    (refresh_check plus_ten 70 3 7
      (login plus_ten "ada@example.org" (λ p. p == 1) 3 (minted_with 3) 5 (two_devices active)).0).1
    ≡ ok (record (device 3 13) { expires_at = 200 })
unfolding login find_by_email open_session create_session update_last_login find_where any_where
login-refresh_check_example =
    login-refresh_check plus_ten "ada@example.org" (λ p. p == 1) 3 5 (minted_with 3)
      (two_devices active) (user_with active) 200 7 refl refl refl refl

-- An address that is verified gets no second link, and neither does an unknown one.
no_link :
    ((send_verification_email 2 600 "ada@example.org" true 9 (two_devices active)).0
      ≡ two_devices active)
    × ((send_verification_email 2 600 "bob@example.org" true 9 (two_devices active)).0
        ≡ two_devices active)
unfolding send_verification_email find_by_email find_where
no_link = (refl, refl)

-- Two resets in flight with one token.
two_resets :
    let v = (reset_commit link 7 6 (two_devices active)).0 in
    ((reset_commit link 7 6 (two_devices active)).1 ≡ ok tt)
    × ((reset_commit link 9 6 v).1 ≡ ok tt)
    × (find_where (λ (x : User). x.id == 70) (reset_commit link 9 6 v).0.users
        ≡ some (record (user_with active) { password = some 9 }))
unfolding reset_commit find_where any_where update_where
two_resets = (refl, refl, refl)
