-- ===== src/Auth/Tokens.antt =====
-- One-time tokens: src/modules/auth/services/password-reset.service.ts and
-- src/modules/auth/services/email-verification.service.ts, with their repositories.
use fetchit_be.Base.{
  ℕ, String, Bool, true, not, Option, none, some, List, ◌∷◌, ◌==◌, ◌&&◌, ◌+◌, ltb, is_none,
  if◌then◌else◌, find_where, update_where, any_where,
}
use fetchit_be.Schema.{
  User, OneTimeToken, is_local, active, unique_violation, record_not_found, passwords_differ,
  token_invalid, token_already_used, token_expired, mail_failure, user_email_verified,
}
use fetchit_be.World.{
  ok, err, M, ◌>>=◌, ◌>>◌, pure, guard, or_throw, transaction, emit, find_user_or_throw,
}
use fetchit_be.Auth.Sessions.{find_by_email}

abbrev pub is_unused_of : ℕ → OneTimeToken → Bool
is_unused_of user_id t = t.user_id == user_id && is_none t.used_at

abbrev pub use_token : ℕ → OneTimeToken → OneTimeToken
use_token now t = record t { used_at = some now }

-- `invalidateUserTokens`
abbrev pub invalidated : ℕ → ℕ → List OneTimeToken → List OneTimeToken
invalidated user_id now tokens = update_where (is_unused_of user_id) (use_token now) tokens

abbrev pub one_hour : ℕ
one_hour = 3600000

abbrev pub one_day : ℕ
one_day = 86400000

-- `create`, refused by `@unique` on the token.
unfoldable pub create_reset : OneTimeToken → M (Unit {0})
create_reset t w =
    if any_where (λ r. r.token == t.token) w.password_resets
    then (w, err unique_violation)
    else (record w { password_resets = t ∷ w.password_resets }, ok tt)

unfoldable pub create_verification : OneTimeToken → M (Unit {0})
create_verification t w =
    if any_where (λ r. r.token == t.token) w.email_verifications
    then (w, err unique_violation)
    else (record w { email_verifications = t ∷ w.email_verifications }, ok tt)

-- `mailed` is whether the mail could be sent; the tokens are written before.
unfoldable pub send_reset : ℕ → ℕ → User → Bool → ℕ → M (Unit {0})
unfolding create_reset
send_reset id token user mailed now = do
  λ w. (record w { password_resets = invalidated user.id now w.password_resets }, ok (tt {0}))
  create_reset (record {
    id = id;
    token = token;
    user_id = user.id;
    expires_at = now + one_hour;
    used_at = none;
  })
  guard mailed mail_failure

-- Nothing is said of an address that has no account, or no password.
unfoldable pub request_password_reset : ℕ → ℕ → String → Bool → ℕ → M (Unit {0})
unfolding send_reset
request_password_reset id token email mailed now = do
  found ← find_by_email email
  send_if_local found
  where
    send_if_local : Option User → M (Unit {0})
    send_if_local none = pure tt
    send_if_local (some user) =
        if is_local user.provider then send_reset id token user mailed now else pure tt

-- `update` on a missing row throws.
abbrev pub update_user : ℕ → (User → User) → M (Unit {0})
update_user id f w =
    if any_where (λ u. u.id == id) w.users
    then (record w { users = update_where (λ u. u.id == id) f w.users }, ok tt)
    else (w, err record_not_found)

abbrev pub check_token : Option OneTimeToken → ℕ → M OneTimeToken
check_token found now = do
  t ← or_throw found token_invalid
  guard (is_none t.used_at) token_already_used
  guard (not (ltb t.expires_at now)) token_expired
  pure t

-- `resetPasswordWithToken`
unfoldable pub reset_commit : OneTimeToken → ℕ → ℕ → M (Unit {0})
reset_commit t hashed_password now = transaction (do
  update_user t.user_id (λ u. record u { password = some hashed_password })
  λ w. (
    record w {
      password_resets = update_where (λ r. r.id == t.id) (use_token now) w.password_resets;
    },
    ok (tt {0}),
  ))

unfoldable pub find_reset : ℕ → M (Option OneTimeToken)
find_reset token w = (w, ok (find_where (λ t. t.token == token) w.password_resets))

-- `confirmed` is whether the two passwords agree; `hashed_password` is the hash of the first.
unfoldable pub reset_password : ℕ → Bool → ℕ → ℕ → M (Unit {0})
unfolding reset_commit find_reset
reset_password token confirmed hashed_password now = do
  guard confirmed passwords_differ
  found ← find_reset token
  t ← check_token found now
  reset_commit t hashed_password now

unfoldable pub send_verification_email_by_user_id : ℕ → ℕ → ℕ → Bool → ℕ → M (Unit {0})
unfolding create_verification
send_verification_email_by_user_id id token user_id mailed now = do
  λ w. (
    record w { email_verifications = invalidated user_id now w.email_verifications },
    ok (tt {0}),
  )
  create_verification (record {
    id = id;
    token = token;
    user_id = user_id;
    expires_at = now + one_day;
    used_at = none;
  })
  guard mailed mail_failure

-- Nothing is said of an address that has no account, or is verified.
unfoldable pub send_verification_email : ℕ → ℕ → String → Bool → ℕ → M (Unit {0})
unfolding send_verification_email_by_user_id
send_verification_email id token email mailed now = do
  found ← find_by_email email
  send_if_unverified found
  where
    send_if_unverified : Option User → M (Unit {0})
    send_if_unverified none = pure tt
    send_if_unverified (some user) =
        if user.email_verified
        then pure tt
        else send_verification_email_by_user_id id token user.id mailed now

-- `verifyAndActivateUser`
unfoldable pub verify_and_activate_user : OneTimeToken → ℕ → M (Unit {0})
verify_and_activate_user t now = transaction (do
  update_user t.user_id (λ u. record u { email_verified = true; status = active })
  λ w. (
    record w {
      email_verifications = update_where (λ r. r.id == t.id) (use_token now) w.email_verifications;
    },
    ok (tt {0}),
  ))

-- The row's `user` is read with it.
unfoldable pub verify_email : ℕ → ℕ → M (Unit {0})
unfolding verify_and_activate_user
verify_email token now = do
  found ← λ w. (w, ok (find_where (λ (t : OneTimeToken). t.token == token) w.email_verifications))
  t ← check_token found now
  user ← find_user_or_throw t.user_id
  verify_and_activate_user t now
  emit (user_email_verified user.id user.email user.username)
