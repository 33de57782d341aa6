-- ===== src/Auth/Sessions.antt =====
-- Sessions: login, logout and refreshTokens of src/modules/auth/auth.service.ts, validate of
-- src/modules/auth/strategies/jwt-refresh.strategy.ts, and
-- src/database/repositories/refresh-session.repository.ts.
use fetchit_be.Base.{
  ℕ, String, Bool, not, Option, none, some, ◌∷◌, ◌==◌, ◌&&◌, ltb, is_none, if◌then◌else◌,
  find_where, update_where, count_where, any_where,
}
use text.Mathlib.Text.{◌==◌ as str_eq}
use fetchit_be.Schema.{
  User, RefreshSession, is_active, invalid_credentials, email_not_verified, account_suspended,
  invalid_token, unique_violation, record_not_found,
}
use fetchit_be.World.{ok, err, M, ◌>>=◌, ◌>>◌, pure, guard, or_throw}

-- `deletedAt: null` on every read of `UserRepository`.
abbrev pub is_live : ℕ → User → Bool
is_live id u = u.id == id && is_none u.deleted_at

unfoldable pub find_user : ℕ → M (Option User)
find_user id w = (w, ok (find_where (is_live id) w.users))

unfoldable pub find_by_email : String → M (Option User)
find_by_email email w =
    (w, ok (find_where (λ u. str_eq u.email email && is_none u.deleted_at) w.users))

unfoldable pub update_last_login : ℕ → ℕ → M (Unit {0})
update_last_login id now w =
    if any_where (λ u. u.id == id) w.users
    then (
      record w {
        users = update_where (λ u. u.id == id) (λ u. record u { last_login_at = some now }) w.users;
      },
      ok tt,
    )
    else (w, err record_not_found)

-- Refused by `@unique` on the token's hash.
unfoldable pub create_session : RefreshSession → M (Unit {0})
create_session s w =
    if any_where (λ t. t.token_hash == s.token_hash) w.sessions
    then (w, err unique_violation)
    else (record w { sessions = s ∷ w.sessions }, ok tt)

-- Not revoked, and `expiresAt: { gt: new Date() }`.
abbrev pub is_active_session : ℕ → ℕ → RefreshSession → Bool
is_active_session hash now s = s.token_hash == hash && is_none s.revoked_at && ltb now s.expires_at

unfoldable pub find_active : ℕ → ℕ → M (Option RefreshSession)
find_active hash now w = (w, ok (find_where (is_active_session hash now) w.sessions))

unfoldable pub revoke_by_hash : ℕ → ℕ → ℕ → M (Unit {0})
revoke_by_hash hash user_id now w = (
  record w {
    sessions =
        update_where (λ s. s.token_hash == hash && s.user_id == user_id && is_none s.revoked_at)
          (λ s. record s { revoked_at = some now }) w.sessions;
  },
  ok tt,
)

unfoldable pub revoke_all : ℕ → ℕ → M (Unit {0})
revoke_all user_id now w = (
  record w {
    sessions =
        update_where (λ s. s.user_id == user_id && is_none s.revoked_at)
          (λ s. record s { revoked_at = some now }) w.sessions;
  },
  ok tt,
)

-- The row is changed only while it holds the old hash and is not revoked; true if it was.
unfoldable pub rotate : ℕ → ℕ → ℕ → ℕ → M Bool
rotate id old_hash new_hash expires_at w =
    let holds : RefreshSession → Bool =
      λ s. s.id == id && s.token_hash == old_hash && is_none s.revoked_at in
    if any_where holds w.sessions
      && any_where (λ s. s.token_hash == new_hash && not (holds s)) w.sessions
    then (w, err unique_violation)
    else (
      record w {
        sessions =
            update_where holds (λ s. record s { token_hash = new_hash; expires_at = expires_at })
              w.sessions;
      },
      ok (not (count_where holds w.sessions == 0)),
    )

-- The refresh token that `generateTokens` has made, and its `exp` claim in milliseconds.
pub record Minted : Type 0 where
  pub token : ℕ
  pub exp : Option ℕ

module _ (hash_token : ℕ → ℕ) where
  -- `decodeExpiry` comes before the write.
  unfoldable pub open_session : ℕ → ℕ → Minted → M (Unit {0})
  open_session id user_id minted = do
    exp ← or_throw minted.exp invalid_token
    create_session (record {
      id = id;
      user_id = user_id;
      token_hash = hash_token minted.token;
      expires_at = exp;
      revoked_at = none;
    })

  -- `matches` is `comparePassword` of the password that was given.
  unfoldable pub login : String → (ℕ → Bool) → ℕ → Minted → ℕ → M User
  unfolding open_session find_by_email
  login email matches session_id minted now = do
    found ← find_by_email email
    user ← or_throw found invalid_credentials
    password ← or_throw user.password invalid_credentials
    guard (matches password) invalid_credentials
    guard user.email_verified email_not_verified
    guard (is_active user.status) account_suspended
    open_session session_id user.id minted
    update_last_login user.id now
    pure user

  unfoldable pub logout : ℕ → Option ℕ → ℕ → M (Unit {0})
  logout user_id (some token) now = revoke_by_hash (hash_token token) user_id now
  logout user_id none now = revoke_all user_id now

  unfoldable pub refresh_check : ℕ → ℕ → ℕ → M RefreshSession
  unfolding find_user find_active
  refresh_check user_id token now = do
    found ← find_user user_id
    user ← or_throw found invalid_token
    guard (is_active user.status) account_suspended
    active ← find_active (hash_token token) now
    session ← or_throw active invalid_token
    guard (session.user_id == user.id) invalid_token
    pure session

  unfoldable pub refresh_commit : ℕ → RefreshSession → Minted → M ℕ
  refresh_commit token session minted = do
    exp ← or_throw minted.exp invalid_token
    rotated ← rotate session.id (hash_token token) (hash_token minted.token) exp
    guard rotated invalid_token
    pure minted.token

  unfoldable pub refresh_tokens : ℕ → ℕ → Minted → ℕ → M ℕ
  unfolding refresh_check refresh_commit
  refresh_tokens user_id token minted now = do
    session ← refresh_check user_id token now
    refresh_commit token session minted
