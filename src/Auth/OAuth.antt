-- ===== src/Auth/OAuth.antt =====
-- src/modules/auth/services/oauth.service.ts, and googleAuthCallback of
-- src/modules/auth/auth.controller.ts. `minted` is none when signing fails.
use fetchit_be.Base.{
  ℕ, String, Bool, true, false, Option, none, some, [], ◌∷◌, ◌++◌, ◌&&◌, ◌||◌, ◌+◌, leb, map,
  if◌then◌else◌,
}
use fetchit_be.Schema.{
  User, Error, is_active, active, is_local, signing_failure, account_already_linked, user_missing,
  account_not_active, session_not_generated,
}
use fetchit_be.World.{World, Result, ok, err, M, ◌>>=◌, ◌>>◌, pure, guard, or_throw}
use fetchit_be.Texts.{Text, codes, is_empty, starts_with}
use fetchit_be.Auth.Sessions.{Minted, find_user, find_by_email, create_session, update_last_login}
use fetchit_be.Users.Repository.{find_by_google_id, update_user_row}
use fetchit_be.Users.Service.{create_oauth_user}

pub record GoogleUser : Type 0 where
  pub google_id : ℕ
  pub email : String
  pub picture : Text

-- `picture || undefined`
abbrev pub picture_or : Text → Option Text → Option Text
picture_or picture old = if is_empty picture then old else some picture

abbrev pub linked : GoogleUser → User → User
linked google u = record u {
  google_id = some google.google_id;
  avatar = picture_or google.picture u.avatar;
  email_verified = true;
  status = active;
}

unfoldable pub link_google_account : ℕ → GoogleUser → M User
unfolding update_user_row
link_google_account user_id google = update_user_row user_id (linked google)

-- The account that a Google account signs in to, and whether it is new. `username` is what
-- `generateUsername` gives.
unfoldable pub link_or_create : ℕ → String → GoogleUser → Option User → M (Option User × Bool)
unfolding link_google_account create_oauth_user find_user
link_or_create id username google (some existing) = do
  guard (is_local existing.provider) account_already_linked
  user ← link_google_account existing.id google
  pure (some user, false)
link_or_create id username google none = do
  created ← create_oauth_user id google.email username google.google_id (some google.picture)
  user ← find_user created.id
  pure (user, true)

unfoldable pub resolve : ℕ → String → GoogleUser → M (Option User × Bool)
unfolding find_by_google_id find_by_email link_or_create
resolve id username google = do found ← find_by_google_id google.google_id; link_if_unknown found
  where
    link_if_unknown : Option User → M (Option User × Bool)
    link_if_unknown (some user) = pure (some user, false)
    link_if_unknown none = do
      existing ← find_by_email google.email
      link_or_create id username google existing

module _ (hash_token : ℕ → ℕ) where
  unfoldable pub open_oauth_session : ℕ → Option User → Option Minted → ℕ → M User
  unfolding create_session update_last_login
  open_oauth_session session_id found minted now = do
    user ← or_throw found user_missing
    guard (is_active user.status) account_not_active
    tokens ← or_throw minted signing_failure
    exp ← or_throw tokens.exp session_not_generated
    create_session (record {
      id = session_id;
      user_id = user.id;
      token_hash = hash_token tokens.token;
      expires_at = exp;
      revoked_at = none;
    })
    update_last_login user.id now
    pure user

  unfoldable pub handle_google_login :
      ℕ → String → GoogleUser → ℕ → Option Minted → ℕ → M (User × Bool)
  unfolding resolve open_oauth_session
  handle_google_login id username google session_id minted now = do
    (found, is_new_user) ← resolve id username google
    user ← open_oauth_session session_id found minted now
    pure (user, is_new_user)

unfoldable pub includes : Text → Text → Bool
includes [] part = is_empty part
includes (c ∷ s) part = starts_with (c ∷ s) part || includes s part

-- `toLowerCase`, on ASCII.
abbrev pub lower : ℕ → ℕ
lower c = if leb b'A' c && leb c b'Z' then c + 32 else c

unfoldable pub map_error_to_code : Text → Text
map_error_to_code error =
    let text = map lower error in
    if includes text (codes "already linked") || includes text (codes "account exists")
    then codes "account_exists"
    else if includes text (codes "not active")
    then codes "account_suspended"
    else codes "oauth_failed"

unfoldable pub get_frontend_error_url : Text → Text → Text
get_frontend_error_url frontend_url error =
    frontend_url ++ codes "/auth/oauth-error?error=" ++ map_error_to_code error

unfoldable pub redirect_url : Text → Text → Text → Bool → Text
redirect_url frontend_url access_token refresh_token is_new_user =
    frontend_url
    ++ codes "/auth/oauth-callback#accessToken="
    ++ access_token
    ++ codes "&refreshToken="
    ++ refresh_token
    ++ codes "&isNewUser="
    ++ (if is_new_user then codes "true" else codes "false")

-- Texts of the exceptions that the service throws; `other` gives those of the libraries.
abbrev pub message : (Error → Text) → Error → Text
message other account_already_linked = codes "Account already linked to a different Google account"
message other user_missing = codes "Failed to create or find user"
message other account_not_active = codes "This account is not active"
message other session_not_generated = codes "Failed to generate session for OAuth login"
message other e = other e

-- `access_token` and `refresh_token` are the texts of the minted tokens.
unfoldable pub google_auth_callback :
    (Error → Text) → Text → Text → Text → World × Result (User × Bool) → Text
unfolding redirect_url get_frontend_error_url
google_auth_callback other frontend_url access_token refresh_token (w, ok (user, is_new_user)) =
    redirect_url frontend_url access_token refresh_token is_new_user
google_auth_callback other frontend_url access_token refresh_token (w, err e) =
    get_frontend_error_url frontend_url (message other e)
