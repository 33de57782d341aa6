-- ===== src/Auth/Login.antt =====
-- A session from its login to its first exchange: src/modules/auth/auth.service.ts.
use mathlib.Core.Option
use fetchit_be.Base.{
  ℕ, String, Bool, true, none, some, List, ◌∷◌, ◌==◌, ltb, if◌then◌else◌, ◌≡◌, refl, arith, ap, ◌∙◌,
  find_where, update_where, find_where_sound, find_where-update_where,
}
use fetchit_be.Schema.{User, RefreshSession, active}
use fetchit_be.World.{World, ok}
use fetchit_be.Auth.Sessions.{
  Minted, is_live, is_active_session, login, refresh_check, find_user, find_active, find_by_email,
  open_session, create_session, update_last_login,
}

module _ (hash_token : ℕ → ℕ) (email : String) (matches : ℕ → Bool) (id now : ℕ) (minted : Minted)
    (w : World) (u : User) where
  abbrev opened_session : ℕ → RefreshSession
  opened_session exp = record {
    id = id;
    user_id = u.id;
    token_hash = hash_token minted.token;
    expires_at = exp;
    revoked_at = none;
  }

  login_world :
      (exp : ℕ)
      → minted.exp ≡ some exp
      → (login hash_token email matches id minted now w).1 ≡ ok u
      → let v = (login hash_token email matches id minted now w).0 in
        (v.sessions ≡ opened_session exp ∷ w.sessions)
        × (v.users
            ≡ update_where (λ x. x.id == u.id) (λ x. record x { last_login_at = some now }) w.users)
        × (u.status ≡ active)
  unfolding login find_by_email open_session create_session update_last_login
  login_world exp e h = (ground arith, ground arith, ground arith)

refresh_check_ok :
    (hash_token : ℕ → ℕ) (user_id token later : ℕ) (v : World) (u : User) (s : RefreshSession)
    (rest : List RefreshSession)
    → find_where (is_live user_id) v.users ≡ some u
    → u.status ≡ active
    → v.sessions ≡ s ∷ rest
    → is_active_session (hash_token token) later s ≡ true
    → s.user_id ≡ user_id
    → (refresh_check hash_token user_id token later v).1 ≡ ok s
unfolding refresh_check find_user find_active find_where
refresh_check_ok hash_token user_id token later v u s rest found live sessions usable owner =
    let keyed = find_where_sound (is_live user_id) v.users u found in ground arith

-- A login that has succeeded opens a session that its token can refresh at any time before the token
-- expires, if nothing else happens: the check of refreshTokens returns it.
pub login-refresh_check :
    (hash_token : ℕ → ℕ) (email : String) (matches : ℕ → Bool) (id now : ℕ) (minted : Minted)
    (w : World) (u : User) (exp later : ℕ)
    → (login hash_token email matches id minted now w).1 ≡ ok u
    → find_where (is_live u.id) w.users ≡ some u
    → minted.exp ≡ some exp
    → ltb later exp ≡ true
    → (refresh_check hash_token u.id minted.token later
        (login hash_token email matches id minted now w).0).1
      ≡ ok (opened_session hash_token email matches id now minted w u exp)
login-refresh_check hash_token email matches id now minted w u exp later h found e timely =
    let (sessions, users, live) = login_world hash_token email matches id now minted w u exp e h in
    let v = (login hash_token email matches id minted now w).0 in
    refresh_check_ok hash_token u.id minted.token later v
      (if u.id == u.id then record u { last_login_at = some now } else u) _ _
      (ap (find_where (is_live u.id)) users
        ∙ find_where-update_where (is_live u.id) (λ x. x.id == u.id)
            (λ x. record x { last_login_at = some now }) w.users (λ x. refl)
        ∙ ap (Option.map _) found)
      (ground arith) sessions (ground arith) refl
