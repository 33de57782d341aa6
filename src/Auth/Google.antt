-- ===== src/Auth/Google.antt =====
-- Logins through Google, one after another: handleGoogleLogin of
-- src/modules/auth/services/oauth.service.ts.
use mathlib.Core.Option
use mathlib.Core.Option.{some-injective}
use text.Mathlib.Text.{◌==◌ as str_eq}
use fetchit_be.Base.{
  ℕ, String, Bool, true, false, not, if◌then◌else◌, Option, none, some, ◌&&◌, ◌==◌, is_none, ◌≡◌,
  refl, arith, sym, ap, ◌∙◌, find_where, update_where, any_where, find_where_sound,
  find_where-update_where, any_where_of_find,
}
use fetchit_be.Schema.{User, active, is_local}
use fetchit_be.World.{World, Result, ok, >>=-eq-ok}
use fetchit_be.Auth.Sessions.{Minted, find_by_email, create_session, update_last_login}
use fetchit_be.Users.Repository.{has_google, clashes, find_by_google_id, update_user_row}
use fetchit_be.Auth.OAuth.{
  GoogleUser, linked, link_google_account, link_or_create, resolve, open_oauth_session,
  handle_google_login,
}
use fetchit_be.Auth.Linked.{IsKeyed, logged_in, linked_found, resolve_found}

module _ (hash_token : ℕ → ℕ) where
  opened :
      (session_id : ℕ) (found : Option User) (minted : Option Minted) (now : ℕ) (w : World)
      (u : User)
      → (open_oauth_session hash_token session_id found minted now w).1 ≡ ok u
      → (found ≡ some u)
        × (u.status ≡ active)
        × ((open_oauth_session hash_token session_id found minted now w).0.users
            ≡ logged_in u.id now w.users)
  unfolding open_oauth_session create_session update_last_login
  opened session_id none minted now w u h = absurd (cc)
  opened session_id (some v) none now w u h = absurd (ground arith)
  opened session_id (some v) (some minted) now w u h = (ground arith, ground arith, ground arith)

  -- The two steps of a login that has succeeded.
  split_login :
      (id : ℕ) (username : String) (google : GoogleUser) (session_id : ℕ) (minted : Option Minted)
      (now : ℕ) (w : World) (u : User) (is_new : Bool)
      → (handle_google_login hash_token id username google session_id minted now w).1
        ≡ ok (u, is_new)
      → let v = (resolve id username google w).0 in
        (found : Option User) × ((resolve id username google w).1 ≡ ok (found, is_new))
        × ((open_oauth_session hash_token session_id found minted now v).1 ≡ ok u)
        × ((handle_google_login hash_token id username google session_id minted now w).0
            ≡ (open_oauth_session hash_token session_id found minted now v).0)
  unfolding handle_google_login
  split_login id username google session_id minted now w u is_new h =
      let v = (resolve id username google w).0 in
      let ((found, b), e, same) = >>=-eq-ok (resolve id username google) _ w h in
      let h' = ap (λ (z : World × Result (User × Bool)). z.1) (sym same) ∙ h in
      let (user, e', same') =
        >>=-eq-ok (open_oauth_session hash_token session_id found minted now) _ v h' in
      let pair = ap (λ (z : World × Result (User × Bool)). z.1) (sym same') ∙ h' in
      (
        found,
        ground arith,
        ground arith,
        ap (λ (z : World × Result (User × Bool)). z.0) (same ∙ same'),
      )

  -- After a login, the Google account finds the account that has signed in.
  signed_in :
      (id : ℕ) (username : String) (google : GoogleUser) (session_id : ℕ) (minted : Option Minted)
      (now : ℕ) (w : World) (u : User) (is_new : Bool)
      → IsKeyed w.users
      → (handle_google_login hash_token id username google session_id minted now w).1
        ≡ ok (u, is_new)
      → (u.status ≡ active)
        × (find_where
              (has_google google.google_id)
              (handle_google_login hash_token id username google session_id minted now w).0.users
            ≡ some (record u { last_login_at = some now }))
  signed_in id username google session_id minted now w u is_new k h =
      let (found, e, e', same) =
        split_login id username google session_id minted now w u is_new h in
      let v = (resolve id username google w).0 in
      let (f, live, users) = opened session_id found minted now v u e' in
      let there =
        resolve_found id username google w u is_new k
          (e ∙ ap (λ (o : Option User). ok (o, is_new)) f) in
      let f' : User → User = λ x. record x { last_login_at = some now } in
      (
        live,
        ap (λ (z : World). find_where (has_google google.google_id) z.users) same
            ∙ ap (find_where (has_google google.google_id)) users
            ∙ find_where-update_where (has_google google.google_id) (λ x. x.id == u.id) f' v.users
                (λ x. refl)
            ∙ ap (Option.map (λ x. if x.id == u.id then f' x else x)) there
            ∙ ground arith,
      )

  known_login :
      (id : ℕ) (username : String) (google : GoogleUser) (session_id : ℕ) (tokens : Minted)
      (exp : ℕ) (now : ℕ) (v : World) (u : User)
      → find_where (has_google google.google_id) v.users ≡ some u
      → u.status ≡ active
      → tokens.exp ≡ some exp
      → any_where (λ s. s.token_hash == hash_token tokens.token) v.sessions ≡ false
      → let r = handle_google_login hash_token id username google session_id (some tokens) now v in
        (r.1 ≡ ok (u, false)) × (r.0.users ≡ logged_in u.id now v.users)
  unfolding handle_google_login resolve find_by_google_id open_oauth_session create_session
      update_last_login
  known_login id username google session_id tokens exp now v u found live e fresh =
      let there =
        any_where_of_find (has_google google.google_id) (λ x. x.id == u.id) v.users u found
          (ground arith) in
      (ground arith, ground arith)

  -- A Google account that has signed in signs in to the same account ever after, whatever its address
  -- has become: the next login, with tokens of its own, makes no account and changes no column but
  -- the time of the last login.
  pub handle_google_login-again :
      (id : ℕ) (username : String) (google : GoogleUser) (session_id : ℕ) (minted : Option Minted)
      (now : ℕ) (w : World) (u : User) (is_new : Bool) (next : ℕ) (other : String)
      (renamed : GoogleUser) (next_session : ℕ) (tokens : Minted) (exp later : ℕ)
      → IsKeyed w.users
      → (handle_google_login hash_token id username google session_id minted now w).1
        ≡ ok (u, is_new)
      → renamed.google_id ≡ google.google_id
      → tokens.exp ≡ some exp
      → any_where
          (λ s. s.token_hash == hash_token tokens.token)
          (handle_google_login hash_token id username google session_id minted now w).0.sessions
        ≡ false
      → let v = (handle_google_login hash_token id username google session_id minted now w).0 in
        let r =
          handle_google_login hash_token next other renamed next_session (some tokens) later v in
        (r.1 ≡ ok (record u { last_login_at = some now }, false))
        × (r.0.users ≡ logged_in u.id later v.users)
  handle_google_login-again id username google session_id minted now w u is_new next other renamed
        next_session tokens exp later k h same e fresh =
      let (live, found) = signed_in id username google session_id minted now w u is_new k h in
      known_login next other renamed next_session tokens exp later
        (handle_google_login hash_token id username google session_id minted now w).0
        (record u { last_login_at = some now })
        (ap
            (λ z.
              find_where (has_google z)
                (handle_google_login hash_token id username google session_id minted now w).0.users)
            same
          ∙ found)
        live e fresh

  linking :
      (id : ℕ) (username : String) (google : GoogleUser) (session_id : ℕ) (tokens : Minted)
      (exp : ℕ) (now : ℕ) (w : World) (e : User)
      → IsKeyed w.users
      → find_where (has_google google.google_id) w.users ≡ none
      → find_where (λ x. str_eq x.email google.email && is_none x.deleted_at) w.users ≡ some e
      → is_local e.provider ≡ true
      → any_where (λ v. not (v.id == e.id) && clashes (linked google e) v) w.users ≡ false
      → tokens.exp ≡ some exp
      → any_where (λ s. s.token_hash == hash_token tokens.token) w.sessions ≡ false
      → (handle_google_login hash_token id username google session_id (some tokens) now w).1
        ≡ ok (linked google e, false)
  unfolding handle_google_login resolve find_by_google_id find_by_email link_or_create
      link_google_account update_user_row open_oauth_session create_session update_last_login
  linking id username google session_id tokens exp now w e k new found l alone x fresh =
      let by_email : User → Bool = λ x. str_eq x.email google.email && is_none x.deleted_at in
      let (keyed, there) =
        linked_found google by_email w.users e k found new
          (let s = find_where_sound by_email w.users e found in ground arith) in
      let kept =
        any_where_of_find (has_google google.google_id) (λ x. x.id == e.id)
          (update_where (λ v. v.id == e.id) (linked google) w.users) (linked google e) there
          (ground arith) in
      ground arith

  -- Linking makes an account active, whatever its status: a suspended account with a password comes
  -- out of a Google login with its address, which no other row clashes with, signed in and active.
  pub handle_google_login-activates :
      (id : ℕ) (username : String) (google : GoogleUser) (session_id : ℕ) (tokens : Minted)
      (exp : ℕ) (now : ℕ) (w : World) (e : User)
      → IsKeyed w.users
      → find_where (has_google google.google_id) w.users ≡ none
      → (find_by_email google.email w).1 ≡ ok (some e)
      → is_local e.provider ≡ true
      → any_where (λ v. not (v.id == e.id) && clashes (linked google e) v) w.users ≡ false
      → tokens.exp ≡ some exp
      → any_where (λ s. s.token_hash == hash_token tokens.token) w.sessions ≡ false
      → let r = handle_google_login hash_token id username google session_id (some tokens) now w in
        (r.1 ≡ ok (linked google e, false))
        × (find_where (has_google google.google_id) r.0.users
            ≡ some (record (linked google e) { last_login_at = some now }))
  unfolding find_by_email
  handle_google_login-activates id username google session_id tokens exp now w e k new found l alone
        x fresh =
      let done =
        linking id username google session_id tokens exp now w e k new (ground arith) l alone x
          fresh in
      (
        done,
        (signed_in id username google session_id (some tokens) now w (linked google e) false k
            done).1,
      )
