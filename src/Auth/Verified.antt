-- ===== src/Auth/Verified.antt =====
-- From a registration to the first login: register and login of src/modules/auth/auth.service.ts,
-- verifyEmail of src/modules/auth/services/email-verification.service.ts.
use text.Mathlib.TextPositions.{eq_refl}
use fetchit_be.Base.{
  ℕ, String, Bool, true, false, Option, none, some, List, ◌∷◌, ◌==◌, ◌+◌, ltb, ◌≡◌, refl, arith,
  sym, ap, ◌∙◌, subst, find_where, update_where, any_where, any_where-false, any_where-update_where,
  update_where_none,
}
use fetchit_be.Schema.{User, OneTimeToken, active, email_not_verified}
use fetchit_be.World.{World, Result, ok, err, clean_up, find_user_or_throw}
use fetchit_be.Auth.Sessions.{
  Minted, find_by_email, create_session, open_session, update_last_login, login,
}
use fetchit_be.Auth.Tokens.{
  one_day, is_unused_of, invalidated, create_verification, send_verification_email_by_user_id,
  verify_email, verify_and_activate_user, use_token,
}
use fetchit_be.Users.Repository.{clashes}
use fetchit_be.Users.Service.{CreateUserDto, new_user, create, remove}
use fetchit_be.Auth.Registration.{issue, register}
use fetchit_be.Auth.Registered.{created, unclashed, then_mail, then_issue}

module _ (hash_token : ℕ → ℕ) (id : ℕ) (dto : CreateUserDto) (hashed_password session_id : ℕ)
    (minted : Option Minted) (token_id mail_token : ℕ) (mailed : Bool) (now : ℕ) where
  -- The token that is mailed.
  abbrev mailed_token : OneTimeToken
  mailed_token = record {
    id = token_id;
    token = mail_token;
    user_id = id;
    expires_at = now + one_day;
    used_at = none;
  }

  sent :
      (w : World)
      → any_where (λ r. r.token == mail_token) w.email_verifications ≡ false
      → let v = (send_verification_email_by_user_id token_id mail_token id mailed now w).0 in
        (v.users ≡ w.users)
        × (v.email_verifications ≡ mailed_token ∷ invalidated id now w.email_verifications)
  unfolding send_verification_email_by_user_id create_verification
  sent w h =
      let fresh =
        any_where-update_where (λ r. r.token == mail_token) (is_unused_of id) (use_token now)
          w.email_verifications (λ t. refl)
        ∙ h in
      (ground arith, ground arith)

  issued :
      (w v : World)
      → issue hash_token session_id id minted w ≡ (v, ok tt)
      → (v.users ≡ w.users) × (v.email_verifications ≡ w.email_verifications)
  unfolding issue open_session create_session
  issued w v h = (ground arith, ground arith)

  -- The state after a registration that has succeeded.
  pub record IsRegistered (w v : World) (u : User) : Type 0 where
    pub account : u ≡ new_user id dto hashed_password
    pub alone : any_where (λ x. x.id == id) w.users ≡ false
    pub users : v.users ≡ u ∷ w.users
    pub tokens : v.email_verifications ≡ mailed_token ∷ invalidated id now w.email_verifications

  abbrev IsFreshToken : World → Type 0
  IsFreshToken w = any_where (λ r. r.token == mail_token) w.email_verifications ≡ false

  mailed-IsRegistered :
      (w v : World) (u : User)
      → IsFreshToken w
      → any_where (clashes (new_user id dto hashed_password)) w.users ≡ false
      → v ≡ record w { users = new_user id dto hashed_password ∷ w.users }
      → (r : World × Result (Unit {0})) → issue hash_token session_id id minted v ≡ r
      → let r' =
          then_mail hash_token id dto hashed_password session_id minted token_id mail_token mailed
            now
            (new_user id dto hashed_password)
            (clean_up r (remove id true now)) in
        r'.1 ≡ ok u → IsRegistered w r'.0 u
  mailed-IsRegistered w v u fresh alone same (v', err x) r h = absurd (cc)
  mailed-IsRegistered w v u fresh alone same (v', ok t) r h =
      let (users, tokens) = issued v v' r in
      let before : v'.email_verifications ≡ w.email_verifications =
        tokens ∙ ap (λ z. z.email_verifications) same in
      let (users', tokens') =
        sent v'
          (subst (λ z. any_where (λ r. r.token == mail_token) z ≡ false) (sym before) fresh) in
      let there : new_user id dto hashed_password ≡ u = ground arith in
      record {
        account = sym there;
        alone = unclashed (new_user id dto hashed_password) w.users alone;
        users = users' ∙ users ∙ ap (λ z. z.users) same ∙ ap (λ (z : User). z ∷ w.users) there;
        tokens = tokens' ∙ ap (λ z. mailed_token ∷ invalidated id now z) before;
      }

  registered :
      (w : World) (u : User)
      → IsFreshToken w
      → (register hash_token id dto hashed_password session_id minted token_id mail_token mailed now
          w).1
        ≡ ok u
      → IsRegistered w
          (register hash_token id dto hashed_password session_id minted token_id mail_token mailed
            now w).0
          u
  unfolding register
  registered w u fresh h = go (create id dto hashed_password w) refl h
    where
      go :
          (r : World × Result User)
          → create id dto hashed_password w ≡ r
          → (then_issue hash_token id dto hashed_password session_id minted token_id mail_token
              mailed now r).1
            ≡ ok u
          → IsRegistered w
              (then_issue hash_token id dto hashed_password session_id minted token_id mail_token
                mailed now r).0
              u
      go (v, err x) r h = absurd (cc)
      go (v, ok x) r h =
          let (i, alone, same) = created id dto hashed_password w x (ap (λ z. z.1) r) in
          let start : v ≡ record w { users = x ∷ w.users } = sym (ap (λ z. z.0) r) ∙ same in
          subst
            (λ z.
              any_where (clashes z) w.users ≡ false
              → v ≡ record w { users = z ∷ w.users }
              → (then_issue hash_token id dto hashed_password session_id minted token_id mail_token
                  mailed now (v, ok z)).1
                ≡ ok u
              → IsRegistered w
                  (then_issue hash_token id dto hashed_password session_id minted token_id
                    mail_token mailed now (v, ok z)).0
                  u)
            (sym i)
            (λ a b c.
              mailed-IsRegistered w v u fresh a b (issue hash_token session_id id minted v) refl c)
            alone start h

  abbrev verified : User → User
  verified u = record u { email_verified = true; status = active }

  verified_user :
      (w v : World) (u : User) (later : ℕ)
      → IsRegistered w v u
      → ltb (now + one_day) later ≡ false
      → ((verify_email mail_token later v).1 ≡ ok tt)
        × ((verify_email mail_token later v).0.users ≡ verified u ∷ w.users)
        × ((verify_email mail_token later v).0.sessions ≡ v.sessions)
  unfolding verify_email verify_and_activate_user find_user_or_throw find_where any_where
      update_where
  verified_user w v u later k timely =
      let users = k.users in
      let tokens = k.tokens in
      let account = ap (λ z. z.id) k.account in
      let others =
        update_where_none (λ x. x.id == id) verified w.users
          (any_where-false (λ x. x.id == id) w.users k.alone) in
      (ground arith, ground arith, ground arith)

  first_login :
      (email : String) (matches : ℕ → Bool) (next_session : ℕ) (next : Minted) (later exp : ℕ)
      (v : World) (x : User) (rest : List User)
      → v.users ≡ x ∷ rest
      → x.email ≡ email
      → x.deleted_at ≡ none
      → x.password ≡ some hashed_password
      → matches hashed_password ≡ true
      → next.exp ≡ some exp
      → any_where (λ s. s.token_hash == hash_token next.token) v.sessions ≡ false
      → (x.email_verified ≡ false
          → (login hash_token email matches next_session next later v).1 ≡ err email_not_verified)
        × (x.email_verified ≡ true
            → x.status ≡ active
            → (login hash_token email matches next_session next later v).1 ≡ ok x)
  unfolding login find_by_email open_session create_session update_last_login find_where any_where
  first_login email matches next_session next later exp v x rest users mail live p m e fresh =
      let same = eq_refl email in (λ a. ground arith, λ a b. ground arith)

  -- A user who has registered with an unused mail token cannot log in with the password until the mail
  -- is answered; answered within a day, it is accepted, and the password then logs in, with a new
  -- session whose token is unused.
  pub register-verify_email-login :
      (w : World) (u : User) (matches : ℕ → Bool) (next_session : ℕ) (next : Minted)
      (answered later exp : ℕ)
      → any_where (λ r. r.token == mail_token) w.email_verifications ≡ false
      → (register hash_token id dto hashed_password session_id minted token_id mail_token mailed now
          w).1
        ≡ ok u
      → ltb (now + one_day) answered ≡ false
      → matches hashed_password ≡ true
      → next.exp ≡ some exp
      → any_where
          (λ s. s.token_hash == hash_token next.token)
          (register hash_token id dto hashed_password session_id minted token_id mail_token mailed
            now w).0.sessions
        ≡ false
      → let v =
          (register hash_token id dto hashed_password session_id minted token_id mail_token mailed
            now w).0 in
        let confirmed = verify_email mail_token answered v in
        ((login hash_token dto.email matches next_session next later v).1 ≡ err email_not_verified)
        × (confirmed.1 ≡ ok tt)
        × ((login hash_token dto.email matches next_session next later confirmed.0).1
            ≡ ok (verified u))
  register-verify_email-login w u matches next_session next answered later exp fresh h timely m e
        unused =
      let v =
        (register hash_token id dto hashed_password session_id minted token_id mail_token mailed now
          w).0 in
      let k = registered w u fresh h in
      let (done, users, sessions) = verified_user w v u answered k timely in
      let log_in = first_login dto.email matches next_session next later exp in
      (
        (log_in v u w.users k.users (ap (λ z. z.email) k.account) (ap (λ z. z.deleted_at) k.account)
              (ap (λ z. z.password) k.account) m e unused).0
            (ap (λ z. z.email_verified) k.account),
        done,
        (log_in (verify_email mail_token answered v).0 (verified u) w.users users
              (ap (λ z. z.email) k.account) (ap (λ z. z.deleted_at) k.account)
              (ap (λ z. z.password) k.account) m e
              (ap (any_where (λ s. s.token_hash == hash_token next.token)) sessions ∙ unused)).1
            refl refl,
      )
