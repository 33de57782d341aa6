-- ===== src/Auth/Registered.antt =====
-- An account from its registration to its first login: register, login of
-- src/modules/auth/auth.service.ts, verifyEmail of
-- src/modules/auth/services/email-verification.service.ts.
use fetchit_be.Base.{
  ℕ, Bool, true, false, not, Option, List, [], ◌∷◌, ◌==◌, is_none, ◌≡◌, refl, arith, sym, ap, ◌∙◌,
  subst, find_where, any_where, filter_where,
}
use fetchit_be.Schema.{User, RefreshSession, Error}
use fetchit_be.World.{World, Result, ok, err, continue, clean_up}
use fetchit_be.Auth.Sessions.{Minted, find_user, find_by_email, create_session, open_session}
use fetchit_be.Auth.Tokens.{send_verification_email_by_user_id}
use fetchit_be.Users.Repository.{clashes, find_by_username, create_user, delete_user}
use fetchit_be.Users.Service.{CreateUserDto, new_user, create, remove}
use fetchit_be.Auth.Registration.{issue, register}

module _ (id : ℕ) (dto : CreateUserDto) (hashed_password : ℕ) where
  -- A user that is created has a key and a name of its own.
  pub created :
      (w : World) (u : User)
      → (create id dto hashed_password w).1 ≡ ok u
      → (u ≡ new_user id dto hashed_password)
        × (any_where (clashes u) w.users ≡ false)
        × ((create id dto hashed_password w).0 ≡ record w { users = u ∷ w.users })
  unfolding create find_by_email find_by_username create_user
  created w u h = (ground arith, ground arith, ground arith)

  create_failed :
      (w : World) (e : Error)
      → (create id dto hashed_password w).1 ≡ err e
      → (create id dto hashed_password w).0 ≡ w
  unfolding create find_by_email find_by_username create_user
  create_failed w e h = ground arith

pub unclashed :
    (u : User) (users : List User)
    → any_where (clashes u) users ≡ false
    → any_where (λ x. x.id == u.id) users ≡ false
unfolding any_where
unclashed u [] h = refl
unclashed u (x ∷ xs) h = ground (arith, unclashed u xs)

-- Nothing refers to the user but what a registration writes.
pub record IsUnused (id : ℕ) (w : World) : Type 0 where
  pub requests : any_where (λ r. r.customer_id == id) w.requests ≡ false
  pub audit_log : any_where (λ a. a.user_id == id) w.audit_log ≡ false
  pub sessions : any_where (λ s. s.user_id == id) w.sessions ≡ false

filter_none :
    {A : Type 0} (test : A → Bool) (xs : List A)
    → any_where test xs ≡ false
    → filter_where (λ x. not (test x)) xs ≡ xs
unfolding any_where filter_where
filter_none test [] h = refl
filter_none test (x ∷ xs) h = ground (arith, filter_none test xs)

-- The clean-up undoes what comes before it.
undone :
    (now : ℕ) (u : User) (w : World)
    → is_none u.deleted_at ≡ true
    → any_where (clashes u) w.users ≡ false
    → IsUnused u.id w
    → let v = (remove u.id true now (record w { users = u ∷ w.users })).0 in
      (v.users ≡ w.users) × (v.sessions ≡ w.sessions)
unfolding remove find_user delete_user find_where any_where filter_where
undone now u w d alone k =
    let rows = filter_none (λ (x : User). x.id == u.id) w.users (unclashed u w.users alone) in
    let sessions = filter_none (λ (s : RefreshSession). s.user_id == u.id) w.sessions k.sessions in
    let requests = k.requests in let entries = k.audit_log in (ground arith, ground arith)

module _ (hash_token : ℕ → ℕ) (id : ℕ) (dto : CreateUserDto) (hashed_password session_id : ℕ)
    (minted : Option Minted) (token_id mail_token : ℕ) (mailed : Bool) (now : ℕ) where
  issue_failed :
      (user_id : ℕ) (w v : World) (e : Error)
      → issue hash_token session_id user_id minted w ≡ (v, err e)
      → v ≡ w
  unfolding issue open_session create_session
  issue_failed user_id w v e h = ground arith

  -- What register does with the result of each of its steps.
  abbrev pub then_mail : User → World × Result (Unit {0}) → World × Result User
  then_mail u r =
      continue r (λ _ v.
        ((send_verification_email_by_user_id token_id mail_token u.id mailed now v).0, ok u))

  abbrev pub then_issue : World × Result User → World × Result User
  then_issue r = continue r (λ u v.
      then_mail u (clean_up (issue hash_token session_id u.id minted v) (remove u.id true now)))

  -- A failed issue, and what is left when it has been cleaned up after.
  issue_or_undo :
      (w v : World) (u : User) (e : Error)
      → is_none u.deleted_at ≡ true
      → any_where (clashes u) w.users ≡ false
      → IsUnused u.id w
      → v ≡ record w { users = u ∷ w.users }
      → (r : World × Result (Unit {0})) → issue hash_token session_id u.id minted v ≡ r
      → (then_mail u (clean_up r (remove u.id true now))).1 ≡ err e
      → ((then_mail u (clean_up r (remove u.id true now))).0.users ≡ w.users)
        × ((then_mail u (clean_up r (remove u.id true now))).0.sessions ≡ w.sessions)
  issue_or_undo w v u e d alone k same (v', ok t) r h = absurd (cc)
  issue_or_undo w v u e d alone k same (v', err x) r h =
      subst
        (λ z.
          ((remove u.id true now z).0.users ≡ w.users)
          × ((remove u.id true now z).0.sessions ≡ w.sessions))
        (sym (issue_failed u.id v v' x r ∙ same)) (undone now u w d alone k)

  -- If registering throws, at whatever step, the tables of users and sessions are as before: the same
  -- address and name can register again. The key is one that no request, audit entry or session has.
  register-err :
      (w : World) (e : Error)
      → IsUnused id w
      → (register hash_token id dto hashed_password session_id minted token_id mail_token mailed now
          w).1
        ≡ err e
      → let v =
          (register hash_token id dto hashed_password session_id minted token_id mail_token mailed
            now w).0 in
        (v.users ≡ w.users) × (v.sessions ≡ w.sessions)
  unfolding register
  register-err w e k h = go (create id dto hashed_password w) refl h
    where
      go :
          (r : World × Result User)
          → create id dto hashed_password w ≡ r
          → (then_issue r).1 ≡ err e
          → ((then_issue r).0.users ≡ w.users) × ((then_issue r).0.sessions ≡ w.sessions)
      go (v, err x) r h =
          let same : v ≡ w =
            sym (ap (λ z. z.0) r) ∙ create_failed id dto hashed_password w x (ap (λ z. z.1) r) in
          (ap (λ z. z.users) same, ap (λ z. z.sessions) same)
      go (v, ok u) r h =
          let (i, alone, same) = created id dto hashed_password w u (ap (λ z. z.1) r) in
          issue_or_undo w v u e (ap (λ z. is_none z.deleted_at) i) alone
            (subst (λ z. IsUnused z w) (sym (ap (λ z. z.id) i)) k) (sym (ap (λ z. z.0) r) ∙ same)
            (issue hash_token session_id u.id minted v) refl h
