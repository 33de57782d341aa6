-- ===== src/Auth/SingleUse.antt =====
-- What one-time tokens promise: src/modules/auth/services/password-reset.service.ts and
-- src/modules/auth/services/email-verification.service.ts.
use mathlib.Core.Option
use fetchit_be.Base.{
  ℕ, String, Bool, true, false, not, none, some, ◌∷◌, ◌+◌, ◌==◌, ltb, is_none, ◌≡◌, ◌⊎◌, inl, inr,
  refl, arith, sym, subst, ap, ◌∙◌, find_where, update_where, All, All-update_where, All-trivial,
  find_where_sound, find_where-update_where, find_where-any_where, Option-cases,
}
use fetchit_be.Schema.{User, OneTimeToken, active, is_local, token_already_used}
use fetchit_be.World.{World, ok, err, find_user_or_throw}
use fetchit_be.Auth.Sessions.{find_by_email}
use fetchit_be.Auth.Tokens.{
  is_unused_of, use_token, invalidated, request_password_reset, send_reset, create_reset,
  reset_password, reset_commit, find_reset, one_hour, verify_email, verify_and_activate_user,
}

-- After a request for a reset that has succeeded for an account with a password, every unused token of
-- that account is the new one: earlier ones have been used up.
request_password_reset-unused :
    (id token : ℕ) (email : String) (mailed : Bool) (now : ℕ) (w : World) (u : User)
    → (find_by_email email w).1 ≡ ok (some u)
    → is_local u.provider ≡ true
    → (request_password_reset id token email mailed now w).1 ≡ ok tt
    → All
        (λ t. (not (is_unused_of u.id t) ≡ true) ⊎ (t.token ≡ token))
        (request_password_reset id token email mailed now w).0.password_resets
unfolding request_password_reset send_reset create_reset find_by_email
request_password_reset-unused id token email mailed now w u found l done =
    subst (All (λ t. (not (is_unused_of u.id t) ≡ true) ⊎ (t.token ≡ token))) (sym rows) (
      inr refl,
      All-update_where (λ t. Unit {0}) (λ t. (not (is_unused_of u.id t) ≡ true) ⊎ (t.token ≡ token))
          (is_unused_of u.id) (use_token now) w.password_resets (λ t h. inl (ground arith))
          (All-trivial w.password_resets),
    )
  where
    rows :
        (request_password_reset id token email mailed now w).0.password_resets
        ≡ record {
          id = id;
          token = token;
          user_id = u.id;
          expires_at = now + one_hour;
          used_at = none;
        }
          ∷ invalidated u.id now w.password_resets
    rows = ground arith

reset_password_passed :
    (token : ℕ) (confirmed : Bool) (hashed now : ℕ) (w : World)
    → (reset_password token confirmed hashed now w).1 ≡ ok tt
    → (t : OneTimeToken) × (find_where (λ r. r.token == token) w.password_resets ≡ some t)
      × ((reset_password token confirmed hashed now w).0.password_resets
          ≡ update_where (λ r. r.id == t.id) (use_token now) w.password_resets)
unfolding reset_password find_reset reset_commit
reset_password_passed token confirmed hashed now w h =
    elim (Option-cases (find_where (λ r. r.token == token) w.password_resets)) [
      | inl e ↦ absurd (ground arith)
      | inr (t, e) ↦ (t, e, ground arith)
    ]

used_refused :
    (token hashed now : ℕ) (t : OneTimeToken) (w : World)
    → find_where (λ r. r.token == token) w.password_resets ≡ some t
    → is_none t.used_at ≡ false
    → (reset_password token true hashed now w).1 ≡ err token_already_used
unfolding reset_password find_reset
used_refused token hashed now t w found used = ground arith

reset_password_refused :
    (token hashed hashed' now later : ℕ) (confirmed : Bool) (w : World)
    → (reset_password token confirmed hashed now w).1 ≡ ok tt
    → (reset_password token true hashed' later (reset_password token confirmed hashed now w).0).1
      ≡ err token_already_used
reset_password_refused token hashed hashed' now later confirmed w h =
    let (t, found, rows) = reset_password_passed token confirmed hashed now w h in
    let v = (reset_password token confirmed hashed now w).0 in
    used_refused token hashed' later (use_token now t) v
      (ap (find_where (λ r. r.token == token)) rows
        ∙ find_where-update_where (λ r. r.token == token) (λ r. r.id == t.id) (use_token now)
            w.password_resets (λ r. refl)
        ∙ ap (Option.map _) found
        ∙ ground arith)
      refl

-- Verifying an address makes the account ACTIVE whatever its status was, a SUSPENDED one too, when the token is
-- stored, unused and not expired, and its account is there.
pub verify_email_activates :
    (token now : ℕ) (t : OneTimeToken) (u : User) (w : World)
    → find_where (λ r. r.token == token) w.email_verifications ≡ some t
    → t.used_at ≡ none
    → ltb t.expires_at now ≡ false
    → find_where (λ x. x.id == t.user_id) w.users ≡ some u
    → ((verify_email token now w).1 ≡ ok tt)
      × (find_where (λ x. x.id == t.user_id) (verify_email token now w).0.users
          ≡ some (record u { email_verified = true; status = active }))
unfolding verify_email verify_and_activate_user find_user_or_throw
verify_email_activates token now t u w found unused timely owner =
    let there = find_where-any_where (λ x. x.id == t.user_id) w.users u owner in
    let keyed = find_where_sound (λ x. x.id == t.user_id) w.users u owner in
    let row =
      find_where-update_where (λ x. x.id == t.user_id) (λ x. x.id == t.user_id)
        (λ x. record x { email_verified = true; status = active }) w.users (λ x. refl) in
    (ground arith, ground arith)

reset_commit_ok :
    (t : OneTimeToken) (hashed now : ℕ) (u : User) (w : World)
    → find_where (λ x. x.id == t.user_id) w.users ≡ some u
    → ((reset_commit t hashed now w).1 ≡ ok tt)
      × (find_where (λ x. x.id == t.user_id) (reset_commit t hashed now w).0.users
          ≡ some (record u { password = some hashed }))
unfolding reset_commit
reset_commit_ok t hashed now u w owner =
    let there = find_where-any_where (λ x. x.id == t.user_id) w.users u owner in
    let keyed = find_where_sound (λ x. x.id == t.user_id) w.users u owner in
    let row =
      find_where-update_where (λ x. x.id == t.user_id) (λ x. x.id == t.user_id)
        (λ x. record x { password = some hashed }) w.users (λ x. refl) in
    (ground arith, ground arith)

reset_password_committed :
    (token : ℕ) (confirmed : Bool) (hashed now : ℕ) (t : OneTimeToken) (w : World)
    → find_where (λ r. r.token == token) w.password_resets ≡ some t
    → (reset_password token confirmed hashed now w).1 ≡ ok tt
    → reset_password token confirmed hashed now w ≡ reset_commit t hashed now w
unfolding reset_password find_reset
reset_password_committed token confirmed hashed now t w found h = ground arith

-- After a reset that has succeeded, with the link `t` of the account `u`: a submission of the link that
-- begins now, at any time and for any password, is refused as already used; one that had read the
-- link before, and writes now, succeeds all the same, and its password is the one that stays.
pub reset_password_resubmitted :
    (token hashed hashed' now later : ℕ) (confirmed : Bool) (t : OneTimeToken) (u : User)
    (w : World)
    → find_where (λ r. r.token == token) w.password_resets ≡ some t
    → find_where (λ x. x.id == t.user_id) w.users ≡ some u
    → (reset_password token confirmed hashed now w).1 ≡ ok tt
    → let v = (reset_password token confirmed hashed now w).0 in
      ((reset_password token true hashed' later v).1 ≡ err token_already_used)
      × ((reset_commit t hashed' later v).1 ≡ ok tt)
      × (find_where (λ x. x.id == t.user_id) (reset_commit t hashed' later v).0.users
          ≡ some (record u { password = some hashed' }))
reset_password_resubmitted token hashed hashed' now later confirmed t u w found owner h =
    let v = (reset_password token confirmed hashed now w).0 in
    let e = reset_password_committed token confirmed hashed now t w found h in
    let rows =
      ap (λ p. find_where (λ x. x.id == t.user_id) p.0.users) e
      ∙ (reset_commit_ok t hashed now u w owner).1 in
    let (done, row) =
      reset_commit_ok t hashed' later (record u { password = some hashed }) v rows in
    (reset_password_refused token hashed hashed' now later confirmed w h, done, row)
