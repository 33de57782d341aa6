-- ===== src/Auth/Registration.antt =====
-- register of src/modules/auth/auth.service.ts. `minted` is none when signing fails.
use fetchit_be.Base.{ℕ, Bool, true, Option}
use fetchit_be.Schema.{User, signing_failure}
use fetchit_be.World.{M, ◌>>=◌, ◌>>◌, pure, or_throw, clean_up, swallow}
use fetchit_be.Auth.Sessions.{Minted, open_session}
use fetchit_be.Auth.Tokens.{send_verification_email_by_user_id}
use fetchit_be.Users.Service.{CreateUserDto, create, remove}

module _ (hash_token : ℕ → ℕ) where
  unfoldable pub issue : ℕ → ℕ → Option Minted → M (Unit {0})
  unfolding open_session
  issue session_id user_id minted = do
    tokens ← or_throw minted signing_failure
    open_session hash_token session_id user_id tokens

  -- A user that gets no tokens is removed again; a mail that cannot be sent is only logged.
  unfoldable pub register : ℕ → CreateUserDto → ℕ → ℕ → Option Minted → ℕ → ℕ → Bool → ℕ → M User
  unfolding create issue send_verification_email_by_user_id
  register id dto hashed_password session_id minted token_id mail_token mailed now = do
    user ← create id dto hashed_password
    λ w. clean_up (issue session_id user.id minted w) (remove user.id true now)
    swallow (send_verification_email_by_user_id token_id mail_token user.id mailed now)
    pure user
