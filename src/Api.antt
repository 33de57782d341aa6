-- ===== src/Api.antt =====
-- The controllers of src/modules: the guards of each route in front of the method of a service that
-- it calls. Keys of new rows and times are given with the request.
pub mod Customers
pub mod Handymen
pub mod Admins
pub mod Users
pub mod Privilege
mod Tests
pub mod Separate
pub mod Jobs
use fetchit_be.Base.{ℕ, String, Option, none, some, List, false}
use fetchit_be.Schema.{UserRole, user_unauthorized}
use fetchit_be.World.{M, ◌>>=◌, pure, or_throw}
use fetchit_be.Auth.Access.{RequestUser, authorize}

-- `{ data, message }`, as a handler returns it.
pub record Reply (A : Type 0) : Type 0 where
  pub body : A
  pub message : Option String

abbrev pub reply : {A B : Type 0} → Option String → (A → B) → M A → M (Reply B)
reply message wrap method = do
  result ← method
  pure (record { body = wrap result; message = message })

-- A route that is not public: `@CurrentUser()` is what the guards have put on the request.
unfoldable pub protected {ℓ} : {A : Type ℓ} → List UserRole → Option ℕ → (RequestUser → M A) → M A
protected roles token handler = do
  found ← authorize false roles token
  user ← or_throw found user_unauthorized
  handler user
