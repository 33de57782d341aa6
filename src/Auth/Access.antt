-- ===== src/Auth/Access.antt =====
-- Who reaches a route: validate of src/modules/auth/strategies/jwt.strategy.ts and of
-- src/modules/auth/strategies/jwt-refresh.strategy.ts, JwtAuthGuard of
-- src/modules/auth/guards/jwt-auth.guard.ts and RolesGuard of src/common/guards/roles.guard.ts.
-- A token with a good signature is given as its `sub` claim.
use fetchit_be.Base.{
  ℕ, String, Bool, true, false, Option, none, some, List, ◌==◌, if◌then◌else◌, any_where,
}
use fetchit_be.Schema.{
  User, UserRole, admin, customer, personal_shopper, handyman, is_active, is_admin,
  email_not_verified, user_unauthorized, account_unauthorized, forbidden,
}
use fetchit_be.World.{M, ◌>>=◌, ◌>>◌, pure, guard, or_throw}
use fetchit_be.Texts.{is_empty}
use fetchit_be.Auth.Sessions.{find_user, find_active}

pub record RequestUser : Type 0 where
  pub id : ℕ
  pub email : String
  pub role : UserRole

abbrev pub request_user : User → RequestUser
request_user u = record { id = u.id; email = u.email; role = u.role }

-- `JwtStrategy.validate`
unfoldable pub validate : ℕ → M RequestUser
unfolding find_user
validate sub = do
  found ← find_user sub
  user ← or_throw found user_unauthorized
  guard user.email_verified email_not_verified
  guard (is_active user.status) account_unauthorized
  pure (request_user user)

-- `JwtRefreshStrategy.validate`
unfoldable pub validate_refresh : (ℕ → ℕ) → ℕ → ℕ → ℕ → M ℕ
unfolding find_user find_active
validate_refresh hash_token sub token now = do
  found ← find_user sub
  user ← or_throw found user_unauthorized
  active ← find_active (hash_token token) now
  session ← or_throw active user_unauthorized
  guard (session.user_id == user.id) user_unauthorized
  pure user.id

abbrev pub same_role : UserRole → UserRole → Bool
same_role admin r = is_admin r
same_role customer customer = true
same_role customer _ = false
same_role personal_shopper personal_shopper = true
same_role personal_shopper _ = false
same_role handyman handyman = true
same_role handyman _ = false

-- `RolesGuard.canActivate`
unfoldable pub has_required_role : List UserRole → Option RequestUser → Bool
has_required_role roles none = is_empty roles
has_required_role roles (some user) =
    if is_empty roles then true else any_where (λ r. same_role user.role r) roles

-- `JwtAuthGuard`, which reads no token on a public route.
unfoldable pub authenticate : Bool → Option ℕ → M (Option RequestUser)
unfolding validate
authenticate true token = pure none
authenticate false token = do
  sub ← or_throw token user_unauthorized
  user ← validate sub
  pure (some user)

-- The two guards in their order.
unfoldable pub authorize : Bool → List UserRole → Option ℕ → M (Option RequestUser)
unfolding authenticate has_required_role
authorize is_public roles token = do
  user ← authenticate is_public token
  guard (has_required_role roles user) forbidden
  pure user
