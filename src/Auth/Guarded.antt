-- ===== src/Auth/Guarded.antt =====
-- What the guards of src/modules/auth/guards and src/common/guards let through.
use fetchit_be.Base.{
  ℕ, Bool, true, false, Option, none, some, List, ◌≡◌, refl, arith, find_where, any_where,
  Option-cases, inl, inr,
}
use fetchit_be.Schema.{User, UserRole, active}
use fetchit_be.World.{World, ok}
use fetchit_be.Texts.{is_empty}
use fetchit_be.Auth.Sessions.{is_live, find_user}
use fetchit_be.Auth.Access.{
  RequestUser, request_user, validate, same_role, has_required_role, authenticate, authorize,
}

-- The account behind a request that may reach a route with these roles.
pub record IsEntitled (roles : List UserRole) (token : Option ℕ) (w : World)
    (found : Option RequestUser) : Type 0 where
  pub sub : ℕ
  pub user : User
  pub signed : token ≡ some sub
  pub live : find_where (is_live sub) w.users ≡ some user
  pub verified : user.email_verified ≡ true
  pub is_active : user.status ≡ active
  pub role : any_where (λ r. same_role user.role r) roles ≡ true
  pub carried : found ≡ some (request_user user)

-- A request reaches a route that asks for roles only with the token of a user who is not deleted,
-- whose address is verified, who is active and has one of the roles now, whatever the token says; it
-- carries that user. On a route that is marked public as well, no request does. Nothing is written.
pub authorize-IsEntitled :
    (is_public : Bool) (roles : List UserRole) (token : Option ℕ) (w : World)
    (found : Option RequestUser)
    → is_empty roles ≡ false
    → (authorize is_public roles token w).1 ≡ ok found
    → (is_public ≡ false)
      × IsEntitled roles token w found
      × ((authorize is_public roles token w).0 ≡ w)
unfolding authorize authenticate has_required_role validate find_user
authorize-IsEntitled true roles token w found some_role h = absurd (ground arith)
authorize-IsEntitled false roles none w found some_role h = absurd (cc)
authorize-IsEntitled false roles (some sub) w found some_role h =
    elim (Option-cases (find_where (is_live sub) w.users)) [
      | inl n ↦ absurd (ground arith)
      | inr (u, e) ↦ (
        refl,
        record {
          sub = sub;
          user = u;
          signed = refl;
          live = e;
          verified = ground arith;
          is_active = ground arith;
          role = ground arith;
          carried = ground arith;
        },
        ground arith,
      )
    ]
