-- ===== src/Api/Users.antt =====
-- src/modules/users/users.controller.ts, findAll of src/modules/users/users.service.ts and the body of
-- a response, src/modules/users/dto/user-response.dto.ts.
use fetchit_be.Base.{
  ℕ, ◌-◌, ◌*◌, String, Bool, true, false, not, Option, none, some, List, [], ◌∷◌, ◌==◌, is_none,
  or_else,
}
use fetchit_be.Schema.{
  User, UserRole, UserStatus, admin, customer, personal_shopper, handyman, bad_request, forbidden,
}
use fetchit_be.World.{M, ◌>>◌, guard, ok}
use fetchit_be.Texts.{Text}
use fetchit_be.Auth.Access.{RequestUser}
use fetchit_be.Listing.{PaginationDto, PaginatedResult, find_page}
use fetchit_be.Listing.Requests.{map_page}
use fetchit_be.Users.Service
use fetchit_be.Users.Service.{UpdateUserDto}
use fetchit_be.Api.{Reply, reply, protected}

-- The columns that are exposed: not the password, the Google account or the date of deletion.
pub record UserResponse : Type 0 where
  pub id : ℕ
  pub username : String
  pub email : String
  pub role : UserRole
  pub status : UserStatus
  pub avatar : Option Text
  pub phone : Option String
  pub email_verified : Bool
  pub last_login_at : Option ℕ
  pub onboarded_at : Option ℕ

-- `plainToInstance(UserResponseDto, user)`
abbrev pub user_response : User → UserResponse
user_response u = record {
  id = u.id;
  username = u.username;
  email = u.email;
  role = u.role;
  status = u.status;
  avatar = u.avatar;
  phone = u.phone;
  email_verified = u.email_verified;
  last_login_at = u.last_login_at;
  onboarded_at = u.onboarded_at;
}

-- `order` is the sort that the query asks for.
unfoldable pub find_all_users :
    (List User → List User) → PaginationDto → M (PaginatedResult UserResponse)
unfolding find_page
find_all_users order dto w =
    let page = or_else dto.page 1 in
    let limit = or_else dto.limit 10 in
    (
      w,
      ok (
          map_page user_response
            (find_page (λ u. is_none u.deleted_at) order ((page - 1) * limit) page limit w.users)),
    )

pub data UserRoute : Type 0 where
  list_users : (List User → List User) → PaginationDto → UserRoute
  get_me : UserRoute
  choose_role : UserRole → ℕ → UserRoute
  get_user : ℕ → UserRoute
  update_me : UpdateUserDto → UserRoute
  update_user : ℕ → UpdateUserDto → UserRoute
  remove_user : ℕ → ℕ → UserRoute

pub data UserBody : Type 0 where
  users : PaginatedResult UserResponse → UserBody
  one_user : UserResponse → UserBody
  nothing : Unit {0} → UserBody

-- `ONBOARDABLE_ROLES`, which the validation of the body asks for.
abbrev pub is_onboardable : UserRole → Bool
is_onboardable admin = false
is_onboardable customer = true
is_onboardable personal_shopper = true
is_onboardable handyman = true

abbrev pub user_roles : UserRoute → List UserRole
user_roles get_me = []
user_roles (choose_role role now) = []
user_roles (update_me dto) = []
user_roles _ = admin ∷ []

-- The body of `PATCH /users/me` has no `status`.
unfoldable pub run_user_route : UserRoute → RequestUser → M (Reply UserBody)
unfolding find_all_users
run_user_route (list_users order dto) user = reply none users (find_all_users order dto)
run_user_route get_me user = reply none (λ u. one_user (user_response u)) (Service.find_one user.id)
run_user_route (choose_role role now) user = do
  guard (is_onboardable role) bad_request
  reply (some "User onboarded successfully") (λ u. one_user (user_response u))
      (Service.onboard user.id role now)
run_user_route (get_user id) user =
    reply none (λ u. one_user (user_response u)) (Service.find_one id)
run_user_route (update_me dto) user =
    reply (some "User updated successfully") (λ u. one_user (user_response u))
      (Service.update user.id (record dto { status = none }))
run_user_route (update_user id dto) user =
    reply (some "User updated successfully") (λ u. one_user (user_response u))
      (Service.update id dto)
run_user_route (remove_user id now) user = do
  guard (not (user.id == id)) forbidden
  reply none nothing (Service.remove id false now)

-- `UsersController`, its public list of roles apart.
unfoldable pub users_controller : UserRoute → Option ℕ → M (Reply UserBody)
unfolding run_user_route
users_controller route token = protected (user_roles route) token (run_user_route route)
