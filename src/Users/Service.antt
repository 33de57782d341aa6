-- ===== src/Users/Service.antt =====
-- src/modules/users/users.service.ts. A password's hash and the key of a new row are arguments.
use fetchit_be.Base.{ℕ, String, Bool, true, false, not, Option, none, some, is_none, if◌then◌else◌}
use fetchit_be.Schema.{
  User, UserRole, UserStatus, customer, local, google, active, is_admin, email_already_exists,
  username_already_exists, user_not_found, forbidden, email_not_verified,
}
use fetchit_be.World.{M, ◌>>=◌, ◌>>◌, pure, guard, or_throw}
use fetchit_be.Texts.{Text}
use fetchit_be.Auth.Sessions.{find_user, find_by_email}
use fetchit_be.Users.Repository.{
  find_by_username, create_user, update_user_row, delete_user, soft_delete, update_role,
}

-- Without the password, of which the hash is given.
pub record CreateUserDto : Type 0 where
  pub username : String
  pub email : String
  pub phone : Option String

-- The defaults of the columns.
abbrev pub blank_user : ℕ → String → String → User
blank_user id username email = record {
  id = id;
  username = username;
  email = email;
  password = none;
  role = customer;
  status = UserStatus.pending;
  email_verified = false;
  onboarded_at = none;
  last_login_at = none;
  deleted_at = none;
  provider = local;
  google_id = none;
  avatar = none;
  phone = none;
}

abbrev pub new_user : ℕ → CreateUserDto → ℕ → User
new_user id dto hashed_password = record (blank_user id dto.username dto.email) {
  password = some hashed_password;
  phone = dto.phone;
}

unfoldable pub create : ℕ → CreateUserDto → ℕ → M User
unfolding find_by_email find_by_username create_user
create id dto hashed_password = do
  existing_email ← find_by_email dto.email
  guard (is_none existing_email) email_already_exists
  existing_username ← find_by_username dto.username
  guard (is_none existing_username) username_already_exists
  create_user (new_user id dto hashed_password)

abbrev pub new_oauth_user : ℕ → String → String → ℕ → Option Text → User
new_oauth_user id email username google_id avatar = record (blank_user id username email) {
  google_id = some google_id;
  avatar = avatar;
  provider = google;
  email_verified = true;
  status = active;
}

unfoldable pub create_oauth_user : ℕ → String → String → ℕ → Option Text → M User
unfolding create_user
create_oauth_user id email username google_id avatar =
    create_user (new_oauth_user id email username google_id avatar)

unfoldable pub find_one : ℕ → M User
unfolding find_user
find_one id = do found ← find_user id; or_throw found user_not_found

-- A column that the body leaves out is left alone.
pub record UpdateUserDto : Type 0 where
  pub username : Option String
  pub phone : Option String
  pub avatar : Option Text
  pub status : Option UserStatus

abbrev pub given {ℓ} : {A : Type ℓ} → Option A → A → A
given none old = old
given (some new) old = new

abbrev pub given_some {ℓ} : {A : Type ℓ} → Option A → Option A → Option A
given_some none old = old
given_some (some new) old = some new

abbrev pub updated_by : UpdateUserDto → User → User
updated_by dto u = record u {
  username = given dto.username u.username;
  phone = given_some dto.phone u.phone;
  avatar = given_some dto.avatar u.avatar;
  status = given dto.status u.status;
}

unfoldable pub update : ℕ → UpdateUserDto → M User
unfolding find_user update_user_row
update id dto = do
  found ← find_user id
  user ← or_throw found user_not_found
  update_user_row id (updated_by dto)

unfoldable pub remove : ℕ → Bool → ℕ → M (Unit {0})
unfolding find_user delete_user soft_delete
remove id hard now = do
  found ← find_user id
  user ← or_throw found user_not_found
  if hard then delete_user id else (do deleted ← soft_delete id now; pure tt)

unfoldable pub onboard : ℕ → UserRole → ℕ → M User
unfolding find_user update_role
onboard user_id role now = do
  found ← find_user user_id
  user ← or_throw found user_not_found
  guard user.email_verified email_not_verified
  guard (not (is_admin user.role)) forbidden
  guard (is_none user.onboarded_at) forbidden
  update_role user_id role now
