-- ===== src/Users/Repository.antt =====
-- src/database/repositories/user.repository.ts. Reads skip deleted users; the unique columns and the
-- foreign keys of prisma/schema.prisma count them.
use fetchit_be.Base.{
  ℕ, String, Bool, true, false, not, Option, none, some, List, ◌∷◌, ◌==◌, ◌&&◌, ◌||◌, is_none,
  if◌then◌else◌, find_where, update_where, any_where, filter_where,
}
use text.Mathlib.Text.{◌==◌ as str_eq}
use fetchit_be.Schema.{
  User, UserRole, HandymanProfile, HandymanDocument, ServiceRequest, active, UserStatus,
  unique_violation, record_not_found, foreign_key_violation,
}
use fetchit_be.World.{World, ok, err, M}

unfoldable pub find_by_username : String → M (Option User)
find_by_username username w =
    (w, ok (find_where (λ u. str_eq u.username username && is_none u.deleted_at) w.users))

-- `google_id === id`, where NULL is equal to nothing.
abbrev pub is_google : ℕ → Option ℕ → Bool
is_google id none = false
is_google id (some other) = other == id

abbrev pub has_google : ℕ → User → Bool
has_google id u = is_google id u.google_id && is_none u.deleted_at

unfoldable pub find_by_google_id : ℕ → M (Option User)
find_by_google_id id w = (w, ok (find_where (has_google id) w.users))

-- Two rows may not share a key, a username, an address or a Google account.
abbrev pub same_google : Option ℕ → Option ℕ → Bool
same_google none b = false
same_google (some id) b = is_google id b

abbrev pub clashes : User → User → Bool
clashes u v =
    v.id == u.id
    || str_eq v.username u.username
    || str_eq v.email u.email
    || same_google u.google_id v.google_id

unfoldable pub create_user : User → M User
create_user u w =
    if any_where (clashes u) w.users
    then (w, err unique_violation)
    else (record w { users = u ∷ w.users }, ok u)

-- `update`: the row that is written may not clash with another row.
unfoldable pub update_user_row : ℕ → (User → User) → M User
update_user_row id f w = elim (find_where (λ u. u.id == id) w.users) [
  | none ↦ (w, err record_not_found)
  | some u ↦
      if any_where (λ v. not (v.id == id) && clashes (f u) v) w.users
      then (w, err unique_violation)
      else (record w { users = update_where (λ v. v.id == id) f w.users }, ok (f u))
]

abbrev pub is_reviewer : ℕ → Option ℕ → Bool
is_reviewer id none = false
is_reviewer id (some other) = other == id

-- ON DELETE SET NULL.
abbrev pub unset : ℕ → Option ℕ → Option ℕ
unset id reference = if is_reviewer id reference then none else reference

-- The profile of the user that is deleted.
abbrev pub is_profile_of : List HandymanProfile → ℕ → ℕ → Bool
is_profile_of profiles user_id profile_id =
    any_where (λ p. p.id == profile_id && p.user_id == user_id) profiles

abbrev pub unassign : List HandymanProfile → ℕ → ServiceRequest → ServiceRequest
unassign profiles user_id r = elim r.assigned_handyman_id [
  | none ↦ r
  | some profile_id ↦
      if is_profile_of profiles user_id profile_id
      then record r { assigned_handyman_id = none }
      else r
]

-- The rows that the foreign keys remove or change with a user.
abbrev pub without_user : ℕ → World → World
without_user id w = record w {
  users = filter_where (λ u. not (u.id == id)) w.users;
  sessions = filter_where (λ s. not (s.user_id == id)) w.sessions;
  password_resets = filter_where (λ t. not (t.user_id == id)) w.password_resets;
  email_verifications = filter_where (λ t. not (t.user_id == id)) w.email_verifications;
  profiles =
      update_where (λ p. true)
        (λ (p : HandymanProfile). record p { reviewed_by_id = unset id p.reviewed_by_id })
        (filter_where (λ p. not (p.user_id == id)) w.profiles);
  categories =
      filter_where (λ c. not (is_profile_of w.profiles id c.handyman_profile_id)) w.categories;
  documents =
      update_where (λ d. true)
        (λ (d : HandymanDocument). record d { reviewed_by_id = unset id d.reviewed_by_id })
        (filter_where (λ d. not (is_profile_of w.profiles id d.handyman_profile_id)) w.documents);
  applications =
      filter_where (λ a. not (is_profile_of w.profiles id a.handyman_profile_id)) w.applications;
  requests = update_where (λ r. true) (unassign w.profiles id) w.requests;
}

-- Refused while the user has requests or entries of the audit log.
unfoldable pub delete_user : ℕ → M (Unit {0})
delete_user id w =
    if not (any_where (λ u. u.id == id) w.users)
    then (w, err record_not_found)
    else if any_where (λ r. r.customer_id == id) w.requests
        || any_where (λ a. a.user_id == id) w.audit_log
    then (w, err foreign_key_violation)
    else (without_user id w, ok tt)

unfoldable pub soft_delete : ℕ → ℕ → M User
unfolding update_user_row
soft_delete id now = update_user_row id (λ u. record u { deleted_at = some now })

unfoldable pub restore : ℕ → M User
unfolding update_user_row
restore id = update_user_row id (λ u. record u { deleted_at = none })

unfoldable pub update_password : ℕ → ℕ → M User
unfolding update_user_row
update_password id hashed_password =
    update_user_row id (λ u. record u { password = some hashed_password })

unfoldable pub update_email_verified : ℕ → Bool → M User
unfolding update_user_row
update_email_verified id verified = update_user_row id (λ u. record u {
  email_verified = verified;
  status = if verified then active else UserStatus.pending;
})

unfoldable pub update_role : ℕ → UserRole → ℕ → M User
unfolding update_user_row
update_role id role now =
    update_user_row id (λ u. record u { role = role; onboarded_at = some now })

unfoldable pub email_exists : String → M Bool
email_exists email w =
    (w, ok (any_where (λ u. str_eq u.email email && is_none u.deleted_at) w.users))

unfoldable pub username_exists : String → M Bool
username_exists username w =
    (w, ok (any_where (λ u. str_eq u.username username && is_none u.deleted_at) w.users))
