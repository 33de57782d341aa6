-- ===== src/Api/Privilege.antt =====
-- What the users' routes cannot do: make an administrator.
use fetchit_be.Base.{
  ℕ, Bool, true, false, not, Option, none, some, List, [], ◌∷◌, ◌==◌, ◌&&◌, ◌||◌, ◌≡◌, refl, arith,
  any_where, update_where, find_where, is_none, Bool-cases, inl, inr,
}
use fetchit_be.Schema.{
  User, UserRole, is_admin, admin, customer, personal_shopper, handyman, bad_request, forbidden,
  user_not_found, email_not_verified,
}
use fetchit_be.World.{World}
use fetchit_be.Auth.Sessions.{find_user, is_live}
use fetchit_be.Auth.Access.{RequestUser, request_user}
use fetchit_be.Users.Repository.{update_user_row, update_role, soft_delete}
use fetchit_be.Users.Service
use fetchit_be.Users.Service.{UpdateUserDto, updated_by}
use fetchit_be.Api.Users.{
  UserRoute, list_users, get_me, choose_role, get_user, update_me, update_user, remove_user,
  is_onboardable, one_user, nothing, user_response, user_roles, run_user_route, users_controller,
  find_all_users,
}
use fetchit_be.Api.Separate.{reply-Keeps, protected-Keeps}
use fetchit_be.Vetting.Writes.{after_guard, after_or_throw, and_then}

abbrev pub is_admin_row : ℕ → User → Bool
is_admin_row id u = u.id == id && is_admin u.role

abbrev pub has_admin : ℕ → World → Bool
has_admin id w = any_where (is_admin_row id) w.users

-- A write that makes no administrator of a row.
update_where-admins :
    (id : ℕ) (test : User → Bool) (f : User → User) (rows : List User)
    → ((u : User) → (not (is_admin_row id (f u)) || is_admin_row id u) ≡ true)
    → (not (any_where (is_admin_row id) (update_where test f rows))
        || any_where (is_admin_row id) rows)
      ≡ true
unfolding any_where update_where
update_where-admins id test f [] h = refl
update_where-admins id test f (u ∷ rows) h =
    let here = h u in let rest = update_where-admins id test f rows h in ground arith

unchanged : (a b : Bool) → (not (a && b) || a && b) ≡ true
unchanged a b = ground arith

onboardable : (role : UserRole) → is_onboardable role ≡ true → is_admin role ≡ false
onboardable admin h = absurd (cc)
onboardable customer h = refl
onboardable personal_shopper h = refl
onboardable handyman h = refl

module _ (id : ℕ) (w : World) where
  -- Who is an administrator in a later state was one before.
  abbrev Admins : World → Type 0
  Admins v = (not (has_admin id v) || has_admin id w) ≡ true

  same : Admins w
  same = elim (Bool-cases (has_admin id w)) [ inl e ↦ rw e refl | inr e ↦ rw e refl ]

  update_user_row-Admins :
      (user_id : ℕ) (f : User → User)
      → ((u : User) → (not (is_admin_row id (f u)) || is_admin_row id u) ≡ true)
      → Admins (update_user_row user_id f w).0
  unfolding update_user_row
  update_user_row-Admins user_id f h =
      let written = update_where-admins id (λ v. v.id == user_id) f w.users h in
      let kept = same in ground arith

  find_one-Admins : (user_id : ℕ) → Admins (Service.find_one user_id w).0
  unfolding Service.find_one find_user
  find_one-Admins user_id = let kept = same in ground arith

  update-Admins : (user_id : ℕ) (dto : UpdateUserDto) → Admins (Service.update user_id dto w).0
  unfolding Service.update find_user
  update-Admins user_id dto =
      after_or_throw Admins (find_where (is_live user_id) w.users) user_not_found _ w same (λ u e.
        update_user_row-Admins user_id (updated_by dto)
          (λ v. unchanged (v.id == id) (is_admin v.role)))

  onboard-Admins :
      (user_id : ℕ) (role : UserRole) (now : ℕ)
      → is_onboardable role ≡ true
      → Admins (Service.onboard user_id role now w).0
  unfolding Service.onboard find_user update_role
  onboard-Admins user_id role now h =
      after_or_throw Admins (find_where (is_live user_id) w.users) user_not_found _ w same (λ u e.
        after_guard Admins u.email_verified email_not_verified _ w same (λ v.
          after_guard Admins (not (is_admin u.role)) forbidden _ w same (λ a.
            after_guard Admins (is_none u.onboarded_at) forbidden _ w same (λ n.
              update_user_row-Admins user_id
                (λ x. record x { role = role; onboarded_at = some now })
                (λ x. let low = onboardable role h in ground arith)))))

  remove-Admins : (user_id now : ℕ) → Admins (Service.remove user_id false now w).0
  unfolding Service.remove find_user soft_delete
  remove-Admins user_id now =
      after_or_throw Admins (find_where (is_live user_id) w.users) user_not_found _ w same (λ u e.
        and_then Admins (soft_delete user_id now) _ w
          (update_user_row-Admins user_id (λ x. record x { deleted_at = some now })
            (λ v. unchanged (v.id == id) (is_admin v.role)))
          (λ x v h. h))

-- No request to the users' routes makes an administrator, whatever its body and whoever makes it: a
-- user who is one afterwards was one before.
pub users_controller-no_new_admin :
    (route : UserRoute) (token : Option ℕ) (w : World) (id : ℕ)
    → any_where (is_admin_row id) (users_controller route token w).0.users ≡ true
    → any_where (is_admin_row id) w.users ≡ true
unfolding users_controller run_user_route find_all_users
users_controller-no_new_admin route token w id h =
    let kept =
      protected-Keeps (Admins id w) (user_roles route) token (run_user_route route) w (same id w)
        (λ user caller. by_route route (request_user user)) in
    ground arith
  where
    by_route :
        (route : UserRoute) (user : RequestUser) → Admins id w (run_user_route route user w).0
    by_route (list_users order dto) user = same id w
    by_route get_me user =
        reply-Keeps (Admins id w) _ (λ u. one_user (user_response u)) (Service.find_one user.id) w
          (find_one-Admins id w user.id)
    by_route (choose_role role now) user =
        after_guard (Admins id w) (is_onboardable role) bad_request _ w (same id w) (λ h.
          reply-Keeps (Admins id w) _ (λ u. one_user (user_response u))
            (Service.onboard user.id role now) w (onboard-Admins id w user.id role now h))
    by_route (get_user other) user =
        reply-Keeps (Admins id w) _ (λ u. one_user (user_response u)) (Service.find_one other) w
          (find_one-Admins id w other)
    by_route (update_me dto) user =
        reply-Keeps (Admins id w) _ (λ u. one_user (user_response u))
          (Service.update user.id (record dto { status = none })) w
          (update-Admins id w user.id (record dto { status = none }))
    by_route (update_user other dto) user =
        reply-Keeps (Admins id w) _ (λ u. one_user (user_response u)) (Service.update other dto) w
          (update-Admins id w other dto)
    by_route (remove_user other now) user =
        after_guard (Admins id w) (not (user.id == other)) forbidden _ w (same id w) (λ h.
          reply-Keeps (Admins id w) _ nothing (Service.remove other false now) w
            (remove-Admins id w other now))
