-- ===== src/Market/OtherJobs.antt =====
-- What a handyman's methods leave alone: the requests that are assigned to others, or to nobody.
use fetchit_be.Base.{
  ℕ, Bool, true, Option, none, some, List, ◌==◌, ◌≡◌, ◌≢◌, inl, inr, refl, sym, ap, ◌∙◌, subst,
  arith, find_where, eq_of_==, Option-cases, Bool-cases, is_id,
}
use fetchit_be.Schema.{
  ServiceRequest, ServiceRequestStatus, is_assigned, is_in_progress, opened, in_progress,
  awaiting_confirmation, Application, HandymanProfile,
}
use fetchit_be.World.{
  World, ok, request_has, find_request, find_application, find_profile_by_user, ◌>>=◌, pure,
  find_existing, services_category,
}
use fetchit_be.Market.Handyman.{
  ApplyServiceRequestDto, ApplySnapshot, JobSnapshot, own_profile, assigned_request,
  apply_to_request, apply_check, apply_commit, withdraw_application, withdraw_check, start_request,
  start_check, cancel_assigned_request, unassign_check, complete_request, complete_check,
}
use fetchit_be.Market.Effects.{
  apply_effect, revive_effect, withdraw_effect, start_effect, unassign_effect, complete_effect,
}
use fetchit_be.Vetting.Writes.{after_check}
use fetchit_be.Market.Others.{Keeps, find_where-update_where_other}

is_id-some : (o : Option ℕ) (n : ℕ) → is_id o n ≡ true → o ≡ some n
is_id-some none n h = absurd (cc)
is_id-some (some m) n h = ap some (eq_of_== m n h)

module _ (key : ℕ) (r : ServiceRequest) (user_id : ℕ) (w : World) (before : Keeps key r w)
    (p : HandymanProfile) (own : find_where (λ q. q.user_id == user_id) w.profiles ≡ some p)
    (other : r.assigned_handyman_id ≢ some p.id) where
  abbrev Still : List ServiceRequest → List Application → Type 0
  Still requests applications = find_where (request_has key) requests ≡ some r

  -- A job that passes the check of its assignment is another one.
  assigned-other :
      (id : ℕ) (wanted : ServiceRequestStatus → Bool) (target : ServiceRequestStatus)
      (seen : JobSnapshot)
      → ((do
        profile ← own_profile user_id
        q ← assigned_request profile id wanted target
        pure (record { profile = profile; job = q }))
          w).1
        ≡ ok seen
      → id ≢ key
  unfolding own_profile find_profile_by_user assigned_request find_request
  assigned-other id wanted target seen h same =
      let at : find_where (request_has id) w.requests ≡ some r =
        ap (λ k. find_where (request_has k) w.requests) same ∙ before in
      elim (Bool-cases (is_id r.assigned_handyman_id p.id)) [
        | inl t ↦ other (is_id-some r.assigned_handyman_id p.id t)
        | inr f ↦ absurd (ground arith)
      ]

  apply_check_state : (id : ℕ) → (apply_check user_id id w).0 ≡ w
  unfolding apply_check own_profile find_profile_by_user find_request services_category
      find_existing
  apply_check_state id = ground arith

  apply_commit-Keeps :
      (new_id id : ℕ) (seen : ApplySnapshot) (dto : ApplyServiceRequestDto)
      → Keeps key r (apply_commit new_id id seen dto w).0
  apply_commit-Keeps new_id id seen dto = elim (Option-cases seen.existing) [
    | inl e ↦
        subst (λ o. Keeps key r (apply_commit new_id id (record seen { existing = o }) dto w).0)
          (sym e) (apply_effect Still w new_id id seen.profile_id dto before (λ a b c d. before))
    | inr (old, e) ↦
        subst (λ o. Keeps key r (apply_commit new_id id (record seen { existing = o }) dto w).0)
          (sym e) (revive_effect Still w new_id id seen.profile_id old dto before (λ a. before))
  ]

  pub apply_to_request-Keeps :
      (new_id id : ℕ) (dto : ApplyServiceRequestDto)
      → Keeps key r (apply_to_request new_id user_id id dto w).0
  unfolding apply_to_request
  apply_to_request-Keeps new_id id dto =
      after_check (Keeps key r) (apply_check user_id id) _ w (apply_check_state id) before
        (λ seen h. apply_commit-Keeps new_id id seen dto)

  withdraw_check_state : (app_id : ℕ) → (withdraw_check user_id app_id w).0 ≡ w
  unfolding withdraw_check own_profile find_profile_by_user find_application
  withdraw_check_state app_id = ground arith

  pub withdraw_application-Keeps :
      (app_id : ℕ) → Keeps key r (withdraw_application user_id app_id w).0
  unfolding withdraw_application
  withdraw_application-Keeps app_id =
      after_check (Keeps key r) (withdraw_check user_id app_id) _ w (withdraw_check_state app_id)
        before (λ a h. withdraw_effect Still w app_id before)

  start_check_state : (id : ℕ) → (start_check user_id id w).0 ≡ w
  unfolding start_check own_profile find_profile_by_user assigned_request find_request
  start_check_state id = ground arith

  pub start_request-Keeps : (id : ℕ) → Keeps key r (start_request user_id id w).0
  unfolding start_request start_check
  start_request-Keeps id =
      after_check (Keeps key r) (start_check user_id id) _ w (start_check_state id) before
        (λ seen h. start_effect Still w id (
          find_where-update_where_other id key _ _ w.requests r (λ q. refl) (λ q t. ground arith)
            (assigned-other id is_assigned in_progress seen h) before))

  unassign_check_state : (id : ℕ) → (unassign_check user_id id w).0 ≡ w
  unfolding unassign_check own_profile find_profile_by_user assigned_request find_request
  unassign_check_state id = ground arith

  pub cancel_assigned_request-Keeps :
      (id : ℕ) → Keeps key r (cancel_assigned_request user_id id w).0
  unfolding cancel_assigned_request unassign_check
  cancel_assigned_request-Keeps id =
      after_check (Keeps key r) (unassign_check user_id id) _ w (unassign_check_state id) before
        (λ seen h. unassign_effect Still w id seen before (
          find_where-update_where_other id key _ _ w.requests r (λ q. refl) (λ q t. ground arith)
            (assigned-other id is_assigned opened seen h) before))

  complete_check_state : (id : ℕ) → (complete_check user_id id w).0 ≡ w
  unfolding complete_check own_profile find_profile_by_user assigned_request find_request
  complete_check_state id = ground arith

  pub complete_request-Keeps : (id : ℕ) → Keeps key r (complete_request user_id id w).0
  unfolding complete_request complete_check
  complete_request-Keeps id =
      after_check (Keeps key r) (complete_check user_id id) _ w (complete_check_state id) before
        (λ seen h. complete_effect Still w id seen (
          find_where-update_where_other id key _ _ w.requests r (λ q. refl) (λ q t. ground arith)
            (assigned-other id is_in_progress awaiting_confirmation seen h) before))
