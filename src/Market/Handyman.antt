-- ===== src/Market/Handyman.antt =====
-- src/modules/handyman/handyman.service.ts: how a handyman applies for requests and works on them.
-- `_check` is what a method reads first, `_commit` is its transaction and what follows.
use fetchit_be.Base.{ℕ, Bool, true, false, not, Option, none, some, ◌==◌, ◌&&◌, is_id, String}
use fetchit_be.Schema.{
  ServiceRequestStatus, opened, in_progress, awaiting_confirmation, cancelled, ServiceRequest,
  Application, ApplicationStatus, HandymanProfile, is_opened, is_assigned, is_in_progress,
  is_pending, is_accepted, is_withdrawn_or_rejected, is_verified, service_request, application,
  resource_not_found, service_request_not_open, service_request_status_changed,
  handyman_profile_not_found, handyman_not_verified, duplicate_application, category_not_serviced,
  application_not_withdrawable, invalid_transition, request, service_request_completion_submitted,
  service_request_unassigned,
}
use fetchit_be.World.{
  M, ◌>>=◌, ◌>>◌, pure, guard, or_throw, transaction, emit, find_request, find_request_or_throw,
  update_requests, find_application, find_application_or_throw, find_existing, update_applications,
  create_application, find_profile_by_user, services_category,
}

pub record ApplyServiceRequestDto : Type 0 where
  pub cover_message : Option String
  pub proposed_rate : Option ℕ

unfoldable pub own_profile : ℕ → M HandymanProfile
own_profile user_id = do
  found ← find_profile_by_user user_id
  or_throw found handyman_profile_not_found

-- What `applyToRequest` has read when its transaction begins.
pub record ApplySnapshot : Type 0 where
  pub profile_id : ℕ
  pub existing : Option Application

abbrev is_reusable : Option Application → Bool
is_reusable none = true
is_reusable (some a) = is_withdrawn_or_rejected a.status

unfoldable pub apply_check : ℕ → ℕ → M ApplySnapshot
unfolding own_profile
apply_check user_id request_id = do
  profile ← own_profile user_id
  guard (is_verified profile.verification_status) handyman_not_verified
  found ← find_request request_id
  r ← or_throw found (resource_not_found service_request request_id)
  guard (is_opened r.status) service_request_not_open
  serviced ← services_category profile.id r.category_id
  guard serviced category_not_serviced
  existing ← find_existing request_id profile.id
  guard (is_reusable existing) duplicate_application
  pure (record { profile_id = profile.id; existing = existing })

abbrev pub is_still_open : Option ServiceRequest → Bool
is_still_open none = false
is_still_open (some r) = is_opened r.status

-- The row that is written: the earlier application, made PENDING again, or a new one with key `id`.
unfoldable pub write_application :
    ℕ → ℕ → ℕ → Option Application → ApplyServiceRequestDto → M Application
write_application id request_id profile_id (some old) dto = do
  count ←
      update_applications (λ a. a.id == old.id && is_withdrawn_or_rejected a.status)
        (λ a. record a {
          status = ApplicationStatus.pending;
          cover_message = dto.cover_message;
          proposed_rate = dto.proposed_rate;
        })
  guard (not (count == 0)) duplicate_application
  find_application_or_throw old.id
write_application id request_id profile_id none dto = create_application (record {
  id = id;
  service_request_id = request_id;
  handyman_profile_id = profile_id;
  cover_message = dto.cover_message;
  proposed_rate = dto.proposed_rate;
  status = ApplicationStatus.pending;
})

-- The transaction first reads the request again, with no lock on its row.
unfoldable pub apply_recheck : ℕ → M (Unit {0})
apply_recheck request_id = do
  current ← find_request request_id
  guard (is_still_open current) service_request_not_open

-- What the transaction then writes; others may have committed since its read.
unfoldable pub apply_insert : ℕ → ℕ → ApplySnapshot → ApplyServiceRequestDto → M Application
unfolding write_application
apply_insert id request_id seen dto =
    transaction (write_application id request_id seen.profile_id seen.existing dto)

-- The transaction when no other commits between its read and its write.
unfoldable pub apply_transaction : ℕ → ℕ → ApplySnapshot → ApplyServiceRequestDto → M Application
unfolding write_application apply_recheck
apply_transaction id request_id seen dto = do
  apply_recheck request_id
  write_application id request_id seen.profile_id seen.existing dto

unfoldable pub apply_commit : ℕ → ℕ → ApplySnapshot → ApplyServiceRequestDto → M Application
apply_commit id request_id seen dto = transaction (apply_transaction id request_id seen dto)

unfoldable pub apply_to_request : ℕ → ℕ → ℕ → ApplyServiceRequestDto → M Application
unfolding apply_check apply_commit
apply_to_request id user_id request_id dto = do
  seen ← apply_check user_id request_id
  apply_commit id request_id seen dto

unfoldable pub withdraw_check : ℕ → ℕ → M Application
unfolding own_profile
withdraw_check user_id app_id = do
  profile ← own_profile user_id
  found ← find_application app_id
  app ← or_throw found (resource_not_found application app_id)
  guard (app.handyman_profile_id == profile.id) (resource_not_found application app_id)
  pure app

unfoldable pub withdraw_commit : ℕ → M Application
withdraw_commit app_id = do
  count ←
      update_applications (λ a. a.id == app_id && is_pending a.status)
        (λ a. record a { status = ApplicationStatus.withdrawn })
  guard (not (count == 0)) application_not_withdrawable
  find_application_or_throw app_id

unfoldable pub withdraw_application : ℕ → ℕ → M Application
unfolding withdraw_check withdraw_commit
withdraw_application user_id app_id = do app ← withdraw_check user_id app_id; withdraw_commit app_id

-- The request with this id, assigned to the caller and in the status that the method wants.
unfoldable pub assigned_request :
    HandymanProfile → ℕ → (ServiceRequestStatus → Bool) → ServiceRequestStatus → M ServiceRequest
assigned_request profile request_id wanted target = do
  found ← find_request request_id
  r ← or_throw found (resource_not_found service_request request_id)
  guard (is_id r.assigned_handyman_id profile.id) (resource_not_found service_request request_id)
  guard (wanted r.status) (invalid_transition (request r.status) (request target))
  pure r

-- What a method about an assigned job has read when its write begins.
pub record JobSnapshot : Type 0 where
  pub profile : HandymanProfile
  pub job : ServiceRequest

unfoldable pub start_check : ℕ → ℕ → M JobSnapshot
unfolding own_profile assigned_request
start_check user_id request_id = do
  profile ← own_profile user_id
  r ← assigned_request profile request_id is_assigned in_progress
  pure (record { profile = profile; job = r })

unfoldable pub start_commit : ℕ → M ServiceRequest
start_commit request_id = do
  count ←
      update_requests (λ r. r.id == request_id && is_assigned r.status)
        (λ r. record r { status = in_progress })
  guard (not (count == 0)) (invalid_transition (request cancelled) (request in_progress))
  find_request_or_throw request_id

unfoldable pub start_request : ℕ → ℕ → M ServiceRequest
unfolding start_check start_commit
start_request user_id request_id = do seen ← start_check user_id request_id; start_commit request_id

unfoldable pub unassign_check : ℕ → ℕ → M JobSnapshot
unfolding own_profile assigned_request
unassign_check user_id request_id = do
  profile ← own_profile user_id
  r ← assigned_request profile request_id is_assigned opened
  pure (record { profile = profile; job = r })

unfoldable pub unassign_transaction : ℕ → ℕ → M ServiceRequest
unassign_transaction request_id profile_id = do
  count ←
      update_requests (λ r. r.id == request_id && is_assigned r.status)
        (λ r. record r { status = opened; assigned_handyman_id = none })
  guard (not (count == 0)) service_request_status_changed
  withdrawn ←
      update_applications
        (λ a.
          a.service_request_id == request_id
          && a.handyman_profile_id == profile_id
          && is_accepted a.status)
        (λ a. record a { status = ApplicationStatus.withdrawn })
  find_request_or_throw request_id

unfoldable pub unassign_commit : ℕ → JobSnapshot → M ServiceRequest
unassign_commit request_id seen = do
  updated_request ← transaction (unassign_transaction request_id seen.profile.id)
  emit (service_request_unassigned request_id seen.job.customer_id seen.profile.id)
  pure updated_request

unfoldable pub cancel_assigned_request : ℕ → ℕ → M ServiceRequest
unfolding unassign_check unassign_commit
cancel_assigned_request user_id request_id = do
  seen ← unassign_check user_id request_id
  unassign_commit request_id seen

unfoldable pub complete_check : ℕ → ℕ → M JobSnapshot
unfolding own_profile assigned_request
complete_check user_id request_id = do
  profile ← own_profile user_id
  r ← assigned_request profile request_id is_in_progress awaiting_confirmation
  pure (record { profile = profile; job = r })

unfoldable pub complete_commit : ℕ → JobSnapshot → M ServiceRequest
complete_commit request_id seen = do
  count ←
      update_requests (λ r. r.id == request_id && is_in_progress r.status)
        (λ r. record r { status = awaiting_confirmation })
  guard (not (count == 0))
      (invalid_transition (request seen.job.status) (request awaiting_confirmation))
  updated_request ← find_request_or_throw request_id
  emit (service_request_completion_submitted request_id seen.profile.id seen.job.customer_id)
  pure updated_request

unfoldable pub complete_request : ℕ → ℕ → M ServiceRequest
unfolding complete_check complete_commit
complete_request user_id request_id = do
  seen ← complete_check user_id request_id
  complete_commit request_id seen
