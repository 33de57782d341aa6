-- ===== src/Market/Effects.antt =====
-- What each write of the marketplace does to the two tables, whatever was read before it: nothing,
-- or the tables that its lemma names.
use fetchit_be.Base.{
  ℕ, ◌≡◌, ◌≢◌, ◌&&◌, ◌==◌, not, some, none, List, ◌∷◌, arith, update_where, count_where, any_where,
  find_where, true, false,
}
use fetchit_be.Schema.{
  ServiceRequest, RequestDetails, Application, ApplicationStatus, is_opened, is_assigned,
  is_in_progress, is_awaiting_confirmation, is_pending, is_accepted, is_pending_or_accepted,
  is_withdrawn_or_rejected, same_status, opened, assigned, in_progress, awaiting_confirmation,
  completed, cancelled,
}
use fetchit_be.World.{
  World, update_requests, update_applications, find_request, find_request_or_throw,
  find_application_or_throw, create_request, create_application, request_has, application_has,
  is_between,
}
use fetchit_be.Market.Customer.{
  CreateServiceRequestDto, create, update_commit, accept_commit, accept_transaction,
  cancel_transaction, cancel_commit, reject_commit, confirm_commit,
}
use fetchit_be.Market.Handyman.{
  ApplyServiceRequestDto, JobSnapshot, is_still_open, apply_transaction, apply_commit, apply_insert,
  withdraw_commit, start_commit, unassign_transaction, unassign_commit, complete_commit,
}

-- The rows that `updateMany` writes, by what it is asked to match.
module _ (id : ℕ) where
  abbrev pub assign_rows : ℕ → List ServiceRequest → List ServiceRequest
  assign_rows profile_id =
      update_where (λ r. r.id == id && is_opened r.status)
        (λ r. record r { status = assigned; assigned_handyman_id = some profile_id })

  abbrev pub accept_rows : List Application → List Application
  accept_rows =
      update_where (λ a. a.id == id && is_pending a.status)
        (λ a. record a { status = ApplicationStatus.accepted })

  abbrev pub reject_others : ℕ → List Application → List Application
  reject_others app_id =
      update_where (λ a. a.service_request_id == id && is_pending a.status && not (a.id == app_id))
        (λ a. record a { status = ApplicationStatus.rejected })

  abbrev pub cancel_rows : ServiceRequest → ℕ → List ServiceRequest → List ServiceRequest
  cancel_rows seen now =
      update_where (λ r. r.id == id && same_status r.status seen.status)
        (λ r. record r { status = cancelled; cancelled_at = some now })

  abbrev pub sweep_rows : List Application → List Application
  sweep_rows =
      update_where (λ a. a.service_request_id == id && is_pending_or_accepted a.status)
        (λ a. record a { status = ApplicationStatus.rejected })

  abbrev pub reject_rows : List Application → List Application
  reject_rows =
      update_where (λ a. a.id == id && is_pending a.status)
        (λ a. record a { status = ApplicationStatus.rejected })

  abbrev pub withdraw_rows : List Application → List Application
  withdraw_rows =
      update_where (λ a. a.id == id && is_pending a.status)
        (λ a. record a { status = ApplicationStatus.withdrawn })

  abbrev pub revive_rows : ApplyServiceRequestDto → List Application → List Application
  revive_rows dto =
      update_where (λ a. a.id == id && is_withdrawn_or_rejected a.status)
        (λ a. record a {
          status = ApplicationStatus.pending;
          cover_message = dto.cover_message;
          proposed_rate = dto.proposed_rate;
        })

  abbrev pub complete_rows : ℕ → List ServiceRequest → List ServiceRequest
  complete_rows now =
      update_where (λ r. r.id == id && is_awaiting_confirmation r.status)
        (λ r. record r { status = completed; completed_at = some now })

  abbrev pub start_rows : List ServiceRequest → List ServiceRequest
  start_rows =
      update_where (λ r. r.id == id && is_assigned r.status)
        (λ r. record r { status = in_progress })

  abbrev pub reopen_rows : List ServiceRequest → List ServiceRequest
  reopen_rows =
      update_where (λ r. r.id == id && is_assigned r.status)
        (λ r. record r { status = opened; assigned_handyman_id = none })

  abbrev pub unaccept_rows : ℕ → List Application → List Application
  unaccept_rows profile_id =
      update_where
        (λ a.
          a.service_request_id == id && a.handyman_profile_id == profile_id && is_accepted a.status)
        (λ a. record a { status = ApplicationStatus.withdrawn })

  abbrev pub finish_rows : List ServiceRequest → List ServiceRequest
  finish_rows =
      update_where (λ r. r.id == id && is_in_progress r.status)
        (λ r. record r { status = awaiting_confirmation })

  abbrev pub edit_rows :
      (RequestDetails → RequestDetails) → List ServiceRequest → List ServiceRequest
  edit_rows dto = update_where (request_has id) (λ r. record r { details = dto r.details })

abbrev pub new_request : ℕ → ℕ → CreateServiceRequestDto → ServiceRequest
new_request id user_id dto = record {
  id = id;
  customer_id = user_id;
  category_id = dto.category_id;
  details = dto.details;
  status = opened;
  assigned_handyman_id = none;
  completed_at = none;
  cancelled_at = none;
}

abbrev pub new_application : ℕ → ℕ → ℕ → ApplyServiceRequestDto → Application
new_application id request_id profile_id dto = record {
  id = id;
  service_request_id = request_id;
  handyman_profile_id = profile_id;
  cover_message = dto.cover_message;
  proposed_rate = dto.proposed_rate;
  status = ApplicationStatus.pending;
}

module _ (P : List ServiceRequest → List Application → Type 0) (w : World) where
  abbrev pub Holds : World → Type 0
  Holds v = P v.requests v.applications

  pub create_effect :
      (id user_id : ℕ) (dto : CreateServiceRequestDto)
      → Holds w
      → (any_where (request_has id) w.requests ≡ false
          → P (new_request id user_id dto ∷ w.requests) w.applications)
      → Holds (create id user_id dto w).0
  unfolding create create_request
  create_effect id user_id dto same done = ground arith

  pub update_effect :
      (id : ℕ) (dto : RequestDetails → RequestDetails)
      → P (edit_rows id dto w.requests) w.applications
      → Holds (update_commit id dto w).0
  unfolding update_commit update_requests find_request_or_throw
  update_effect id dto done = ground arith

  pub accept_effect :
      (request_id app_id user_id : ℕ) (app : Application)
      → Holds w
      → (count_where (λ r. r.id == request_id && is_opened r.status) w.requests ≢ 0
          → count_where (λ a. a.id == app_id && is_pending a.status) w.applications ≢ 0
          → P
              (assign_rows request_id app.handyman_profile_id w.requests)
              (reject_others request_id app_id (accept_rows app_id w.applications)))
      → Holds (accept_commit request_id app_id user_id app w).0
  unfolding accept_commit accept_transaction update_requests update_applications
      find_request_or_throw
  accept_effect request_id app_id user_id app same done = ground arith

  pub cancel_effect :
      (id : ℕ) (seen : ServiceRequest) (user_id now : ℕ)
      → Holds w
      → P (cancel_rows id seen now w.requests) (sweep_rows id w.applications)
      → Holds (cancel_commit id seen user_id now w).0
  unfolding cancel_commit cancel_transaction update_requests update_applications
      find_request_or_throw
  cancel_effect id seen user_id now same done = ground arith

  pub reject_effect :
      (app_id : ℕ)
      → P w.requests (reject_rows app_id w.applications)
      → Holds (reject_commit app_id w).0
  unfolding reject_commit update_applications find_application_or_throw
  reject_effect app_id done = ground arith

  pub confirm_effect :
      (id : ℕ) (seen : ServiceRequest) (user_id now : ℕ)
      → P (complete_rows id now w.requests) w.applications
      → Holds (confirm_commit id seen user_id now w).0
  unfolding confirm_commit update_requests find_request_or_throw
  confirm_effect id seen user_id now done = ground arith

  pub revive_effect :
      (id request_id profile_id : ℕ) (old : Application) (dto : ApplyServiceRequestDto)
      → Holds w
      → (is_still_open (find_where (request_has request_id) w.requests) ≡ true
          → P w.requests (revive_rows old.id dto w.applications))
      → Holds
          (apply_commit id request_id
            (record { profile_id = profile_id; existing = some old })
            dto
            w).0
  unfolding apply_commit apply_transaction update_applications find_application_or_throw
      find_request
  revive_effect id request_id profile_id old dto same done = ground arith

  pub apply_effect :
      (id request_id profile_id : ℕ) (dto : ApplyServiceRequestDto)
      → Holds w
      → (is_still_open (find_where (request_has request_id) w.requests) ≡ true
          → any_where (request_has request_id) w.requests ≡ true
          → any_where (application_has id) w.applications ≡ false
          → any_where (is_between request_id profile_id) w.applications ≡ false
          → P w.requests (new_application id request_id profile_id dto ∷ w.applications))
      → Holds
          (apply_commit id request_id (record { profile_id = profile_id; existing = none }) dto w).0
  unfolding apply_commit apply_transaction create_application find_request
  apply_effect id request_id profile_id dto same done = ground arith

  pub revive_insert_effect :
      (id request_id profile_id : ℕ) (old : Application) (dto : ApplyServiceRequestDto)
      → Holds w
      → P w.requests (revive_rows old.id dto w.applications)
      → Holds
          (apply_insert id request_id
            (record { profile_id = profile_id; existing = some old })
            dto
            w).0
  unfolding apply_insert update_applications find_application_or_throw
  revive_insert_effect id request_id profile_id old dto same done = ground arith

  pub insert_effect :
      (id request_id profile_id : ℕ) (dto : ApplyServiceRequestDto)
      → Holds w
      → (any_where (request_has request_id) w.requests ≡ true
          → any_where (application_has id) w.applications ≡ false
          → any_where (is_between request_id profile_id) w.applications ≡ false
          → P w.requests (new_application id request_id profile_id dto ∷ w.applications))
      → Holds
          (apply_insert id request_id (record { profile_id = profile_id; existing = none }) dto w).0
  unfolding apply_insert create_application
  insert_effect id request_id profile_id dto same done = ground arith

  pub withdraw_effect :
      (app_id : ℕ)
      → P w.requests (withdraw_rows app_id w.applications)
      → Holds (withdraw_commit app_id w).0
  unfolding withdraw_commit update_applications find_application_or_throw
  withdraw_effect app_id done = ground arith

  pub start_effect :
      (id : ℕ) → P (start_rows id w.requests) w.applications → Holds (start_commit id w).0
  unfolding start_commit update_requests find_request_or_throw
  start_effect id done = ground arith

  pub unassign_effect :
      (id : ℕ) (seen : JobSnapshot)
      → Holds w
      → P (reopen_rows id w.requests) (unaccept_rows id seen.profile.id w.applications)
      → Holds (unassign_commit id seen w).0
  unfolding unassign_commit unassign_transaction update_requests update_applications
      find_request_or_throw
  unassign_effect id seen same done = ground arith

  pub complete_effect :
      (id : ℕ) (seen : JobSnapshot)
      → P (finish_rows id w.requests) w.applications
      → Holds (complete_commit id seen w).0
  unfolding complete_commit update_requests find_request_or_throw
  complete_effect id seen done = ground arith
