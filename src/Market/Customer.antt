-- ===== src/Market/Customer.antt =====
-- src/modules/service-requests/service-requests.service.ts: what a customer does.
-- A method that changes a request is split where the source says that others may act: `_check` is
-- what it reads first, `_commit` is its transaction and what follows.
use fetchit_be.Base.{ℕ, Bool, not, Option, none, some, ◌==◌, ◌&&◌, ◌||◌, is_id, List, filter_where}
use fetchit_be.Schema.{
  opened, assigned, completed, cancelled, ServiceRequest, RequestDetails, Application,
  ApplicationStatus, UserRole, HandymanProfile, is_opened, is_assigned, is_awaiting_confirmation,
  same_status, is_pending, is_pending_or_accepted, is_admin, service_request, application,
  resource_not_found, forbidden, service_request_not_open, application_not_pending,
  service_request_status_changed, service_request_created, service_request_assigned,
  service_request_completed, service_request_cancelled,
}
use fetchit_be.World.{
  M, ◌>>=◌, ◌>>◌, pure, guard, or_throw, transaction, emit, request_has, find_request,
  find_request_or_throw, update_requests, create_request, find_application,
  find_application_or_throw, update_applications, ok, find_profile,
}

pub record CreateServiceRequestDto : Type 0 where
  pub category_id : ℕ
  pub details : RequestDetails

-- `id` is the row's fresh primary key.
unfoldable pub create : ℕ → ℕ → CreateServiceRequestDto → M ServiceRequest
create id user_id dto = do
  request ← create_request (record {
    id = id;
    customer_id = user_id;
    category_id = dto.category_id;
    details = dto.details;
    status = opened;
    assigned_handyman_id = none;
    completed_at = none;
    cancelled_at = none;
  })
  emit (service_request_created request.id user_id dto.category_id dto.details.title)
  pure request

-- Is the caller the customer, the assigned handyman, or an admin?
unfoldable pub is_visible : ServiceRequest → Option HandymanProfile → ℕ → UserRole → Bool
is_visible request assigned_handyman user_id user_role =
    request.customer_id == user_id
    || is_id (handyman_user assigned_handyman) user_id
    || is_admin user_role
  where
    handyman_user : Option HandymanProfile → Option ℕ
    handyman_user none = none
    handyman_user (some p) = some p.user_id

unfoldable pub find_assigned : Option ℕ → M (Option HandymanProfile)
find_assigned none = pure none
find_assigned (some id) = find_profile id

unfoldable pub find_one : ℕ → ℕ → UserRole → M ServiceRequest
unfolding is_visible find_assigned
find_one id user_id user_role = do
  found ← find_request id
  request ← or_throw found (resource_not_found service_request id)
  assigned_handyman ← find_assigned request.assigned_handyman_id
  guard (is_visible request assigned_handyman user_id user_role) forbidden
  pure request

-- The checks with which each method of a customer begins.
unfoldable pub own_request : ℕ → ℕ → M ServiceRequest
own_request id user_id = do
  found ← find_request id
  request ← or_throw found (resource_not_found service_request id)
  guard (request.customer_id == user_id) forbidden
  pure request

unfoldable pub update_check : ℕ → ℕ → M ServiceRequest
unfolding own_request
update_check id user_id = do
  request ← own_request id user_id
  guard (is_opened request.status) service_request_not_open
  pure request

-- `requestRepo.update`: the DTO holds no status and no assignment.
unfoldable pub update_commit : ℕ → (RequestDetails → RequestDetails) → M ServiceRequest
update_commit id dto = do
  n ← update_requests (request_has id) (λ r. record r { details = dto r.details })
  find_request_or_throw id

unfoldable pub update : ℕ → ℕ → (RequestDetails → RequestDetails) → M ServiceRequest
unfolding update_check update_commit
update id user_id dto = do request ← update_check id user_id; update_commit id dto

unfoldable pub cancel_check : ℕ → ℕ → M ServiceRequest
unfolding own_request
cancel_check id user_id = do
  request ← own_request id user_id
  guard (is_opened request.status || is_assigned request.status) forbidden
  pure request

unfoldable pub cancel_transaction : ℕ → ServiceRequest → ℕ → M ServiceRequest
cancel_transaction id request now = do
  count ←
      update_requests (λ r. r.id == id && same_status r.status request.status)
        (λ r. record r { status = cancelled; cancelled_at = some now })
  guard (not (count == 0)) service_request_status_changed
  swept ←
      update_applications (λ a. a.service_request_id == id && is_pending_or_accepted a.status)
        (λ a. record a { status = ApplicationStatus.rejected })
  find_request_or_throw id

unfoldable pub cancel_commit : ℕ → ServiceRequest → ℕ → ℕ → M ServiceRequest
cancel_commit id request user_id now = do
  cancelled_request ← transaction (cancel_transaction id request now)
  emit (service_request_cancelled id user_id cancelled_request.assigned_handyman_id)
  pure cancelled_request

unfoldable pub cancel : ℕ → ℕ → ℕ → M ServiceRequest
unfolding cancel_check cancel_commit
cancel id user_id now = do request ← cancel_check id user_id; cancel_commit id request user_id now

unfoldable pub get_applications : ℕ → ℕ → M (List Application)
unfolding own_request
get_applications request_id user_id = do
  request ← own_request request_id user_id
  λ w. (w, ok (filter_where (λ a. a.service_request_id == request_id) w.applications))

-- The application of this request; one of another request is reported as missing.
unfoldable pub own_application : ℕ → ℕ → M Application
own_application request_id app_id = do
  found ← find_application app_id
  app ← or_throw found (resource_not_found application app_id)
  guard (app.service_request_id == request_id) (resource_not_found application app_id)
  pure app

unfoldable pub accept_check : ℕ → ℕ → ℕ → M Application
unfolding own_request own_application
accept_check request_id app_id user_id = do
  request ← own_request request_id user_id
  guard (is_opened request.status) service_request_not_open
  app ← own_application request_id app_id
  guard (is_pending app.status) application_not_pending
  pure app

unfoldable pub accept_transaction : ℕ → ℕ → ℕ → M ServiceRequest
accept_transaction request_id app_id profile_id = do
  count ←
      update_requests (λ r. r.id == request_id && is_opened r.status)
        (λ r. record r { status = assigned; assigned_handyman_id = some profile_id })
  guard (not (count == 0)) service_request_not_open
  app_count ←
      update_applications (λ a. a.id == app_id && is_pending a.status)
        (λ a. record a { status = ApplicationStatus.accepted })
  guard (not (app_count == 0)) application_not_pending
  others ←
      update_applications
        (λ a. a.service_request_id == request_id && is_pending a.status && not (a.id == app_id))
        (λ a. record a { status = ApplicationStatus.rejected })
  find_request_or_throw request_id

unfoldable pub accept_commit : ℕ → ℕ → ℕ → Application → M ServiceRequest
accept_commit request_id app_id user_id app = do
  updated_request ← transaction (accept_transaction request_id app_id app.handyman_profile_id)
  emit (service_request_assigned request_id app.handyman_profile_id user_id)
  pure updated_request

unfoldable pub accept_application : ℕ → ℕ → ℕ → M ServiceRequest
unfolding accept_check accept_commit
accept_application request_id app_id user_id = do
  app ← accept_check request_id app_id user_id
  accept_commit request_id app_id user_id app

unfoldable pub reject_check : ℕ → ℕ → ℕ → M Application
unfolding own_request own_application
reject_check request_id app_id user_id = do
  request ← own_request request_id user_id
  app ← own_application request_id app_id
  guard (is_opened request.status) service_request_not_open
  guard (is_pending app.status) application_not_pending
  pure app

unfoldable pub reject_commit : ℕ → M Application
reject_commit app_id = do
  count ←
      update_applications (λ a. a.id == app_id && is_pending a.status)
        (λ a. record a { status = ApplicationStatus.rejected })
  guard (not (count == 0)) application_not_pending
  find_application_or_throw app_id

unfoldable pub reject_application : ℕ → ℕ → ℕ → M Application
unfolding reject_check reject_commit
reject_application request_id app_id user_id = do
  app ← reject_check request_id app_id user_id
  reject_commit app_id

unfoldable pub confirm_check : ℕ → ℕ → M ServiceRequest
unfolding own_request
confirm_check request_id user_id = do
  request ← own_request request_id user_id
  guard (is_awaiting_confirmation request.status) forbidden
  pure request

unfoldable pub confirm_commit : ℕ → ServiceRequest → ℕ → ℕ → M ServiceRequest
confirm_commit request_id request user_id now = do
  count ←
      update_requests (λ r. r.id == request_id && is_awaiting_confirmation r.status)
        (λ r. record r { status = completed; completed_at = some now })
  guard (not (count == 0)) forbidden
  updated_request ← find_request_or_throw request_id
  emit (service_request_completed request_id request.assigned_handyman_id user_id)
  pure updated_request

unfoldable pub confirm_completion : ℕ → ℕ → ℕ → M ServiceRequest
unfolding confirm_check confirm_commit
confirm_completion request_id user_id now = do
  request ← confirm_check request_id user_id
  confirm_commit request_id request user_id now
