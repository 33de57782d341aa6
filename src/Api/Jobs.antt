-- ===== src/Api/Jobs.antt =====
-- What the handymen's routes leave alone: the requests that are assigned to others, or to nobody.
use fetchit_be.Base.{ℕ, Option, some, ◌==◌, ◌≡◌, ◌≢◌, subst, find_where, Bool-cases, inl, inr}
use fetchit_be.Schema.{ServiceRequest, HandymanProfile, is_verified}
use fetchit_be.World.{World, request_has, find_profile_by_user}
use fetchit_be.Auth.Access.{RequestUser, request_user}
use fetchit_be.Vetting.Profile.{get_or_create}
use fetchit_be.Listing.{PaginationDto}
use fetchit_be.Listing.Requests.{
  RequestProgress, get_service_requests, browse_open_requests, get_own_applications,
}
use fetchit_be.Market.Handyman
use fetchit_be.Market.Others.{Keeps}
use fetchit_be.Market.OtherJobs.{
  apply_to_request-Keeps, withdraw_application-Keeps, start_request-Keeps,
  cancel_assigned_request-Keeps, complete_request-Keeps,
}
use fetchit_be.Api.Handymen.{
  JobRoute, assigned_requests, browse, apply, own_applications, withdraw, start, cancel_assigned,
  complete, assigned_page, open_page, applications, one_application, one_request, run_job_route,
  handyman_job_controller,
}
use fetchit_be.Vetting.Writes.{and_then}
use fetchit_be.Api.Separate.{reply-Keeps, protected-Keeps}

module _ (key : ℕ) (r : ServiceRequest) (user_id : ℕ) (w : World) (before : Keeps key r w)
    (p : HandymanProfile) (own : find_where (λ q. q.user_id == user_id) w.profiles ≡ some p) where
  get_or_create-Keeps : (id : ℕ) → Keeps key r (get_or_create id user_id w).0
  unfolding get_or_create
  get_or_create-Keeps id = rw (get_or_create, own) before

  get_service_requests-Keeps :
      (id : ℕ) (query : PaginationDto) (filter : Option RequestProgress)
      → Keeps key r (get_service_requests id user_id query filter w).0
  unfolding get_service_requests
  get_service_requests-Keeps id query filter =
      and_then (Keeps key r) (get_or_create id user_id) _ w (get_or_create-Keeps id) (λ q v h. h)

  get_own_applications-Keeps : (id : ℕ) → Keeps key r (get_own_applications id user_id w).0
  unfolding get_own_applications
  get_own_applications-Keeps id =
      and_then (Keeps key r) (get_or_create id user_id) _ w (get_or_create-Keeps id) (λ q v h. h)

  browse_open_requests-Keeps :
      (pagination : PaginationDto) → Keeps key r (browse_open_requests user_id pagination w).0
  unfolding browse_open_requests find_profile_by_user
  browse_open_requests-Keeps pagination = elim (Bool-cases (is_verified p.verification_status)) [
    | inl v ↦ rw (own, v) before
    | inr v ↦ rw (own, v) before
  ]

-- A request to the handymen's routes about jobs leaves every service request as it was that is not
-- assigned to the profile of the caller, be it open, of another handyman or over.
pub handyman_job_controller-others :
    (route : JobRoute) (sub : ℕ) (w : World) (key : ℕ) (r : ServiceRequest) (p : HandymanProfile)
    → find_where (request_has key) w.requests ≡ some r
    → find_where (λ q. q.user_id == sub) w.profiles ≡ some p
    → r.assigned_handyman_id ≢ some p.id
    → find_where (request_has key) (handyman_job_controller route (some sub) w).0.requests ≡ some r
unfolding handyman_job_controller run_job_route
handyman_job_controller-others route sub w key r p before own stranger =
    protected-Keeps (Keeps key r) _ (some sub) (run_job_route route) w before (λ user caller.
      by_route route (request_user user) (
        subst (λ i. find_where (λ q. q.user_id == i) w.profiles ≡ some p)
          (id_of sub user.id caller.signed) own))
  where
    id_of : (m n : ℕ) → some m ≡ some n → m ≡ n
    id_of m n h = cc

    by_route :
        (route : JobRoute) (user : RequestUser)
        → find_where (λ q. q.user_id == user.id) w.profiles ≡ some p
        → Keeps key r (run_job_route route user w).0
    by_route (assigned_requests id query filter) user mine =
        reply-Keeps (Keeps key r) _ assigned_page (get_service_requests id user.id query filter) w
          (get_service_requests-Keeps key r user.id w before p mine id query filter)
    by_route (browse pagination) user mine =
        reply-Keeps (Keeps key r) _ open_page (browse_open_requests user.id pagination) w
          (browse_open_requests-Keeps key r user.id w before p mine pagination)
    by_route (apply new_id id dto) user mine =
        reply-Keeps (Keeps key r) _ one_application
          (Handyman.apply_to_request new_id user.id id dto) w
          (apply_to_request-Keeps key r user.id w before p mine stranger new_id id dto)
    by_route (own_applications id) user mine =
        reply-Keeps (Keeps key r) _ applications (get_own_applications id user.id) w
          (get_own_applications-Keeps key r user.id w before p mine id)
    by_route (withdraw id) user mine =
        reply-Keeps (Keeps key r) _ one_application (Handyman.withdraw_application user.id id) w
          (withdraw_application-Keeps key r user.id w before p mine stranger id)
    by_route (start id) user mine =
        reply-Keeps (Keeps key r) _ one_request (Handyman.start_request user.id id) w
          (start_request-Keeps key r user.id w before p mine stranger id)
    by_route (cancel_assigned id) user mine =
        reply-Keeps (Keeps key r) _ one_request (Handyman.cancel_assigned_request user.id id) w
          (cancel_assigned_request-Keeps key r user.id w before p mine stranger id)
    by_route (complete id) user mine =
        reply-Keeps (Keeps key r) _ one_request (Handyman.complete_request user.id id) w
          (complete_request-Keeps key r user.id w before p mine stranger id)
