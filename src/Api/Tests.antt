-- ===== src/Api/Tests.antt =====
-- A customer, a handyman and an administrator, and the theorems of the listings and of the routes at
-- them.
use fetchit_be.Base.{
  ℕ, true, false, none, some, List, [], ◌∷◌, ◌||◌, ◌≡◌, ◌<◌, ◌↔◌, refl, arith, find_where,
  filter_where, any_where, count_where, update_where, length, All,
}
use fetchit_be.Schema.{
  User, UserRole, HandymanProfile, HandymanDocument, ServiceRequest, admin, customer, handyman,
  active, opened, assigned, local, verified, government_id, DocumentStatus,
}
use fetchit_be.Texts.{codes}
use fetchit_be.World.{World, request_has, find_profile}
use fetchit_be.Listing.{PaginationDto, paginate_array}
use fetchit_be.Listing.Pages.{pages, paginate_array-pages}
use fetchit_be.Listing.Requests.{
  browse_open_requests, get_service_requests, assigned_page, ongoing, finished, to_signed_document,
}
use fetchit_be.Listing.Private.{browse_open_requests-hides_contacts}
use fetchit_be.Listing.Own.{get_dashboard-totals}
use fetchit_be.Vetting.Profile.{get_dashboard, get_or_create, count_status, find_documents}
use fetchit_be.Vetting.Review.{log}
use fetchit_be.Vetting.Audited.{get_handyman_for_review-audited}
use fetchit_be.Vetting.Reading.{
  get_handyman_for_review, sign_for_review, log_document_access, is_access,
}
use fetchit_be.Auth.Sessions.{find_user}
use fetchit_be.Auth.Access.{validate, authenticate, authorize, has_required_role}
use fetchit_be.Users.Repository.{update_user_row, soft_delete}
use fetchit_be.Users.Service
use fetchit_be.Api.{protected}
use fetchit_be.Api.Customers.{cancel_request, service_requests_controller}
use fetchit_be.Api.Handymen.{start, handyman_job_controller}
use fetchit_be.Api.Users.{remove_user, users_controller, run_user_route}
use fetchit_be.Api.Separate.{service_requests_controller-others}
use fetchit_be.Api.Jobs.{handyman_job_controller-others}
use fetchit_be.Api.Privilege.{is_admin_row, users_controller-no_new_admin}

abbrev user : ℕ → UserRole → User
user id role = record {
  id = id;
  username = "name";
  email = "a@b.c";
  password = none;
  role = role;
  status = active;
  email_verified = true;
  onboarded_at = some 1;
  last_login_at = none;
  deleted_at = none;
  provider = local;
  google_id = none;
  avatar = none;
  phone = some "+1";
}

abbrev own : HandymanProfile
own = record {
  id = 7;
  user_id = 70;
  details = none;
  verification_status = verified;
  verified_at = some 1;
  rejection_reason = none;
  reviewed_by_id = some 1;
}

abbrev id_card : HandymanDocument
id_card = record {
  id = 30;
  handyman_profile_id = 7;
  kind = government_id;
  file_key = codes "k";
  file_name = codes "n";
  status = DocumentStatus.pending;
  rejection_reason = none;
  reviewed_by_id = none;
  reviewed_at = none;
}

abbrev open_job : ServiceRequest
open_job = record {
  id = 1;
  customer_id = 100;
  category_id = 5;
  details = record {
    title = "tap";
    description = "leaks";
    location = "Lagos";
    latitude = none;
    longitude = none;
    budget_min = none;
    budget_max = none;
  };
  status = opened;
  assigned_handyman_id = none;
  completed_at = none;
  cancelled_at = none;
}

abbrev own_job : ServiceRequest
own_job = record open_job { id = 2; status = assigned; assigned_handyman_id = some 7 }

abbrev scene : World
scene = record {
  users = user 1 admin ∷ user 70 handyman ∷ user 100 customer ∷ user 101 customer ∷ [];
  profiles = own ∷ [];
  categories = [];
  documents = id_card ∷ [];
  audit_log = [];
  sessions = [];
  objects = [];
  service_categories = [];
  password_resets = [];
  email_verifications = [];
  requests = own_job ∷ open_job ∷ [];
  applications = [];
  outbox = [];
}

abbrev first_page : PaginationDto
first_page = record { page = none; limit = some 5 }

abbrev numbers : List ℕ
numbers = 1 ∷ 2 ∷ 3 ∷ []

paginate_array-pages_example :
    (pages numbers 2 (paginate_array numbers 1 2).about.total_pages ≡ numbers)
    × (((paginate_array numbers 1 2).about.has_next_page ≡ true)
        ↔ (0 < length (paginate_array numbers 2 2).items))
paginate_array-pages_example = paginate_array-pages numbers 2 0 (omega arith)

abbrev unlisted : User → User
unlisted u = record u { email = ""; phone = none }

browse_open_requests-hides_contacts_example :
    (browse_open_requests 70 first_page (record scene {
      users =
          unlisted (user 1 admin)
          ∷ unlisted (user 70 handyman)
          ∷ unlisted (user 100 customer)
          ∷ unlisted (user 101 customer)
          ∷ [];
    })).1
    ≡ (browse_open_requests 70 first_page scene).1
browse_open_requests-hides_contacts_example =
    browse_open_requests-hides_contacts unlisted 70 first_page scene (λ u. refl)

service_requests_controller-others_example :
    find_where
      (request_has 1)
      (service_requests_controller (cancel_request 1 9) (some 101) scene).0.requests
    ≡ some open_job
unfolding find_where
service_requests_controller-others_example =
    service_requests_controller-others (cancel_request 1 9) (some 101) scene 1 open_job refl
      (ground arith)

handyman_job_controller-others_example :
    find_where (request_has 1) (handyman_job_controller (start 1) (some 70) scene).0.requests
    ≡ some open_job
unfolding find_where
handyman_job_controller-others_example =
    handyman_job_controller-others (start 1) 70 scene 1 open_job own refl refl (ground arith)

users_controller-no_new_admin_example : any_where (is_admin_row 1) scene.users ≡ true
unfolding users_controller run_user_route protected authorize authenticate validate find_user
    has_required_role find_where any_where Service.remove soft_delete update_user_row update_where
users_controller-no_new_admin_example =
    users_controller-no_new_admin (remove_user 100 9) (some 1) scene 1 refl

get_handyman_for_review-audited_example :
    All
      (λ d.
        (false
          || any_where
              (is_access 1 d.id)
              (get_handyman_for_review some (λ id. false) 7 1 scene).0.audit_log)
        ≡ true)
      (to_signed_document id_card (codes "k") ∷ [])
unfolding get_handyman_for_review find_profile find_documents sign_for_review log_document_access
    log find_where filter_where
get_handyman_for_review-audited_example =
    get_handyman_for_review-audited some (λ id. false) 1 7 scene own
      (to_signed_document id_card (codes "k") ∷ []) refl

get_dashboard-totals_example :
    ((assigned_page 7 first_page (some ongoing) scene).about.total ≡ 1)
    × ((assigned_page 7 first_page (some finished) scene).about.total ≡ 0)
unfolding get_dashboard get_service_requests get_or_create count_status find_where count_where
get_dashboard-totals_example =
    get_dashboard-totals 3 70 first_page first_page scene own 1 0
      (assigned_page 7 first_page (some ongoing) scene)
      (assigned_page 7 first_page (some finished) scene) refl refl refl
