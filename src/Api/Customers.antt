-- ===== src/Api/Customers.antt =====
-- src/modules/service-requests/service-requests.controller.ts.
use fetchit_be.Base.{ℕ, Option, none, some, List, [], ◌∷◌}
use fetchit_be.Schema.{
  RequestDetails, ServiceRequest, ServiceRequestStatus, Application, UserRole, customer,
}
use fetchit_be.World.{M}
use fetchit_be.Auth.Access.{RequestUser}
use fetchit_be.Listing.{PaginationDto, PaginatedResult}
use fetchit_be.Listing.Requests.{OwnRequest, find_all}
use fetchit_be.Market.Customer
use fetchit_be.Market.Customer.{CreateServiceRequestDto}
use fetchit_be.Api.{Reply, reply, protected}

-- The endpoints, with what the request carries.
pub data CustomerRoute : Type 0 where
  create_request : ℕ → CreateServiceRequestDto → CustomerRoute
  list_requests :
      (List ServiceRequest → List ServiceRequest)
      → PaginationDto
      → Option ServiceRequestStatus
      → CustomerRoute
  get_request : ℕ → CustomerRoute
  update_request : ℕ → (RequestDetails → RequestDetails) → CustomerRoute
  cancel_request : ℕ → ℕ → CustomerRoute
  list_applications : ℕ → CustomerRoute
  accept_application reject_application : ℕ → ℕ → CustomerRoute
  confirm_completion : ℕ → ℕ → CustomerRoute

pub data CustomerBody : Type 0 where
  one_request : ServiceRequest → CustomerBody
  requests : PaginatedResult OwnRequest → CustomerBody
  applications : List Application → CustomerBody
  one_application : Application → CustomerBody

-- `@Roles` of each endpoint.
abbrev pub customer_roles : CustomerRoute → List UserRole
customer_roles (get_request id) = []
customer_roles _ = customer ∷ []

-- The method that each endpoint calls.
unfoldable pub run_customer_route : CustomerRoute → RequestUser → M (Reply CustomerBody)
run_customer_route (create_request key dto) user =
    reply (some "Service request created successfully") one_request
      (Customer.create key user.id dto)
run_customer_route (list_requests order query status) user =
    reply none requests (find_all order user.id query status)
run_customer_route (get_request id) user =
    reply none one_request (Customer.find_one id user.id user.role)
run_customer_route (update_request id dto) user =
    reply (some "Service request updated successfully") one_request (Customer.update id user.id dto)
run_customer_route (cancel_request id now) user =
    reply (some "Service request cancelled") one_request (Customer.cancel id user.id now)
run_customer_route (list_applications id) user =
    reply none applications (Customer.get_applications id user.id)
run_customer_route (accept_application id app_id) user =
    reply (some "Application accepted successfully") one_request
      (Customer.accept_application id app_id user.id)
run_customer_route (reject_application id app_id) user =
    reply (some "Application rejected") one_application
      (Customer.reject_application id app_id user.id)
run_customer_route (confirm_completion id now) user =
    reply (some "Service request completed successfully") one_request
      (Customer.confirm_completion id user.id now)

-- `ServiceRequestsController`
unfoldable pub service_requests_controller : CustomerRoute → Option ℕ → M (Reply CustomerBody)
unfolding run_customer_route
service_requests_controller route token =
    protected (customer_roles route) token (run_customer_route route)
