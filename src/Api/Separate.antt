-- ===== src/Api/Separate.antt =====
-- What the controllers of the marketplace leave alone: the requests of others.
use fetchit_be.Base.{
  ℕ, true, Option, none, some, List, ◌≡◌, ◌≢◌, ◌⊎◌, inl, inr, refl, sym, ap, ◌∙◌, subst, arith,
  find_where, find_where_sound, String, Option-cases, Bool-cases,
}
use fetchit_be.Schema.{User, UserRole, ServiceRequest, is_active}
use fetchit_be.World.{World, M, request_has}
use fetchit_be.Auth.Sessions.{is_live, find_user}
use fetchit_be.Auth.Access.{
  RequestUser, request_user, validate, has_required_role, authenticate, authorize,
}
use fetchit_be.Market.Customer
use fetchit_be.Market.Others.{
  find_one-Keeps, get_applications-Keeps, Keeps, create-Keeps, update-Keeps, cancel-Keeps,
  accept_application-Keeps, reject_application-Keeps, confirm_completion-Keeps,
}
use fetchit_be.Listing.Requests.{find_all}
use fetchit_be.Api.Customers.{
  CustomerRoute, create_request, list_requests, get_request, update_request, cancel_request,
  list_applications, accept_application, reject_application, confirm_completion, one_request,
  applications, one_application, customer_roles, run_customer_route, service_requests_controller,
}
use fetchit_be.Api.{reply, protected}
use fetchit_be.Vetting.Writes.{and_then}

-- The caller of a route that has run.
pub record IsCaller (roles : List UserRole) (token : Option ℕ) (w : World) (user : User)
    : Type 0 where
  pub signed : token ≡ some user.id
  pub live : find_where (is_live user.id) w.users ≡ some user
  pub verified : user.email_verified ≡ true
  pub entitled : has_required_role roles (some (request_user user)) ≡ true

-- A request to a route is refused and changes nothing, or is run for the live user of its token.
pub protected-runs :
    {A : Type 0} (roles : List UserRole) (token : Option ℕ) (handler : RequestUser → M A)
    (w : World)
    → ((protected roles token handler w).0 ≡ w)
      ⊎ ((user : User) × IsCaller roles token w user
          × (protected roles token handler w ≡ handler (request_user user) w))
unfolding protected authorize authenticate validate find_user
protected-runs roles none handler w = inl refl
protected-runs roles (some sub) handler w = elim (Option-cases (find_where (is_live sub) w.users)) [
  | inl n ↦ inl (ground arith)
  | inr (u, e) ↦ elim (Bool-cases (u.email_verified)) [
    | inr v ↦ inl (rw (e, v) refl)
    | inl v ↦ elim (Bool-cases (is_active u.status)) [
      | inr a ↦ inl (rw (e, v, a) refl)
      | inl a ↦ elim (Bool-cases (has_required_role roles (some (request_user u)))) [
        | inr r ↦ inl (rw (e, v, a, r) refl)
        | inl r ↦
            let found = find_where_sound (is_live sub) w.users u e in
            let same : u.id ≡ sub = ground arith in
            inr (
              u,
              record {
                signed = ap some (sym same);
                live = subst (λ i. find_where (is_live i) w.users ≡ some u) (sym same) e;
                verified = v;
                entitled = r;
              },
              rw (e, v, a, r) refl,
            )
      ]
    ]
  ]
]

-- What a reply adds to the method changes nothing.
pub reply-Keeps :
    {A B : Type 0} (P : World → Type 0) (message : Option String) (wrap : A → B) (m : M A)
    (w : World)
    → P (m w).0
    → P (reply message wrap m w).0
reply-Keeps P message wrap m w h = and_then P m _ w h (λ a v p. p)

-- A route keeps what its method keeps when it is run for the user of the token.
pub protected-Keeps :
    {A : Type 0} (P : World → Type 0) (roles : List UserRole) (token : Option ℕ)
    (handler : RequestUser → M A) (w : World)
    → P w
    → ((user : User) → IsCaller roles token w user → P (handler (request_user user) w).0)
    → P (protected roles token handler w).0
protected-Keeps P roles token handler w p run = elim (protected-runs roles token handler w) [
  | inl same ↦ subst P (sym same) p
  | inr (user, caller, ran) ↦ subst (λ z. P z.0) (sym ran) (run user caller)
]

-- A request to the customers' routes, whoever makes it, leaves every request of another customer as
-- it was.
pub service_requests_controller-others :
    (route : CustomerRoute) (token : Option ℕ) (w : World) (key : ℕ) (r : ServiceRequest)
    → find_where (request_has key) w.requests ≡ some r
    → token ≢ some r.customer_id
    → find_where (request_has key) (service_requests_controller route token w).0.requests ≡ some r
unfolding service_requests_controller run_customer_route find_all
service_requests_controller-others route token w key r before stranger =
    protected-Keeps (Keeps key r) (customer_roles route) token (run_customer_route route) w before
      (λ user caller. by_route route user (λ same. stranger (caller.signed ∙ ap some (sym same))))
  where
    by_route :
        (route : CustomerRoute) (user : User)
        → r.customer_id ≢ user.id
        → Keeps key r (run_customer_route route (request_user user) w).0
    by_route (create_request id dto) user other =
        reply-Keeps (Keeps key r) _ one_request (Customer.create id user.id dto) w
          (create-Keeps key r user.id w before other id dto)
    by_route (list_requests order query status) user other = before
    by_route (get_request id) user other =
        reply-Keeps (Keeps key r) _ one_request (Customer.find_one id user.id user.role) w
          (find_one-Keeps key r user.id w before other id user.role)
    by_route (update_request id dto) user other =
        reply-Keeps (Keeps key r) _ one_request (Customer.update id user.id dto) w
          (update-Keeps key r user.id w before other id dto)
    by_route (cancel_request id now) user other =
        reply-Keeps (Keeps key r) _ one_request (Customer.cancel id user.id now) w
          (cancel-Keeps key r user.id w before other id now)
    by_route (list_applications id) user other =
        reply-Keeps (Keeps key r) _ applications (Customer.get_applications id user.id) w
          (get_applications-Keeps key r user.id w before other id)
    by_route (accept_application id app_id) user other =
        reply-Keeps (Keeps key r) _ one_request (Customer.accept_application id app_id user.id) w
          (accept_application-Keeps key r user.id w before other id app_id)
    by_route (reject_application id app_id) user other =
        reply-Keeps (Keeps key r) _ one_application (Customer.reject_application id app_id user.id)
          w (reject_application-Keeps key r user.id w before other id app_id)
    by_route (confirm_completion id now) user other =
        reply-Keeps (Keeps key r) _ one_request (Customer.confirm_completion id user.id now) w
          (confirm_completion-Keeps key r user.id w before other id now)
