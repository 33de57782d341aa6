-- ===== src/Market/Others.antt =====
-- What a customer's methods leave alone: the requests of other customers.
use fetchit_be.Base.{
  ℕ, Bool, true, false, Option, none, some, List, ◌==◌, ◌≡◌, ◌≢◌, inl, inr, refl, sym, ap, ◌∙◌,
  arith, find_where, find_where_sound, update_where, any_where, any_where_of_find, eq_of_==,
  find_where-update_where, if◌then◌else◌, Option-cases, Bool-cases,
}
use mathlib.Core.Option
use fetchit_be.Schema.{ServiceRequest, RequestDetails, Application, UserRole, forbidden}
use fetchit_be.World.{
  World, ok, request_has, find_request, find_application, >>=-eq-ok, ◌>>=◌, ◌>>◌, guard,
  find_profile, pure,
}
use fetchit_be.Market.Customer.{
  find_one, is_visible, find_assigned, get_applications, CreateServiceRequestDto, own_request,
  own_application, create, update, update_check, cancel, cancel_check, accept_application,
  accept_check, reject_application, reject_check, confirm_completion, confirm_check,
}
use fetchit_be.Market.Effects.{
  create_effect, update_effect, accept_effect, cancel_effect, reject_effect, confirm_effect,
}
use fetchit_be.Vetting.Writes.{after_check}

-- A write to the request with another key, which keeps the keys.
pub find_where-update_where_other :
    (id key : ℕ) (test : ServiceRequest → Bool) (f : ServiceRequest → ServiceRequest)
    (rows : List ServiceRequest) (r : ServiceRequest)
    → ((q : ServiceRequest) → (f q).id ≡ q.id)
    → ((q : ServiceRequest) → test q ≡ true → q.id ≡ id)
    → id ≢ key
    → find_where (request_has key) rows ≡ some r
    → find_where (request_has key) (update_where test f rows) ≡ some r
find_where-update_where_other id key test f rows r same only other h =
    find_where-update_where (request_has key) test f rows (λ q. ap (λ n. n == key) (same q))
    ∙ ap (Option.map (λ q. if test q then f q else q)) h
    ∙ elim (Bool-cases (test r)) [
      | inl t ↦
          let at = find_where_sound (request_has key) rows r h in
          absurd (other (sym (only r t) ∙ ground arith))
      | inr t ↦ rw t refl
    ]

-- The request with this key is as it was.
abbrev pub Keeps : ℕ → ServiceRequest → World → Type 0
Keeps key r v = find_where (request_has key) v.requests ≡ some r

module _ (key : ℕ) (r : ServiceRequest) (user_id : ℕ) (w : World) (before : Keeps key r w)
    (other : r.customer_id ≢ user_id) where
  abbrev Kept : List ServiceRequest → List Application → Type 0
  Kept requests applications = find_where (request_has key) requests ≡ some r

  -- A request that passes the check of ownership is another one.
  own_request-other : (id : ℕ) (q : ServiceRequest) → (own_request id user_id w).1 ≡ ok q → id ≢ key
  unfolding own_request find_request
  own_request-other id q h same =
      let at : find_where (request_has id) w.requests ≡ some r =
        ap (λ k. find_where (request_has k) w.requests) same ∙ before in
      ground arith

  pub create-Keeps :
      (id : ℕ) (dto : CreateServiceRequestDto) → Keeps key r (create id user_id dto w).0
  unfolding find_where
  create-Keeps id dto = create_effect Kept w id user_id dto before (λ fresh.
      elim (Bool-cases (id == key)) [
        | inl same ↦
            let at =
              any_where_of_find (request_has key) (request_has key) w.requests r before
                (find_where_sound (request_has key) w.requests r before) in
            let fresh_key : any_where (request_has key) w.requests ≡ false =
              ap (λ k. any_where (request_has k) w.requests) (sym (eq_of_== id key same)) ∙ fresh in
            absurd (ground arith)
        | inr new ↦ rw new before
      ])

  update_check-other :
      (id : ℕ) (q : ServiceRequest) → (update_check id user_id w).1 ≡ ok q → id ≢ key
  unfolding update_check
  update_check-other id q h =
      let (p, owned, rest) = >>=-eq-ok (own_request id user_id) _ w h in
      own_request-other id p owned

  update_check_state : (id : ℕ) → (update_check id user_id w).0 ≡ w
  unfolding update_check own_request find_request
  update_check_state id = ground arith

  pub update-Keeps :
      (id : ℕ) (dto : RequestDetails → RequestDetails) → Keeps key r (update id user_id dto w).0
  unfolding update
  update-Keeps id dto =
      after_check (Keeps key r) (update_check id user_id) _ w (update_check_state id) before (λ q h.
        update_effect Kept w id dto (
          find_where-update_where_other id key _ _ w.requests r (λ p. refl) (λ p t. ground arith)
            (update_check-other id q h) before))

  cancel_check-other :
      (id : ℕ) (q : ServiceRequest) → (cancel_check id user_id w).1 ≡ ok q → id ≢ key
  unfolding cancel_check
  cancel_check-other id q h =
      let (p, owned, rest) = >>=-eq-ok (own_request id user_id) _ w h in
      own_request-other id p owned

  cancel_check_state : (id : ℕ) → (cancel_check id user_id w).0 ≡ w
  unfolding cancel_check own_request find_request
  cancel_check_state id = ground arith

  pub cancel-Keeps : (id now : ℕ) → Keeps key r (cancel id user_id now w).0
  unfolding cancel
  cancel-Keeps id now =
      after_check (Keeps key r) (cancel_check id user_id) _ w (cancel_check_state id) before (λ q h.
        cancel_effect Kept w id q user_id now before (
          find_where-update_where_other id key _ _ w.requests r (λ p. refl) (λ p t. ground arith)
            (cancel_check-other id q h) before))

  accept_check-other :
      (id app_id : ℕ) (a : Application) → (accept_check id app_id user_id w).1 ≡ ok a → id ≢ key
  unfolding accept_check
  accept_check-other id app_id a h =
      let (p, owned, rest) = >>=-eq-ok (own_request id user_id) _ w h in
      own_request-other id p owned

  accept_check_state : (id app_id : ℕ) → (accept_check id app_id user_id w).0 ≡ w
  unfolding accept_check own_request own_application find_request find_application
  accept_check_state id app_id = ground arith

  pub accept_application-Keeps :
      (id app_id : ℕ) → Keeps key r (accept_application id app_id user_id w).0
  unfolding accept_application
  accept_application-Keeps id app_id =
      after_check (Keeps key r) (accept_check id app_id user_id) _ w (accept_check_state id app_id)
        before
        (λ a h. accept_effect Kept w id app_id user_id a before (λ n m.
          find_where-update_where_other id key _ _ w.requests r (λ p. refl) (λ p t. ground arith)
            (accept_check-other id app_id a h) before))

  reject_check_state : (id app_id : ℕ) → (reject_check id app_id user_id w).0 ≡ w
  unfolding reject_check own_request own_application find_request find_application
  reject_check_state id app_id = ground arith

  pub reject_application-Keeps :
      (id app_id : ℕ) → Keeps key r (reject_application id app_id user_id w).0
  unfolding reject_application
  reject_application-Keeps id app_id =
      after_check (Keeps key r) (reject_check id app_id user_id) _ w (reject_check_state id app_id)
        before (λ a h. reject_effect Kept w app_id before)

  confirm_check-other :
      (id : ℕ) (q : ServiceRequest) → (confirm_check id user_id w).1 ≡ ok q → id ≢ key
  unfolding confirm_check
  confirm_check-other id q h =
      let (p, owned, rest) = >>=-eq-ok (own_request id user_id) _ w h in
      own_request-other id p owned

  confirm_check_state : (id : ℕ) → (confirm_check id user_id w).0 ≡ w
  unfolding confirm_check own_request find_request
  confirm_check_state id = ground arith

  pub confirm_completion-Keeps : (id now : ℕ) → Keeps key r (confirm_completion id user_id now w).0
  unfolding confirm_completion
  confirm_completion-Keeps id now =
      after_check (Keeps key r) (confirm_check id user_id) _ w (confirm_check_state id) before
        (λ q h. confirm_effect Kept w id q user_id now (
          find_where-update_where_other id key _ _ w.requests r (λ p. refl) (λ p t. ground arith)
            (confirm_check-other id q h) before))

  -- The methods that only read.
  pub find_one-Keeps : (id : ℕ) (role : UserRole) → Keeps key r (find_one id user_id role w).0
  unfolding find_one find_request find_assigned find_profile
  find_one-Keeps id role = elim (Option-cases (find_where (request_has id) w.requests)) [
    | inl e ↦ rw e before
    | inr (q, e) ↦ rw e (seen q q.assigned_handyman_id)
  ]
    where
      checked : (b : Bool) (q : ServiceRequest) → Keeps key r ((guard b forbidden >> pure q) w).0
      checked true q = before
      checked false q = before

      seen :
          (q : ServiceRequest) (assigned : Option ℕ)
          → Keeps key r
              ((do
                found ← find_assigned assigned
                guard (is_visible q found user_id role) forbidden
                pure q)
                w).0
      seen q none = checked (is_visible q none user_id role) q
      seen q (some n) =
          checked (is_visible q (find_where (λ h. h.id == n) w.profiles) user_id role) q

  pub get_applications-Keeps : (id : ℕ) → Keeps key r (get_applications id user_id w).0
  unfolding get_applications own_request find_request
  get_applications-Keeps id = ground arith
