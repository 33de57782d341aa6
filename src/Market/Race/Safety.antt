-- ===== src/Market/Race/Safety.antt =====
-- Every write keeps the two tables consistent, however the calls overlap.
use mathlib.Core.Path.{subst₂}
use fetchit_be.Market.Race.{Timing}
use fetchit_be.Base.{
  ℕ, ◌≡◌, refl, Bool, true, false, ◌==◌, Option, some, none, List, ◌∷◌, All, All-map, edit,
  update_all, update_where, update_where-edit, update_all-update_all, update_all-id, arith, sym, ap,
  ◌∙◌, ◌&&◌, Bool-cases, inl, inr, any_where, find_where, find_where_sound, eq_of_==, ◌≢◌,
  count_where,
}
use fetchit_be.Schema.{
  ServiceRequest, RequestDetails, Application, is_opened, is_assigned, is_pending, is_accepted,
  is_cancelled, withdrawn, opened,
}
use fetchit_be.Market.Customer.{CreateServiceRequestDto}
use fetchit_be.Market.Handyman.{ApplyServiceRequestDto, is_still_open}
use fetchit_be.World.{request_has, application_has, is_between}
use fetchit_be.Market.Effects.{
  assign_rows, accept_rows, reject_others, start_rows, finish_rows, complete_rows, edit_rows,
  reject_rows, withdraw_rows, cancel_rows, sweep_rows, reopen_rows, unaccept_rows, revive_rows,
  new_application, new_request,
}
use fetchit_be.Market.Race.Distinct.{counted_opened, is_some, found_where}
use fetchit_be.Market.Race.Consistency.{
  IsConsistent, IsPinned, IsWellAssigned, KeepsKeys, Fits, Suits, edit-IsConsistent, edit-IsPinned,
  insert-IsConsistent, insert-IsPinned, request-IsConsistent,
}

-- An ACCEPTED application has a request that is not CANCELLED. If inserts come in time, a PENDING one
-- has an OPEN request; if releases do, an ACCEPTED one has a request that is assigned to its handyman,
-- and not OPEN.
abbrev pub IsLive : Timing → Application → ServiceRequest → Type 0
IsLive strict a r =
    (strict.inserts ≡ true → is_pending a.status ≡ true → is_opened r.status ≡ true)
    × (is_accepted a.status ≡ true → is_cancelled r.status ≡ false)
    × (strict.releases ≡ true
        → is_accepted a.status ≡ true
        → (is_opened r.status ≡ false) × (r.assigned_handyman_id ≡ some a.handyman_profile_id))

-- The tables stay consistent, and what calls rely on stays so.
abbrev pub IsKept : Timing → List Application → List ServiceRequest → List Application → Type 0
IsKept strict before requests applications =
    IsConsistent (IsLive strict) requests applications
    × ((id request_id profile_id : ℕ)
        → IsPinned before id request_id profile_id
        → IsPinned applications id request_id profile_id)

module _ (strict : Timing) (requests : List ServiceRequest) (applications : List Application) where
  -- An edit of both tables, given row by row: `r` is the request that `a` is for.
  edit-IsKept :
      (Q : Application → Type 0) (f : Application → Application)
      (g : ServiceRequest → ServiceRequest)
      → KeepsKeys f
      → ((r : ServiceRequest) → (g r).id ≡ r.id)
      → ((r : ServiceRequest) → IsWellAssigned r → IsWellAssigned (g r))
      → ((a : Application) (r : ServiceRequest)
          → Q a
          → find_where (request_has a.service_request_id) requests ≡ some r
          → r.id ≡ a.service_request_id
          → IsLive strict a r
          → IsLive strict (f a) (g r))
      → All Q applications
      → IsConsistent (IsLive strict) requests applications
      → IsKept strict applications (update_all g requests) (update_all f applications)
  edit-IsKept Q f g keeps keeps_id assigns step known h = (
    edit-IsConsistent (IsLive strict) (IsLive strict) requests Q f g applications keeps keeps_id
        assigns
        (λ a r q e p.
          step a r q e
            (eq_of_== r.id a.service_request_id
              (find_where_sound (request_has a.service_request_id) requests r e))
            p)
        known h,
    λ id request_id profile_id p. edit-IsPinned f applications id request_id profile_id keeps p,
  )

  -- The same for rows matched by a test.
  write-IsKept :
      (Q : Application → Type 0) (test : Application → Bool) (f : Application → Application)
      (match : ServiceRequest → Bool) (g : ServiceRequest → ServiceRequest)
      → KeepsKeys (edit test f)
      → ((r : ServiceRequest) → (edit match g r).id ≡ r.id)
      → ((r : ServiceRequest) → IsWellAssigned r → IsWellAssigned (edit match g r))
      → ((a : Application) (r : ServiceRequest)
          → Q a
          → find_where (request_has a.service_request_id) requests ≡ some r
          → r.id ≡ a.service_request_id
          → IsLive strict a r
          → IsLive strict (edit test f a) (edit match g r))
      → All Q applications
      → IsConsistent (IsLive strict) requests applications
      → IsKept strict applications
          (update_where match g requests)
          (update_where test f applications)
  write-IsKept Q test f match g keeps keeps_id assigns step known h =
      subst₂ (IsKept strict applications) (sym (update_where-edit match g requests))
        (sym (update_where-edit test f applications))
        (edit-IsKept Q (edit test f) (edit match g) keeps keeps_id assigns step known h)

module _ (strict : Timing) {requests : List ServiceRequest} {applications : List Application}
    (h : IsConsistent (IsLive strict) requests applications) where
  anything : All (λ a. Unit {0}) applications
  anything = All-map (Fits (IsLive strict) requests) (λ a. Unit {0}) applications (λ a p. tt) h.fits

  pub same-IsKept : IsKept strict applications requests applications
  same-IsKept = (h, λ id request_id profile_id p. p)

  -- Only requests are written.
  requests-IsKept :
      (match : ServiceRequest → Bool) (g : ServiceRequest → ServiceRequest)
      → ((r : ServiceRequest) → (edit match g r).id ≡ r.id)
      → ((r : ServiceRequest) → IsWellAssigned r → IsWellAssigned (edit match g r))
      → ((a : Application) (r : ServiceRequest)
          → IsLive strict a r
          → IsLive strict a (edit match g r))
      → IsKept strict applications (update_where match g requests) applications
  requests-IsKept match g keeps_id assigns step =
      subst₂ (IsKept strict applications) (sym (update_where-edit match g requests))
        (update_all-id applications)
        (edit-IsKept strict requests applications (λ a. Unit {0}) (λ a. a) (edit match g)
          (λ a. (refl, refl, refl)) keeps_id assigns (λ a r q e i p. step a r p) anything h)

  -- Only applications are written, and none becomes PENDING or ACCEPTED.
  applications-IsKept :
      (test : Application → Bool) (f : Application → Application)
      → KeepsKeys (edit test f)
      → ((a : Application) (r : ServiceRequest)
          → IsLive strict a r
          → IsLive strict (edit test f a) r)
      → IsKept strict applications requests (update_where test f applications)
  applications-IsKept test f keeps step =
      subst₂ (IsKept strict applications) (update_all-id requests)
        (sym (update_where-edit test f applications))
        (edit-IsKept strict requests applications (λ a. Unit {0}) (edit test f) (λ r. r) keeps
          (λ r. refl) (λ r p. p) (λ a r q e i p. step a r p) anything h)

  pub start-IsKept : (id : ℕ) → IsKept strict applications (start_rows id requests) applications
  start-IsKept id =
      requests-IsKept _ _ (λ r. ground arith) (λ r p. ground arith) (λ a r p. ground arith)

  pub finish-IsKept : (id : ℕ) → IsKept strict applications (finish_rows id requests) applications
  finish-IsKept id =
      requests-IsKept _ _ (λ r. ground arith) (λ r p. ground arith) (λ a r p. ground arith)

  pub complete-IsKept :
      (id now : ℕ) → IsKept strict applications (complete_rows id now requests) applications
  complete-IsKept id now =
      requests-IsKept _ _ (λ r. ground arith) (λ r p. ground arith) (λ a r p. ground arith)

  pub details-IsKept :
      (id : ℕ) (dto : RequestDetails → RequestDetails)
      → IsKept strict applications (edit_rows id dto requests) applications
  details-IsKept id dto =
      requests-IsKept _ _ (λ r. ground arith) (λ r p. ground arith) (λ a r p. ground arith)

  pub reject-IsKept : (id : ℕ) → IsKept strict applications requests (reject_rows id applications)
  reject-IsKept id = applications-IsKept _ _ (λ a. ground arith) (λ a r p. ground arith)

  pub withdraw-IsKept :
      (id : ℕ) → IsKept strict applications requests (withdraw_rows id applications)
  withdraw-IsKept id = applications-IsKept _ _ (λ a. ground arith) (λ a r p. ground arith)

  pub cancel-IsKept :
      (id : ℕ) (seen : ServiceRequest) (now : ℕ)
      → IsKept strict applications (cancel_rows id seen now requests) (sweep_rows id applications)
  cancel-IsKept id seen now =
      write-IsKept strict requests applications (λ a. Unit {0}) _ _ _ _ (λ a. ground arith)
        (λ r. ground arith) (λ r p. ground arith) (λ a r q e i p. ground arith) anything h

  -- Withdrawing the winner of an assignment, by the handyman who is assigned.
  pub reopen-IsKept :
      (id profile_id : ℕ)
      → (strict.releases ≡ true
          → (r : ServiceRequest) → find_where (request_has id) requests ≡ some r
          → is_assigned r.status ≡ true
          → r.assigned_handyman_id ≡ some profile_id)
      → IsKept strict applications
          (reopen_rows id requests)
          (unaccept_rows id profile_id applications)
  reopen-IsKept id profile_id own =
      write-IsKept strict requests applications (λ a. Unit {0}) _ _ _ _ (λ a. ground arith)
        (λ r. ground arith) (λ r p. ground arith) (λ a r q e i p. reopened a r e i p) anything h
    where
      reopened :
          (a : Application) (r : ServiceRequest)
          → find_where (request_has a.service_request_id) requests ≡ some r
          → r.id ≡ a.service_request_id
          → IsLive strict a r
          → IsLive strict
              (edit
                (λ b.
                  b.service_request_id == id
                  && b.handyman_profile_id == profile_id
                  && is_accepted b.status)
                (λ b. record b { status = withdrawn })
                a)
              (edit
                (λ q. q.id == id && is_assigned q.status)
                (λ q. record q { status = opened; assigned_handyman_id = none })
                r)
      reopened a r e i p = elim (Bool-cases (a.service_request_id == id)) [
        | inl here ↦
            let e' : find_where (request_has id) requests ≡ some r =
              ap (λ (k : ℕ). find_where (request_has k) requests)
                (sym (eq_of_== a.service_request_id id here))
              ∙ e in
            ground (arith, λ (s : strict.releases ≡ true). own s r e')
        | inr there ↦ ground arith
      ]

  -- The winner and the others; `app_id` is the key of an application for this request.
  pub accept-IsKept :
      (id app_id profile_id : ℕ)
      → IsPinned applications app_id id profile_id
      → count_where (λ r. r.id == id && is_opened r.status) requests ≢ 0
      → IsKept strict applications
          (assign_rows id profile_id requests)
          (reject_others id app_id (accept_rows app_id applications))
  accept-IsKept id app_id profile_id pinned counted =
      subst₂ (IsKept strict applications) (sym (update_where-edit _ _ requests))
        (sym (
          update_where-edit _ _ (accept_rows app_id applications)
          ∙ ap (update_all _) (update_where-edit _ _ applications)
          ∙ update_all-update_all _ _ applications))
        (edit-IsKept strict requests applications _ _ _ (λ a. ground arith) (λ r. ground arith)
          (λ r p. ground arith)
          (λ a r q e i p. ground (
            arith,
            λ (s : a.service_request_id ≡ id).
                counted_opened id requests r h.distinct
                  (ap (λ (k : ℕ). find_where (request_has k) requests) (sym s) ∙ e) counted,
          ))
          pinned.0 h)

  -- An application that was WITHDRAWN or REJECTED, made PENDING again on an OPEN request.
  pub revive-IsKept :
      (id request_id profile_id : ℕ) (dto : ApplyServiceRequestDto)
      → IsPinned applications id request_id profile_id
      → (strict.inserts ≡ true
          → is_still_open (find_where (request_has request_id) requests) ≡ true)
      → IsKept strict applications requests (revive_rows id dto applications)
  revive-IsKept id request_id profile_id dto pinned live =
      subst₂ (IsKept strict applications) (update_all-id requests)
        (sym (update_where-edit _ _ applications))
        (edit-IsKept strict requests applications _ _ (λ r. r) (λ a. ground arith) (λ r. refl)
          (λ r p. p) (λ a r q e i p. ground (arith, λ (same : a.id ≡ id). still a r (q same).0 e))
          pinned.0 h)
    where
      still :
          (a : Application) (r : ServiceRequest)
          → a.service_request_id ≡ request_id
          → find_where (request_has a.service_request_id) requests ≡ some r
          → strict.inserts ≡ true
          → is_opened r.status ≡ true
      still a r here e s =
          ap is_still_open (sym e ∙ ap (λ (k : ℕ). find_where (request_has k) requests) here)
          ∙ live s

  -- A first application for an OPEN request.
  pub apply-IsKept :
      (id request_id profile_id : ℕ) (dto : ApplyServiceRequestDto)
      → (strict.inserts ≡ true
          → is_still_open (find_where (request_has request_id) requests) ≡ true)
      → any_where (request_has request_id) requests ≡ true
      → any_where (application_has id) applications ≡ false
      → any_where (is_between request_id profile_id) applications ≡ false
      → IsKept strict applications requests
          (new_application id request_id profile_id dto ∷ applications)
  apply-IsKept id request_id profile_id dto live there fresh first = (
    insert-IsConsistent (IsLive strict) requests (new_application id request_id profile_id dto)
        applications
        (suits (find_where (request_has request_id) requests)
          (found_where (request_has request_id) requests there) live)
        fresh first h,
    λ k r p pin.
        insert-IsPinned (new_application id request_id profile_id dto) applications k r p fresh pin,
  )
    where
      suits :
          (o : Option ServiceRequest)
          → is_some o ≡ true
          → (strict.inserts ≡ true → is_still_open o ≡ true)
          → Suits (IsLive strict) (new_application id request_id profile_id dto) o
      suits none s e = absurd (cc)
      suits (some r) s e = ground arith

  pub create-IsKept :
      (id user_id : ℕ) (dto : CreateServiceRequestDto)
      → any_where (request_has id) requests ≡ false
      → IsKept strict applications (new_request id user_id dto ∷ requests) applications
  create-IsKept id user_id dto fresh = (
    request-IsConsistent (IsLive strict) (new_request id user_id dto) requests applications fresh
        (ground arith) h,
    λ k r p pin. pin,
  )
