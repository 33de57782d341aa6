-- ===== src/Market/Outcomes.antt =====
-- What the methods of the marketplace promise when nobody interferes.
use mathlib.Core.Option
use fetchit_be.Base.{
  ℕ, ◌≡◌, refl, ◌==◌, ◌&&◌, some, none, arith, ap, ◌∙◌, List, [], ◌∷◌, ◌++◌, All, find_where,
  find_where_sound, find_where-update_where, false, true, Option, All-update_where, All-trivial,
  if◌then◌else◌, sym, subst,
}
use fetchit_be.Schema.{
  ServiceRequest, Application, ApplicationStatus, assigned, is_opened, is_pending,
  service_request_assigned,
}
use fetchit_be.World.{
  World, >>=-eq-ok, ok, request_has, application_has, find_request, find_application,
  update_requests, update_applications, find_request_or_throw,
}
use fetchit_be.Market.Customer.{accept_application, accept_check, accept_commit, accept_transaction}
use fetchit_be.Market.Handyman.{is_still_open}
use fetchit_be.Market.Effects.{assign_rows, accept_rows, reject_others}

accept_check_passed :
    (request_id app_id user_id : ℕ) (app : Application) (w : World)
    → (accept_check request_id app_id user_id w).1 ≡ ok app
    → (find_where (application_has app_id) w.applications ≡ some app)
      × (app.service_request_id ≡ request_id)
      × (app.status ≡ ApplicationStatus.pending)
      × (is_still_open (find_where (request_has request_id) w.requests) ≡ true)
unfolding accept_check find_request find_application
accept_check_passed request_id app_id user_id app w h = ground arith

accept_check_reads :
    (request_id app_id user_id : ℕ) (w : World) → (accept_check request_id app_id user_id w).0 ≡ w
unfolding accept_check find_request find_application
accept_check_reads request_id app_id user_id w = ground arith

accept_commit_world :
    (request_id app_id user_id : ℕ) (app : Application) (w : World) (r : ServiceRequest)
    → (accept_commit request_id app_id user_id app w).1 ≡ ok r
    → (find_where
          (request_has request_id)
          (assign_rows request_id app.handyman_profile_id w.requests)
        ≡ some r)
      × ((accept_commit request_id app_id user_id app w).0.applications
          ≡ reject_others request_id app_id (accept_rows app_id w.applications))
      × ((accept_commit request_id app_id user_id app w).0.outbox
          ≡ w.outbox ++ service_request_assigned request_id app.handyman_profile_id user_id ∷ [])
unfolding accept_commit accept_transaction update_requests update_applications find_request_or_throw
accept_commit_world request_id app_id user_id app w r h = (ground arith, ground arith, ground arith)

assigned_row :
    (request_id profile_id : ℕ) (requests : List ServiceRequest) (r : ServiceRequest)
    → is_still_open (find_where (request_has request_id) requests) ≡ true
    → find_where (request_has request_id) (assign_rows request_id profile_id requests) ≡ some r
    → (r.status ≡ assigned) × (r.assigned_handyman_id ≡ some profile_id)
assigned_row request_id profile_id requests r live e =
    go (find_where (request_has request_id) requests)
      (find_where_sound (request_has request_id) requests) live
      (sym (find_where-update_where (request_has request_id) _ _ requests (λ q. refl)) ∙ e)
  where
    go :
        (o : Option ServiceRequest)
        → ((q : ServiceRequest) → o ≡ some q → request_has request_id q ≡ true)
        → is_still_open o ≡ true
        → Option.map
            (λ q.
              if q.id == request_id && is_opened q.status
              then record q { status = assigned; assigned_handyman_id = some profile_id }
              else q)
            o
          ≡ some r
        → (r.status ≡ assigned) × (r.assigned_handyman_id ≡ some profile_id)
    go none keyed l m = absurd (cc)
    go (some q) keyed l m = ground (arith, keyed q refl)

accepted_row :
    (request_id app_id : ℕ) (applications : List Application) (app : Application)
    → find_where (application_has app_id) applications ≡ some app
    → app.status ≡ ApplicationStatus.pending
    → find_where
        (application_has app_id)
        (reject_others request_id app_id (accept_rows app_id applications))
      ≡ some (record app { status = ApplicationStatus.accepted })
accepted_row request_id app_id applications app e p =
    let keyed = find_where_sound (application_has app_id) applications app e in
    find_where-update_where (application_has app_id) _ _ (accept_rows app_id applications)
      (λ a. refl)
    ∙ ap (Option.map _) (
        find_where-update_where (application_has app_id) _ _ applications (λ a. refl)
        ∙ ap (Option.map _) e)
    ∙ ground arith

no_pending :
    (request_id app_id : ℕ) (applications : List Application)
    → All
        (λ a. (a.service_request_id == request_id && is_pending a.status) ≡ false)
        (reject_others request_id app_id (accept_rows app_id applications))
no_pending request_id app_id applications =
    All-update_where (λ a. (a.id == app_id && is_pending a.status) ≡ false)
      (λ a. (a.service_request_id == request_id && is_pending a.status) ≡ false) _ _
      (accept_rows app_id applications) (λ a h. ground arith)
      (All-update_where (λ a. Unit {0}) (λ a. (a.id == app_id && is_pending a.status) ≡ false) _ _
        applications (λ a h. ground arith) (All-trivial applications))

-- `acceptApplication`, when it succeeds: the application was a PENDING one of this request; the
-- request is returned ASSIGNED to its handyman; that application is ACCEPTED and otherwise as it was;
-- no application of the request is left PENDING; and the handyman is told by one event.
pub accept_application_outcome :
    (request_id app_id user_id : ℕ) (w : World) (r : ServiceRequest)
    → (accept_application request_id app_id user_id w).1 ≡ ok r
    → let v = (accept_application request_id app_id user_id w).0 in
      (app : Application) × (find_where (application_has app_id) w.applications ≡ some app)
      × (app.service_request_id ≡ request_id)
      × (app.status ≡ ApplicationStatus.pending)
      × (r.status ≡ assigned)
      × (r.assigned_handyman_id ≡ some app.handyman_profile_id)
      × (find_where (application_has app_id) v.applications
          ≡ some (record app { status = ApplicationStatus.accepted }))
      × All
          (λ a. (a.service_request_id == request_id && is_pending a.status) ≡ false)
          v.applications
      × (v.outbox
          ≡ w.outbox ++ service_request_assigned request_id app.handyman_profile_id user_id ∷ [])
unfolding accept_application
accept_application_outcome request_id app_id user_id w r h =
    let (app, passed, run) =
      >>=-eq-ok (accept_check request_id app_id user_id) (accept_commit request_id app_id user_id) w
        h in
    let (found, own, pending_before, live) =
      accept_check_passed request_id app_id user_id app w passed in
    let same : accept_application request_id app_id user_id w
        ≡ accept_commit request_id app_id user_id app w =
      run
      ∙ ap (accept_commit request_id app_id user_id app)
          (accept_check_reads request_id app_id user_id w) in
    let (request_found, rows, events) =
      accept_commit_world request_id app_id user_id app w r (sym (ap (λ p. p.1) same) ∙ h) in
    let (now_assigned, to_handyman) =
      assigned_row request_id app.handyman_profile_id w.requests r live request_found in
    let rows' = ap (λ p. p.0.applications) same ∙ rows in
    (
      app,
      found,
      own,
      pending_before,
      now_assigned,
      to_handyman,
      ap (find_where (application_has app_id)) rows'
          ∙ accepted_row request_id app_id w.applications app found pending_before,
      subst (All (λ a. (a.service_request_id == request_id && is_pending a.status) ≡ false))
          (sym rows') (no_pending request_id app_id w.applications),
      ap (λ p. p.0.outbox) same ∙ events,
    )
