-- ===== src/Market/Stale.antt =====
-- Writes that come too late: a handyman's cancellation after the request has passed to another one,
-- and an application's insert after the customer's cancellation.
use mathlib.Core.Option
use fetchit_be.Base.{
  ℕ, ◌≡◌, ◌≢◌, refl, ◌==◌, ◌&&◌, some, none, arith, ap, ◌∙◌, Memᴰ, find_where, count_where,
  count_where_found, find_where_sound, find_where-update_where, Memᴰ-update_where, subst, sym, true,
  false, ◌∷◌, any_where, find_where-any_where, any_where-update_where,
}
use fetchit_be.Schema.{
  ServiceRequest, ServiceRequestStatus, Application, ApplicationStatus, assigned, opened,
  in_progress, awaiting_confirmation, completed, cancelled, is_assigned, same_status,
  service_request_not_open,
}
use fetchit_be.World.{
  World, ok, err, request_has, application_has, is_between, update_requests, update_applications,
  find_request, find_application, find_request_or_throw, create_application,
}
use fetchit_be.Market.Handyman.{
  JobSnapshot, ApplySnapshot, ApplyServiceRequestDto, unassign_commit, unassign_transaction,
  apply_recheck, apply_insert,
}
use fetchit_be.Market.Customer.{cancel_commit, cancel_transaction, reject_check}
use fetchit_be.Market.Effects.{reopen_rows, unaccept_rows, cancel_rows, sweep_rows, new_application}

reopened :
    (id : ℕ) (seen : JobSnapshot) (w : World) (r' : ServiceRequest)
    → count_where (λ r. r.id == id && is_assigned r.status) w.requests ≢ 0
    → find_where (request_has id) (reopen_rows id w.requests) ≡ some r'
    → ((unassign_commit id seen w).0.requests ≡ reopen_rows id w.requests)
      × ((unassign_commit id seen w).0.applications
          ≡ unaccept_rows id seen.profile.id w.applications)
unfolding unassign_commit unassign_transaction update_requests update_applications
    find_request_or_throw
reopened id seen w r' h f = ground arith

-- If the request is now ASSIGNED and another handyman has the ACCEPTED application, the write of the
-- first handyman's cancellation opens the request all the same and takes it from the other handyman,
-- whose application stays ACCEPTED.
pub unassign_commit_stale :
    (id : ℕ) (seen : JobSnapshot) (w : World) (r : ServiceRequest) (a : Application)
    → find_where (request_has id) w.requests ≡ some r
    → r.status ≡ assigned
    → Memᴰ a w.applications
    → a.status ≡ ApplicationStatus.accepted
    → a.service_request_id ≡ id
    → a.handyman_profile_id ≢ seen.profile.id
    → let v = (unassign_commit id seen w).0 in
      (find_where (request_has id) v.requests
        ≡ some (record r { status = opened; assigned_handyman_id = none }))
      × Memᴰ a v.applications
unassign_commit_stale id seen w r a found status m accepted own other =
    let keyed = find_where_sound (request_has id) w.requests r found in
    let reopen : find_where (request_has id) (reopen_rows id w.requests)
        ≡ some (record r { status = opened; assigned_handyman_id = none }) =
      find_where-update_where (request_has id) _ _ w.requests (λ q. refl)
      ∙ ap (Option.map _) found
      ∙ ground arith in
    let (requests, applications) =
      reopened id seen w _ (count_where_found (request_has id) _ w.requests r found (ground arith))
        reopen in
    (
      ap (find_where (request_has id)) requests ∙ reopen,
      subst (Memᴰ a) (sym applications) (Memᴰ-update_where _ _ w.applications a (ground arith) m),
    )

same_status_refl : (s : ServiceRequestStatus) → same_status s s ≡ true
same_status_refl opened = refl
same_status_refl assigned = refl
same_status_refl in_progress = refl
same_status_refl awaiting_confirmation = refl
same_status_refl completed = refl
same_status_refl cancelled = refl

cancelled_tables :
    (request_id user_id now : ℕ) (w : World) (r : ServiceRequest)
    → find_where (request_has request_id) w.requests ≡ some r
    → find_where (request_has request_id) (cancel_rows request_id r now w.requests)
      ≡ some (record r { status = cancelled; cancelled_at = some now })
    → let v = (cancel_commit request_id r user_id now w).0 in
      ((cancel_commit request_id r user_id now w).1
        ≡ ok (record r { status = cancelled; cancelled_at = some now }))
      × (v.requests ≡ cancel_rows request_id r now w.requests)
      × (v.applications ≡ sweep_rows request_id w.applications)
      × (v.profiles ≡ w.profiles)
unfolding cancel_commit cancel_transaction update_requests update_applications find_request_or_throw
cancelled_tables request_id user_id now w r found after =
    let keyed = find_where_sound (request_has request_id) w.requests r found in
    let counted =
      count_where_found (request_has request_id)
        (λ q. q.id == request_id && same_status q.status r.status) w.requests r found
        (rw (keyed, same_status_refl r.status) refl) in
    (ground arith, ground arith, ground arith, ground arith)

inserted :
    (id request_id profile_id : ℕ) (dto : ApplyServiceRequestDto) (v : World)
    → any_where (request_has request_id) v.requests ≡ true
    → any_where (λ p. p.id == profile_id) v.profiles ≡ true
    → any_where (application_has id) v.applications ≡ false
    → any_where (is_between request_id profile_id) v.applications ≡ false
    → apply_insert id request_id (record { profile_id = profile_id; existing = none }) dto v ≡ (
      record v { applications = new_application id request_id profile_id dto ∷ v.applications },
      ok (new_application id request_id profile_id dto),
    )
unfolding apply_insert create_application
inserted id request_id profile_id dto v there owner fresh alone = ground arith

reject_too_late :
    (request_id app_id : ℕ) (u : World) (r : ServiceRequest) (a : Application)
    → find_where (request_has request_id) u.requests ≡ some r
    → find_where (application_has app_id) u.applications ≡ some a
    → a.service_request_id ≡ request_id
    → r.status ≡ cancelled
    → (reject_check request_id app_id r.customer_id u).1 ≡ err service_request_not_open
unfolding reject_check find_request find_application
reject_too_late request_id app_id u r a found there own gone = ground arith

recheck_passes :
    (request_id : ℕ) (w : World) (r : ServiceRequest)
    → find_where (request_has request_id) w.requests ≡ some r
    → r.status ≡ opened
    → (apply_recheck request_id w).1 ≡ ok tt
unfolding apply_recheck find_request
recheck_passes request_id w r found live = ground arith

gone_request :
    (request_id now : ℕ) (w : World) (r : ServiceRequest)
    → find_where (request_has request_id) w.requests ≡ some r
    → find_where (request_has request_id) (cancel_rows request_id r now w.requests)
      ≡ some (record r { status = cancelled; cancelled_at = some now })
gone_request request_id now w r found =
    let keyed = find_where_sound (request_has request_id) w.requests r found in
    find_where-update_where (request_has request_id) _ _ w.requests (λ q. refl)
    ∙ ap (Option.map _) found
    ∙ rw (keyed, same_status_refl r.status) refl

new_row :
    (id : ℕ) (a : Application) (v : World)
    → a.id ≡ id
    → find_where (application_has id) (a ∷ v.applications) ≡ some a
unfolding find_where
new_row id a v same = ground arith

-- While a request is OPEN, the read in the transaction of an application passes. If the customer's
-- cancellation commits after that read, the insert of a first application, under an unused key and
-- by a stored profile, succeeds all the same: it leaves a PENDING application on the CANCELLED
-- request, and a rejection by the customer is refused, since the request is not OPEN.
pub apply_insert_stale :
    (id request_id profile_id user_id now : ℕ) (dto : ApplyServiceRequestDto) (w : World)
    (r : ServiceRequest)
    → find_where (request_has request_id) w.requests ≡ some r
    → r.status ≡ opened
    → any_where (λ p. p.id == profile_id) w.profiles ≡ true
    → any_where (application_has id) w.applications ≡ false
    → any_where (is_between request_id profile_id) w.applications ≡ false
    → let v = (cancel_commit request_id r user_id now w).0 in
      let seen : ApplySnapshot = record { profile_id = profile_id; existing = none } in
      let u = (apply_insert id request_id seen dto v).0 in
      ((apply_recheck request_id w).1 ≡ ok tt)
      × ((cancel_commit request_id r user_id now w).1
          ≡ ok (record r { status = cancelled; cancelled_at = some now }))
      × ((apply_insert id request_id seen dto v).1
          ≡ ok (new_application id request_id profile_id dto))
      × (find_where (request_has request_id) u.requests
          ≡ some (record r { status = cancelled; cancelled_at = some now }))
      × (find_where (application_has id) u.applications
          ≡ some (new_application id request_id profile_id dto))
      × ((reject_check request_id id r.customer_id u).1 ≡ err service_request_not_open)
apply_insert_stale id request_id profile_id user_id now dto w r found live owner fresh alone =
    let gone = record r { status = cancelled; cancelled_at = some now } in
    let after = gone_request request_id now w r found in
    let (done, requests, applications, profiles) =
      cancelled_tables request_id user_id now w r found after in
    let v = (cancel_commit request_id r user_id now w).0 in
    let there : find_where (request_has request_id) v.requests ≡ some gone =
      ap (find_where (request_has request_id)) requests ∙ after in
    let new = new_application id request_id profile_id dto in
    let e =
      inserted id request_id profile_id dto v
        (find_where-any_where (request_has request_id) v.requests gone there)
        (ap (any_where (λ p. p.id == profile_id)) profiles ∙ owner)
        (ap (any_where (application_has id)) applications
          ∙ any_where-update_where (application_has id) _ _ w.applications (λ a. refl)
          ∙ fresh)
        (ap (any_where (is_between request_id profile_id)) applications
          ∙ any_where-update_where (is_between request_id profile_id) _ _ w.applications (λ a. refl)
          ∙ alone) in
    let u = record v { applications = new ∷ v.applications } in
    let row : find_where (application_has id) u.applications ≡ some new = new_row id new v refl in
    (
      recheck_passes request_id w r found live,
      done,
      ap (λ p. p.1) e,
      ap (λ p. find_where (request_has request_id) p.0.requests) e ∙ there,
      ap (λ p. find_where (application_has id) p.0.applications) e ∙ row,
      ap (λ p. (reject_check request_id id r.customer_id p.0).1) e
          ∙ reject_too_late request_id id u gone new there row refl refl,
    )
