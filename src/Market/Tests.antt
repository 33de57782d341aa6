-- ===== src/Market/Tests.antt =====
-- A customer's request, two handymen, and calls that overlap.
use fetchit_be.Base.{
  ℕ, ◌≡◌, ◌≢◌, refl, false, none, some, [], ◌∷◌, Memᴰ, find_where, update_where, count_where,
  any_where, arith, not, All, ◌==◌, ◌&&◌, ◌++◌,
}
use fetchit_be.Schema.{
  ServiceRequest, Application, HandymanProfile, VerificationStatus, ApplicationStatus, assigned,
  in_progress, completed, cancelled, opened, is_opened, is_pending, service_request_not_open,
  invalid_transition, request, awaiting_confirmation, service_request_assigned,
}
use fetchit_be.World.{
  World, ok, err, create_request, create_application, find_request, find_request_or_throw,
  update_requests, update_applications, find_application, find_profile_by_user, services_category,
  find_existing, request_has, application_has,
}
use fetchit_be.Market.Customer.{
  create, accept_check, accept_commit, accept_transaction, accept_application, confirm_commit,
  cancel_check, cancel_commit, cancel_transaction, reject_check, CreateServiceRequestDto,
}
use fetchit_be.Market.Handyman.{
  ApplyServiceRequestDto, ApplySnapshot, JobSnapshot, apply_check, apply_commit, apply_transaction,
  apply_recheck, apply_insert, start_commit, unassign_commit, complete_commit,
}
use fetchit_be.Market.Effects.{new_application, new_request}
use fetchit_be.Market.Race.{
  InFlight, creating, applying, inserting, accepting, cancelling, commit, System, begin, write,
  recheck, first, Reach, here, next, IsInitial, Timing, any_time, releases_in_time, inserts_in_time,
}
use fetchit_be.Market.Race.Consistency.{has_handyman}
use fetchit_be.Market.Race.Agreement.{request_of, timely-pending, timely-accepted, Reach-assigned}
use fetchit_be.Market.Race.Life.{Moves, Step-Moves}
use fetchit_be.Market.Once.{accept_once, complete_once}
use fetchit_be.Market.Stale.{unassign_commit_stale, apply_insert_stale}
use fetchit_be.Market.Outcomes.{accept_application_outcome}

abbrev handyman_profile : ℕ → ℕ → HandymanProfile
handyman_profile id user_id = record {
  id = id;
  user_id = user_id;
  details = none;
  verification_status = VerificationStatus.verified;
  verified_at = some 1;
  rejection_reason = none;
  reviewed_by_id = some 1;
}

abbrev start : World
start = record {
  users = [];
  profiles = handyman_profile 7 70 ∷ handyman_profile 8 80 ∷ [];
  categories =
      record { handyman_profile_id = 7; category_id = 5 }
      ∷ record { handyman_profile_id = 8; category_id = 5 }
      ∷ [];
  documents = [];
  audit_log = [];
  sessions = [];
  objects = [];
  service_categories = [];
  password_resets = [];
  email_verifications = [];
  requests = [];
  applications = [];
  outbox = [];
}

abbrev dto : CreateServiceRequestDto
dto = record {
  category_id = 5;
  details = record {
    title = "tap";
    description = "leaks";
    location = "Lagos";
    latitude = none;
    longitude = none;
    budget_min = none;
    budget_max = none;
  };
}

abbrev offer : ApplyServiceRequestDto
offer = record { cover_message = none; proposed_rate = some 50 }

abbrev call_create : InFlight
call_create = creating 1 100 dto

abbrev call_apply : InFlight
call_apply = applying 11 1 (record { profile_id = 7; existing = none }) offer

abbrev call_insert : InFlight
call_insert = inserting 11 1 (record { profile_id = 7; existing = none }) offer

abbrev call_accept : InFlight
call_accept = accepting 1 11 100 (new_application 11 1 7 offer)

abbrev w1 : World
w1 = commit call_create start

abbrev w2 : World
w2 = commit call_apply w1

abbrev w3 : World
w3 = commit call_accept w2

abbrev idle : World → System
idle w = record { world = w; calls = [] }

start-IsInitial : IsInitial (idle start)
start-IsInitial = record { no_requests = refl; no_applications = refl; no_calls = refl }

module _ (timing : Timing) where
  reach1 : Reach timing (idle start) (idle w1)
  reach1 =
      next (next here (begin start [] call_create tt)) (write start _ [] call_create (first []) tt)

  reach2 : Reach timing (idle start) (idle w2)
  unfolding commit create create_request apply_check find_where any_where find_profile_by_user
      services_category find_existing find_request
  reach2 =
      next (next reach1 (begin w1 [] call_apply (70, refl)))
        (write w1 _ [] call_apply (first []) tt)

  reach3 : Reach timing (idle start) (idle w3)
  unfolding commit create create_request apply_commit apply_transaction create_application
      accept_check find_where any_where find_request find_application
  reach3 =
      next (next reach2 (begin w2 [] call_accept refl)) (write w2 _ [] call_accept (first []) tt)

  -- The same with the two steps of an application's transaction.
  reach2' : Reach timing (idle start) (idle (commit call_insert w1))
  unfolding commit create create_request apply_check apply_recheck find_where any_where
      find_profile_by_user services_category find_existing find_request
  reach2' =
      next
        (next (next reach1 (begin w1 [] call_apply (70, refl)))
          (recheck w1 _ [] 11 1 (record { profile_id = 7; existing = none }) offer (first []) refl))
        (write w1 _ [] call_insert (first []) (λ _. refl))

abbrev accepted_application : Application
accepted_application = record (new_application 11 1 7 offer) { status = ApplicationStatus.accepted }

abbrev assigned_example : ServiceRequest
assigned_example = record (new_request 1 100 dto) {
  status = assigned;
  assigned_handyman_id = some 7;
}

pending_row : Memᴰ (new_application 11 1 7 offer) (commit call_insert w1).applications
unfolding commit create create_request apply_insert create_application find_where any_where
    find_request
pending_row = Memᴰ.head refl

accepted_row : Memᴰ accepted_application w3.applications
unfolding commit create create_request apply_commit apply_transaction create_application
    accept_commit accept_transaction update_requests update_applications find_request_or_throw
    find_where any_where count_where update_where find_request
accepted_row = Memᴰ.head refl

assigned_row : find_where (request_has 1) w3.requests ≡ some assigned_example
unfolding commit create create_request apply_commit apply_transaction create_application
    accept_commit accept_transaction update_requests update_applications find_request_or_throw
    find_where any_where count_where update_where find_request
assigned_row = refl

assigned_member : Memᴰ assigned_example w3.requests
unfolding commit create create_request apply_commit apply_transaction create_application
    accept_commit accept_transaction update_requests update_applications find_request_or_throw
    find_where any_where count_where update_where find_request
assigned_member = Memᴰ.head refl

timely-pending_example :
    (r : ServiceRequest) × (request_of (commit call_insert w1) (new_application 11 1 7 offer)
      ≡ some r)
    × (r.status ≡ opened)
timely-pending_example =
    timely-pending start-IsInitial (reach2' inserts_in_time) (new_application 11 1 7 offer)
      pending_row refl

timely-accepted_example :
    (r : ServiceRequest) × (request_of w3 accepted_application ≡ some r)
    × (r.status ≢ opened)
    × (r.assigned_handyman_id ≡ some 7)
timely-accepted_example =
    timely-accepted start-IsInitial (reach3 releases_in_time) accepted_application accepted_row refl

Reach-assigned_example :
    has_handyman assigned_example.assigned_handyman_id ≡ not (is_opened assigned)
Reach-assigned_example =
    Reach-assigned start-IsInitial (reach3 any_time) assigned_example assigned_member (λ e. cc)

abbrev job : JobSnapshot
job = record { profile = handyman_profile 7 70; job = assigned_example }

Step-Moves_example : Moves 1 opened w3.requests
unfolding commit create create_request apply_commit apply_transaction create_application
    cancel_check cancel_commit cancel_transaction accept_check accept_commit accept_transaction
    update_requests update_applications find_request_or_throw find_where any_where count_where
    update_where find_request find_application
Step-Moves_example =
    Step-Moves start-IsInitial (next (reach2 any_time) (begin w2 [] call_accept refl))
      (write w2 _ [] call_accept (first []) tt) 1 (new_request 1 100 dto) refl

abbrev call_cancel : InFlight
call_cancel = cancelling 1 (new_request 1 100 dto) 100 9

abbrev w4 : World
w4 = commit call_cancel w2

unassign_commit_stale_example :
    let v = (unassign_commit 1 (record job { profile = handyman_profile 8 80 }) w3).0 in
    (find_where (request_has 1) v.requests ≡ some (new_request 1 100 dto))
    × Memᴰ accepted_application v.applications
unassign_commit_stale_example =
    unassign_commit_stale 1 (record job { profile = handyman_profile 8 80 }) w3 assigned_example
      accepted_application assigned_row refl accepted_row refl refl (omega arith)

accept_once_example :
    let v = (accept_commit 1 11 100 (new_application 11 1 7 offer) w2).0 in
    accept_commit 1 12 100 (new_application 12 1 8 offer) v ≡ (v, err service_request_not_open)
unfolding commit create create_request apply_commit apply_transaction create_application
    accept_commit accept_transaction update_requests update_applications find_request_or_throw
    find_where any_where count_where update_where find_request
accept_once_example =
    accept_once 1 11 100 12 100 (new_application 11 1 7 offer) (new_application 12 1 8 offer) w2
      assigned_example refl

-- The job is started, completed and confirmed.
abbrev started : World
started = (start_commit 1 w3).0

abbrev started_job : JobSnapshot
started_job = record {
  profile = handyman_profile 7 70;
  job = record assigned_example { status = in_progress };
}

started_row :
    find_where (request_has 1) started.requests
    ≡ some (record assigned_example { status = in_progress })
unfolding commit create create_request apply_commit apply_transaction create_application
    accept_commit accept_transaction update_requests update_applications find_request_or_throw
    find_where any_where count_where update_where find_request start_commit
started_row = refl

complete_once_example :
    let u = (complete_commit 1 started_job started).0 in
    let v = (confirm_commit 1 started_job.job 100 20 u).0 in
    let refused = invalid_transition (request in_progress) (request awaiting_confirmation) in
    (complete_commit 1 started_job u ≡ (u, err refused))
    × (complete_commit 1 started_job v ≡ (v, err refused))
complete_once_example = complete_once 1 100 20 started_job started_job started_job.job started

-- The first completion does submit the work, and the confirmation then completes the request.
completed_row :
    find_where
      (request_has 1)
      (confirm_commit 1 started_job.job 100 20 (complete_commit 1 started_job started).0).0.requests
    ≡ some (record assigned_example { status = completed; completed_at = some 20 })
unfolding commit create create_request apply_commit apply_transaction create_application
    accept_commit accept_transaction update_requests update_applications find_request_or_throw
    find_where any_where count_where update_where find_request start_commit complete_commit
    confirm_commit
completed_row = refl

apply_insert_stale_example :
    let v = (cancel_commit 1 (new_request 1 100 dto) 100 9 w1).0 in
    let seen : ApplySnapshot = record { profile_id = 7; existing = none } in
    let u = (apply_insert 11 1 seen offer v).0 in
    ((apply_recheck 1 w1).1 ≡ ok tt)
    × ((cancel_commit 1 (new_request 1 100 dto) 100 9 w1).1
        ≡ ok (record (new_request 1 100 dto) { status = cancelled; cancelled_at = some 9 }))
    × ((apply_insert 11 1 seen offer v).1 ≡ ok (new_application 11 1 7 offer))
    × (find_where (request_has 1) u.requests
        ≡ some (record (new_request 1 100 dto) { status = cancelled; cancelled_at = some 9 }))
    × (find_where (application_has 11) u.applications ≡ some (new_application 11 1 7 offer))
    × ((reject_check 1 11 100 u).1 ≡ err service_request_not_open)
unfolding commit create create_request find_where any_where
apply_insert_stale_example =
    apply_insert_stale 11 1 7 100 9 offer w1 (new_request 1 100 dto) refl refl refl refl refl

accept_application_outcome_example :
    let v = (accept_application 1 11 100 w2).0 in
    (app : Application) × (find_where (application_has 11) w2.applications ≡ some app)
    × (app.service_request_id ≡ 1)
    × (app.status ≡ ApplicationStatus.pending)
    × (assigned ≡ assigned)
    × (some 7 ≡ some app.handyman_profile_id)
    × (find_where (application_has 11) v.applications
        ≡ some (record app { status = ApplicationStatus.accepted }))
    × All (λ a. (a.service_request_id == 1 && is_pending a.status) ≡ false) v.applications
    × (v.outbox ≡ w2.outbox ++ service_request_assigned 1 app.handyman_profile_id 100 ∷ [])
unfolding accept_application commit create create_request apply_commit apply_transaction
    create_application cancel_check cancel_commit cancel_transaction accept_check accept_commit
    accept_transaction update_requests update_applications find_request_or_throw find_where
    any_where count_where update_where find_request find_application
accept_application_outcome_example = accept_application_outcome 1 11 100 w2 assigned_example refl
