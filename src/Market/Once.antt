-- ===== src/Market/Once.antt =====
-- Calls made twice: a double submit, or two calls that both passed their checks.
use fetchit_be.Base.{
  ℕ, ◌≡◌, ◌==◌, ◌&&◌, some, arith, ap, ◌∙◌, List, update_where, count_where,
  count_where-update_where, update_where_none, count_where-update_all, count_where_zero,
  update_where-edit, update_all, update_all-update_all, edit, Bool,
}
use fetchit_be.Schema.{
  ServiceRequest, Application, is_opened, is_in_progress, is_awaiting_confirmation,
  service_request_not_open, forbidden, invalid_transition, request, awaiting_confirmation,
  completed,
}
use fetchit_be.World.{World, ok, err, update_requests, update_applications, find_request_or_throw}
use fetchit_be.Market.Customer.{accept_commit, accept_transaction, confirm_commit}
use fetchit_be.Market.Handyman.{JobSnapshot, complete_commit}
use fetchit_be.Market.Effects.{assign_rows, complete_rows, finish_rows}

-- A commit that matches no row changes nothing and throws.
accept_refused :
    (request_id app_id user_id : ℕ) (app : Application) (v : World)
    → count_where (λ r. r.id == request_id && is_opened r.status) v.requests ≡ 0
    → accept_commit request_id app_id user_id app v ≡ (v, err service_request_not_open)
unfolding accept_commit accept_transaction update_requests
accept_refused request_id app_id user_id app v h = ground arith

accepted_requests :
    (request_id app_id user_id : ℕ) (app : Application) (w : World) (r : ServiceRequest)
    → (accept_commit request_id app_id user_id app w).1 ≡ ok r
    → (accept_commit request_id app_id user_id app w).0.requests
      ≡ assign_rows request_id app.handyman_profile_id w.requests
unfolding accept_commit accept_transaction update_requests update_applications find_request_or_throw
accepted_requests request_id app_id user_id app w r h = ground arith

-- Of two acceptances in flight for one request, of whatever applications, at most one succeeds: once
-- one has, the other changes nothing, emits nothing and throws.
pub accept_once :
    (request_id app_id user_id app_id' user_id' : ℕ) (app app' : Application) (w : World)
    (r : ServiceRequest)
    → (accept_commit request_id app_id user_id app w).1 ≡ ok r
    → let v = (accept_commit request_id app_id user_id app w).0 in
      accept_commit request_id app_id' user_id' app' v ≡ (v, err service_request_not_open)
accept_once request_id app_id user_id app_id' user_id' app app' w r h =
    accept_refused request_id app_id' user_id' app'
      (accept_commit request_id app_id user_id app w).0
      (ap (count_where (λ q. q.id == request_id && is_opened q.status))
          (accepted_requests request_id app_id user_id app w r h)
        ∙ count_where-update_where _ _ w.requests (λ q. ground arith))

-- An update that matches no row writes the table as it was.
idle :
    {A : Type 0} (test : A → Bool) (f : A → A) (xs : List A)
    → count_where test xs ≡ 0
    → update_where test f xs ≡ xs
idle test f xs h = update_where_none test f xs (count_where_zero test xs h)

confirm_refused :
    (id user_id now : ℕ) (seen : ServiceRequest) (v : World)
    → count_where (λ r. r.id == id && is_awaiting_confirmation r.status) v.requests ≡ 0
    → confirm_commit id seen user_id now v ≡ (v, err forbidden)
unfolding confirm_commit update_requests
confirm_refused id user_id now seen v h =
    ground
      (arith, idle _ (λ r. record r { status = completed; completed_at = some now }) v.requests h)

confirmed_requests :
    (id user_id now : ℕ) (seen : ServiceRequest) (w : World)
    → (confirm_commit id seen user_id now w).0.requests ≡ complete_rows id now w.requests
unfolding confirm_commit update_requests find_request_or_throw
confirmed_requests id user_id now seen w = ground arith

-- Of two confirmations in flight for one request, at most one succeeds: once one has been written,
-- the other changes nothing, emits no second event and throws.
confirm_once :
    (id user_id user_id' now now' : ℕ) (seen seen' : ServiceRequest) (w : World)
    → let v = (confirm_commit id seen user_id now w).0 in
      confirm_commit id seen' user_id' now' v ≡ (v, err forbidden)
confirm_once id user_id user_id' now now' seen seen' w =
    confirm_refused id user_id' now' seen' (confirm_commit id seen user_id now w).0 (
      ap (count_where (λ q. q.id == id && is_awaiting_confirmation q.status))
        (confirmed_requests id user_id now seen w)
      ∙ count_where-update_where _ _ w.requests (λ q. ground arith))

complete_refused :
    (id : ℕ) (seen : JobSnapshot) (v : World)
    → count_where (λ r. r.id == id && is_in_progress r.status) v.requests ≡ 0
    → complete_commit id seen v
      ≡ (v, err (invalid_transition (request seen.job.status) (request awaiting_confirmation)))
unfolding complete_commit update_requests
complete_refused id seen v h =
    ground (arith, idle _ (λ r. record r { status = awaiting_confirmation }) v.requests h)

finished_requests :
    (id : ℕ) (seen : JobSnapshot) (w : World)
    → (complete_commit id seen w).0.requests ≡ finish_rows id w.requests
unfolding complete_commit update_requests find_request_or_throw
finished_requests id seen w = ground arith

-- A second submission of "complete" after the first was written changes nothing, emits no event and
-- throws, at once and also when the customer's confirmation has been written in between: it never
-- takes a request back to AWAITING_CONFIRMATION.
pub complete_once :
    (id user_id now : ℕ) (seen seen' : JobSnapshot) (confirming : ServiceRequest) (w : World)
    → let u = (complete_commit id seen w).0 in
      let v = (confirm_commit id confirming user_id now u).0 in
      let refused = invalid_transition (request seen'.job.status) (request awaiting_confirmation) in
      (complete_commit id seen' u ≡ (u, err refused))
      × (complete_commit id seen' v ≡ (v, err refused))
complete_once id user_id now seen seen' confirming w = (
  complete_refused id seen' (complete_commit id seen w).0 (
      ap (count_where (λ q. q.id == id && is_in_progress q.status)) (finished_requests id seen w)
      ∙ count_where-update_where _ _ w.requests (λ q. ground arith)),
  complete_refused id seen'
      (confirm_commit id confirming user_id now (complete_commit id seen w).0).0
      (ap (count_where (λ q. q.id == id && is_in_progress q.status)) (
          confirmed_requests id user_id now confirming (complete_commit id seen w).0
          ∙ ap (complete_rows id now) (finished_requests id seen w)
          ∙ ap (complete_rows id now) (update_where-edit _ _ w.requests)
          ∙ update_where-edit _ _ (update_all _ w.requests)
          ∙ update_all-update_all _ _ w.requests)
        ∙ never id now w.requests),
)
  where
    never :
        (k t : ℕ) (xs : List ServiceRequest)
        → count_where
            (λ q. q.id == k && is_in_progress q.status)
            (update_all
              (λ q.
                edit
                  (λ r. r.id == k && is_awaiting_confirmation r.status)
                  (λ r. record r { status = completed; completed_at = some t })
                  (edit
                    (λ r. r.id == k && is_in_progress r.status)
                    (λ r. record r { status = awaiting_confirmation })
                    q))
              xs)
          ≡ 0
    never k t xs = count_where-update_all _ _ xs (λ q. ground arith)
