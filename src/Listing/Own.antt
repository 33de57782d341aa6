-- ===== src/Listing/Own.antt =====
-- The listing of a handyman's own requests, and the numbers of the dashboard.
use fetchit_be.Base.{
  ℕ, ◌+◌, ◌-◌, ◌*◌, ◌&&◌, true, Option, some, List, [], ◌∷◌, All, is_id, ◌≡◌, refl, sym, ap, subst,
  ◌∙◌, arith, count_where, or_else,
}
use fetchit_be.Schema.{
  HandymanProfile, ServiceRequest, is_assigned, is_in_progress, is_awaiting_confirmation,
  is_completed,
}
use fetchit_be.World.{World, M, Result, ok, err, >>=-eq-ok}
use fetchit_be.Vetting.Profile.{get_or_create, get_dashboard, count_status}
use fetchit_be.Listing.{PaginationDto, PaginatedResult, find_page, create_pagination_meta}
use fetchit_be.Listing.Requests.{
  AssignedRequest, assigned_view, assigned_page, get_service_requests, is_listed, RequestProgress,
  ongoing, finished,
}
use fetchit_be.Listing.Private.{find_page-All}

-- The three statuses that the dashboard counts one by one are those of the filter.
count-ongoing :
    (profile_id : ℕ) (rows : List ServiceRequest)
    → count_where (λ r. is_id r.assigned_handyman_id profile_id && is_assigned r.status) rows
        + count_where (λ r. is_id r.assigned_handyman_id profile_id && is_in_progress r.status) rows
        + count_where
            (λ r. is_id r.assigned_handyman_id profile_id && is_awaiting_confirmation r.status)
            rows
      ≡ count_where (is_listed profile_id (some ongoing)) rows
unfolding count_where
count-ongoing profile_id [] = refl
count-ongoing profile_id (r ∷ rows) = ground (arith, count-ongoing profile_id rows)

-- The profile that both methods read first, and the state after it.
listed :
    (id user_id : ℕ) (query : PaginationDto) (filter : Option RequestProgress) (w : World)
    (page : PaginatedResult AssignedRequest)
    → (get_service_requests id user_id query filter w).1 ≡ ok page
    → (p : HandymanProfile) × ((get_or_create id user_id w).1 ≡ ok p)
      × (page ≡ assigned_page p.id query filter (get_or_create id user_id w).0)
unfolding get_service_requests
listed id user_id query filter w page h =
    let (p, found, rest) =
      >>=-eq-ok (get_or_create id user_id)
        (λ profile v. (v, ok (assigned_page profile.id query filter v))) w h in
    let both : ok page ≡ ok (assigned_page p.id query filter (get_or_create id user_id w).0) =
      sym h ∙ ap (λ r. r.1) rest in
    (p, found, cc)

-- The listing holds requests that are assigned to the caller's profile, of the progress that is
-- asked for.
pub get_service_requests-IsOwn :
    (id user_id : ℕ) (query : PaginationDto) (filter : Option RequestProgress) (w : World)
    (page : PaginatedResult AssignedRequest)
    → (get_service_requests id user_id query filter w).1 ≡ ok page
    → (p : HandymanProfile) × ((get_or_create id user_id w).1 ≡ ok p)
      × All (λ a. is_listed p.id filter a.request ≡ true) page.items
unfolding assigned_page assigned_view
get_service_requests-IsOwn id user_id query filter w page h =
    let (p, found, shown) = listed id user_id query filter w page h in
    let v = (get_or_create id user_id w).0 in
    (
      p,
      found,
      subst (λ q. All (λ a. is_listed p.id filter a.request ≡ true) q.items) (sym shown)
          (find_page-All (λ (a : AssignedRequest). is_listed p.id filter a.request ≡ true)
            (assigned_view v) (is_listed p.id filter)
            ((or_else query.page 1 - 1) * or_else query.limit 10) (or_else query.page 1)
            (or_else query.limit 10) v.requests (λ r t. t)),
    )

abbrev counts : HandymanProfile → M (HandymanProfile × ℕ × ℕ)
counts p v = (
  v,
  ok (
    p,
    count_where (λ r. is_id r.assigned_handyman_id p.id && is_assigned r.status) v.requests
        + count_where (λ r. is_id r.assigned_handyman_id p.id && is_in_progress r.status) v.requests
        + count_where (λ r. is_id r.assigned_handyman_id p.id && is_awaiting_confirmation r.status)
            v.requests,
    count_where (λ r. is_id r.assigned_handyman_id p.id && is_completed r.status) v.requests,
  ),
)

abbrev value_or : {B : Type 0} → B → Result B → B
value_or d (ok b) = b
value_or d (err e) = d

-- What the dashboard counts.
counted :
    (id user_id : ℕ) (w : World) (profile : HandymanProfile) (ongoing_count completed_count : ℕ)
    → (get_dashboard id user_id w).1 ≡ ok (profile, ongoing_count, completed_count)
    → ((get_or_create id user_id w).1 ≡ ok profile)
      × (ongoing_count
          ≡ count_where
              (is_listed profile.id (some ongoing))
              (get_or_create id user_id w).0.requests)
      × (completed_count
          ≡ count_where
              (is_listed profile.id (some finished))
              (get_or_create id user_id w).0.requests)
unfolding get_dashboard count_status
counted id user_id w profile ongoing_count completed_count h =
    let (p, found, rest) = >>=-eq-ok (get_or_create id user_id) counts w h in
    let seen : HandymanProfile × ℕ × ℕ = (profile, ongoing_count, completed_count) in
    let e = ap (value_or seen) (sym h ∙ ap (λ r. r.1) rest) in
    let same = ap (λ t. t.0) e in
    let o = ap (λ t. t.1) e in
    let c = ap (λ t. t.2) e in
    let v = (get_or_create id user_id w).0 in
    (
      found ∙ ap ok (sym same),
      o
          ∙ count-ongoing p.id v.requests
          ∙ ap (λ q. count_where (is_listed q.id (some ongoing)) v.requests) (sym same),
      c ∙ ap (λ q. count_where (is_listed q.id (some finished)) v.requests) (sym same),
    )

-- The dashboard and the listing agree: the numbers of ongoing and of completed requests are the
-- totals that the listing reports for the two filters, on whatever page.
pub get_dashboard-totals :
    (id user_id : ℕ) (query query' : PaginationDto) (w : World) (profile : HandymanProfile)
    (ongoing_count completed_count : ℕ) (page page' : PaginatedResult AssignedRequest)
    → (get_dashboard id user_id w).1 ≡ ok (profile, ongoing_count, completed_count)
    → (get_service_requests id user_id query (some ongoing) w).1 ≡ ok page
    → (get_service_requests id user_id query' (some finished) w).1 ≡ ok page'
    → (page.about.total ≡ ongoing_count) × (page'.about.total ≡ completed_count)
unfolding assigned_page find_page create_pagination_meta
get_dashboard-totals id user_id query query' w profile ongoing_count completed_count page page' h l
      l' =
    let (own, o, c) = counted id user_id w profile ongoing_count completed_count h in
    let (p, found, shown) = listed id user_id query (some ongoing) w page l in
    let (p', found', shown') = listed id user_id query' (some finished) w page' l' in
    let same : p ≡ profile = cc in
    let same' : p' ≡ profile = cc in
    (
      ap (λ q. q.about.total) shown
          ∙ ap
              (λ q.
                count_where (is_listed q.id (some ongoing)) (get_or_create id user_id w).0.requests)
              same
          ∙ sym o,
      ap (λ q. q.about.total) shown'
          ∙ ap
              (λ q.
                count_where (is_listed q.id (some finished))
                  (get_or_create id user_id w).0.requests)
              same'
          ∙ sym c,
    )
