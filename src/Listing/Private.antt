-- ===== src/Listing/Private.antt =====
-- Who sees what in the listings of requests.
use fetchit_be.Base.{
  ℕ, zero, suc, ◌-◌, ◌*◌, ◌==◌, Bool, true, false, some, List, [], ◌∷◌, map, All, ◌≡◌, refl, sym,
  ap, subst, ◌∙◌, arith, find_where, filter_where-All, count_where, Option-cases, Bool-cases, inl,
  inr, or_else,
}
use mathlib.Core.Path.{ap₂}
use fetchit_be.Schema.{User, HandymanProfile, opened, verified, is_opened, is_verified}
use fetchit_be.World.{World, ok, find_profile_by_user}
use fetchit_be.Listing.{
  PaginationDto, PaginatedResult, take, drop, find_page, find_many, create_pagination_meta,
}
use fetchit_be.Listing.Requests.{
  card_of, include_user, OpenRequest, open_request, open_page, browse_open_requests, map_page,
}

module _ {A : Type 0} (P : A → Type 0) where
  take-All : (n : ℕ) (xs : List A) → All P xs → All P (take n xs)
  take-All zero xs h = tt
  take-All (suc n) [] h = tt
  take-All (suc n) (x ∷ xs) (p, h) = (p, take-All n xs h)

  drop-All : (n : ℕ) (xs : List A) → All P xs → All P (drop n xs)
  drop-All zero xs h = h
  drop-All (suc n) [] h = tt
  drop-All (suc n) (x ∷ xs) (p, h) = drop-All n xs h

map-All :
    {A B : Type 0} (P : B → Type 0) (f : A → B) (xs : List A)
    → All (λ x. P (f x)) xs
    → All P (map f xs)
map-All P f [] h = tt
map-All P f (x ∷ xs) (p, h) = (p, map-All P f xs h)

-- Every row of a page satisfies what its query asks for.
pub find_page-All :
    {A B : Type 0} (P : B → Type 0) (f : A → B) (test : A → Bool) (skipped page limit : ℕ)
    (rows : List A)
    → ((x : A) → test x ≡ true → P (f x))
    → All P (map_page f (find_page test (λ xs. xs) skipped page limit rows)).items
unfolding find_page find_many
find_page-All P f test skipped page limit rows h = map-All P f _ (
    take-All (λ x. P (f x)) limit _
      (drop-All (λ x. P (f x)) skipped _ (filter_where-All (λ x. P (f x)) test rows h)))

-- The profile of a verified handyman.
pub record IsVerifiedHandyman (user_id : ℕ) (w : World) : Type 0 where
  pub profile : HandymanProfile
  pub own : find_where (λ p. p.user_id == user_id) w.profiles ≡ some profile
  pub verified_status : profile.verification_status ≡ verified

-- A listing of the open feed that is given out was asked for by a verified handyman.
browsed :
    (user_id : ℕ) (pagination : PaginationDto) (w : World) (page : PaginatedResult OpenRequest)
    → (browse_open_requests user_id pagination w).1 ≡ ok page
    → IsVerifiedHandyman user_id w
      × (browse_open_requests user_id pagination w ≡ (w, ok (open_page pagination w)))
unfolding browse_open_requests find_profile_by_user
browsed user_id pagination w page h =
    elim (Option-cases (find_where (λ p. p.user_id == user_id) w.profiles)) [
      | inl n ↦ absurd (ground arith)
      | inr (p, e) ↦ elim (Bool-cases (is_verified p.verification_status)) [
        | inl v ↦ (record { profile = p; own = e; verified_status = ground arith }, rw (e, v) refl)
        | inr v ↦ absurd (ground arith)
      ]
    ]

-- The open feed is given to a verified handyman only. It lists open requests only, reports the
-- number of all that are open, and writes nothing.
pub browse_open_requests-IsOpen :
    (user_id : ℕ) (pagination : PaginationDto) (w : World) (page : PaginatedResult OpenRequest)
    → (browse_open_requests user_id pagination w).1 ≡ ok page
    → IsVerifiedHandyman user_id w
      × All (λ o. o.request.status ≡ opened) page.items
      × (page.about.total ≡ count_where (λ r. is_opened r.status) w.requests)
      × ((browse_open_requests user_id pagination w).0 ≡ w)
unfolding open_page open_request find_page create_pagination_meta
browse_open_requests-IsOpen user_id pagination w page h =
    let (handyman, e) = browsed user_id pagination w page h in
    let shown : open_page pagination w ≡ page =
      let both : ok (open_page pagination w) ≡ ok page = sym (ap (λ r. r.1) e) ∙ h in cc in
    (
      handyman,
      subst (λ p. All (λ o. o.request.status ≡ opened) p.items) shown
          (find_page-All (λ o. o.request.status ≡ opened) (open_request w) (λ r. is_opened r.status)
            ((or_else pagination.page 1 - 1) * or_else pagination.limit 10)
            (or_else pagination.page 1) (or_else pagination.limit 10) w.requests
            (λ r t. ground arith)),
      ap (λ p. p.about.total) (sym shown),
      ap (λ r. r.0) e,
    )

-- A change of the users that leaves their cards alone.
include_user-card :
    (change : User → User) (users : List User) (id : ℕ)
    → ((u : User) → card_of (change u) ≡ card_of u)
    → include_user card_of (map change users) id ≡ include_user card_of users id
unfolding include_user find_where
include_user-card change [] id same = refl
include_user-card change (u ∷ users) id same =
    let at : (change u).id ≡ u.id = ap (λ c. c.id) (same u) in
    elim (Bool-cases (u.id == id)) [
      | inl here ↦
          let moved : ((change u).id == id) ≡ true = rw at here in
          rw (moved, here) (ap some (same u))
      | inr there ↦
          let moved : ((change u).id == id) ≡ false = rw at there in
          rw (moved, there) (include_user-card change users id same)
    ]

map-same : {A B : Type 0} (f g : A → B) (xs : List A) → ((x : A) → f x ≡ g x) → map f xs ≡ map g xs
map-same f g [] h = refl
map-same f g (x ∷ xs) h = ap₂ ◌∷◌ (h x) (map-same f g xs h)

open_page-card :
    (change : User → User) (pagination : PaginationDto) (w : World)
    → ((u : User) → card_of (change u) ≡ card_of u)
    → open_page pagination (record w { users = map change w.users }) ≡ open_page pagination w
unfolding open_page open_request
open_page-card change pagination w same =
    ap (λ xs. record (open_page pagination w) { items = xs })
      (map-same _ (open_request w) _ (λ r.
        ap (λ c. record (open_request w r) { customer = c })
          (include_user-card change w.users r.customer_id same)))

-- The open feed tells nothing of a customer but the card, which has no address and no number: it
-- stays as it is when any other column of any user changes.
pub browse_open_requests-hides_contacts :
    (change : User → User) (user_id : ℕ) (pagination : PaginationDto) (w : World)
    → ((u : User) → card_of (change u) ≡ card_of u)
    → (browse_open_requests user_id pagination (record w { users = map change w.users })).1
      ≡ (browse_open_requests user_id pagination w).1
unfolding browse_open_requests find_profile_by_user
browse_open_requests-hides_contacts change user_id pagination w same =
    elim (Option-cases (find_where (λ p. p.user_id == user_id) w.profiles)) [
      | inl n ↦ rw n refl
      | inr (p, e) ↦ elim (Bool-cases (is_verified p.verification_status)) [
        | inl v ↦ rw (e, v) (ap ok (open_page-card change pagination w same))
        | inr v ↦ rw (e, v) refl
      ]
    ]
