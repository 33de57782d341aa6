-- ===== src/Market/Race/Known.antt =====
-- What a call in flight relies on: an application that it has read stays the application of the
-- same handyman for the same request.
use mathlib.Core.Path.{subst₂}
use mathlib.Core.Option.{some-injective}
use fetchit_be.Base.{
  ℕ, ◌≡◌, Bool, true, ◌||◌, Option, some, none, List, ◌∷◌, [], All, All-map, AllPairs, arith, sym,
  subst, ap, find_where, find_where_sound, find_where-All, any_where_of_find, ◌∙◌, Bool-cases, inl,
  inr, eq_of_==,
}
use fetchit_be.Schema.{Application, ServiceRequest, is_opened, is_assigned}
use fetchit_be.World.{
  World, application_has, is_between, ok, find_request, find_application, find_profile_by_user,
  services_category, find_existing,
}
use fetchit_be.Market.Customer.{accept_check, cancel_check}
use fetchit_be.Market.Handyman.{ApplySnapshot, apply_check}
use fetchit_be.Market.Race.{InFlight, accepting, applying, inserting, cancelling, Begins, Timing}
use fetchit_be.Market.Race.Consistency.{IsConsistent, IsPinned, AreApart}
use fetchit_be.Market.Race.Safety.{IsLive}

-- What a call in flight knows of an application that it has read.
abbrev pub KnownOld : List Application → ℕ → ℕ → Option Application → Type 0
KnownOld applications request_id profile_id none = Unit
KnownOld applications request_id profile_id (some old) =
    IsPinned applications old.id request_id profile_id

-- A cancellation has seen a status that the customer may cancel in.
abbrev pub Known : List Application → InFlight → Type 0
Known applications (accepting request_id app_id user_id app) =
    IsPinned applications app_id request_id app.handyman_profile_id
Known applications (applying id request_id seen dto) =
    KnownOld applications request_id seen.profile_id seen.existing
Known applications (inserting id request_id seen dto) =
    KnownOld applications request_id seen.profile_id seen.existing
Known applications (cancelling id seen user_id now) =
    (is_opened seen.status || is_assigned seen.status) ≡ true
Known applications c = Unit

-- The row that a query has found is the only one with its key.
find_unique :
    (test : Application → Bool) (applications : List Application) (x : Application)
    → AllPairs AreApart applications
    → find_where test applications ≡ some x
    → All (λ a. a.id ≡ x.id → a ≡ x) applications
unfolding find_where
find_unique test [] x h e = tt
find_unique test (y ∷ ys) x (p, h) e = elim (Bool-cases (test y)) [
  | inl t ↦
      let same : y ≡ x = some-injective y x (rw t at e) in
      (
        λ _. same,
        All-map (AreApart y) (λ a. a.id ≡ x.id → a ≡ x) ys
            (λ a r s. absurd (r.0 (ap Application.id same ∙ sym s))) p,
      )
  | inr t ↦
      let found : find_where test ys ≡ some x = rw t at e in
      (
        λ s. absurd ((find_where-All (AreApart y) test ys x p found).0 s),
        find_unique test ys x h found,
      )
]

find-IsPinned :
    (test : Application → Bool) (applications : List Application) (x : Application)
    → AllPairs AreApart applications
    → find_where test applications ≡ some x
    → IsPinned applications x.id x.service_request_id x.handyman_profile_id
find-IsPinned test applications x h e = (
  All-map (λ a. a.id ≡ x.id → a ≡ x)
      (λ a.
        a.id ≡ x.id
        → (a.service_request_id ≡ x.service_request_id)
          × (a.handyman_profile_id ≡ x.handyman_profile_id))
      applications (λ a k s. ground (arith, k s)) (find_unique test applications x h e),
  any_where_of_find test (application_has x.id) applications x e (ground arith),
)

accept_check_found :
    (request_id app_id user_id : ℕ) (app : Application) (w : World)
    → (accept_check request_id app_id user_id w).1 ≡ ok app
    → (find_where (application_has app_id) w.applications ≡ some app)
      × (app.service_request_id ≡ request_id)
unfolding accept_check find_request find_application
accept_check_found request_id app_id user_id app w h = ground arith

apply_check_found :
    (user_id request_id : ℕ) (seen : ApplySnapshot) (w : World)
    → (apply_check user_id request_id w).1 ≡ ok seen
    → find_where (is_between request_id seen.profile_id) w.applications ≡ seen.existing
unfolding apply_check find_profile_by_user find_request services_category find_existing
apply_check_found user_id request_id seen w h = ground arith

cancel_check_status :
    (id user_id : ℕ) (seen : ServiceRequest) (w : World)
    → (cancel_check id user_id w).1 ≡ ok seen
    → (is_opened seen.status || is_assigned seen.status) ≡ true
unfolding cancel_check find_request
cancel_check_status id user_id seen w h = ground arith

pub begin-Known :
    (timely : Timing) (w : World) (c : InFlight)
    → IsConsistent (IsLive timely) w.requests w.applications
    → Begins w c
    → Known w.applications c
begin-Known timely w (accepting request_id app_id user_id app) h b =
    let (found, own) = accept_check_found request_id app_id user_id app w b in
    let keyed : app.id ≡ app_id =
      eq_of_== app.id app_id (find_where_sound (application_has app_id) w.applications app found) in
    subst (λ k. IsPinned w.applications k request_id app.handyman_profile_id) keyed
      (subst (λ k. IsPinned w.applications app.id k app.handyman_profile_id) own
        (find-IsPinned (application_has app_id) w.applications app h.apart found))
begin-Known timely w (applying id request_id seen dto) h (user_id, b) =
    old seen.existing (apply_check_found user_id request_id seen w b)
  where
    old :
        (o : Option Application)
        → find_where (is_between request_id seen.profile_id) w.applications ≡ o
        → KnownOld w.applications request_id seen.profile_id o
    old none e = tt
    old (some a) e =
        let keys : (a.service_request_id ≡ request_id) × (a.handyman_profile_id ≡ seen.profile_id) =
          ground
            (arith, find_where_sound (is_between request_id seen.profile_id) w.applications a e) in
        subst₂ (IsPinned w.applications a.id) keys.0 keys.1
          (find-IsPinned (is_between request_id seen.profile_id) w.applications a h.apart e)
begin-Known timely w (inserting id request_id seen dto) h b = absurd b
begin-Known timely w (cancelling id seen user_id now) h b = cancel_check_status id user_id seen w b
begin-Known timely w _ h b = tt

keep_old :
    (before after : List Application) (request_id profile_id : ℕ) (o : Option Application)
    → ((id request_id profile_id : ℕ)
        → IsPinned before id request_id profile_id
        → IsPinned after id request_id profile_id)
    → KnownOld before request_id profile_id o
    → KnownOld after request_id profile_id o
keep_old before after request_id profile_id none keep k = tt
keep_old before after request_id profile_id (some a) keep k = keep _ _ _ k

-- What a call knows stays true while others write.
pub keep-Known :
    (before after : List Application) (c : InFlight)
    → ((id request_id profile_id : ℕ)
        → IsPinned before id request_id profile_id
        → IsPinned after id request_id profile_id)
    → Known before c
    → Known after c
keep-Known before after (accepting request_id app_id user_id app) keep k = keep _ _ _ k
keep-Known before after (applying id request_id seen dto) keep k =
    keep_old before after request_id seen.profile_id seen.existing keep k
keep-Known before after (inserting id request_id seen dto) keep k =
    keep_old before after request_id seen.profile_id seen.existing keep k
keep-Known before after (cancelling id seen user_id now) keep k = k
keep-Known before after _ keep k = tt
