-- ===== src/World.antt =====
-- The database and the emitted events as one state, the monad in which the services run, and the
-- queries of src/database/repositories on which they rest.
use fetchit_be.Base.{
  ℕ, Bool, true, false, Option, none, some, List, [], ◌∷◌, ◌++◌, ◌==◌, ◌&&◌, if◌then◌else◌,
  find_where, update_where, count_where, any_where, ◌≡◌, refl, not,
}
use fetchit_be.Schema.{
  User, StoredObject, ServiceCategory, RefreshSession, OneTimeToken, AuditLog, HandymanProfile,
  HandymanProfileCategory, HandymanDocument, ServiceRequest, Application, Error, Event,
  record_not_found, unique_violation,
}

pub record World : Type 0 where
  pub users : List User
  pub profiles : List HandymanProfile
  pub categories : List HandymanProfileCategory
  pub documents : List HandymanDocument
  pub audit_log : List AuditLog
  pub sessions : List RefreshSession
  pub objects : List StoredObject
  pub service_categories : List ServiceCategory
  pub password_resets : List OneTimeToken
  pub email_verifications : List OneTimeToken
  pub requests : List ServiceRequest
  pub applications : List Application
  pub outbox : List Event

pub data Result {ℓ} (A : Type ℓ) : Type ℓ where
  ok : A → Result A
  err : Error → Result A

-- A method of a service: what it writes stays written when a later step throws.
abbrev pub M {ℓ} : Type ℓ → Type ℓ
M A = World → World × Result A

abbrev pub continue {ℓ κ} :
    {A : Type ℓ} {B : Type κ} → World × Result A → (A → M B) → World × Result B
continue (w, ok a) f = f a w
continue (w, err e) f = (w, err e)

infixl 5 ◌>>=◌ ◌>>◌
abbrev pub ◌>>=◌ {ℓ κ} : {A : Type ℓ} {B : Type κ} → M A → (A → M B) → M B
◌>>=◌ m f w = continue (m w) f

abbrev pub ◌>>◌ {ℓ} : {B : Type ℓ} → M (Unit {0}) → M B → M B
m >> k = m >>= λ _. k

abbrev pub pure {ℓ} : {A : Type ℓ} → A → M A
pure a w = (w, ok a)

abbrev pub throw {ℓ} : {A : Type ℓ} → Error → M A
throw e w = (w, err e)

-- `if (!test) throw e`
abbrev pub guard : Bool → Error → M (Unit {0})
guard true e = pure tt
guard false e = throw e

-- `if (!value) throw e`
abbrev pub or_throw {ℓ} : {A : Type ℓ} → Option A → Error → M A
or_throw none e = throw e
or_throw (some a) e = pure a

-- `prisma.$transaction`: all writes or none. Transactions do not emit events.
abbrev pub roll_back {ℓ} : {A : Type ℓ} → World → World × Result A → World × Result A
roll_back w (w', ok a) = (w', ok a)
roll_back w (w', err e) = (w, err e)

abbrev pub transaction {ℓ} : {A : Type ℓ} → M A → M A
transaction m w = roll_back w (m w)

-- `try { … } catch (error) { await cleanup; throw error; }`
abbrev pub clean_up {ℓ} : {A : Type ℓ} → World × Result A → M (Unit {0}) → World × Result A
clean_up (w, ok a) cleanup = (w, ok a)
clean_up (w, err e) cleanup = ((cleanup w).0, err e)

-- `m().catch(log)`
abbrev pub swallow : M (Unit {0}) → M (Unit {0})
swallow m w = ((m w).0, ok tt)

abbrev pub emit : Event → M (Unit {0})
emit event w = (record w { outbox = w.outbox ++ event ∷ [] }, ok tt)

abbrev pub request_has : ℕ → ServiceRequest → Bool
request_has id r = r.id == id

abbrev pub application_has : ℕ → Application → Bool
application_has id a = a.id == id

abbrev pub is_between : ℕ → ℕ → Application → Bool
is_between request_id profile_id a =
    a.service_request_id == request_id && a.handyman_profile_id == profile_id

unfoldable pub find_request : ℕ → M (Option ServiceRequest)
find_request id w = (w, ok (find_where (request_has id) w.requests))

unfoldable pub find_request_or_throw : ℕ → M ServiceRequest
unfolding find_request
find_request_or_throw id = do found ← find_request id; or_throw found record_not_found

unfoldable pub update_requests : (ServiceRequest → Bool) → (ServiceRequest → ServiceRequest) → M ℕ
update_requests test f w =
    (record w { requests = update_where test f w.requests }, ok (count_where test w.requests))

-- The row gets a fresh primary key; a key in use is refused by the database.
unfoldable pub create_request : ServiceRequest → M ServiceRequest
create_request r w =
    if any_where (request_has r.id) w.requests
    then (w, err unique_violation)
    else (record w { requests = r ∷ w.requests }, ok r)

unfoldable pub find_application : ℕ → M (Option Application)
find_application id w = (w, ok (find_where (application_has id) w.applications))

unfoldable pub find_application_or_throw : ℕ → M Application
unfolding find_application
find_application_or_throw id = do found ← find_application id; or_throw found record_not_found

-- `findExisting`: the row of the unique index (serviceRequestId, handymanProfileId).
unfoldable pub find_existing : ℕ → ℕ → M (Option Application)
find_existing request_id profile_id w =
    (w, ok (find_where (is_between request_id profile_id) w.applications))

unfoldable pub update_applications : (Application → Bool) → (Application → Application) → M ℕ
update_applications test f w = (
  record w { applications = update_where test f w.applications },
  ok (count_where test w.applications),
)

-- Refused where the request or the profile to connect is not there, on a primary key in use, and by
-- `@@unique([serviceRequestId, handymanProfileId])`.
unfoldable pub create_application : Application → M Application
create_application a w =
    if not (
      any_where (request_has a.service_request_id) w.requests
      && any_where (λ p. p.id == a.handyman_profile_id) w.profiles)
    then (w, err record_not_found)
    else if any_where (application_has a.id) w.applications
    then (w, err unique_violation)
    else if any_where (is_between a.service_request_id a.handyman_profile_id) w.applications
    then (w, err unique_violation)
    else (record w { applications = a ∷ w.applications }, ok a)

-- `prisma.user.findUniqueOrThrow`, which finds deleted users too.
unfoldable pub find_user_or_throw : ℕ → M User
find_user_or_throw id w = or_throw (find_where (λ u. u.id == id) w.users) record_not_found w

unfoldable pub find_profile : ℕ → M (Option HandymanProfile)
find_profile id w = (w, ok (find_where (λ p. p.id == id) w.profiles))

unfoldable pub find_profile_by_user : ℕ → M (Option HandymanProfile)
find_profile_by_user user_id w = (w, ok (find_where (λ p. p.user_id == user_id) w.profiles))

unfoldable pub update_profiles :
    (HandymanProfile → Bool) → (HandymanProfile → HandymanProfile) → M ℕ
update_profiles test f w =
    (record w { profiles = update_where test f w.profiles }, ok (count_where test w.profiles))

-- Refused on a primary key in use, and by `@unique` on the user.
unfoldable pub create_profile : HandymanProfile → M HandymanProfile
create_profile p w =
    if any_where (λ q. q.id == p.id) w.profiles
    then (w, err unique_violation)
    else if any_where (λ q. q.user_id == p.user_id) w.profiles
    then (w, err unique_violation)
    else (record w { profiles = p ∷ w.profiles }, ok p)

-- `handymanProfileCategory.findUnique`
unfoldable pub services_category : ℕ → ℕ → M Bool
services_category profile_id category_id w = (
  w,
  ok (
      any_where (λ c. c.handyman_profile_id == profile_id && c.category_id == category_id)
        w.categories),
)

-- A chain that succeeds has succeeded at its first step, and went on from the state after it.
pub >>=-eq-ok {ℓ κ} :
    {A : Type ℓ} {B : Type κ} (m : M A) (f : A → M B) (w : World) {b : B}
    → ((m >>= f) w).1 ≡ ok b
    → (a : A) × ((m w).1 ≡ ok a) × ((m >>= f) w ≡ f a (m w).0)
>>=-eq-ok {A} m f w {b} h = go (m w) h
  where
    go :
        (p : World × Result A)
        → (continue p f).1 ≡ ok b
        → (a : A) × (p.1 ≡ ok a) × (continue p f ≡ f a p.0)
    go (v, ok a) e = (a, refl, refl)
    go (v, err x) e = absurd (cc)
