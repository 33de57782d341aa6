-- ===== src/Market/Race/Consistency.antt =====
-- What the two tables have in common at every moment, and what a call in flight may rely on.
use mathlib.Core.Option
use fetchit_be.Base.{
  ℕ, ◌≡◌, ◌≢◌, refl, Bool, true, false, ◌==◌, eq_of_==, Option, some, none, List, ◌∷◌, All, All-map,
  All-zip, All-update_where, AllPairs, AllPairs-update_where, find_where, any_where,
  any_where-false, any_where-update_where, find_where-any_where, find_where-update_where,
  update_all, Bool-cases, inl, inr, arith, subst, ◌∙◌, sym, ap,
}
use fetchit_be.Schema.{ServiceRequest, Application, is_opened, is_cancelled}
use fetchit_be.World.{request_has, application_has, is_between}

abbrev pub has_handyman : Option ℕ → Bool
has_handyman none = false
has_handyman (some id) = true

-- An OPEN request is assigned to nobody; any other is assigned, unless it is CANCELLED.
abbrev pub IsWellAssigned : ServiceRequest → Type 0
IsWellAssigned r =
    (is_opened r.status ≡ true → has_handyman r.assigned_handyman_id ≡ false)
    × (is_opened r.status ≡ false
        → is_cancelled r.status ≡ false
        → has_handyman r.assigned_handyman_id ≡ true)

-- Two applications have different keys, and are not of one handyman for one request.
abbrev pub AreApart : Application → Application → Type 0
AreApart a b =
    (a.id ≢ b.id)
    × (a.service_request_id ≡ b.service_request_id → a.handyman_profile_id ≢ b.handyman_profile_id)

-- Two requests have different keys.
abbrev pub AreDistinct : ServiceRequest → ServiceRequest → Type 0
AreDistinct r q = r.id ≢ q.id

-- The application with key `id` exists, and is of this handyman for this request.
abbrev pub IsPinned : List Application → ℕ → ℕ → ℕ → Type 0
IsPinned applications id request_id profile_id =
    All
      (λ a. a.id ≡ id → (a.service_request_id ≡ request_id) × (a.handyman_profile_id ≡ profile_id))
      applications
    × (any_where (application_has id) applications ≡ true)

-- An edit keeps the key and the foreign keys of an application.
abbrev pub KeepsKeys : (Application → Application) → Type 0
KeepsKeys f =
    (a : Application)
    → ((f a).id ≡ a.id)
      × ((f a).service_request_id ≡ a.service_request_id)
      × ((f a).handyman_profile_id ≡ a.handyman_profile_id)

-- `S` says what an application's status may be beside that of its request.
module _ (S : Application → ServiceRequest → Type 0) where
  abbrev pub Suits : Application → Option ServiceRequest → Type 0
  Suits a none = ⊥
  Suits a (some r) = S a r

  -- The request that the application is for exists, and suits it.
  abbrev pub Fits : List ServiceRequest → Application → Type 0
  Fits requests a = Suits a (find_where (request_has a.service_request_id) requests)

  pub record IsConsistent (requests : List ServiceRequest) (applications : List Application)
      : Type 0 where
    pub fits : All (Fits requests) applications
    pub assignments : All IsWellAssigned requests
    pub apart : AllPairs AreApart applications
    pub distinct : AllPairs AreDistinct requests

module _ (S T : Application → ServiceRequest → Type 0) (requests : List ServiceRequest) where
  -- One application, before and after an edit of all rows.
  Fits-edit :
      (f : Application → Application) (g : ServiceRequest → ServiceRequest)
      → KeepsKeys f
      → ((r : ServiceRequest) → (g r).id ≡ r.id)
      → (a : Application)
      → ((r : ServiceRequest)
          → find_where (request_has a.service_request_id) requests ≡ some r
          → S a r
          → T (f a) (g r))
      → Fits S requests a
      → Fits T (update_all g requests) (f a)
  Fits-edit f g keeps keeps_id a step h =
      subst (Suits T (f a)) (sym found)
        (go (find_where (request_has a.service_request_id) requests) refl h)
    where
      found :
          find_where (request_has (f a).service_request_id) (update_all g requests)
          ≡ Option.map g (find_where (request_has a.service_request_id) requests)
      found =
          ap (λ k. find_where (request_has k) (update_all g requests)) (keeps a).1
          ∙ find_where-update_where (request_has a.service_request_id) (λ _. true) g requests
              (λ r. ap (λ (k : ℕ). k == a.service_request_id) (keeps_id r))

      go :
          (o : Option ServiceRequest)
          → find_where (request_has a.service_request_id) requests ≡ o
          → Suits S a o
          → Suits T (f a) (Option.map g o)
      go none e k = absurd k
      go (some r) e k = step r e k

  -- Every application, before and after an edit of all rows; `Q` is what is known of each.
  pub edit-IsConsistent :
      (Q : Application → Type 0) (f : Application → Application)
      (g : ServiceRequest → ServiceRequest) (applications : List Application)
      → KeepsKeys f
      → ((r : ServiceRequest) → (g r).id ≡ r.id)
      → ((r : ServiceRequest) → IsWellAssigned r → IsWellAssigned (g r))
      → ((a : Application) (r : ServiceRequest)
          → Q a
          → find_where (request_has a.service_request_id) requests ≡ some r
          → S a r
          → T (f a) (g r))
      → All Q applications
      → IsConsistent S requests applications
      → IsConsistent T (update_all g requests) (update_all f applications)
  edit-IsConsistent Q f g applications keeps keeps_id assigns step known h = record {
    fits =
        All-update_where (λ a. Q a × Fits S requests a) (Fits T (update_all g requests)) (λ _. true)
          f applications (λ a p. Fits-edit f g keeps keeps_id a (λ r. step a r p.0) p.1)
          (All-zip Q (Fits S requests) applications known h.fits);
    assignments =
        All-update_where IsWellAssigned IsWellAssigned (λ _. true) g requests assigns h.assignments;
    apart =
        AllPairs-update_where AreApart (λ _. true) f applications
          (λ a b p. ground (arith, keeps a, keeps b)) h.apart;
    distinct =
        AllPairs-update_where AreDistinct (λ _. true) g requests
          (λ r q p. ground (arith, keeps_id r, keeps_id q)) h.distinct;
  }

-- What a call relies on survives an edit that keeps the keys, and a new row with a fresh key.
pub edit-IsPinned :
    (f : Application → Application) (applications : List Application) (id request_id profile_id : ℕ)
    → KeepsKeys f
    → IsPinned applications id request_id profile_id
    → IsPinned (update_all f applications) id request_id profile_id
edit-IsPinned f applications id request_id profile_id keeps h = (
  All-update_where
      (λ a. a.id ≡ id → (a.service_request_id ≡ request_id) × (a.handyman_profile_id ≡ profile_id))
      (λ a. a.id ≡ id → (a.service_request_id ≡ request_id) × (a.handyman_profile_id ≡ profile_id))
      (λ _. true) f applications (λ a p. ground (arith, keeps a)) h.0,
  rw
      (any_where-update_where (application_has id) (λ _. true) f applications
        (λ a. ap (λ (k : ℕ). k == id) (keeps a).0))
      h.1,
)

pub insert-IsPinned :
    (new : Application) (applications : List Application) (id request_id profile_id : ℕ)
    → any_where (application_has new.id) applications ≡ false
    → IsPinned applications id request_id profile_id
    → IsPinned (new ∷ applications) id request_id profile_id
unfolding any_where
insert-IsPinned new applications id request_id profile_id fresh h =
    (((λ same. absurd (clash same)), h.0), ground arith)
  where
    clash : new.id ≡ id → ⊥
    clash same = cc (fresh, h.1, ap (λ (k : ℕ). any_where (application_has k) applications) same)

-- A new application of an OPEN request, with a fresh key and the first of its handyman there.
pub insert-IsConsistent :
    (S : Application → ServiceRequest → Type 0) (requests : List ServiceRequest) (new : Application)
    (applications : List Application)
    → Suits S new (find_where (request_has new.service_request_id) requests)
    → any_where (application_has new.id) applications ≡ false
    → any_where (is_between new.service_request_id new.handyman_profile_id) applications ≡ false
    → IsConsistent S requests applications
    → IsConsistent S requests (new ∷ applications)
insert-IsConsistent S requests new applications suits fresh first h = record {
  fits = (suits, h.fits);
  assignments = h.assignments;
  apart = (
    All-map
        (λ a.
          (application_has new.id a ≡ false)
          × (is_between new.service_request_id new.handyman_profile_id a ≡ false))
        (AreApart new) applications (λ a p. ground arith)
        (All-zip (λ a. application_has new.id a ≡ false)
          (λ a. is_between new.service_request_id new.handyman_profile_id a ≡ false) applications
          (any_where-false (application_has new.id) applications fresh)
          (any_where-false (is_between new.service_request_id new.handyman_profile_id) applications
            first)),
    h.apart,
  );
  distinct = h.distinct;
}

-- A new request with a fresh key, OPEN and assigned to nobody.
pub request-IsConsistent :
    (S : Application → ServiceRequest → Type 0) (new : ServiceRequest)
    (requests : List ServiceRequest) (applications : List Application)
    → any_where (request_has new.id) requests ≡ false
    → IsWellAssigned new
    → IsConsistent S requests applications
    → IsConsistent S (new ∷ requests) applications
unfolding find_where
request-IsConsistent S new requests applications fresh assigns h = record {
  fits =
      All-map (Fits S requests) (Fits S (new ∷ requests)) applications
        (λ a p. stay a (find_where (request_has a.service_request_id) requests) refl p) h.fits;
  assignments = (assigns, h.assignments);
  apart = h.apart;
  distinct = (
    All-map (λ q. request_has new.id q ≡ false) (AreDistinct new) requests (λ q p. ground arith)
        (any_where-false (request_has new.id) requests fresh),
    h.distinct,
  );
}
  where
    stay :
        (a : Application) (o : Option ServiceRequest)
        → find_where (request_has a.service_request_id) requests ≡ o
        → Suits S a o
        → Fits S (new ∷ requests) a
    stay a none e p = absurd p
    stay a (some r) e p = elim (Bool-cases (new.id == a.service_request_id)) [
      | inl same ↦ cc (
        fresh,
        find_where-any_where (request_has a.service_request_id) requests r e,
        ap (λ (k : ℕ). any_where (request_has k) requests)
            (eq_of_== new.id a.service_request_id same),
      )
      | inr other ↦ rw (other, e) p
    ]
