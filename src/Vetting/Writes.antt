-- ===== src/Vetting/Writes.antt =====
-- What each method of src/modules/handyman/handyman.service.ts and of src/modules/admin/
-- admin-verification.service.ts writes to the profiles and the documents, errors included.
use fetchit_be.Base.{
  ℕ, Bool, true, false, not, Option, none, some, List, ◌∷◌, ◌==◌, ◌&&◌, ◌≡◌, ◌⊎◌, refl, find_where,
  any_where, update_where, filter_where, sym, subst,
}
use fetchit_be.Schema.{
  Error, HandymanProfile, HandymanDocument, VerificationStatus, unverified, profile_complete,
  documents_submitted, verified, is_documents_submitted,
}
use fetchit_be.World.{
  World, Result, guard, or_throw, ok, err, M, ◌>>=◌, continue, transaction, roll_back,
}

-- The intended transitions of a profile's verification.
infix 40 ◌⟶◌
pub data ◌⟶◌ : VerificationStatus → VerificationStatus → Type 0 where
  stay : (s : VerificationStatus) → s ⟶ s
  complete : unverified ⟶ profile_complete
  submit : profile_complete ⟶ documents_submitted
  submit_again : VerificationStatus.rejected ⟶ documents_submitted
  approve : documents_submitted ⟶ verified
  reject : documents_submitted ⟶ VerificationStatus.rejected

abbrev pub has_documents : List HandymanDocument → ℕ → Bool
has_documents documents profile_id = any_where (λ d. d.handyman_profile_id == profile_id) documents

abbrev pub is_some : {A : Type 0} → Option A → Bool
is_some none = false
is_some (some a) = true

-- A profile under review has a document, a verified one says by whom and when, and a rejected one
-- by whom and why.
abbrev pub is_vetted : List HandymanDocument → HandymanProfile → Bool
is_vetted documents p = elim p.verification_status [
  | unverified ↦ true
  | profile_complete ↦ true
  | documents_submitted ↦ has_documents documents p.id
  | verified ↦ is_some p.verified_at && is_some p.reviewed_by_id
  | VerificationStatus.rejected ↦ is_some p.rejection_reason && is_some p.reviewed_by_id
]

-- How one call changes the two tables: not at all; by a new profile; by a write to one profile that
-- it has found; by removing documents of a profile that is not under review; or by a write that
-- leaves every document with its profile.
pub data Writes (w v : World) : Type 0 where
  keep : v.profiles ≡ w.profiles → v.documents ≡ w.documents → Writes w v
  add :
      (q : HandymanProfile)
      → any_where (λ p. p.id == q.id) w.profiles ≡ false
      → q.verification_status ≡ unverified ⊎ q.verification_status ≡ profile_complete
      → v.profiles ≡ q ∷ w.profiles
      → v.documents ≡ w.documents
      → Writes w v
  change :
      (test : HandymanProfile → Bool) (p : HandymanProfile)
      → find_where test w.profiles ≡ some p
      → (key : ℕ) → p.id ≡ key
      → (f : HandymanProfile → HandymanProfile) → ((q : HandymanProfile) → (f q).id ≡ q.id)
      → p.verification_status ⟶ (f p).verification_status
      → (is_vetted w.documents p ≡ true → is_vetted w.documents (f p) ≡ true)
      → v.profiles ≡ update_where (λ q. q.id == key) f w.profiles
      → v.documents ≡ w.documents
      → Writes w v
  remove :
      (test : HandymanProfile → Bool) (p : HandymanProfile)
      → find_where test w.profiles ≡ some p
      → is_documents_submitted p.verification_status ≡ false
      → (key : ℕ) → v.profiles ≡ w.profiles
      → v.documents
        ≡ filter_where (λ d. not (d.id == key && d.handyman_profile_id == p.id)) w.documents
      → Writes w v
  review :
      (key : ℕ) (f : HandymanDocument → HandymanDocument)
      → ((d : HandymanDocument) → (f d).handyman_profile_id ≡ d.handyman_profile_id)
      → v.profiles ≡ w.profiles
      → v.documents ≡ update_where (λ d. d.id == key) f w.documents
      → Writes w v

-- `v'` differs from `v` in other tables only.
abbrev pub Same : World → World → Type 0
Same v v' = (v'.profiles ≡ v.profiles) × (v'.documents ≡ v.documents)

pub Writes-Same : (w v v' : World) → Writes w v → Same v v' → Writes w v'
Writes-Same w v v' (keep a b) (x, y) = keep (cc) (cc)
Writes-Same w v v' (add q n s a b) (x, y) = add q n s (cc) (cc)
Writes-Same w v v' (change t p found n g f k e i a b) (x, y) =
    change t p found n g f k e i (cc) (cc)
Writes-Same w v v' (remove t p found s key a b) (x, y) = remove t p found s key (cc) (cc)
Writes-Same w v v' (review key f k a b) (x, y) = review key f k (cc) (cc)

-- A chain whose first step only reads: what holds of the state stays when that step throws.
pub after_check :
    {A B : Type 0} (P : World → Type 0) (m : M A) (f : A → M B) (w : World)
    → (m w).0 ≡ w
    → P w
    → ((a : A) → (m w).1 ≡ ok a → P (f a w).0)
    → P ((m >>= f) w).0
after_check {A} P m f w same p k = go (m w) same k
  where
    go :
        (r : World × Result A) → r.0 ≡ w → ((a : A) → r.1 ≡ ok a → P (f a w).0) → P (continue r f).0
    go (v, ok a) e h = subst (λ z. P (f a z).0) (sym e) (h a refl)
    go (v, err x) e h = subst P (sym e) p

pub after_or_throw :
    {A B : Type 0} (P : World → Type 0) (found : Option A) (e : Error) (f : A → M B) (w : World)
    → P w
    → ((a : A) → found ≡ some a → P (f a w).0)
    → P ((or_throw found e >>= f) w).0
after_or_throw P none e f w p k = p
after_or_throw P (some a) e f w p k = k a refl

pub after_guard :
    {B : Type 0} (P : World → Type 0) (test : Bool) (e : Error) (f : Unit {0} → M B) (w : World)
    → P w
    → (test ≡ true → P (f tt w).0)
    → P ((guard test e >>= f) w).0
after_guard P false e f w p k = p
after_guard P true e f w p k = k refl

-- A chain that goes on from any state for which `P` holds.
pub and_then :
    {A B : Type 0} (P : World → Type 0) (m : M A) (f : A → M B) (w : World)
    → P (m w).0
    → ((a : A) (v : World) → P v → P (f a v).0)
    → P ((m >>= f) w).0
and_then {A} P m f w p k = go (m w) p
  where
    go : (r : World × Result A) → P r.0 → P (continue r f).0
    go (v, ok a) h = k a v h
    go (v, err x) h = h

pub in_transaction :
    {A : Type 0} (P : World → Type 0) (m : M A) (w : World)
    → P w
    → P (m w).0
    → P (transaction m w).0
in_transaction {A} P m w p q = go (m w) q
  where
    go : (r : World × Result A) → P r.0 → P (roll_back w r).0
    go (v, ok a) h = h
    go (v, err x) h = p
