-- ===== src/Vetting/Profile.antt =====
-- The handyman's side: src/modules/handyman/handyman.service.ts, and getOrCreate and
-- updateVerificationStatus of src/database/repositories/handyman-profile.repository.ts.
use fetchit_be.Base.{
  is_id, ℕ, ◌+◌, String, Bool, true, false, not, Option, none, some, List, [], ◌∷◌, ◌==◌, ◌&&◌,
  if◌then◌else◌, find_where, filter_where, any_where, count_where,
}
use fetchit_be.Schema.{
  Error, HandymanProfile, HandymanDocument, ProfileDetails, VerificationStatus, unverified,
  profile_complete, documents_submitted, is_unverified, is_documents_submitted, is_verified,
  may_submit, invalid_transition, verification, no_documents, unique_violation, record_not_found,
  handyman_profile_not_found, forbidden, handyman_profile_completed, handyman_documents_submitted,
  ServiceRequest, is_assigned, is_in_progress, is_awaiting_confirmation, is_completed,
}
use fetchit_be.World.{
  World, Result, ok, err, M, ◌>>=◌, ◌>>◌, pure, guard, or_throw, transaction, emit,
  find_profile_by_user, find_user_or_throw, update_profiles, create_profile,
}

abbrev pub default_profile : ℕ → ℕ → HandymanProfile
default_profile id user_id = record {
  id = id;
  user_id = user_id;
  details = none;
  verification_status = unverified;
  verified_at = none;
  rejection_reason = none;
  reviewed_by_id = none;
}

abbrev is_unique_violation : Error → Bool
is_unique_violation unique_violation = true
is_unique_violation _ = false

-- `catch (error)`: a unique violation is handled, any other error goes on.
unfoldable pub or_on_unique {ℓ} : {A : Type ℓ} → World × Result A → M A → World × Result A
or_on_unique (w, ok a) handler = (w, ok a)
or_on_unique (w, err e) handler = if is_unique_violation e then handler w else (w, err e)

-- A row of the profiles table by its id, as `update` returns it.
unfoldable pub find_profile_or_throw : ℕ → M HandymanProfile
find_profile_or_throw id w = or_throw (find_where (λ p. p.id == id) w.profiles) record_not_found w

unfoldable pub get_or_create : ℕ → ℕ → M HandymanProfile
unfolding or_on_unique find_profile_by_user
get_or_create id user_id w = elim (find_where (λ p. p.user_id == user_id) w.profiles) [
  | some existing ↦ (w, ok existing)
  | none ↦
      or_on_unique (create_profile (default_profile id user_id) w)
        (do found ← find_profile_by_user user_id; or_throw found record_not_found)
]

-- Each status is counted by a query of its own.
unfoldable pub count_status : (ServiceRequest → Bool) → ℕ → M ℕ
count_status has_status profile_id w =
    (w, ok (count_where (λ r. is_id r.assigned_handyman_id profile_id && has_status r) w.requests))

unfoldable pub get_dashboard : ℕ → ℕ → M (HandymanProfile × ℕ × ℕ)
unfolding get_or_create count_status
get_dashboard id user_id = do
  profile ← get_or_create id user_id
  assigned ← count_status (λ r. is_assigned r.status) profile.id
  in_progress ← count_status (λ r. is_in_progress r.status) profile.id
  awaiting ← count_status (λ r. is_awaiting_confirmation r.status) profile.id
  completed ← count_status (λ r. is_completed r.status) profile.id
  pure (profile, assigned + in_progress + awaiting, completed)

pub record CompleteProfileDto : Type 0 where
  pub details : ProfileDetails
  pub category_ids : List ℕ

-- `categories: { create: … }`; a pair that is there violates the primary key.
unfoldable pub link_categories : ℕ → List ℕ → M (Unit {0})
link_categories profile_id [] w = (w, ok tt)
link_categories profile_id (c ∷ cs) w =
    let rest = link_categories profile_id cs (record w {
      categories = record { handyman_profile_id = profile_id; category_id = c } ∷ w.categories;
    }) in
    if any_where (λ k. k.handyman_profile_id == profile_id && k.category_id == c) w.categories
    then (w, err unique_violation)
    else rest

-- `categories: { deleteMany: {} }`
unfoldable pub unlink_categories : ℕ → M (Unit {0})
unlink_categories profile_id w = (
  record w {
    categories = filter_where (λ k. not (k.handyman_profile_id == profile_id)) w.categories;
  },
  ok tt,
)

abbrev pub or_keep : {A : Type 0} → Option A → Option A → Option A
or_keep none old = old
or_keep (some new) old = some new

-- The columns written: an optional field that is not given leaves its column as it is.
abbrev pub merge_details : ProfileDetails → Option ProfileDetails → ProfileDetails
merge_details given none = given
merge_details given (some old) = record {
  bio = given.bio;
  location = given.location;
  latitude = or_keep given.latitude old.latitude;
  longitude = or_keep given.longitude old.longitude;
  hourly_rate = or_keep given.hourly_rate old.hourly_rate;
  years_of_experience = or_keep given.years_of_experience old.years_of_experience;
}

abbrev pub completed_profile : ProfileDetails → HandymanProfile → HandymanProfile
completed_profile details p = record p {
  details = some (merge_details details p.details);
  verification_status = profile_complete;
}

-- The two branches of the profile write of `completeProfile`, with their nested category writes.
unfoldable pub rewrite_profile : ℕ → CompleteProfileDto → M HandymanProfile
unfolding unlink_categories find_profile_or_throw
rewrite_profile id dto = do
  n ← update_profiles (λ p. p.id == id) (completed_profile dto.details)
  unlink_categories id
  link_categories id dto.category_ids
  find_profile_or_throw id

unfoldable pub insert_profile : ℕ → ℕ → CompleteProfileDto → M HandymanProfile
insert_profile id user_id dto = do
  profile ← create_profile (completed_profile dto.details (default_profile id user_id))
  link_categories profile.id dto.category_ids
  pure profile

unfoldable pub write_profile :
    ℕ → ℕ → Option HandymanProfile → CompleteProfileDto → M HandymanProfile
write_profile id user_id (some existing) dto = transaction (rewrite_profile existing.id dto)
write_profile id user_id none dto = transaction (insert_profile id user_id dto)

abbrev pub may_complete : Option HandymanProfile → M (Unit {0})
may_complete none = pure tt
may_complete (some existing) =
    guard (is_unverified existing.verification_status) (
      invalid_transition (verification existing.verification_status)
        (verification profile_complete))

unfoldable pub complete_profile : ℕ → ℕ → CompleteProfileDto → M HandymanProfile
complete_profile id user_id dto = do
  existing ← find_profile_by_user user_id
  may_complete existing
  user ← find_user_or_throw user_id
  profile ← write_profile id user_id existing dto
  emit (handyman_profile_completed user_id profile.id user.email)
  pure profile

-- `categories` of the update: none are given, or all are replaced.
unfoldable pub replace_categories : ℕ → List ℕ → M (Unit {0})
unfolding unlink_categories
replace_categories profile_id [] = pure tt
replace_categories profile_id (c ∷ cs) = do
  unlink_categories profile_id
  link_categories profile_id (c ∷ cs)

abbrev pub change_details :
    (Option ProfileDetails → Option ProfileDetails) → HandymanProfile → HandymanProfile
change_details details p = record p { details = details p.details }

unfoldable pub edit_profile :
    ℕ → (Option ProfileDetails → Option ProfileDetails) → List ℕ → M HandymanProfile
unfolding replace_categories find_profile_or_throw
edit_profile id details category_ids = do
  n ← update_profiles (λ p. p.id == id) (change_details details)
  replace_categories id category_ids
  find_profile_or_throw id

-- `details` edits the given fields; categories are replaced if any are given.
unfoldable pub update_profile :
    ℕ → (Option ProfileDetails → Option ProfileDetails) → List ℕ → M HandymanProfile
unfolding edit_profile
update_profile user_id details category_ids = do
  found ← find_profile_by_user user_id
  profile ← or_throw found handyman_profile_not_found
  transaction (edit_profile profile.id details category_ids)

-- The data of `updateVerificationStatus`: `undefined` leaves a column as it is.
abbrev pub write_status :
    VerificationStatus → Option ℕ → Option String → ℕ → HandymanProfile → HandymanProfile
write_status status reviewed_by_id rejection_reason now p = record p {
  verification_status = status;
  reviewed_by_id = or_keep reviewed_by_id p.reviewed_by_id;
  rejection_reason = or_keep rejection_reason p.rejection_reason;
  verified_at = if is_verified status then some now else p.verified_at;
}

unfoldable pub update_verification_status :
    ℕ → VerificationStatus → Option ℕ → Option String → ℕ → M HandymanProfile
unfolding find_profile_or_throw
update_verification_status id status reviewed_by_id rejection_reason now = do
  n ← update_profiles (λ p. p.id == id) (write_status status reviewed_by_id rejection_reason now)
  find_profile_or_throw id

unfoldable pub delete_document : ℕ → ℕ → M (Unit {0})
delete_document user_id document_id = do
  found ← find_profile_by_user user_id
  profile ← or_throw found handyman_profile_not_found
  guard (not (is_documents_submitted profile.verification_status)) forbidden
  λ w. (
    record w {
      documents =
          filter_where (λ d. not (d.id == document_id && d.handyman_profile_id == profile.id))
            w.documents;
    },
    ok tt,
  )

unfoldable pub find_documents : ℕ → M (List HandymanDocument)
find_documents profile_id w =
    (w, ok (filter_where (λ d. d.handyman_profile_id == profile_id) w.documents))

abbrev pub has_some : List HandymanDocument → Bool
has_some [] = false
has_some (d ∷ ds) = true

unfoldable pub submit_documents : ℕ → ℕ → M HandymanProfile
unfolding find_documents
submit_documents user_id now = do
  found ← find_profile_by_user user_id
  profile ← or_throw found handyman_profile_not_found
  guard (may_submit profile.verification_status) (
      invalid_transition (verification profile.verification_status)
        (verification documents_submitted))
  documents ← find_documents profile.id
  guard (has_some documents) (invalid_transition no_documents (verification documents_submitted))
  updated ← update_verification_status profile.id documents_submitted none none now
  user ← find_user_or_throw user_id
  emit (handyman_documents_submitted user_id profile.id user.email)
  pure updated
