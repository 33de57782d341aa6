-- ===== src/Vetting/Reading.antt =====
-- What an administrator reads: getPendingHandymen, getHandymanForReview, the private
-- logDocumentAccess, and the end of reviewDocument, of
-- src/modules/admin/admin-verification.service.ts.
use fetchit_be.Base.{
  ℕ, String, Bool, false, Option, none, some, List, [], ◌∷◌, ◌==◌, ◌&&◌, or_else, if◌then◌else◌,
}
use fetchit_be.Schema.{
  User, HandymanProfile, HandymanDocument, AuditLog, DocumentStatus, document_access,
  handyman_profile, handyman_document, is_documents_submitted, resource_not_found, storage_failure,
}
use fetchit_be.Texts.{Text}
use fetchit_be.World.{World, Result, M, ◌>>=◌, pure, or_throw, ok, err, find_profile}
use fetchit_be.Listing.{PaginationDto, PaginatedResult, skip, find_page}
use fetchit_be.Listing.Requests.{SignedDocument, to_signed_document, include_user, map_page}
use fetchit_be.Vetting.Profile.{find_documents}
use fetchit_be.Vetting.Review.{log, review_document}

-- `select: { id, username, email, avatar }`
pub record ApplicantCard : Type 0 where
  pub id : ℕ
  pub username : String
  pub email : String
  pub avatar : Option Text

abbrev pub applicant_of : User → ApplicantCard
applicant_of u = record { id = u.id; username = u.username; email = u.email; avatar = u.avatar }

pub record PendingProfile : Type 0 where
  pub profile : HandymanProfile
  pub user : Option ApplicantCard

unfoldable pub pending_profile : World → HandymanProfile → PendingProfile
unfolding include_user
pending_profile w p = record { profile = p; user = include_user applicant_of w.users p.user_id }

-- The newest profile stands first in its table.
unfoldable pub get_pending_handymen : PaginationDto → M (PaginatedResult PendingProfile)
unfolding skip find_page pending_profile
get_pending_handymen pagination w = (
  w,
  ok (
      map_page (pending_profile w) (
        find_page (λ p. is_documents_submitted p.verification_status) (λ rows. rows)
          (skip pagination) (or_else pagination.page 1) (or_else pagination.limit 10) w.profiles)),
)

abbrev pub access_entry : ℕ → ℕ → AuditLog
access_entry admin_user_id doc_id = record {
  user_id = admin_user_id;
  action = document_access;
  entity = handyman_document;
  entity_id = doc_id;
  status = none;
  reason = none;
}

-- `fails` says for which documents the audit insert throws, which is swallowed.
unfoldable pub log_document_access : (ℕ → Bool) → ℕ → ℕ → M (Unit {0})
unfolding log
log_document_access fails admin_user_id doc_id =
    if fails doc_id then pure tt else log (access_entry admin_user_id doc_id)

-- `Promise.all`: every document is signed and logged, and the call throws if one was not signed.
abbrev pub after_rest :
    Option SignedDocument
    → World × Result (List SignedDocument)
    → World × Result (List SignedDocument)
after_rest none (w, rest) = (w, err storage_failure)
after_rest (some d) (w, ok rest) = (w, ok (d ∷ rest))
after_rest (some d) (w, err e) = (w, err e)

unfoldable pub sign_for_review :
    (Text → Option Text) → (ℕ → Bool) → ℕ → List HandymanDocument → M (List SignedDocument)
unfolding log_document_access
sign_for_review sign fails admin_user_id [] w = (w, ok [])
sign_for_review sign fails admin_user_id (d ∷ ds) w = elim (sign d.file_key) [
  | none ↦ after_rest none (sign_for_review sign fails admin_user_id ds w)
  | some url ↦ after_rest (some (to_signed_document d url)) (
      sign_for_review sign fails admin_user_id ds
        (log_document_access fails admin_user_id d.id w).0)
]

unfoldable pub get_handyman_for_review :
    (Text → Option Text) → (ℕ → Bool) → ℕ → ℕ → M (HandymanProfile × List SignedDocument)
unfolding find_documents sign_for_review
get_handyman_for_review sign fails profile_id admin_user_id = do
  found ← find_profile profile_id
  profile ← or_throw found (resource_not_found handyman_profile profile_id)
  documents ← find_documents profile.id
  signed ← sign_for_review sign fails admin_user_id documents
  pure (profile, signed)

-- `reviewDocument`, its answer included.
unfoldable pub review_document_signed :
    (Text → Option Text) → ℕ → ℕ → ℕ → DocumentStatus → String → ℕ → M SignedDocument
unfolding review_document
review_document_signed sign profile_id doc_id admin_user_id status reason now = do
  updated ← review_document profile_id doc_id admin_user_id status reason now
  url ← or_throw (sign updated.file_key) storage_failure
  pure (to_signed_document updated url)

-- Is there an entry for the administrator's access to the document?
abbrev pub is_access : ℕ → ℕ → AuditLog → Bool
is_access admin_user_id doc_id entry = elim entry.action [
  | document_access ↦ entry.user_id == admin_user_id && entry.entity_id == doc_id
  | _ ↦ false
]
