-- ===== src/Vetting/Review.antt =====
-- The administrator's side: src/modules/admin/admin-verification.service.ts.
use fetchit_be.Base.{ℕ, String, Option, none, some, ◌∷◌, ◌==◌, find_where, update_where}
use fetchit_be.Schema.{
  HandymanProfile, HandymanDocument, DocumentStatus, VerificationStatus, verified,
  is_documents_submitted, invalid_transition, verification, resource_not_found, record_not_found,
  handyman_profile, handyman_document, handyman_verified, handyman_rejected, AuditLog, AuditAction,
  handyman_approve, handyman_reject, document_review, document_access,
}
use fetchit_be.World.{
  ok, M, ◌>>=◌, ◌>>◌, pure, guard, or_throw, emit, find_profile, find_user_or_throw,
}
use fetchit_be.Vetting.Profile.{update_verification_status}

-- `auditService.log`; the row is written.
unfoldable pub log : AuditLog → M (Unit {0})
log entry w = (record w { audit_log = entry ∷ w.audit_log }, ok tt)

unfoldable pub find_document : ℕ → M (Option HandymanDocument)
find_document id w = (w, ok (find_where (λ d. d.id == id) w.documents))

unfoldable pub update_document : ℕ → (HandymanDocument → HandymanDocument) → M (Unit {0})
update_document id f w =
    (record w { documents = update_where (λ d. d.id == id) f w.documents }, ok tt)

unfoldable pub review_check : ℕ → VerificationStatus → M HandymanProfile
review_check profile_id target = do
  found ← find_profile profile_id
  profile ← or_throw found (resource_not_found handyman_profile profile_id)
  guard (is_documents_submitted profile.verification_status)
      (invalid_transition (verification profile.verification_status) (verification target))
  pure profile

-- `seen` is the profile as read before the write.
unfoldable pub approve_commit : ℕ → ℕ → HandymanProfile → ℕ → M HandymanProfile
unfolding log
approve_commit profile_id admin_user_id seen now = do
  updated ← update_verification_status profile_id verified (some admin_user_id) none now
  user ← find_user_or_throw seen.user_id
  emit (handyman_verified seen.user_id profile_id user.email user.username)
  log (record {
    user_id = admin_user_id;
    action = handyman_approve;
    entity = handyman_profile;
    entity_id = profile_id;
    status = none;
    reason = none;
  })
  pure updated

unfoldable pub approve_handyman : ℕ → ℕ → ℕ → M HandymanProfile
unfolding review_check approve_commit
approve_handyman profile_id admin_user_id now = do
  profile ← review_check profile_id verified
  approve_commit profile_id admin_user_id profile now

unfoldable pub reject_handyman_commit : ℕ → ℕ → String → HandymanProfile → ℕ → M HandymanProfile
unfolding log
reject_handyman_commit profile_id admin_user_id reason seen now = do
  updated ←
      update_verification_status profile_id VerificationStatus.rejected (some admin_user_id)
        (some reason) now
  user ← find_user_or_throw seen.user_id
  emit (handyman_rejected seen.user_id profile_id user.email user.username reason)
  log (record {
    user_id = admin_user_id;
    action = handyman_reject;
    entity = handyman_profile;
    entity_id = profile_id;
    status = none;
    reason = some reason;
  })
  pure updated

unfoldable pub reject_handyman : ℕ → ℕ → String → ℕ → M HandymanProfile
unfolding review_check reject_handyman_commit
reject_handyman profile_id admin_user_id reason now = do
  profile ← review_check profile_id VerificationStatus.rejected
  reject_handyman_commit profile_id admin_user_id reason profile now

abbrev pub rejected_reason : DocumentStatus → String → Option String
rejected_reason DocumentStatus.rejected reason = some reason
rejected_reason _ reason = none

-- What `reviewDocument` does after its check, up to the signed URL: the second audit entry is for
-- the URL that is given out.
unfoldable pub review_document_commit : ℕ → ℕ → DocumentStatus → String → ℕ → M HandymanDocument
unfolding log
review_document_commit doc_id admin_user_id status reason now = do
  update_document doc_id (λ d. record d {
    status = status;
    rejection_reason = rejected_reason status reason;
    reviewed_by_id = some admin_user_id;
    reviewed_at = some now;
  })
  log (document_entry document_review (some status))
  log (document_entry document_access none)
  after ← find_document doc_id
  or_throw after record_not_found
  where
    document_entry : AuditAction → Option DocumentStatus → AuditLog
    document_entry action status = record {
      user_id = admin_user_id;
      action = action;
      entity = handyman_document;
      entity_id = doc_id;
      status = status;
      reason = none;
    }

unfoldable pub review_document : ℕ → ℕ → ℕ → DocumentStatus → String → ℕ → M HandymanDocument
unfolding review_document_commit
review_document profile_id doc_id admin_user_id status reason now = do
  found ← find_document doc_id
  document ← or_throw found (resource_not_found handyman_document doc_id)
  guard (document.handyman_profile_id == profile_id) (resource_not_found handyman_document doc_id)
  review_document_commit doc_id admin_user_id status reason now
