-- ===== src/Vetting/Overlap.antt =====
-- Two reviews of one profile at the same time: src/modules/admin/admin-verification.service.ts.
use mathlib.Core.Option
use fetchit_be.Base.{
  ℕ, String, none, some, List, [], ◌∷◌, ◌++◌, ◌==◌, ◌≡◌, refl, arith, find_where, update_where,
  find_where_sound, find_where-update_where, ap, ◌∙◌,
}
use fetchit_be.Schema.{
  HandymanProfile, User, VerificationStatus, verified, handyman_verified, handyman_rejected,
}
use fetchit_be.World.{World, find_user_or_throw, update_profiles}
use fetchit_be.Vetting.Profile.{update_verification_status, write_status, find_profile_or_throw}
use fetchit_be.Vetting.Review.{log, approve_commit, reject_handyman_commit}

-- The row after a status write.
status_found :
    (id : ℕ) (f : HandymanProfile → HandymanProfile) (profiles : List HandymanProfile)
    (p : HandymanProfile)
    → ((q : HandymanProfile) → (f q).id ≡ q.id)
    → find_where (λ q. q.id == id) profiles ≡ some p
    → find_where (λ q. q.id == id) (update_where (λ q. q.id == id) f profiles) ≡ some (f p)
status_found id f profiles p keeps found =
    let keyed = find_where_sound (λ q. q.id == id) profiles p found in
    find_where-update_where (λ q. q.id == id) (λ q. q.id == id) f profiles
      (λ q. ap (λ (k : ℕ). k == id) (keeps q))
    ∙ ap (Option.map _) found
    ∙ rw (keyed)

module _ (profile_id : ℕ) (seen p : HandymanProfile) (u : User) (w : World)
    (found : find_where (λ q. q.id == profile_id) w.profiles ≡ some p)
    (owner : find_where (λ x. x.id == seen.user_id) w.users ≡ some u) where
  approved :
      (admin now : ℕ)
      → let v = (approve_commit profile_id admin seen now w).0 in
        (find_where (λ q. q.id == profile_id) v.profiles
          ≡ some (write_status verified (some admin) none now p))
        × (v.users ≡ w.users)
        × (v.outbox ≡ w.outbox ++ handyman_verified seen.user_id profile_id u.email u.username ∷ [])
  unfolding approve_commit update_verification_status update_profiles find_profile_or_throw
      find_user_or_throw log
  approved admin now =
      let row =
        status_found profile_id (write_status verified (some admin) none now) w.profiles p
          (λ q. refl) found in
      (ground arith, ground arith, ground arith)

  rejected :
      (admin now : ℕ) (reason : String)
      → let v = (reject_handyman_commit profile_id admin reason seen now w).0 in
        (find_where (λ q. q.id == profile_id) v.profiles
          ≡ some (write_status VerificationStatus.rejected (some admin) (some reason) now p))
        × (v.outbox
            ≡ w.outbox ++ handyman_rejected seen.user_id profile_id u.email u.username reason ∷ [])
  unfolding reject_handyman_commit update_verification_status update_profiles find_profile_or_throw
      find_user_or_throw log
  rejected admin now reason =
      let row =
        status_found profile_id
          (write_status VerificationStatus.rejected (some admin) (some reason) now) w.profiles p
          (λ q. refl) found in
      (ground arith, ground arith)

-- When an approval and a rejection have both read the profile as it was submitted, and the rejection
-- writes last, then both succeed: the handyman is told first that he is verified and then that
-- he is rejected, and the profile is rejected with the approval's `verified_at`.
overlapping_reviews :
    (profile_id approver rejecter : ℕ) (reason : String) (at later : ℕ) (seen p : HandymanProfile)
    (u : User) (w : World)
    → find_where (λ q. q.id == profile_id) w.profiles ≡ some p
    → find_where (λ x. x.id == seen.user_id) w.users ≡ some u
    → let v = (approve_commit profile_id approver seen at w).0 in
      let z = (reject_handyman_commit profile_id rejecter reason seen later v).0 in
      (find_where (λ q. q.id == profile_id) z.profiles
        ≡ some (record p {
          verification_status = VerificationStatus.rejected;
          verified_at = some at;
          rejection_reason = some reason;
          reviewed_by_id = some rejecter;
        }))
      × (z.outbox
          ≡ (w.outbox ++ handyman_verified seen.user_id profile_id u.email u.username ∷ [])
            ++ handyman_rejected seen.user_id profile_id u.email u.username reason ∷ [])
overlapping_reviews profile_id approver rejecter reason at later seen p u w found owner =
    let (row, users, outbox) = approved profile_id seen p u w found owner approver at in
    let v = (approve_commit profile_id approver seen at w).0 in
    let (row', outbox') =
      rejected profile_id seen (write_status verified (some approver) none at p) u v row
        (ap (find_where (λ x. x.id == seen.user_id)) users ∙ owner) rejecter later reason in
    (
      row',
      outbox'
          ∙ ap (λ o. o ++ handyman_rejected seen.user_id profile_id u.email u.username reason ∷ [])
              outbox,
    )
