-- ===== src/Vetting/Tests.antt =====
-- A handyman who completes a profile, submits documents, is rejected, and is verified in the end.
use fetchit_be.Base.{
  ◌≡◌, refl, true, none, some, [], ◌∷◌, find_where, any_where, filter_where, update_where, List,
}
use fetchit_be.Texts.{codes}
use fetchit_be.Schema.{
  User, HandymanProfile, HandymanDocument, VerificationStatus, DocumentStatus, UserRole, UserStatus,
  local, government_id, unverified, verified,
}
use fetchit_be.World.{
  World, find_profile, find_profile_by_user, find_user_or_throw, update_profiles,
}
use fetchit_be.Vetting.Profile.{
  complete_profile, submit_documents, update_verification_status, rewrite_profile, link_categories,
  unlink_categories, find_profile_or_throw, write_profile, find_documents, delete_document,
  CompleteProfileDto,
}
use fetchit_be.Vetting.Review.{approve_handyman, reject_handyman}
use fetchit_be.Vetting.Sound.{
  VettingCall, completing, submitting, rejecting, approving, deleting, run_calls, IsVetted,
  run_calls-IsVetted,
}

abbrev ada : User
ada = record {
  id = 70;
  username = "ada";
  email = "ada@example.org";
  password = some 1;
  role = UserRole.handyman;
  status = UserStatus.active;
  email_verified = true;
  onboarded_at = none;
  last_login_at = none;
  deleted_at = none;
  provider = local;
  google_id = none;
  avatar = none;
  phone = none;
}

abbrev fresh_profile : VerificationStatus → HandymanProfile
fresh_profile status = record {
  id = 7;
  user_id = 70;
  details = none;
  verification_status = status;
  verified_at = none;
  rejection_reason = none;
  reviewed_by_id = none;
}

abbrev passport : HandymanDocument
passport = record {
  id = 3;
  handyman_profile_id = 7;
  kind = government_id;
  file_key = codes "key";
  file_name = codes "passport.pdf";
  status = DocumentStatus.pending;
  rejection_reason = none;
  reviewed_by_id = none;
  reviewed_at = none;
}

abbrev start : VerificationStatus → World
start status = record {
  users = ada ∷ [];
  profiles = fresh_profile status ∷ [];
  categories = [];
  documents = passport ∷ [];
  audit_log = [];
  sessions = [];
  objects = [];
  service_categories = [];
  password_resets = [];
  email_verifications = [];
  requests = [];
  applications = [];
  outbox = [];
}

abbrev details : CompleteProfileDto
details = record {
  details = record {
    bio = "Joiner";
    location = "Leeds";
    latitude = none;
    longitude = none;
    hourly_rate = none;
    years_of_experience = none;
  };
  category_ids = 5 ∷ [];
}

abbrev history : List VettingCall
history =
    completing 8 70 details
    ∷ submitting 70 1
    ∷ deleting 70 3
    ∷ rejecting 7 1 "blurred" 2
    ∷ submitting 70 3
    ∷ approving 7 1 4
    ∷ []

-- The history ends with a verified profile; the deletion under review was refused.
history_end :
    (run_calls history (start unverified)).profiles
    ≡ record (fresh_profile verified) {
      details = some details.details;
      verified_at = some 4;
      rejection_reason = some "blurred";
      reviewed_by_id = some 1;
    }
      ∷ []
unfolding complete_profile submit_documents update_verification_status rewrite_profile
    link_categories unlink_categories find_profile_or_throw write_profile find_documents
    delete_document approve_handyman reject_handyman find_profile find_where find_profile_by_user
    find_user_or_throw update_profiles any_where filter_where update_where
history_end = refl

run_calls-IsVetted_example : IsVetted (run_calls history (start unverified))
run_calls-IsVetted_example = run_calls-IsVetted history (start unverified) ((tt, tt), (refl, tt))
