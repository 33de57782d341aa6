-- ===== src/Schema.antt =====
-- The tables of prisma/schema.prisma, and the exceptions and events of src/common.
-- An id (a UUID) is a number that the code only compares; a time is a number of milliseconds; a
-- value that the services only store and copy (coordinates, money) is an opaque number.
use fetchit_be.Base.{ℕ, String, Bool, true, false, Option}
use fetchit_be.Texts.{Text}

pub data ServiceRequestStatus : Type 0 where
  opened assigned in_progress awaiting_confirmation completed cancelled : ServiceRequestStatus

pub data ApplicationStatus : Type 0 where
  pending accepted rejected withdrawn : ApplicationStatus

pub data VerificationStatus : Type 0 where
  unverified profile_complete documents_submitted verified rejected : VerificationStatus

pub data DocumentStatus : Type 0 where
  pending approved rejected : DocumentStatus

pub data DocumentType : Type 0 where
  government_id selfie proof_of_address : DocumentType

pub data UserRole : Type 0 where
  admin customer personal_shopper handyman : UserRole

pub data UserStatus : Type 0 where
  active inactive suspended pending : UserStatus

pub data AuthProvider : Type 0 where
  local google : AuthProvider

pub record User : Type 0 where
  pub id : ℕ
  pub username : String
  pub email : String
  pub password : Option ℕ
  pub role : UserRole
  pub status : UserStatus
  pub email_verified : Bool
  pub onboarded_at : Option ℕ
  pub last_login_at : Option ℕ
  pub deleted_at : Option ℕ
  pub provider : AuthProvider
  pub google_id : Option ℕ
  pub avatar : Option Text
  pub phone : Option String

pub record RefreshSession : Type 0 where
  pub id : ℕ
  pub user_id : ℕ
  pub token_hash : ℕ
  pub expires_at : ℕ
  pub revoked_at : Option ℕ

-- `PasswordReset` and `EmailVerification`, which have the same columns.
pub record OneTimeToken : Type 0 where
  pub id : ℕ
  pub token : ℕ
  pub user_id : ℕ
  pub expires_at : ℕ
  pub used_at : Option ℕ

pub record ProfileDetails : Type 0 where
  pub bio : String
  pub location : String
  pub latitude : Option ℕ
  pub longitude : Option ℕ
  pub hourly_rate : Option ℕ
  pub years_of_experience : Option ℕ

pub record HandymanProfile : Type 0 where
  pub id : ℕ
  pub user_id : ℕ
  pub details : Option ProfileDetails
  pub verification_status : VerificationStatus
  pub verified_at : Option ℕ
  pub rejection_reason : Option String
  pub reviewed_by_id : Option ℕ

pub record HandymanProfileCategory : Type 0 where
  pub handyman_profile_id : ℕ
  pub category_id : ℕ

pub record HandymanDocument : Type 0 where
  pub id : ℕ
  pub handyman_profile_id : ℕ
  pub kind : DocumentType
  pub file_key : Text
  pub file_name : Text
  pub status : DocumentStatus
  pub rejection_reason : Option String
  pub reviewed_by_id : Option ℕ
  pub reviewed_at : Option ℕ

-- An object of the storage, without its bytes.
pub record StoredObject : Type 0 where
  pub key : Text
  pub size : ℕ
  pub content_type : Text

pub record ServiceCategory : Type 0 where
  pub id : ℕ
  pub name : Text
  pub slug : Text
  pub description : Option String
  pub icon : Option String
  pub is_active : Bool

pub record RequestDetails : Type 0 where
  pub title : String
  pub description : String
  pub location : String
  pub latitude : Option ℕ
  pub longitude : Option ℕ
  pub budget_min : Option ℕ
  pub budget_max : Option ℕ

pub record ServiceRequest : Type 0 where
  pub id : ℕ
  pub customer_id : ℕ
  pub category_id : ℕ
  pub details : RequestDetails
  pub status : ServiceRequestStatus
  pub assigned_handyman_id : Option ℕ
  pub completed_at : Option ℕ
  pub cancelled_at : Option ℕ

pub record Application : Type 0 where
  pub id : ℕ
  pub service_request_id : ℕ
  pub handyman_profile_id : ℕ
  pub cover_message : Option String
  pub proposed_rate : Option ℕ
  pub status : ApplicationStatus

abbrev pub is_opened : ServiceRequestStatus → Bool
is_opened opened = true
is_opened _ = false

abbrev pub is_assigned : ServiceRequestStatus → Bool
is_assigned assigned = true
is_assigned _ = false

abbrev pub is_in_progress : ServiceRequestStatus → Bool
is_in_progress in_progress = true
is_in_progress _ = false

abbrev pub is_awaiting_confirmation : ServiceRequestStatus → Bool
is_awaiting_confirmation awaiting_confirmation = true
is_awaiting_confirmation _ = false

abbrev pub is_completed : ServiceRequestStatus → Bool
is_completed completed = true
is_completed _ = false

abbrev pub is_cancelled : ServiceRequestStatus → Bool
is_cancelled cancelled = true
is_cancelled _ = false

-- `a === b` on two statuses of a request.
abbrev pub same_status : ServiceRequestStatus → ServiceRequestStatus → Bool
same_status opened s = is_opened s
same_status assigned s = is_assigned s
same_status in_progress s = is_in_progress s
same_status awaiting_confirmation s = is_awaiting_confirmation s
same_status completed s = is_completed s
same_status cancelled s = is_cancelled s

abbrev pub is_pending : ApplicationStatus → Bool
is_pending ApplicationStatus.pending = true
is_pending _ = false

abbrev pub is_accepted : ApplicationStatus → Bool
is_accepted accepted = true
is_accepted _ = false

-- `status: { in: [WITHDRAWN, REJECTED] }`
abbrev pub is_withdrawn_or_rejected : ApplicationStatus → Bool
is_withdrawn_or_rejected withdrawn = true
is_withdrawn_or_rejected ApplicationStatus.rejected = true
is_withdrawn_or_rejected _ = false

-- `status: { in: [PENDING, ACCEPTED] }`
abbrev pub is_pending_or_accepted : ApplicationStatus → Bool
is_pending_or_accepted ApplicationStatus.pending = true
is_pending_or_accepted accepted = true
is_pending_or_accepted _ = false

abbrev pub is_unverified : VerificationStatus → Bool
is_unverified unverified = true
is_unverified _ = false

abbrev pub is_documents_submitted : VerificationStatus → Bool
is_documents_submitted documents_submitted = true
is_documents_submitted _ = false

abbrev pub is_verified : VerificationStatus → Bool
is_verified verified = true
is_verified _ = false

-- `[PROFILE_COMPLETE, REJECTED].includes(status)`
abbrev pub may_submit : VerificationStatus → Bool
may_submit profile_complete = true
may_submit VerificationStatus.rejected = true
may_submit _ = false

abbrev pub is_active : UserStatus → Bool
is_active active = true
is_active _ = false

abbrev pub is_local : AuthProvider → Bool
is_local local = true
is_local google = false

abbrev pub is_admin : UserRole → Bool
is_admin admin = true
is_admin _ = false

-- The states that an InvalidVerificationTransitionException names.
pub data State : Type 0 where
  verification : VerificationStatus → State
  request : ServiceRequestStatus → State
  no_documents : State

pub data Resource : Type 0 where
  service_request application handyman_profile handyman_document service_category : Resource

-- The exceptions, without their texts. `record_not_found` is what `findUniqueOrThrow` throws (and
-- `update` on a missing row), `unique_violation` is Prisma's P2002.
pub data Error : Type 0 where
  resource_not_found : Resource → ℕ → Error
  forbidden bad_request service_request_not_open application_not_pending : Error
  service_request_status_changed handyman_profile_not_found handyman_not_verified : Error
  duplicate_application category_not_serviced application_not_withdrawable : Error
  invalid_transition : State → State → Error
  record_not_found unique_violation storage_failure : Error
  invalid_credentials email_not_verified account_suspended invalid_token : Error
  passwords_differ token_invalid token_already_used token_expired mail_failure : Error
  email_already_exists username_already_exists user_not_found signing_failure : Error
  account_already_linked user_missing account_not_active session_not_generated : Error
  resource_already_exists foreign_key_violation user_unauthorized account_unauthorized : Error

pub data Event : Type 0 where
  service_request_created : ℕ → ℕ → ℕ → String → Event
  service_request_assigned : ℕ → ℕ → ℕ → Event
  service_request_completion_submitted : ℕ → ℕ → ℕ → Event
  service_request_completed : ℕ → Option ℕ → ℕ → Event
  service_request_cancelled : ℕ → ℕ → Option ℕ → Event
  service_request_unassigned : ℕ → ℕ → ℕ → Event
  user_email_verified : ℕ → String → String → Event
  handyman_profile_completed handyman_documents_submitted : ℕ → ℕ → String → Event
  handyman_verified : ℕ → ℕ → String → String → Event
  handyman_rejected : ℕ → ℕ → String → String → String → Event

pub data AuditAction : Type 0 where
  handyman_approve handyman_reject document_review document_access : AuditAction

-- `entity` and `entity_id`; the details are those that the action has.
pub record AuditLog : Type 0 where
  pub user_id : ℕ
  pub action : AuditAction
  pub entity : Resource
  pub entity_id : ℕ
  pub status : Option DocumentStatus
  pub reason : Option String
