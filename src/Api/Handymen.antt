-- ===== src/Api/Handymen.antt =====
-- src/modules/handyman/handyman.controller.ts.
use fetchit_be.Base.{Bool, ℕ, Option, none, some, List, [], ◌∷◌}
use fetchit_be.Schema.{
  DocumentType, storage_failure, ServiceRequest, Application, HandymanProfile, ProfileDetails,
  handyman,
}
use fetchit_be.World.{M, ◌>>=◌, or_throw, pure}
use fetchit_be.Uploads.Objects.{UploadedFile}
use fetchit_be.Uploads.Documents.{upload_document_file}
use fetchit_be.Texts.{Text}
use fetchit_be.Auth.Access.{RequestUser}
use fetchit_be.Listing.{PaginationDto, PaginatedResult}
use fetchit_be.Listing.Requests.{
  OpenRequest, AssignedRequest, SignedDocument, to_signed_document, RequestProgress,
  browse_open_requests, get_service_requests, get_documents, get_profile, get_own_applications,
}
use fetchit_be.Market.Handyman
use fetchit_be.Market.Handyman.{ApplyServiceRequestDto}
use fetchit_be.Vetting.Profile
use fetchit_be.Vetting.Profile.{CompleteProfileDto}
use fetchit_be.Api.{Reply, reply, protected}

-- The endpoints about the profile; each carries the key of the profile that it may make.
pub data ProfileRoute : Type 0 where
  dashboard profile : ℕ → ProfileRoute
  complete_profile : ℕ → CompleteProfileDto → ProfileRoute
  update_profile : (Option ProfileDetails → Option ProfileDetails) → List ℕ → ProfileRoute
  upload_document : ℕ → DocumentType → Option UploadedFile → Text → Bool → Bool → ProfileRoute
  documents : ℕ → ProfileRoute
  delete_document : ℕ → ProfileRoute
  submit_documents : ℕ → ProfileRoute

pub data ProfileBody : Type 0 where
  stats : HandymanProfile × ℕ × ℕ → ProfileBody
  full_profile : HandymanProfile × List SignedDocument → ProfileBody
  one_profile : HandymanProfile → ProfileBody
  signed_documents : List SignedDocument → ProfileBody
  one_document : SignedDocument → ProfileBody
  nothing : Unit {0} → ProfileBody

-- The endpoints about requests and applications.
pub data JobRoute : Type 0 where
  assigned_requests : ℕ → PaginationDto → Option RequestProgress → JobRoute
  browse : PaginationDto → JobRoute
  apply : ℕ → ℕ → ApplyServiceRequestDto → JobRoute
  own_applications : ℕ → JobRoute
  withdraw : ℕ → JobRoute
  start cancel_assigned complete : ℕ → JobRoute

pub data JobBody : Type 0 where
  assigned_page : PaginatedResult AssignedRequest → JobBody
  open_page : PaginatedResult OpenRequest → JobBody
  applications : List Application → JobBody
  one_application : Application → JobBody
  one_request : ServiceRequest → JobBody

-- `uploadDocumentFile`, its answer included.
unfoldable pub upload_signed :
    (ℕ → Text)
    → (Text → Option Text)
    → ℕ
    → ℕ
    → DocumentType
    → Option UploadedFile
    → Text
    → Bool
    → Bool
    → M SignedDocument
upload_signed id_text sign key user_id kind file uuid sent removed = do
  document ← upload_document_file id_text key user_id kind file uuid sent removed
  url ← or_throw (sign document.file_key) storage_failure
  pure (to_signed_document document url)

-- `sign` is `storage.getSignedUrl`, `id_text` the text of a key.
unfoldable pub run_profile_route :
    (ℕ → Text) → (Text → Option Text) → ProfileRoute → RequestUser → M (Reply ProfileBody)
unfolding upload_signed
run_profile_route id_text sign (dashboard key) user =
    reply none stats (Profile.get_dashboard key user.id)
run_profile_route id_text sign (profile key) user =
    reply none full_profile (get_profile sign key user.id)
run_profile_route id_text sign (complete_profile key dto) user =
    reply (some "Profile completed successfully") one_profile
      (Profile.complete_profile key user.id dto)
run_profile_route id_text sign (update_profile details categories) user =
    reply (some "Profile updated successfully") one_profile
      (Profile.update_profile user.id details categories)
run_profile_route id_text sign (upload_document key kind file uuid sent removed) user =
    reply (some "Document uploaded successfully") one_document
      (upload_signed id_text sign key user.id kind file uuid sent removed)
run_profile_route id_text sign (documents key) user =
    reply none signed_documents (get_documents sign key user.id)
run_profile_route id_text sign (delete_document id) user =
    reply (some "Document deleted successfully") nothing (Profile.delete_document user.id id)
run_profile_route id_text sign (submit_documents now) user =
    reply (some "Documents submitted for review") one_profile (Profile.submit_documents user.id now)

unfoldable pub run_job_route : JobRoute → RequestUser → M (Reply JobBody)
run_job_route (assigned_requests key query filter) user =
    reply none assigned_page (get_service_requests key user.id query filter)
run_job_route (browse pagination) user =
    reply none open_page (browse_open_requests user.id pagination)
run_job_route (apply key id dto) user =
    reply (some "Application submitted successfully") one_application
      (Handyman.apply_to_request key user.id id dto)
run_job_route (own_applications key) user =
    reply none applications (get_own_applications key user.id)
run_job_route (withdraw id) user =
    reply (some "Application withdrawn") one_application (Handyman.withdraw_application user.id id)
run_job_route (start id) user =
    reply (some "Service request updated successfully") one_request
      (Handyman.start_request user.id id)
run_job_route (cancel_assigned id) user =
    reply (some "Service request cancelled — back to OPEN for other handymen") one_request
      (Handyman.cancel_assigned_request user.id id)
run_job_route (complete id) user =
    reply (some "Marked complete — awaiting customer confirmation") one_request
      (Handyman.complete_request user.id id)

-- `HandymanController`, of which every endpoint is for handymen.
unfoldable pub handyman_profile_controller :
    (ℕ → Text) → (Text → Option Text) → ProfileRoute → Option ℕ → M (Reply ProfileBody)
unfolding run_profile_route
handyman_profile_controller id_text sign route token =
    protected (handyman ∷ []) token (run_profile_route id_text sign route)

unfoldable pub handyman_job_controller : JobRoute → Option ℕ → M (Reply JobBody)
unfolding run_job_route
handyman_job_controller route token = protected (handyman ∷ []) token (run_job_route route)
