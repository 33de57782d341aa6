-- ===== src/Listing/Requests.antt =====
-- The listings of requests: findAll of src/modules/service-requests/service-requests.service.ts, and
-- getServiceRequests, browseOpenRequests, getDocuments, getProfile and getApplications of
-- src/modules/handyman/handyman.service.ts. The newest request stands first in its table, which is
-- the order that the listings ask for. The key of a profile that is made on the way is an argument.
use fetchit_be.Base.{
  ℕ, ◌-◌, ◌*◌, String, Bool, true, Option, none, some, List, [], ◌∷◌, map, ◌==◌, ◌&&◌, is_id,
  or_else, find_where, filter_where, count_where,
}
use fetchit_be.Schema.{
  User, HandymanProfile, HandymanDocument, DocumentType, DocumentStatus, ServiceRequest,
  ServiceRequestStatus, Application, is_opened, is_completed, is_verified, same_status,
  handyman_not_verified, handyman_profile_not_found, storage_failure,
}
use fetchit_be.Texts.{Text}
use fetchit_be.World.{World, M, ◌>>=◌, ◌>>◌, pure, guard, or_throw, ok, find_profile_by_user}
use fetchit_be.Vetting.Profile.{get_or_create, find_documents}
use fetchit_be.Listing.{
  PaginationDto, PaginatedResult, skip, create_pagination_meta, find_page, take, drop,
}

-- `select: { id, username, avatar }`
pub record CustomerCard : Type 0 where
  pub id : ℕ
  pub username : String
  pub avatar : Option Text

-- `select: { id, username, email, avatar, phone }`
pub record CustomerContact : Type 0 where
  pub id : ℕ
  pub username : String
  pub email : String
  pub avatar : Option Text
  pub phone : Option String

abbrev pub card_of : User → CustomerCard
card_of u = record { id = u.id; username = u.username; avatar = u.avatar }

abbrev pub contact_of : User → CustomerContact
contact_of u = record {
  id = u.id;
  username = u.username;
  email = u.email;
  avatar = u.avatar;
  phone = u.phone;
}

abbrev pub included {ℓ} : {A : Type ℓ} → (User → A) → Option User → Option A
included f none = none
included f (some u) = some (f u)

-- A relation to a user, with the columns that are selected.
unfoldable pub include_user {ℓ} : {A : Type ℓ} → (User → A) → List User → ℕ → Option A
include_user f users id = included f (find_where (λ u. u.id == id) users)

-- A request of the open feed, with `_count: { applications }`.
pub record OpenRequest : Type 0 where
  pub request : ServiceRequest
  pub customer : Option CustomerCard
  pub application_count : ℕ

pub record AssignedRequest : Type 0 where
  pub request : ServiceRequest
  pub customer : Option CustomerContact

abbrev pub map_page : {A B : Type 0} → (A → B) → PaginatedResult A → PaginatedResult B
map_page f p = record { items = map f p.items; about = p.about }

abbrev pub is_of_request : ServiceRequest → Application → Bool
is_of_request r a = a.service_request_id == r.id

unfoldable pub open_request : World → ServiceRequest → OpenRequest
unfolding include_user
open_request w r = record {
  request = r;
  customer = include_user card_of w.users r.customer_id;
  application_count = count_where (is_of_request r) w.applications;
}

-- The page of the open feed, once the caller may see it.
unfoldable pub open_page : PaginationDto → World → PaginatedResult OpenRequest
unfolding open_request find_page
open_page pagination w =
    let page = or_else pagination.page 1 in
    let limit = or_else pagination.limit 10 in
    map_page (open_request w) (
      find_page (λ r. is_opened r.status) (λ rows. rows) ((page - 1) * limit) page limit w.requests)

unfoldable pub browse_open_requests : ℕ → PaginationDto → M (PaginatedResult OpenRequest)
unfolding open_page
browse_open_requests user_id pagination = do
  found ← find_profile_by_user user_id
  profile ← or_throw found handyman_profile_not_found
  guard (is_verified profile.verification_status) handyman_not_verified
  λ w. (w, ok (open_page pagination w))

-- `filter` of HandymanServiceRequestQueryDto.
pub data RequestProgress : Type 0 where
  ongoing finished : RequestProgress

abbrev pub is_ongoing : ServiceRequestStatus → Bool
is_ongoing ServiceRequestStatus.assigned = true
is_ongoing ServiceRequestStatus.in_progress = true
is_ongoing ServiceRequestStatus.awaiting_confirmation = true
is_ongoing _ = Bool.false

abbrev pub in_progress_filter : Option RequestProgress → ServiceRequestStatus → Bool
in_progress_filter none s = true
in_progress_filter (some ongoing) s = is_ongoing s
in_progress_filter (some finished) s = is_completed s

abbrev pub is_listed : ℕ → Option RequestProgress → ServiceRequest → Bool
is_listed profile_id filter r =
    is_id r.assigned_handyman_id profile_id && in_progress_filter filter r.status

unfoldable pub assigned_view : World → ServiceRequest → AssignedRequest
unfolding include_user
assigned_view w r = record { request = r; customer = include_user contact_of w.users r.customer_id }

-- The page of the requests that are assigned to a profile.
unfoldable pub assigned_page :
    ℕ → PaginationDto → Option RequestProgress → World → PaginatedResult AssignedRequest
unfolding assigned_view find_page
assigned_page profile_id query filter w =
    let page = or_else query.page 1 in
    let limit = or_else query.limit 10 in
    map_page (assigned_view w) (
      find_page (is_listed profile_id filter) (λ rows. rows) ((page - 1) * limit) page limit
        w.requests)

unfoldable pub get_service_requests :
    ℕ → ℕ → PaginationDto → Option RequestProgress → M (PaginatedResult AssignedRequest)
unfolding assigned_page
get_service_requests id user_id query filter = do
  profile ← get_or_create id user_id
  λ w. (w, ok (assigned_page profile.id query filter w))

abbrev pub has_status : Option ServiceRequestStatus → ServiceRequestStatus → Bool
has_status none s = true
has_status (some wanted) s = same_status wanted s

-- `take: query.limit`, which takes all where no limit is given.
abbrev pub take_limit : {A : Type 0} → Option ℕ → List A → List A
take_limit none rows = rows
take_limit (some n) rows = take n rows

-- The user behind the assigned handyman.
abbrev pub assigned_user : World → Option ℕ → Option CustomerContact
assigned_user w none = none
assigned_user w (some profile_id) = elim (find_where (λ p. p.id == profile_id) w.profiles) [
  | none ↦ none
  | some profile ↦ include_user contact_of w.users profile.user_id
]

pub record OwnRequest : Type 0 where
  pub request : ServiceRequest
  pub handyman : Option CustomerContact
  pub application_count : ℕ

unfoldable pub own_request_view : World → ServiceRequest → OwnRequest
own_request_view w r = record {
  request = r;
  handyman = assigned_user w r.assigned_handyman_id;
  application_count = count_where (is_of_request r) w.applications;
}

-- `order` is the sort that the query asks for.
unfoldable pub find_all :
    (List ServiceRequest → List ServiceRequest)
    → ℕ
    → PaginationDto
    → Option ServiceRequestStatus
    → M (PaginatedResult OwnRequest)
unfolding own_request_view skip
find_all order user_id query status w =
    let wanted = λ (r : ServiceRequest). r.customer_id == user_id && has_status status r.status in
    let rows =
      take_limit query.limit (drop (skip query) (order (filter_where wanted w.requests))) in
    (
      w,
      ok (record {
        items = map (own_request_view w) rows;
        about =
            create_pagination_meta (or_else query.page 1) (or_else query.limit 10)
              (count_where wanted w.requests);
      }),
    )

-- A document with its signed address in place of its key.
pub record SignedDocument : Type 0 where
  pub id : ℕ
  pub handyman_profile_id : ℕ
  pub kind : DocumentType
  pub file_name : Text
  pub status : DocumentStatus
  pub rejection_reason : Option String
  pub reviewed_by_id : Option ℕ
  pub reviewed_at : Option ℕ
  pub file_url : Text

abbrev pub to_signed_document : HandymanDocument → Text → SignedDocument
to_signed_document d url = record {
  id = d.id;
  handyman_profile_id = d.handyman_profile_id;
  kind = d.kind;
  file_name = d.file_name;
  status = d.status;
  rejection_reason = d.rejection_reason;
  reviewed_by_id = d.reviewed_by_id;
  reviewed_at = d.reviewed_at;
  file_url = url;
}

-- `Promise.all` over the documents; `sign` is `storage.getSignedUrl`, `none` where it rejects.
unfoldable pub sign_documents :
    (Text → Option Text) → List HandymanDocument → M (List SignedDocument)
sign_documents sign [] = pure []
sign_documents sign (d ∷ ds) = do
  url ← or_throw (sign d.file_key) storage_failure
  rest ← sign_documents sign ds
  pure (to_signed_document d url ∷ rest)

unfoldable pub get_documents : (Text → Option Text) → ℕ → ℕ → M (List SignedDocument)
unfolding get_or_create find_documents sign_documents
get_documents sign id user_id = do
  profile ← get_or_create id user_id
  documents ← find_documents profile.id
  sign_documents sign documents

unfoldable pub get_profile :
    (Text → Option Text) → ℕ → ℕ → M (HandymanProfile × List SignedDocument)
unfolding get_or_create find_documents sign_documents
get_profile sign id user_id = do
  profile ← get_or_create id user_id
  documents ← find_documents profile.id
  signed ← sign_documents sign documents
  pure (profile, signed)

unfoldable pub get_own_applications : ℕ → ℕ → M (List Application)
unfolding get_or_create
get_own_applications id user_id = do
  profile ← get_or_create id user_id
  λ w. (w, ok (filter_where (λ a. a.handyman_profile_id == profile.id) w.applications))
