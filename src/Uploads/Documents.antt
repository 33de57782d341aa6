-- ===== src/Uploads/Documents.antt =====
-- uploadDocumentFile of src/modules/handyman/handyman.service.ts, without the signed address that its
-- answer carries.
use fetchit_be.Base.{
  ℕ, Bool, not, ◌∷◌, ◌++◌, ◌==◌, length, any_where, if◌then◌else◌, Option, none, some,
}
use fetchit_be.Schema.{
  HandymanDocument, DocumentType, government_id, selfie, proof_of_address, DocumentStatus,
  bad_request, handyman_profile_not_found, record_not_found, unique_violation,
}
use fetchit_be.World.{ok, err, M, ◌>>=◌, ◌>>◌, guard, or_throw, clean_up, find_profile_by_user}
use fetchit_be.Texts.{Text, codes, is_empty}
use fetchit_be.Storage.Keys.{slash}
use fetchit_be.Storage.Settings.{handyman_document_prefix}
use fetchit_be.Uploads.FileType.{FileType, mime_type, sniff_file_type}
use fetchit_be.Uploads.FileName.{sanitize_file_name}
use fetchit_be.Uploads.Objects.{UploadedFile, buffer_of, file_part, storage_upload, storage_delete}

-- `type.toLowerCase()`
abbrev pub kind_text : DocumentType → Text
kind_text government_id = codes "government_id"
kind_text selfie = codes "selfie"
kind_text proof_of_address = codes "proof_of_address"

abbrev pub name_of : Option UploadedFile → Option Text
name_of none = none
name_of (some file) = file.original_name

-- `documentRepo.create`, which connects the profile.
unfoldable pub create_document : HandymanDocument → M HandymanDocument
create_document d w =
    if not (any_where (λ p. p.id == d.handyman_profile_id) w.profiles)
    then (w, err record_not_found)
    else if any_where (λ e. e.id == d.id) w.documents
    then (w, err unique_violation)
    else (record w { documents = d ∷ w.documents }, ok d)

-- `id_text` writes a profile's id.
module _ (id_text : ℕ → Text) where
  abbrev pub document_key : ℕ → DocumentType → Text → FileType → Text
  document_key profile_id kind uuid type =
      handyman_document_prefix
      ++ slash ∷ (id_text profile_id ++ slash ∷ (kind_text kind ++ slash ∷ file_part uuid type))

  abbrev pub new_document : ℕ → ℕ → DocumentType → Text → FileType → Option Text → HandymanDocument
  new_document id profile_id kind uuid type name = record {
    id = id;
    handyman_profile_id = profile_id;
    kind = kind;
    file_key = document_key profile_id kind uuid type;
    file_name = sanitize_file_name name (file_part (kind_text kind) type);
    status = DocumentStatus.pending;
    rejection_reason = none;
    reviewed_by_id = none;
    reviewed_at = none;
  }

  -- The object is stored first; if the row cannot be written, it is removed again.
  unfoldable pub store_document : HandymanDocument → FileType → ℕ → Bool → Bool → M HandymanDocument
  unfolding mime_type
  store_document d type size sent removed = do
    stored ←
        storage_upload (record { key = d.file_key; size = size; content_type = mime_type type })
          sent
    λ w. clean_up (create_document d w) (storage_delete d.file_key removed)

  unfoldable pub upload_document_file :
      ℕ → ℕ → DocumentType → Option UploadedFile → Text → Bool → Bool → M HandymanDocument
  unfolding store_document
  upload_document_file id user_id kind file uuid sent removed = do
    guard (not (is_empty (buffer_of file))) bad_request
    found ← find_profile_by_user user_id
    profile ← or_throw found handyman_profile_not_found
    type ← or_throw (sniff_file_type (buffer_of file)) bad_request
    store_document (new_document id profile.id kind uuid type (name_of file)) type
        (length (buffer_of file)) sent removed
