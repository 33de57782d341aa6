-- ===== src/Uploads/Objects.antt =====
-- The storage behind src/storage/storage.service.ts, and upload of src/modules/uploads/
-- uploads.service.ts. Whether the provider's call succeeds is an argument: `sent` and `removed`.
use fetchit_be.Base.{
  ℕ, Bool, not, List, [], ◌∷◌, ◌++◌, ◌&&◌, length, filter_where, if◌then◌else◌, Option, none, some,
}
use fetchit_be.Schema.{StoredObject, storage_failure, bad_request}
use fetchit_be.World.{ok, err, M, ◌>>=◌, ◌>>◌, guard, or_throw}
use fetchit_be.Texts.{Text, codes, text_eq, is_empty}
use fetchit_be.Storage.Keys.{slash, is_safe_key}
use fetchit_be.Uploads.FileType.{FileType, mime_type, extension, sniff_file_type}

pub record UploadedFile : Type 0 where
  pub buffer : List ℕ
  pub original_name : Option Text

abbrev pub has_key : Text → StoredObject → Bool
has_key key o = text_eq o.key key

-- A put replaces what stood under the key.
unfoldable pub storage_upload : StoredObject → Bool → M StoredObject
storage_upload o sent w =
    if is_safe_key o.key && sent
    then (record w { objects = o ∷ filter_where (λ p. not (has_key o.key p)) w.objects }, ok o)
    else (w, err storage_failure)

-- `StorageService.delete`: a failure is logged and swallowed.
unfoldable pub storage_delete : Text → Bool → M (Unit {0})
storage_delete key removed w =
    if is_safe_key key && removed
    then (record w { objects = filter_where (λ p. not (has_key key p)) w.objects }, ok tt)
    else (w, ok tt)

pub data UploadPurpose : Type 0 where
  avatar receipt : UploadPurpose

abbrev pub purpose_prefix : UploadPurpose → Text
purpose_prefix avatar = codes "avatars"
purpose_prefix receipt = codes "receipts"

-- `<name>.<extension>`
abbrev pub file_part : Text → FileType → Text
file_part name type = name ++ b'.' ∷ extension type

abbrev pub upload_key : UploadPurpose → Text → Text → FileType → Text
upload_key purpose user_id uuid type =
    purpose_prefix purpose ++ slash ∷ (user_id ++ slash ∷ file_part uuid type)

abbrev pub buffer_of : Option UploadedFile → List ℕ
buffer_of none = []
buffer_of (some file) = file.buffer

-- `UploadsService.upload`
unfoldable pub upload : Text → UploadPurpose → Option UploadedFile → Text → Bool → M StoredObject
unfolding mime_type
upload user_id purpose file uuid sent = do
  guard (not (is_empty (buffer_of file))) bad_request
  type ← or_throw (sniff_file_type (buffer_of file)) bad_request
  storage_upload
      (record {
        key = upload_key purpose user_id uuid type;
        size = length (buffer_of file);
        content_type = mime_type type;
      })
      sent
