-- ===== src/Uploads/Tests.antt =====
-- Examples of files, names and uploads.
use fetchit_be.Base.{
  ℕ, true, none, some, Option, List, arith, [], ◌∷◌, ◌≡◌, refl, any_where, filter_where, find_where,
}
use fetchit_be.Texts.{
  Text, codes, split, text_eq, trim, drop_start, drop_end, starts_with, ends_with,
}
use fetchit_be.Schema.{HandymanProfile, selfie, unverified}
use fetchit_be.World.{World, find_profile_by_user}
use fetchit_be.Storage.Keys.{is_safe_key}
use fetchit_be.Uploads.FileType.{FileType, matches, sniff_file_type, mime_type}
use fetchit_be.Uploads.FileName.{
  clean, base_name, sanitize_file_name, IsLabel, sanitize_file_name_labels,
}
use fetchit_be.Uploads.Objects.{UploadedFile, storage_upload, storage_delete}
use fetchit_be.Uploads.Documents.{upload_document_file, store_document, create_document}
use fetchit_be.Uploads.Matched.{IsMatched, upload_document_file-IsMatched}

abbrev png_bytes : List ℕ
png_bytes = 0x89 ∷ 0x50 ∷ 0x4e ∷ 0x47 ∷ 0x0d ∷ 0x0a ∷ 0x1a ∷ 0x0a ∷ []

abbrev photo : Option UploadedFile
photo = some (record { buffer = png_bytes; original_name = some (codes "..\\me and\nyou.png") })

abbrev profile : HandymanProfile
profile = record {
  id = 7;
  user_id = 70;
  details = none;
  verification_status = unverified;
  verified_at = none;
  rejection_reason = none;
  reviewed_by_id = none;
}

abbrev base : World
base = record {
  users = [];
  profiles = profile ∷ [];
  categories = [];
  documents = [];
  audit_log = [];
  sessions = [];
  objects = [];
  service_categories = [];
  password_resets = [];
  email_verifications = [];
  requests = [];
  applications = [];
  outbox = [];
}

abbrev id_text : ℕ → Text
id_text n = codes "p7"

sniffed :
    (sniff_file_type png_bytes ≡ some FileType.png)
    × (sniff_file_type (codes "%PDF-1.7") ≡ some FileType.pdf)
    × (sniff_file_type (codes "RIFF....WEBP") ≡ some FileType.webp)
    × (sniff_file_type (0xd2 ∷ 0xc9 ∷ 0xc6 ∷ 0xc6 ∷ codes "....WEBP") ≡ some FileType.webp)
    × (sniff_file_type (codes "GIF89a") ≡ none)
unfolding sniff_file_type matches starts_with text_eq
sniffed = (refl, refl, refl, refl, refl)

cleaned :
    (sanitize_file_name (some (codes "C:\\x\\..my id.pdf")) (codes "selfie.pdf")
      ≡ codes "my_id.pdf")
    × (sanitize_file_name (some (codes "...")) (codes "selfie.pdf") ≡ codes "selfie.pdf")
unfolding sanitize_file_name clean base_name trim drop_start drop_end filter_where
cleaned = (refl, refl)

abbrev after_upload : World
after_upload = (upload_document_file id_text 3 70 selfie photo (codes "u1") true true base).0

uploaded :
    (any_where
        (λ o. text_eq o.key (codes "handyman-documents/p7/selfie/u1.png"))
        after_upload.objects
      ≡ true)
    × (any_where (λ d. text_eq d.file_name (codes "me_andyou.png")) after_upload.documents ≡ true)
unfolding upload_document_file store_document create_document storage_upload find_profile_by_user
    sniff_file_type matches mime_type is_safe_key sanitize_file_name clean base_name starts_with
    text_eq ends_with split trim drop_start drop_end filter_where any_where find_where
uploaded = (refl, refl)

-- The row cannot be written, since its id is taken: the object is removed again.
refused :
    ((upload_document_file id_text 3 70 selfie photo (codes "u2") true true after_upload).0
      ≡ after_upload)
    × ((upload_document_file id_text 3 71 selfie photo (codes "u2") true true after_upload).0
        ≡ after_upload)
unfolding upload_document_file store_document create_document storage_upload storage_delete
    find_profile_by_user sniff_file_type matches mime_type is_safe_key sanitize_file_name clean
    base_name starts_with text_eq ends_with split trim drop_start drop_end filter_where any_where
    find_where
refused = (refl, refl)

label : IsLabel (codes "id.png")
label = record {
  names = (refl, (refl, (refl, (refl, (refl, (refl, tt))))));
  undotted = refl;
  some_unit = refl;
  short = omega arith;
}

sanitize_file_name_labels_example :
    IsLabel (sanitize_file_name (some (codes "a b.png")) (codes "id.png"))
    × (sanitize_file_name
          (some (sanitize_file_name (some (codes "a b.png")) (codes "id.png")))
          (codes "id.png")
        ≡ sanitize_file_name (some (codes "a b.png")) (codes "id.png"))
sanitize_file_name_labels_example =
    sanitize_file_name_labels (some (codes "a b.png")) (codes "id.png") label

upload_document_file-IsMatched_example : IsMatched after_upload
unfolding any_where
upload_document_file-IsMatched_example =
    upload_document_file-IsMatched id_text 3 70 selfie photo (codes "u1") true base
      (λ profile_id type. refl) (record { stored = tt; owned = tt })
