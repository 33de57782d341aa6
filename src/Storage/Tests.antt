-- ===== src/Storage/Tests.antt =====
-- Examples of keys, settings and addresses.
use fetchit_be.Base.{
  true, false, none, some, [], ◌∷◌, ◌++◌, ◌≡◌, ◌≢◌, ◌↔◌, refl, any_where, filter_where,
}
use fetchit_be.Texts.{codes, split, text_eq, trim, drop_start, drop_end, starts_with, ends_with}
use fetchit_be.Storage.Keys.{slash, is_safe_key, join_url}
use fetchit_be.Storage.Settings.{
  Env, Driver, Issue, Variable, refine, missing, parse_prefixes, trimmed, handyman_document_prefix,
  neon_config,
}
use fetchit_be.Storage.Provider.{bucket_for, get_url, neon_provider, with_host}
use fetchit_be.Storage.Inside.{walk, push_all, safe_keys_stay_apart}
use fetchit_be.Storage.Privacy.{documents_stay_private}

abbrev settings : Env
settings = record {
  storage_driver = Driver.neon;
  s3_bucket = none;
  s3_access_key_id = none;
  s3_secret_access_key = none;
  cloudinary_cloud_name = none;
  cloudinary_api_key = none;
  cloudinary_api_secret = none;
  aws_endpoint_url_s3 = some (codes "https://s3.example");
  aws_region = some (codes "eu");
  aws_access_key_id = some (codes "id");
  aws_secret_access_key = some (codes "secret");
  neon_bucket = some (codes "private");
  neon_public_bucket = some (codes " public ");
  neon_public_prefixes = some (codes "avatars, receipts,");
  public_base_url = none;
}

accepted : refine settings ≡ []
unfolding refine missing parse_prefixes trimmed split trim drop_start drop_end filter_where
    any_where text_eq
accepted = refl

-- Listing the documents, and one bucket for both, are refused.
refused :
    refine (record settings {
      neon_public_bucket = some (codes "private");
      neon_public_prefixes = some (codes "avatars,handyman-documents");
      aws_region = some (codes "  ");
    })
    ≡ Issue.documents_listed_public ∷ Issue.same_bucket ∷ Issue.required Variable.aws_region ∷ []
unfolding refine missing parse_prefixes trimmed split trim drop_start drop_end filter_where
    any_where text_eq
refused = refl

addresses :
    (get_url (neon_provider settings) (codes "avatars/1/a.png")
      ≡ codes "https://s3.example/public/avatars/1/a.png")
    × (get_url (neon_provider settings) (codes "handyman-documents/1/a.png")
        ≡ codes "https://s3.example/private/handyman-documents/1/a.png")
    × (get_url (record (neon_provider settings) { force_path_style = false }) (codes "x")
        ≡ codes "https://private.s3.example/x")
unfolding get_url neon_provider neon_config bucket_for with_host starts_with parse_prefixes trimmed
    split trim drop_start drop_end filter_where any_where text_eq join_url
addresses = (refl, refl, refl)

keys :
    (is_safe_key (codes "a/b.png") ≡ true)
    × (is_safe_key (codes "a/../b") ≡ false)
    × (is_safe_key (codes "a//b") ≡ false)
    × (is_safe_key (codes "a/") ≡ false)
    × (is_safe_key (codes "/a") ≡ false)
unfolding is_safe_key split any_where text_eq ends_with
keys = (refl, refl, refl, refl, refl)

documents_stay_private_example :
    let p = neon_provider settings in
    (bucket_for p (handyman_document_prefix ++ slash ∷ codes "7/selfie/a.png") ≡ p.bucket)
    × (p.public_bucket ≢ some p.bucket)
documents_stay_private_example = documents_stay_private settings (codes "7/selfie/a.png") accepted

safe_keys_stay_apart_example :
    (walk (codes "root" ∷ []) (split slash (codes "a/b"))
      ≡ push_all (codes "root" ∷ []) (split slash (codes "a/b")))
    × (walk (codes "root" ∷ []) (split slash (codes "a/b"))
          ≡ walk (codes "root" ∷ []) (split slash (codes "a/c"))
        ↔ (codes "a/b" ≡ codes "a/c"))
unfolding is_safe_key split any_where text_eq ends_with
safe_keys_stay_apart_example =
    safe_keys_stay_apart (codes "root" ∷ []) (codes "a/b") (codes "a/c") refl refl
