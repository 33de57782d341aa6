-- ===== src/Storage/Settings.antt =====
-- The settings of storage: the checks that src/config/env.validation.ts adds to its schema, and what
-- src/config/configuration.ts makes of the same variables.
use fetchit_be.Base.{
  Bool, true, false, not, Option, none, some, List, [], ◌∷◌, ◌++◌, ◌&&◌, map, any_where,
  filter_where, if◌then◌else◌,
}
use fetchit_be.Texts.{Text, codes, text_eq, has_text, split, trim, is_empty}
use fetchit_be.Storage.Keys.{slash}

pub data Driver : Type 0 where
  local s3_compatible cloudinary neon : Driver

-- The variables that these checks read. `base` parsing (types, URLs, the default of the driver) is
-- that of the schema's library; a default of the schema stands for a missing value.
pub record Env : Type 0 where
  pub storage_driver : Driver
  pub s3_bucket : Option Text
  pub s3_access_key_id : Option Text
  pub s3_secret_access_key : Option Text
  pub cloudinary_cloud_name : Option Text
  pub cloudinary_api_key : Option Text
  pub cloudinary_api_secret : Option Text
  pub aws_endpoint_url_s3 : Option Text
  pub aws_region : Option Text
  pub aws_access_key_id : Option Text
  pub aws_secret_access_key : Option Text
  pub neon_bucket : Option Text
  pub neon_public_bucket : Option Text
  pub neon_public_prefixes : Option Text
  pub public_base_url : Option Text

abbrev pub handyman_document_prefix : Text
handyman_document_prefix = codes "handyman-documents"

-- `value || ''`
abbrev pub or_blank : Option Text → Text
or_blank none = []
or_blank (some t) = t

-- `value ?? 'avatars,receipts'`
abbrev pub prefixes_or_default : Option Text → Text
prefixes_or_default none = codes "avatars,receipts"
prefixes_or_default (some t) = t

-- `.split(',').map((prefix) => prefix.trim()).filter(Boolean)`
unfoldable pub parse_prefixes : Text → List Text
parse_prefixes raw = filter_where (λ t. not (is_empty t)) (map trim (split b',' raw))

-- `value?.trim()`, where a blank value counts as none.
unfoldable pub trimmed : Option Text → Option Text
trimmed none = none
trimmed (some t) = if is_empty (trim t) then none else some (trim t)

-- `a === b?.trim()`
abbrev pub is_trimmed : Text → Option Text → Bool
is_trimmed t none = false
is_trimmed t (some raw) = text_eq t (trim raw)

-- A variable that a driver cannot run without.
pub data Variable : Type 0 where
  storage_s3_bucket storage_s3_access_key_id storage_s3_secret_access_key : Variable
  storage_cloudinary_cloud_name storage_cloudinary_api_key storage_cloudinary_api_secret : Variable
  aws_endpoint_url_s3 aws_region aws_access_key_id aws_secret_access_key : Variable
  storage_neon_bucket : Variable

pub data Issue : Type 0 where
  prefixes_with_slash documents_listed_public same_bucket no_prefix : Issue
  required : Variable → Issue

abbrev required_by_driver : Driver → List Variable
required_by_driver local = []
required_by_driver s3_compatible =
    storage_s3_bucket ∷ storage_s3_access_key_id ∷ storage_s3_secret_access_key ∷ []
required_by_driver cloudinary =
    storage_cloudinary_cloud_name ∷ storage_cloudinary_api_key ∷ storage_cloudinary_api_secret ∷ []
required_by_driver neon =
    Variable.aws_endpoint_url_s3 ∷ Variable.aws_region ∷ Variable.aws_access_key_id
    ∷ Variable.aws_secret_access_key ∷ storage_neon_bucket ∷ []

abbrev value_of : Variable → Env → Option Text
value_of storage_s3_bucket env = env.s3_bucket
value_of storage_s3_access_key_id env = env.s3_access_key_id
value_of storage_s3_secret_access_key env = env.s3_secret_access_key
value_of storage_cloudinary_cloud_name env = env.cloudinary_cloud_name
value_of storage_cloudinary_api_key env = env.cloudinary_api_key
value_of storage_cloudinary_api_secret env = env.cloudinary_api_secret
value_of Variable.aws_endpoint_url_s3 env = env.aws_endpoint_url_s3
value_of Variable.aws_region env = env.aws_region
value_of Variable.aws_access_key_id env = env.aws_access_key_id
value_of Variable.aws_secret_access_key env = env.aws_secret_access_key
value_of storage_neon_bucket env = env.neon_bucket

unfoldable pub missing : List Variable → Env → List Issue
missing [] env = []
missing (v ∷ variables) env =
    let rest = missing variables env in
    if is_empty (trim (or_blank (value_of v env))) then required v ∷ rest else rest

-- `ctx.addIssue`, if the test holds.
abbrev pub issue_if : Bool → Issue → List Issue
issue_if true issue = issue ∷ []
issue_if false issue = []

abbrev pub is_same_bucket : Option Text → Option Text → Bool
is_same_bucket none private = false
is_same_bucket (some public) private = is_trimmed public private

abbrev pub is_set : Option Text → Bool
is_set none = false
is_set (some t) = true

-- The issues that `superRefine` adds; the environment is refused if there is one.
unfoldable pub refine : Env → List Issue
unfolding missing
refine env =
    let public_prefixes = parse_prefixes (prefixes_or_default env.neon_public_prefixes) in
    let public_bucket = trimmed env.neon_public_bucket in
    issue_if
      (any_where (λ prefix. any_where (λ c. text_eq (c ∷ []) (slash ∷ [])) prefix) public_prefixes)
      prefixes_with_slash
    ++ (issue_if (has_text handyman_document_prefix public_prefixes) documents_listed_public
        ++ (issue_if (is_same_bucket public_bucket env.neon_bucket) same_bucket
            ++ (issue_if (is_set public_bucket && is_empty public_prefixes) no_prefix
                ++ missing (required_by_driver env.storage_driver) env)))

-- `storage.neon` of the configuration.
pub record NeonConfig : Type 0 where
  pub endpoint : Text
  pub region : Text
  pub bucket : Text
  pub access_key_id : Text
  pub secret_access_key : Text
  pub public_bucket : Option Text
  pub public_key_prefixes : List Text

unfoldable pub neon_config : Env → NeonConfig
neon_config env = record {
  endpoint = or_blank env.aws_endpoint_url_s3;
  region = or_blank env.aws_region;
  bucket = or_blank env.neon_bucket;
  access_key_id = or_blank env.aws_access_key_id;
  secret_access_key = or_blank env.aws_secret_access_key;
  public_bucket = trimmed env.neon_public_bucket;
  public_key_prefixes = parse_prefixes (prefixes_or_default env.neon_public_prefixes);
}
