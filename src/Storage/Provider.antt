-- ===== src/Storage/Provider.antt =====
-- The parts of src/storage/providers/s3-compatible-storage.provider.ts that decide on buckets and
-- addresses, and how src/storage/storage.module.ts builds the provider for Neon.
use fetchit_be.Base.{
  ℕ, zero, suc, Bool, true, Option, none, some, List, [], ◌∷◌, ◌++◌, ◌==◌, if◌then◌else◌,
}
use fetchit_be.Texts.{Text, codes, has_text, split, first_part, starts_with, is_empty, drop_end}
use fetchit_be.Storage.Keys.{slash, join_url}
use fetchit_be.Storage.Settings.{Env, neon_config}

pub record S3Provider : Type 0 where
  pub endpoint : Option Text
  pub region : Text
  pub bucket : Text
  pub force_path_style : Bool
  pub public_bucket : Option Text
  pub public_key_prefixes : List Text
  pub public_base_url : Option Text

-- `if (value)`: an empty text counts as none.
abbrev pub truthy : Option Text → Option Text
truthy none = none
truthy (some t) = if is_empty t then none else some t

-- `bucketFor`
unfoldable pub bucket_for : S3Provider → Text → Text
bucket_for p key = elim (truthy p.public_bucket) [
  | none ↦ p.bucket
  | some public ↦
      if has_text (first_part (split slash key)) p.public_key_prefixes then public else p.bucket
]

abbrev drop : ℕ → Text → Text
drop zero s = s
drop (suc n) [] = []
drop (suc n) (c ∷ s) = drop n s

-- `base.replace(/^(https?:\/\/)/, `$1${bucket}.`)`
unfoldable pub with_host : Text → Text → Text
with_host bucket base =
    if starts_with base (codes "https://")
    then codes "https://" ++ (bucket ++ (codes "." ++ drop 8 base))
    else if starts_with base (codes "http://")
    then codes "http://" ++ (bucket ++ (codes "." ++ drop 7 base))
    else base

-- `getUrl`
unfoldable pub get_url : S3Provider → Text → Text
unfolding with_host
get_url p key = elim (truthy p.public_base_url) [
  | some base ↦ join_url base key
  | none ↦ elim (truthy p.endpoint) [
    | some endpoint ↦
        let base = drop_end (λ c. c == slash) endpoint in
        if p.force_path_style
        then base ++ slash ∷ (bucket_for p key ++ slash ∷ key)
        else with_host (bucket_for p key) base ++ slash ∷ key
    | none ↦
        codes "https://"
        ++ (bucket_for p key ++ (codes ".s3." ++ (p.region ++ (codes ".amazonaws.com/" ++ key))))
  ]
]

-- The provider of the driver `neon`.
unfoldable pub neon_provider : Env → S3Provider
neon_provider env =
    let neon = neon_config env in
    record {
      endpoint = some neon.endpoint;
      region = neon.region;
      bucket = neon.bucket;
      force_path_style = true;
      public_bucket = neon.public_bucket;
      public_key_prefixes = neon.public_key_prefixes;
      public_base_url = env.public_base_url;
    }
