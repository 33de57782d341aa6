-- ===== src/Storage/Privacy.antt =====
-- Identity documents and the public bucket: env.validation.ts, configuration.ts and bucketFor together.
use fetchit_be.Base.{
  Bool, true, false, Option, none, some, List, [], ◌∷◌, ◌++◌, ◌≡◌, ◌≢◌, refl, arith, sym, ap, ◌∙◌,
}
use fetchit_be.Texts.{Text, text_eq, has_text, split, is_empty, trim, first_part}
use fetchit_be.Texts.Trim.{text_eq_refl, trim_idem}
use fetchit_be.Texts.Split.{split-append, Lacks}
use fetchit_be.Storage.Keys.{slash}
use fetchit_be.Storage.Settings.{
  Env, refine, neon_config, trimmed, handyman_document_prefix, parse_prefixes, prefixes_or_default,
  or_blank, issue_if, is_same_bucket, prefixes_with_slash, documents_listed_public, same_bucket,
  Issue,
}
use fetchit_be.Storage.Provider.{S3Provider, bucket_for, neon_provider}

no_issue :
    (test : Bool) (issue : Issue) (rest : List Issue)
    → issue_if test issue ++ rest ≡ []
    → (test ≡ false) × (rest ≡ [])
no_issue true issue rest h = absurd (cc)
no_issue false issue rest h = (refl, h)

module _ (env : Env) (accepted : refine env ≡ []) where
  abbrev prefixes : List Text
  prefixes = parse_prefixes (prefixes_or_default env.neon_public_prefixes)

  -- The two checks on which privacy rests have passed.
  checks_passed :
      (has_text handyman_document_prefix prefixes ≡ false)
      × (is_same_bucket (trimmed env.neon_public_bucket) env.neon_bucket ≡ false)
  unfolding refine
  checks_passed =
      let (slashes, more) = no_issue _ prefixes_with_slash _ accepted in
      let (listed, more') = no_issue _ documents_listed_public _ more in
      let (shared, more'') = no_issue _ same_bucket _ more' in (listed, shared)

same_bucket_found :
    (public private : Option Text)
    → trimmed public ≡ some (or_blank private)
    → is_same_bucket (trimmed public) private ≡ true
unfolding trimmed
same_bucket_found none private e = absurd (cc)
same_bucket_found (some raw) none e = absurd (ground arith)
same_bucket_found (some raw) (some b) e =
    let known : is_empty (trim raw) ≡ false = ground arith in
    let b_is : trim raw ≡ b = ground arith in
    rw known (
      ap (λ z. text_eq (trim raw) (trim z)) (sym b_is)
      ∙ ap (text_eq (trim raw)) (trim_idem raw)
      ∙ text_eq_refl (trim raw))

prefix-Lacks : Lacks slash handyman_document_prefix
prefix-Lacks = ground arith

unrouted :
    (p : S3Provider) (prefix rest : Text)
    → Lacks slash prefix
    → has_text prefix p.public_key_prefixes ≡ false
    → bucket_for p (prefix ++ slash ∷ rest) ≡ p.bucket
unfolding bucket_for
unrouted p prefix rest lacks listed =
    let first : first_part (split slash (prefix ++ slash ∷ rest)) ≡ prefix =
      ap first_part (split-append slash prefix rest lacks) in
    let none_there = ap (λ segment. has_text segment p.public_key_prefixes) first ∙ listed in
    ground arith

-- Under every environment that the validation accepts, an object whose key starts with
-- "handyman-documents/" is put into the private bucket of the driver for Neon, and the public bucket,
-- if there is one, is another bucket.
pub documents_stay_private :
    (env : Env) (rest : Text)
    → refine env ≡ []
    → let p = neon_provider env in
      (bucket_for p (handyman_document_prefix ++ slash ∷ rest) ≡ p.bucket)
      × (p.public_bucket ≢ some p.bucket)
unfolding bucket_for neon_provider neon_config
documents_stay_private env rest accepted =
    let (listed, shared) = checks_passed env accepted in
    (
      unrouted (neon_provider env) handyman_document_prefix rest prefix-Lacks listed,
      λ e. absurd (cc (same_bucket_found env.neon_public_bucket env.neon_bucket e, shared)),
    )
