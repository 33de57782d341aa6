-- ===== src/Migration/Complete.antt =====
-- What the exit code 0 of src/cli/migrate-local-storage.ts says.
use fetchit_be.Base.{
  ℕ, Bool, true, false, not, Option, some, List, [], ◌∷◌, ◌++◌, ◌&&◌, ◌≡◌, refl, arith, sym, ap,
  subst, ◌∙◌, length, map, filter_where, if◌then◌else◌, any_where, Option-cases, inl, inr, Memᴰ,
}
use fetchit_be.Texts.{Text, codes, has_text, is_empty}
use fetchit_be.Storage.Keys.{slash, is_safe_key}
use fetchit_be.Storage.Settings.{Env, refine}
use fetchit_be.Storage.Provider.{bucket_for, neon_provider}
use fetchit_be.Migration.Walk.{Entries, LocalFile, LocalListing, list_local_keys}
use fetchit_be.Migration.Run.{
  Remote, Call, Options, Progress, head_object, placed, begin, copy_file, copy_files,
  rewrite_avatar, rewrite_avatars, migrate_local_storage, is_avatar_key,
}
use fetchit_be.Migration.Main.{
  has_no_failure, Exit, without_result, is_known, is_neon, arguments, dry_run, options, run, main,
}
use fetchit_be.Migration.Kept.{put_here, copy_files-keeps_size, rewrite_avatars-objects}

added : {A : Type 0} (xs : List A) (x : A) → is_empty (xs ++ x ∷ []) ≡ false
added [] x = refl
added (y ∷ ys) x = refl

module _ (m : Options) where
  copy_file_no_failure :
      (f : LocalFile) (g : Progress)
      → has_no_failure (copy_file m f g).result ≡ true
      → has_no_failure g.result ≡ true
  unfolding copy_file
  copy_file_no_failure f g h =
      ground (arith, added g.result.failed f.key, added g.result.conflicts f.key)

  rewrite_avatar_no_failure :
      (key : Text) (g : Progress)
      → has_no_failure (rewrite_avatar m key g).result ≡ true
      → has_no_failure g.result ≡ true
  unfolding rewrite_avatar
  rewrite_avatar_no_failure key g h = ground (arith, added g.result.failed key)

  -- A file that makes no entry among the failures is in its bucket, with its size.
  copy_file_done :
      (f : LocalFile) (g : Progress)
      → has_no_failure (copy_file m f g).result ≡ true
      → m.dry_run ≡ false
      → is_safe_key f.key ≡ true
      → head_object (bucket_for m.provider f.key) f.key (copy_file m f g).remote.objects
        ≡ some (length f.body)
  unfolding copy_file
  copy_file_done f g h wet safe =
      elim (Option-cases (head_object (bucket_for m.provider f.key) f.key g.remote.objects)) [
        | inl new ↦
            let here = put_here (placed m f) g.remote.objects in
            ground (arith, added g.result.failed f.key)
        | inr (size, found) ↦
            ground (arith, added g.result.failed f.key, added g.result.conflicts f.key)
      ]

  copy_files_done :
      (fs : List LocalFile) (g : Progress)
      → has_no_failure (copy_files m fs g).result ≡ true
      → m.dry_run ≡ false
      → (has_no_failure g.result ≡ true)
        × ((f : LocalFile)
            → Memᴰ f fs
            → is_safe_key f.key ≡ true
            → head_object (bucket_for m.provider f.key) f.key (copy_files m fs g).remote.objects
              ≡ some (length f.body))
  unfolding copy_files
  copy_files_done [] g h wet = (h, λ f e. elim e [ ])
  copy_files_done (f ∷ fs) g h wet =
      let (clean, rest) = copy_files_done fs (copy_file m f g) h wet in
      (
        copy_file_no_failure f g clean,
        λ e member safe. elim member [
          | Memᴰ.head same ↦
              let IsCopied : LocalFile → Type 0 = λ z.
                is_safe_key z.key ≡ true
                → head_object (bucket_for m.provider z.key) z.key
                    (copy_files m fs (copy_file m f g)).remote.objects
                  ≡ some (length z.body) in
              let done : IsCopied f = λ k.
                copy_files-keeps_size m fs (copy_file m f g) (bucket_for m.provider f.key) f.key
                  (length f.body) (copy_file_done f g clean wet k) in
              subst IsCopied (sym same) done safe
          | Memᴰ.tail later ↦ rest e later safe
        ],
      )

  rewrite_avatars_no_failure :
      (keys : List Text) (g : Progress)
      → has_no_failure (rewrite_avatars m keys g).result ≡ true
      → has_no_failure g.result ≡ true
  unfolding rewrite_avatars
  rewrite_avatars_no_failure [] g h = h
  rewrite_avatars_no_failure (key ∷ keys) g h =
      rewrite_avatar_no_failure key g (rewrite_avatars_no_failure keys (rewrite_avatar m key g) h)

none_unread :
    (listing : LocalListing) (remote : Remote)
    → has_no_failure (begin listing remote).result ≡ true
    → listing.unread ≡ []
none_unread listing remote h = go listing.unread (ground arith)
  where
    go : (dirs : List Text) → is_empty (map (λ dir. dir ++ slash ∷ []) dirs) ≡ true → dirs ≡ []
    go [] e = refl
    go (dir ∷ dirs) e = absurd (cc)

migrated :
    (m : Options) (listing : LocalListing) (remote : Remote) (f : LocalFile)
    → has_no_failure (migrate_local_storage m listing remote).result ≡ true
    → m.dry_run ≡ false
    → (listing.unread ≡ [])
      × (Memᴰ f listing.files
          → is_safe_key f.key ≡ true
          → head_object
              (bucket_for m.provider f.key)
              f.key
              (migrate_local_storage m listing remote).remote.objects
            ≡ some (length f.body))
unfolding migrate_local_storage
migrated m listing remote f h wet =
    let g = copy_files m listing.files (begin listing remote) in
    let keys = filter_where is_avatar_key g.in_target in
    let (clean, done) =
      copy_files_done m listing.files (begin listing remote) (rewrite_avatars_no_failure m keys g h)
        wet in
    (
      none_unread listing remote clean,
      λ member safe.
          ap (λ z. head_object (bucket_for m.provider f.key) f.key z)
            (rewrite_avatars-objects m keys g)
          ∙ done f member safe,
    )

-- With the driver `neon`, an exit code 0 is that of the run.
chosen :
    (unknown valid neon only_if_neon : Bool) (rest : Exit) (remote : Remote)
    → let exit =
        if unknown
        then without_result 2 remote
        else if not valid
        then without_result 1 remote
        else if neon
        then rest
        else if only_if_neon
        then without_result 0 remote
        else without_result 1 remote in
      exit.code ≡ 0 → neon ≡ true → exit ≡ rest
chosen true valid neon only_if_neon rest remote done n = absurd (cc)
chosen false false neon only_if_neon rest remote done n = absurd (cc)
chosen false true true only_if_neon rest remote done n = refl
chosen false true false only_if_neon rest remote done n = absurd (cc)

code_zero : (test : Bool) → ◌≡◌ {A = ℕ} (if test then 0 else 1) 0 → test ≡ true
code_zero true h = refl
code_zero false h = absurd (cc)

-- When the migration exits with code 0, on the driver `neon`, with a local root and not as a dry run,
-- every directory has been listed, and every listed file whose key is safe is in the bucket of its
-- key with its size, whatever was there before and whichever calls threw.
pub main-copies :
    (env : Env) (valid : Bool) (entries : Option Entries) (fails : Call → Text → Bool)
    (like : Text → Text → Bool) (argv : List Text) (remote : Remote) (f : LocalFile)
    → (main env valid (some entries) fails like argv remote).code ≡ 0
    → is_neon env.storage_driver ≡ true
    → dry_run argv ≡ false
    → Memᴰ f (list_local_keys entries).files
    → is_safe_key f.key ≡ true
    → ((list_local_keys entries).unread ≡ [])
      × (head_object
            (bucket_for (neon_provider env) f.key)
            f.key
            (main env valid (some entries) fails like argv remote).remote.objects
          ≡ some (length f.body))
unfolding main run
main-copies env valid entries fails like argv remote f done neon wet member safe =
    let m = options env valid (some entries) fails like (dry_run argv) in
    let listing = list_local_keys entries in
    let same =
      chosen (any_where (λ arg. not (is_known arg)) (arguments argv))
        (is_empty (refine env) && valid) (is_neon env.storage_driver)
        (has_text (codes "--only-if-neon") (arguments argv))
        (run env valid (some entries) fails like (dry_run argv) remote) remote done neon in
    let clean =
      code_zero (has_no_failure (migrate_local_storage m listing remote).result)
        (ap (λ z. z.code) (sym same) ∙ done) in
    let (unread, there) = migrated m listing remote f clean wet in
    (
      unread,
      ap (λ z. head_object (bucket_for (neon_provider env) f.key) f.key z.remote.objects) same
          ∙ there member safe,
    )
