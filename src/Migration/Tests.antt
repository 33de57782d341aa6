-- ===== src/Migration/Tests.antt =====
-- A small disk, copied once as a dry run and once for real.
use mathlib.Core.Option
use fetchit_be.Base.{
  Bool, true, false, none, some, [], ◌∷◌, ◌≡◌, refl, Memᴰ, any_where, filter_where, find_where,
  update_where, count_where,
}
use fetchit_be.Texts.{
  Text, codes, split, text_eq, trim, drop_start, drop_end, starts_with, ends_with,
}
use fetchit_be.Storage.Keys.{is_safe_key, join_url}
use fetchit_be.Storage.Settings.{Env, Driver, refine, missing, parse_prefixes, trimmed, neon_config}
use fetchit_be.Storage.Provider.{bucket_for, get_url, neon_provider, with_host}
use fetchit_be.Uploads.FileType.{matches, sniff_file_type, mime_type}
use fetchit_be.Migration.Walk.{
  Entries, LocalFile, LocalListing, file, directory, other, nil, cons, walk_node, walk_entries,
  text_less, insert, sort, list_local_keys,
}
use fetchit_be.Migration.Run.{
  Placed, AvatarRow, Remote, MigrationResult, Options, Call, is_at, head_object, copy_file,
  copy_files, update_rows, stale_rows, rewrite_avatar, rewrite_avatars, migrate_local_storage,
}
use fetchit_be.Migration.Main.{Exit, run, main, options}
use fetchit_be.Migration.Complete.{main-copies}
use fetchit_be.Migration.Predicted.{dry, wet, migrate_local_storage-dry_run}
use fetchit_be.Migration.Untouched.{migrate_local_storage-keeps}

abbrev env : Env
env = record {
  storage_driver = Driver.neon;
  s3_bucket = none;
  s3_access_key_id = none;
  s3_secret_access_key = none;
  cloudinary_cloud_name = none;
  cloudinary_api_key = none;
  cloudinary_api_secret = none;
  aws_endpoint_url_s3 = some (codes "h");
  aws_region = some (codes "eu");
  aws_access_key_id = some (codes "id");
  aws_secret_access_key = some (codes "s");
  neon_bucket = some (codes "b");
  neon_public_bucket = some (codes "p");
  neon_public_prefixes = some (codes "avatars");
  public_base_url = none;
}

abbrev disk : Entries
disk = cons (codes "x y") (file (1 ∷ [])) (
    cons (codes "link") other (
      cons (codes "avatars")
        (directory
          (cons (codes "u") (directory (cons (codes "a.png") (file (1 ∷ 2 ∷ [])) nil)) nil))
        nil))

abbrev avatar_key : Text
avatar_key = codes "avatars/u/a.png"

abbrev avatar_file : LocalFile
avatar_file = record { key = avatar_key; body = 1 ∷ 2 ∷ [] }

abbrev old_row : AvatarRow
old_row = record { id = 1; avatar = codes "o/avatars/u/a.png" }

abbrev google_row : AvatarRow
google_row = record { id = 2; avatar = codes "g/z" }

abbrev receipt : Placed
receipt = record {
  bucket = codes "b";
  object = record { key = codes "receipts/r"; size = 4; content_type = [] };
  body = 9 ∷ 9 ∷ 9 ∷ 9 ∷ [];
}

-- As long as the file on the disk, with other bytes.
abbrev older : Placed
older = record {
  bucket = codes "p";
  object = record { key = codes "avatars/u/a.png"; size = 2; content_type = [] };
  body = 9 ∷ 9 ∷ [];
}

abbrev cloud : Remote
cloud = record { objects = receipt ∷ []; avatars = old_row ∷ google_row ∷ [] }

abbrev never : Call → Text → Bool
never call key = false

abbrev always_like : Text → Text → Bool
always_like suffix avatar = true

abbrev settings : Options
settings = options env true (some (some disk)) never always_like false

abbrev listing : LocalListing
listing = record {
  files = avatar_file ∷ record { key = codes "x y"; body = 1 ∷ [] } ∷ [];
  unread = [];
}

listed : list_local_keys (some disk) ≡ listing
unfolding list_local_keys walk_node walk_entries sort insert text_less
listed = refl

abbrev after : Exit
after = main env true (some (some disk)) never always_like (codes "--" ∷ []) cloud

exits :
    (after.code ≡ 0)
    × (after.remote.avatars
        ≡ record old_row { avatar = codes "h/p/avatars/u/a.png" } ∷ google_row ∷ [])
    × (Option.map (λ (r : MigrationResult). r.not_safe) after.result ≡ some (codes "x y" ∷ []))
    × ((main env true (some (some disk)) never always_like [] after.remote).remote ≡ after.remote)
    × ((main env true (some none) never always_like [] cloud).code ≡ 1)
    × ((main env true none never always_like [] cloud).code ≡ 0)
    × ((main env true none never always_like (codes "-x" ∷ []) cloud).code ≡ 2)
    × ((main env false none never always_like [] cloud).code ≡ 1)
    × ((main
          (record env { storage_driver = Driver.local })
          true
          none
          never
          always_like
          (codes "--only-if-neon" ∷ [])
          cloud).code
        ≡ 0)
    × ((main
          (record env { storage_driver = Driver.local })
          true
          none
          never
          always_like
          []
          cloud).code
        ≡ 1)
unfolding main run list_local_keys walk_node walk_entries sort insert text_less
    migrate_local_storage copy_files copy_file rewrite_avatars rewrite_avatar stale_rows update_rows
    head_object sniff_file_type matches mime_type refine missing neon_provider neon_config
    bucket_for get_url with_host starts_with parse_prefixes trimmed split trim drop_start drop_end
    filter_where any_where text_eq join_url is_safe_key ends_with find_where update_where
    count_where
exits = (refl, refl, refl, refl, refl, refl, refl, refl, refl, refl)

main-copies_example :
    ((list_local_keys (some disk)).unread ≡ [])
    × (head_object (bucket_for (neon_provider env) avatar_key) avatar_key after.remote.objects
        ≡ some 2)
unfolding main run list_local_keys walk_node walk_entries sort insert text_less
    migrate_local_storage copy_files copy_file rewrite_avatars rewrite_avatar stale_rows update_rows
    head_object sniff_file_type matches mime_type refine missing neon_provider neon_config
    bucket_for get_url with_host starts_with parse_prefixes trimmed split trim drop_start drop_end
    filter_where any_where text_eq join_url is_safe_key ends_with find_where update_where
    count_where
main-copies_example =
    main-copies env true (some disk) never always_like (codes "--" ∷ []) cloud avatar_file refl refl
      refl (Memᴰ.head refl) refl

migrate_local_storage-dry_run_example :
    let said = migrate_local_storage (dry settings) listing cloud in
    let done = migrate_local_storage (wet settings) listing cloud in
    (said.remote ≡ cloud)
    × (said.result.copied ≡ done.result.copied)
    × (said.result.already_present ≡ done.result.already_present)
    × (said.result.conflicts ≡ done.result.conflicts)
    × (said.result.not_safe ≡ done.result.not_safe)
unfolding text_eq
migrate_local_storage-dry_run_example =
    migrate_local_storage-dry_run settings listing cloud (refl, (refl, tt)) ((refl, tt), (tt, tt))

migrate_local_storage-keeps_example :
    let end =
      (migrate_local_storage settings listing
        (record cloud { objects = receipt ∷ older ∷ [] })).remote in
    (find_where (is_at (codes "p") avatar_key) end.objects ≡ some older)
    × Memᴰ google_row end.avatars
unfolding find_where text_eq ends_with
migrate_local_storage-keeps_example =
    migrate_local_storage-keeps settings listing (record cloud { objects = receipt ∷ older ∷ [] })
      (codes "p") avatar_key older google_row refl (Memᴰ.tail (Memᴰ.head refl)) (refl, (refl, tt))
