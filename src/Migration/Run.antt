-- ===== src/Migration/Run.antt =====
-- migrateLocalStorage and createPrismaAvatarRows of src/cli/migrate-local-storage.ts. Which calls
-- throw is an argument, and so is SQL's LIKE. Log lines are left out.
use fetchit_be.Base.{
  ℕ, Bool, true, false, not, Option, none, some, List, [], ◌∷◌, ◌++◌, ◌+◌, ◌==◌, ◌&&◌, ◌||◌, length,
  map, find_where, filter_where, update_where, count_where, if◌then◌else◌,
}
use mathlib.Core.Option
use fetchit_be.Schema.{StoredObject}
use fetchit_be.Texts.{Text, codes, text_eq, split, first_part, ends_with, is_empty}
use fetchit_be.Storage.Keys.{slash, is_safe_key}
use fetchit_be.Storage.Provider.{S3Provider, truthy, bucket_for, get_url}
use fetchit_be.Uploads.FileType.{mime_type, sniff_file_type}
use fetchit_be.Migration.Walk.{LocalFile, LocalListing}

pub record Placed : Type 0 where
  pub bucket : Text
  pub object : StoredObject
  pub body : List ℕ

pub record AvatarRow : Type 0 where
  pub id : ℕ
  pub avatar : Text

-- The buckets, and the rows of `users` that have an avatar.
pub record Remote : Type 0 where
  pub objects : List Placed
  pub avatars : List AvatarRow

pub record MigrationResult : Type 0 where
  pub copied : List Text
  pub already_present : List Text
  pub conflicts : List Text
  pub not_safe : List Text
  pub failed : List Text
  pub avatar_rows_updated : ℕ
  pub avatars_not_public : List Text

pub data Call : Type 0 where
  stat head read upload find update : Call

pub record Options : Type 0 where
  pub provider : S3Provider
  pub dry_run : Bool
  pub fails : Call → Text → Bool
  pub like : Text → Text → Bool

-- The state, the result so far and the keys that are in the target.
pub record Progress : Type 0 where
  pub remote : Remote
  pub result : MigrationResult
  pub in_target : List Text

abbrev pub is_at : Text → Text → Placed → Bool
is_at bucket key o = text_eq o.bucket bucket && text_eq o.object.key key

unfoldable pub head_object : Text → Text → List Placed → Option ℕ
head_object bucket key objects =
    Option.map (λ (o : Placed). o.object.size) (find_where (is_at bucket key) objects)

abbrev pub content_type : List ℕ → Text
content_type body = elim (sniff_file_type body) [
  | none ↦ codes "application/octet-stream"
  | some type ↦ mime_type type
]

abbrev pub placed : Options → LocalFile → Placed
placed m f = record {
  bucket = bucket_for m.provider f.key;
  object = record { key = f.key; size = length f.body; content_type = content_type f.body };
  body = f.body;
}

abbrev pub put : Placed → List Placed → List Placed
put o objects = o ∷ filter_where (λ p. not (is_at o.bucket o.object.key p)) objects

-- The entries that one file adds.
abbrev pub fail : Text → Progress → Progress
fail key g = record g { result = record g.result { failed = g.result.failed ++ key ∷ [] } }

abbrev pub skip : Text → Progress → Progress
skip key g = record g { result = record g.result { not_safe = g.result.not_safe ++ key ∷ [] } }

abbrev pub conflict : Text → Progress → Progress
conflict key g = record g {
  result = record g.result { conflicts = g.result.conflicts ++ key ∷ [] };
}

abbrev pub have : Text → Progress → Progress
have key g = record g {
  result = record g.result { already_present = g.result.already_present ++ key ∷ [] };
  in_target = g.in_target ++ key ∷ [];
}

abbrev pub copied_to : List Placed → Text → Progress → Progress
copied_to objects key g = record g {
  remote = record g.remote { objects = objects };
  result = record g.result { copied = g.result.copied ++ key ∷ [] };
  in_target = g.in_target ++ key ∷ [];
}

unfoldable pub copy_file : Options → LocalFile → Progress → Progress
unfolding head_object mime_type
copy_file m f g =
    if not (is_safe_key f.key)
    then skip f.key g
    else if m.fails stat f.key || m.fails head f.key
    then fail f.key g
    else elim (head_object (bucket_for m.provider f.key) f.key g.remote.objects) [
      | some size ↦ if size == length f.body then have f.key g else conflict f.key g
      | none ↦
          if m.fails read f.key || not m.dry_run && m.fails upload f.key
          then fail f.key g
          else copied_to (if m.dry_run then g.remote.objects else put (placed m f) g.remote.objects)
              f.key g
    ]

unfoldable pub copy_files : Options → List LocalFile → Progress → Progress
unfolding copy_file
copy_files m [] g = g
copy_files m (f ∷ fs) g = copy_files m fs (copy_file m f g)

abbrev pub is_avatar_key : Text → Bool
is_avatar_key key = text_eq (first_part (split slash key)) (codes "avatars")

-- `isPubliclyReadable`
abbrev pub is_publicly_readable : S3Provider → Text → Bool
is_publicly_readable p key = elim (truthy p.public_base_url) [
  | some base ↦ true
  | none ↦ elim p.public_bucket [ none ↦ false | some public ↦ text_eq (bucket_for p key) public ]
]

-- One row of the transaction: written only while it still has the value that was read.
abbrev pub is_row : AvatarRow → AvatarRow → Bool
is_row row r = r.id == row.id && text_eq r.avatar row.avatar

abbrev pub repoint : Text → AvatarRow → AvatarRow
repoint url r = record r { avatar = url }

unfoldable pub update_rows : List AvatarRow → Text → List AvatarRow → List AvatarRow × ℕ
update_rows [] url avatars = (avatars, 0)
update_rows (row ∷ rows) url avatars =
    let (after, changed) = update_rows rows url (update_where (is_row row) (repoint url) avatars) in
    (after, count_where (is_row row) avatars + changed)

abbrev pub is_stale : Text → Text → AvatarRow → Bool
is_stale key url r = ends_with r.avatar (slash ∷ key) && not (text_eq r.avatar url)

unfoldable pub stale_rows : Options → Text → List AvatarRow → List AvatarRow
stale_rows m key avatars =
    filter_where (is_stale key (get_url m.provider key))
      (filter_where (λ r. m.like (slash ∷ key) r.avatar) avatars)

abbrev pub rewrite_rows : Text → List AvatarRow → Progress → Progress
rewrite_rows url rows g =
    let (after, changed) = update_rows rows url g.remote.avatars in
    record g {
      remote = record g.remote { avatars = after };
      result = record g.result { avatar_rows_updated = g.result.avatar_rows_updated + changed };
    }

unfoldable pub rewrite_avatar : Options → Text → Progress → Progress
unfolding stale_rows update_rows
rewrite_avatar m key g =
    if not (is_publicly_readable m.provider key)
    then record g {
      result = record g.result { avatars_not_public = g.result.avatars_not_public ++ key ∷ [] };
    }
    else if m.fails find key
    then fail key g
    else (let rows = stale_rows m key g.remote.avatars in
        if is_empty rows
        then g
        else if m.dry_run
        then record g {
          result = record g.result {
            avatar_rows_updated = g.result.avatar_rows_updated + length rows;
          };
        }
        else if m.fails update key
        then fail key g
        else rewrite_rows (get_url m.provider key) rows g)

unfoldable pub rewrite_avatars : Options → List Text → Progress → Progress
unfolding rewrite_avatar
rewrite_avatars m [] g = g
rewrite_avatars m (key ∷ keys) g = rewrite_avatars m keys (rewrite_avatar m key g)

-- Nothing done yet, but the directories that could not be listed.
abbrev pub begin : LocalListing → Remote → Progress
begin listing remote = record {
  remote = remote;
  result = record {
    copied = [];
    already_present = [];
    conflicts = [];
    not_safe = [];
    failed = map (λ dir. dir ++ slash ∷ []) listing.unread;
    avatar_rows_updated = 0;
    avatars_not_public = [];
  };
  in_target = [];
}

unfoldable pub migrate_local_storage : Options → LocalListing → Remote → Progress
unfolding copy_files rewrite_avatars
migrate_local_storage m listing remote =
    let copied = copy_files m listing.files (begin listing remote) in
    rewrite_avatars m (filter_where is_avatar_key copied.in_target) copied
