-- ===== src/Migration/Untouched.antt =====
-- What src/cli/migrate-local-storage.ts leaves as it is.
use fetchit_be.Base.{
  filter_where-All, find_where, Bool, true, false, not, some, List, [], ◌∷◌, ◌++◌, ◌==◌, ◌&&◌, ◌||◌,
  ◌≡◌, refl, arith, sym, ap, subst, ◌∙◌, length, filter_where, if◌then◌else◌, Bool-cases,
  Option-cases, inl, inr, All, Memᴰ, Memᴰ-update_where,
}
use fetchit_be.Texts.{Text, ends_with, is_empty}
use fetchit_be.Texts.Trim.{text_eq_sound}
use fetchit_be.Storage.Keys.{slash, is_safe_key}
use fetchit_be.Storage.Provider.{get_url, bucket_for}
use fetchit_be.Migration.Walk.{LocalFile, LocalListing}
use fetchit_be.Migration.Run.{
  AvatarRow, Placed, Remote, Options, Progress, head_object, begin, copy_file, copy_files, is_row,
  is_stale, update_rows, stale_rows, rewrite_avatar, rewrite_avatars, migrate_local_storage,
  is_avatar_key, is_at, is_publicly_readable, stat, head, read, upload, find, update,
}
use fetchit_be.Migration.Kept.{copy_files-keeps, rewrite_avatars-objects}

-- What holds of both branches holds of the choice.
either :
    {A : Type 0} (P : A → Type 0) (test : Bool) {a b : A} → P a → P b → P (if test then a else b)
either P true p q = p
either P false p q = q

module _ (r : AvatarRow) where
  -- The row's avatar is not the key's file.
  abbrev IsElse : Text → Type 0
  IsElse key = ends_with r.avatar (slash ∷ key) ≡ false

  snoc :
      (keys : List Text) (key : Text) → All IsElse keys → IsElse key → All IsElse (keys ++ key ∷ [])
  snoc [] key h k = (k, tt)
  snoc (x ∷ xs) key (p, h) k = (p, snoc xs key h k)

  chosen_only :
      (test : Text → Bool) (keys : List Text)
      → All IsElse keys
      → All IsElse (filter_where test keys)
  unfolding filter_where
  chosen_only test [] h = tt
  chosen_only test (x ∷ xs) (p, h) = elim (Bool-cases (test x)) [
    | inl t ↦ rw t (p, chosen_only test xs h)
    | inr t ↦ rw t (chosen_only test xs h)
  ]

  stale_end :
      (m : Options) (key : Text) (avatars : List AvatarRow)
      → All (λ row. ends_with row.avatar (slash ∷ key) ≡ true) (stale_rows m key avatars)
  unfolding stale_rows
  stale_end m key avatars = go (filter_where (λ x. m.like (slash ∷ key) x.avatar) avatars)
    where
      go :
          (xs : List AvatarRow)
          → All
              (λ row. ends_with row.avatar (slash ∷ key) ≡ true)
              (filter_where (is_stale key (get_url m.provider key)) xs)
      go xs =
          filter_where-All (λ row. ends_with row.avatar (slash ∷ key) ≡ true)
            (is_stale key (get_url m.provider key)) xs (λ row t. ground arith)

  rows_keep :
      (key url : Text) (rows avatars : List AvatarRow)
      → IsElse key
      → All (λ row. ends_with row.avatar (slash ∷ key) ≡ true) rows
      → Memᴰ r avatars
      → Memᴰ r (update_rows rows url avatars).0
  unfolding update_rows
  rows_keep key url [] avatars h k member = member
  rows_keep key url (row ∷ rows) avatars h (e, k) member =
      rows_keep key url rows _ h k (Memᴰ-update_where (is_row row) _ avatars r other member)
    where
      other : is_row row r ≡ false
      other = elim (Bool-cases (is_row row r)) [
        | inr t ↦ t
        | inl t ↦
            let same = text_eq_sound r.avatar row.avatar (ground arith) in
            absurd (let e' = ap (λ z. ends_with z (slash ∷ key)) same ∙ e in cc)
      ]

  rewrite_avatar_keeps :
      (m : Options) (key : Text) (g : Progress)
      → IsElse key
      → Memᴰ r g.remote.avatars
      → Memᴰ r (rewrite_avatar m key g).remote.avatars
  unfolding rewrite_avatar
  rewrite_avatar_keeps m key g p member =
      let kept =
        rows_keep key (get_url m.provider key) (stale_rows m key g.remote.avatars) g.remote.avatars
          p (stale_end m key g.remote.avatars) member in
      either Here (not (is_publicly_readable m.provider key)) member (
        either Here (m.fails find key) member (
          either Here (is_empty (stale_rows m key g.remote.avatars)) member
            (either Here m.dry_run member (either Here (m.fails update key) member kept))))
    where
      Here : Progress → Type 0
      Here z = Memᴰ r z.remote.avatars

  rewrite_avatars_keep :
      (m : Options) (keys : List Text) (g : Progress)
      → All IsElse keys
      → Memᴰ r g.remote.avatars
      → Memᴰ r (rewrite_avatars m keys g).remote.avatars
  unfolding rewrite_avatars
  rewrite_avatars_keep m [] g h member = member
  rewrite_avatars_keep m (key ∷ keys) g (p, h) member =
      rewrite_avatars_keep m keys (rewrite_avatar m key g) h (rewrite_avatar_keeps m key g p member)

  -- Copying brings no key of the row among the keys that are in the target.
  abbrev IsApart : Progress → Progress → Type 0
  IsApart g z = All IsElse z.in_target × (z.remote.avatars ≡ g.remote.avatars)

  copy_file_keeps :
      (m : Options) (f : LocalFile) (g : Progress)
      → IsElse f.key
      → All IsElse g.in_target
      → IsApart g (copy_file m f g)
  unfolding copy_file
  copy_file_keeps m f g p k =
      let more : All IsElse (g.in_target ++ f.key ∷ []) × (g.remote.avatars ≡ g.remote.avatars) =
        (snoc g.in_target f.key k p, refl) in
      either (IsApart g) (not (is_safe_key f.key)) (k, refl)
        (either (IsApart g) (m.fails stat f.key || m.fails head f.key) (k, refl)
          (elim (Option-cases (head_object (bucket_for m.provider f.key) f.key g.remote.objects)) [
            | inl new ↦ rw new (
                either (IsApart g) (m.fails read f.key || not m.dry_run && m.fails upload f.key)
                  (k, refl) more)
            | inr (size, found) ↦
                rw found (either (IsApart g) (size == length f.body) more (k, refl))
          ]))

  copy_files_keep :
      (m : Options) (fs : List LocalFile) (g : Progress)
      → All (λ f. IsElse f.key) fs
      → All IsElse g.in_target
      → IsApart g (copy_files m fs g)
  unfolding copy_files
  copy_files_keep m [] g h k = (k, refl)
  copy_files_keep m (f ∷ fs) g (p, h) k =
      let (k', same) = copy_file_keeps m f g p k in
      let (k'', same') = copy_files_keep m fs (copy_file m f g) h k' in (k'', same' ∙ same)

-- Whatever throws, a migration overwrites and removes no object that is in a bucket: the same object,
-- with the same bytes and content type, is found under its key afterwards. And it writes to no avatar
-- that ends in none of the listed keys.
pub migrate_local_storage-keeps :
    (m : Options) (listing : LocalListing) (remote : Remote) (bucket key : Text) (p : Placed)
    (r : AvatarRow)
    → find_where (is_at bucket key) remote.objects ≡ some p
    → Memᴰ r remote.avatars
    → All (λ f. ends_with r.avatar (slash ∷ f.key) ≡ false) listing.files
    → let after = (migrate_local_storage m listing remote).remote in
      (find_where (is_at bucket key) after.objects ≡ some p) × Memᴰ r after.avatars
unfolding migrate_local_storage
migrate_local_storage-keeps m listing remote bucket key p r there member other =
    let start = begin listing remote in
    let g = copy_files m listing.files start in
    let keys = filter_where is_avatar_key g.in_target in
    let (k, same) = copy_files_keep r m listing.files start other tt in
    (
      ap (find_where (is_at bucket key)) (rewrite_avatars-objects m keys g)
          ∙ copy_files-keeps m listing.files start bucket key p there,
      rewrite_avatars_keep r m keys g (chosen_only r is_avatar_key g.in_target k)
          (subst (Memᴰ r) (sym same) member),
    )
