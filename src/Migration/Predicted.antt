-- ===== src/Migration/Predicted.antt =====
-- What a dry run of src/cli/migrate-local-storage.ts says about a real one.
use fetchit_be.Base.{
  ℕ, true, false, Option, List, [], ◌∷◌, ◌≡◌, refl, arith, sym, ap, subst, ◌∙◌, filter_where,
  Option-cases, inl, inr, All, AllPairs,
}
use fetchit_be.Texts.{Text, text_eq}
use fetchit_be.Storage.Provider.{bucket_for}
use fetchit_be.Migration.Walk.{LocalFile, LocalListing}
use fetchit_be.Migration.Run.{
  Remote, MigrationResult, Options, Progress, is_at, head_object, placed, begin, copy_file,
  copy_files, rewrite_avatar, rewrite_avatars, migrate_local_storage, is_avatar_key, upload,
}
use fetchit_be.Migration.Kept.{put_elsewhere}

module _ (m : Options) where
  abbrev pub dry : Options
  dry = record m { dry_run = true }

  abbrev pub wet : Options
  wet = record m { dry_run = false }

  abbrev head_of : LocalFile → Progress → Option ℕ
  head_of f g = head_object (bucket_for m.provider f.key) f.key g.remote.objects

  dry_copy : (f : LocalFile) (g : Progress) → (copy_file dry f g).remote ≡ g.remote
  unfolding copy_file
  dry_copy f g = ground arith

  dry_copies : (fs : List LocalFile) (g : Progress) → (copy_files dry fs g).remote ≡ g.remote
  unfolding copy_files
  dry_copies [] g = refl
  dry_copies (f ∷ fs) g = dry_copies fs (copy_file dry f g) ∙ dry_copy f g

  dry_rewrite : (keys : List Text) (g : Progress) → (rewrite_avatars dry keys g).remote ≡ g.remote
  unfolding rewrite_avatars rewrite_avatar
  dry_rewrite [] g = refl
  dry_rewrite (key ∷ keys) g = dry_rewrite keys (rewrite_avatar dry key g) ∙ ground arith

  -- A real step leaves the objects of other keys.
  wet_elsewhere :
      (f e : LocalFile) (g : Progress)
      → text_eq f.key e.key ≡ false
      → head_of e (copy_file wet f g) ≡ head_of e g
  unfolding copy_file
  wet_elsewhere f e g apart =
      let other : is_at (bucket_for m.provider e.key) e.key (placed m f) ≡ false = ground arith in
      let kept =
        put_elsewhere (bucket_for m.provider e.key) e.key (placed m f) g.remote.objects other in
      ground arith

  -- With the same object under the key, both kinds of run enter a file in the same list.
  same_step :
      (f : LocalFile) (r r' : Remote) (result : MigrationResult) (in_target : List Text)
      → let g : Progress = record { remote = r; result = result; in_target = in_target } in
        let g' : Progress = record { remote = r'; result = result; in_target = in_target } in
        m.fails upload f.key ≡ false
        → head_of f g ≡ head_of f g'
        → ((copy_file dry f g).result ≡ (copy_file wet f g').result)
          × ((copy_file dry f g).in_target ≡ (copy_file wet f g').in_target)
  unfolding copy_file
  same_step f r r' result in_target sent same =
      elim (Option-cases (head_object (bucket_for m.provider f.key) f.key r.objects)) [
        | inl new ↦ (ground arith, ground arith)
        | inr (size, found) ↦ (ground arith, ground arith)
      ]

  same_run :
      (fs : List LocalFile) (g g' : Progress)
      → g.result ≡ g'.result
      → g.in_target ≡ g'.in_target
      → All (λ f. m.fails upload f.key ≡ false) fs
      → AllPairs (λ f e. text_eq f.key e.key ≡ false) fs
      → All (λ f. head_of f g ≡ head_of f g') fs
      → ((copy_files dry fs g).result ≡ (copy_files wet fs g').result)
        × ((copy_files dry fs g).in_target ≡ (copy_files wet fs g').in_target)
  unfolding copy_files
  same_run [] g g' results targets sent distinct same = (results, targets)
  same_run (f ∷ fs) g g' results targets (s, sent) (d, distinct) (h, same) =
      let (a, b) = subst_step f g g' results targets s h in
      same_run fs (copy_file dry f g) (copy_file wet f g') a b sent distinct (carry fs d same)
    where
      subst_step :
          (f : LocalFile) (g g' : Progress)
          → g.result ≡ g'.result
          → g.in_target ≡ g'.in_target
          → m.fails upload f.key ≡ false
          → head_of f g ≡ head_of f g'
          → ((copy_file dry f g).result ≡ (copy_file wet f g').result)
            × ((copy_file dry f g).in_target ≡ (copy_file wet f g').in_target)
      subst_step f g g' results targets s h =
          subst
            (λ (z : Progress).
              head_of f g ≡ head_of f z
              → ((copy_file dry f g).result ≡ (copy_file wet f z).result)
                × ((copy_file dry f g).in_target ≡ (copy_file wet f z).in_target))
            (ap (λ z. record g' { result = z; in_target = g.in_target }) results
              ∙ ap (λ z. record g' { in_target = z }) targets)
            (same_step f g.remote g'.remote g.result g.in_target s) h

      carry :
          (es : List LocalFile)
          → All (λ e. text_eq f.key e.key ≡ false) es
          → All (λ e. head_of e g ≡ head_of e g') es
          → All (λ e. head_of e (copy_file dry f g) ≡ head_of e (copy_file wet f g')) es
      carry [] d h = tt
      carry (e ∷ es) (x, d) (y, h) = (
        ap (λ z. head_object (bucket_for m.provider e.key) e.key z.objects) (dry_copy f g)
            ∙ y
            ∙ sym (wet_elsewhere f e g' x),
        carry es d h,
      )

  -- Avatars are not entered in these lists.
  copied_kept :
      (keys : List Text) (g : Progress)
      → let r = (rewrite_avatars m keys g).result in
        (r.copied ≡ g.result.copied)
        × (r.already_present ≡ g.result.already_present)
        × (r.conflicts ≡ g.result.conflicts)
        × (r.not_safe ≡ g.result.not_safe)
  unfolding rewrite_avatars rewrite_avatar
  copied_kept [] g = (refl, refl, refl, refl)
  copied_kept (key ∷ keys) g =
      let (a, b, c, d) = copied_kept keys (rewrite_avatar m key g) in
      (a ∙ ground arith, b ∙ ground arith, c ∙ ground arith, d ∙ ground arith)

-- A dry run writes nothing, and says of every file what the real run does with it when no upload
-- throws: which are copied, already there, in conflict or skipped. The listed keys are distinct.
pub migrate_local_storage-dry_run :
    (m : Options) (listing : LocalListing) (remote : Remote)
    → All (λ f. m.fails upload f.key ≡ false) listing.files
    → AllPairs (λ f e. text_eq f.key e.key ≡ false) listing.files
    → let said = migrate_local_storage (dry m) listing remote in
      let done = migrate_local_storage (wet m) listing remote in
      (said.remote ≡ remote)
      × (said.result.copied ≡ done.result.copied)
      × (said.result.already_present ≡ done.result.already_present)
      × (said.result.conflicts ≡ done.result.conflicts)
      × (said.result.not_safe ≡ done.result.not_safe)
unfolding migrate_local_storage
migrate_local_storage-dry_run m listing remote sent distinct =
    let start = begin listing remote in
    let g = copy_files (dry m) listing.files start in
    let g' = copy_files (wet m) listing.files start in
    let (same, targets) =
      same_run m listing.files start start refl refl sent distinct (trivial listing.files start) in
    let (a, b, c, d) = copied_kept (dry m) (filter_where is_avatar_key g.in_target) g in
    let (a', b', c', d') = copied_kept (wet m) (filter_where is_avatar_key g'.in_target) g' in
    (
      dry_rewrite m (filter_where is_avatar_key g.in_target) g ∙ dry_copies m listing.files start,
      a ∙ ap (λ z. z.copied) same ∙ sym a',
      b ∙ ap (λ z. z.already_present) same ∙ sym b',
      c ∙ ap (λ z. z.conflicts) same ∙ sym c',
      d ∙ ap (λ z. z.not_safe) same ∙ sym d',
    )
  where
    trivial : (fs : List LocalFile) (g : Progress) → All (λ f. head_of m f g ≡ head_of m f g) fs
    trivial [] g = tt
    trivial (f ∷ fs) g = (refl, trivial fs g)
