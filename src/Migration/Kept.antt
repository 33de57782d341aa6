-- ===== src/Migration/Kept.antt =====
-- What a migration leaves alone, and what each of its steps adds.
use mathlib.Core.Option
use fetchit_be.Base.{
  ℕ, false, not, none, some, List, [], ◌∷◌, ◌&&◌, ◌≡◌, refl, arith, ap, ◌∙◌, find_where,
  filter_where, Bool-cases, Option-cases, inl, inr,
}
use fetchit_be.Texts.{Text, text_eq}
use fetchit_be.Texts.Trim.{text_eq_refl, text_eq_sound}
use fetchit_be.Storage.Provider.{bucket_for}
use fetchit_be.Migration.Walk.{LocalFile}
use fetchit_be.Migration.Run.{
  Placed, Options, Progress, is_at, head_object, placed, put, copy_file, copy_files, rewrite_avatar,
  rewrite_avatars,
}

-- The object under a key of a bucket stays when another is removed.
found_still :
    (bucket key : Text) (o : Placed) (objects : List Placed)
    → (is_at bucket key o ≡ false)
    → find_where
        (is_at bucket key)
        (filter_where (λ p. not (is_at o.bucket o.object.key p)) objects)
      ≡ find_where (is_at bucket key) objects
unfolding find_where filter_where
found_still bucket key o [] apart = refl
found_still bucket key o (p ∷ ps) apart = elim (Bool-cases (is_at o.bucket o.object.key p)) [
  | inl t ↦
      let b = text_eq_sound p.bucket o.bucket (ground arith) in
      let k = text_eq_sound p.object.key o.object.key (ground arith) in
      let other : is_at bucket key p ≡ false =
        ap (λ z. text_eq z bucket && text_eq p.object.key key) b
        ∙ ap (λ z. text_eq o.bucket bucket && text_eq z key) k
        ∙ apart in
      rw (t, other) (found_still bucket key o ps apart)
  | inr t ↦ rw t (ground (arith, found_still bucket key o ps apart))
]

find_put_elsewhere :
    (bucket key : Text) (o : Placed) (objects : List Placed)
    → is_at bucket key o ≡ false
    → find_where (is_at bucket key) (put o objects) ≡ find_where (is_at bucket key) objects
unfolding find_where
find_put_elsewhere bucket key o objects apart = rw (apart, found_still bucket key o objects apart)

pub put_elsewhere :
    (bucket key : Text) (o : Placed) (objects : List Placed)
    → is_at bucket key o ≡ false
    → head_object bucket key (put o objects) ≡ head_object bucket key objects
unfolding head_object
put_elsewhere bucket key o objects apart =
    ap (Option.map (λ (p : Placed). p.object.size)) (find_put_elsewhere bucket key o objects apart)

-- What `head_object` finds is the size of an object that is there.
pub head_object_found :
    (bucket key : Text) (objects : List Placed) (n : ℕ)
    → head_object bucket key objects ≡ some n
    → (p : Placed) × (find_where (is_at bucket key) objects ≡ some p) × (p.object.size ≡ n)
unfolding head_object
head_object_found bucket key objects n h =
    elim (Option-cases (find_where (is_at bucket key) objects)) [
      | inl e ↦ absurd (ground arith)
      | inr (p, e) ↦ (p, e, ground arith)
    ]

pub found_head_object :
    (bucket key : Text) (objects : List Placed) (p : Placed)
    → find_where (is_at bucket key) objects ≡ some p
    → head_object bucket key objects ≡ some p.object.size
unfolding head_object
found_head_object bucket key objects p e = ap (Option.map (λ (q : Placed). q.object.size)) e

pub put_here :
    (o : Placed) (objects : List Placed)
    → head_object o.bucket o.object.key (put o objects) ≡ some o.object.size
unfolding head_object find_where
put_here o objects = rw (text_eq_refl o.bucket, text_eq_refl o.object.key)

-- An object is put only where there is none, so what is there stays.
put_new :
    (bucket key : Text) (o : Placed) (objects : List Placed) (p : Placed)
    → head_object o.bucket o.object.key objects ≡ none
    → find_where (is_at bucket key) objects ≡ some p
    → find_where (is_at bucket key) (put o objects) ≡ some p
put_new bucket key o objects p new there = elim (Bool-cases (is_at bucket key o)) [
  | inr apart ↦ find_put_elsewhere bucket key o objects apart ∙ there
  | inl here ↦
      let b = text_eq_sound o.bucket bucket (ground arith) in
      let k = text_eq_sound o.object.key key (ground arith) in
      absurd (
        let clash : head_object o.bucket o.object.key objects ≡ some p.object.size =
          ap (λ z. head_object z o.object.key objects) b
          ∙ ap (λ z. head_object bucket z objects) k
          ∙ found_head_object bucket key objects p there in
        cc)
]

pub copy_file-keeps :
    (m : Options) (f : LocalFile) (g : Progress) (bucket key : Text) (p : Placed)
    → find_where (is_at bucket key) g.remote.objects ≡ some p
    → find_where (is_at bucket key) (copy_file m f g).remote.objects ≡ some p
unfolding copy_file
copy_file-keeps m f g bucket key p there =
    elim (Option-cases (head_object (bucket_for m.provider f.key) f.key g.remote.objects)) [
      | inl new ↦
          let kept = put_new bucket key (placed m f) g.remote.objects p new there in ground arith
      | inr (size, found) ↦ ground arith
    ]

pub copy_files-keeps :
    (m : Options) (fs : List LocalFile) (g : Progress) (bucket key : Text) (p : Placed)
    → find_where (is_at bucket key) g.remote.objects ≡ some p
    → find_where (is_at bucket key) (copy_files m fs g).remote.objects ≡ some p
unfolding copy_files
copy_files-keeps m [] g bucket key p there = there
copy_files-keeps m (f ∷ fs) g bucket key p there =
    copy_files-keeps m fs (copy_file m f g) bucket key p (copy_file-keeps m f g bucket key p there)

-- The size under a key stays.
pub copy_files-keeps_size :
    (m : Options) (fs : List LocalFile) (g : Progress) (bucket key : Text) (n : ℕ)
    → head_object bucket key g.remote.objects ≡ some n
    → head_object bucket key (copy_files m fs g).remote.objects ≡ some n
copy_files-keeps_size m fs g bucket key n there =
    let (p, found, size) = head_object_found bucket key g.remote.objects n there in
    found_head_object bucket key (copy_files m fs g).remote.objects p
      (copy_files-keeps m fs g bucket key p found)
    ∙ ap some size

-- Avatars are rewritten with no write to the buckets.
pub rewrite_avatars-objects :
    (m : Options) (keys : List Text) (g : Progress)
    → (rewrite_avatars m keys g).remote.objects ≡ g.remote.objects
unfolding rewrite_avatars rewrite_avatar
rewrite_avatars-objects m [] g = refl
rewrite_avatars-objects m (key ∷ keys) g =
    rewrite_avatars-objects m keys (rewrite_avatar m key g) ∙ ground arith
