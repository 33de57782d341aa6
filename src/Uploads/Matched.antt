-- ===== src/Uploads/Matched.antt =====
-- Documents and their objects, through uploads that fail at any point.
use fetchit_be.Base.{
  ℕ, Bool, true, false, not, List, [], ◌∷◌, ◌++◌, ◌==◌, ◌&&◌, ◌≡◌, refl, arith, length, any_where,
  filter_where, Option, All, All-map, Bool-cases, inl, inr, sym, ap, ◌∙◌, subst, any_where-false,
  Option-cases, find_where,
}
use fetchit_be.Schema.{StoredObject, HandymanDocument, DocumentType}
use fetchit_be.World.{World, find_profile_by_user}
use fetchit_be.Texts.{Text, text_eq, is_empty, starts_with}
use fetchit_be.Texts.Trim.{text_eq_refl, text_eq_sound}
use fetchit_be.Storage.Keys.{slash, is_safe_key}
use fetchit_be.Storage.Settings.{handyman_document_prefix}
use fetchit_be.Uploads.FileType.{FileType, sniff_file_type}
use fetchit_be.Uploads.Objects.{UploadedFile, has_key, buffer_of, storage_upload, storage_delete}
use fetchit_be.Uploads.Documents.{
  document_key, new_document, create_document, store_document, upload_document_file, name_of,
}

abbrev pub is_stored : List StoredObject → Text → Bool
is_stored objects key = any_where (has_key key) objects

abbrev pub is_document_key : Text → Bool
is_document_key key = starts_with key (handyman_document_prefix ++ slash ∷ [])

abbrev pub has_file : Text → HandymanDocument → Bool
has_file key d = text_eq d.file_key key

-- The object of every document is in the storage, and every object under `handyman-documents/` is a
-- document's.
pub record IsMatched (w : World) : Type 0 where
  pub stored : All (λ d. is_stored w.objects d.file_key ≡ true) w.documents
  pub owned :
      All
        (λ o. is_document_key o.key ≡ true → any_where (has_file o.key) w.documents ≡ true)
        w.objects

module _ {A : Type 0} where
  any_where-filter_where :
      (test keep : A → Bool) (xs : List A)
      → ((x : A) → test x ≡ true → keep x ≡ true)
      → any_where test xs ≡ true
      → any_where test (filter_where keep xs) ≡ true
  unfolding any_where filter_where
  any_where-filter_where test keep [] k h = h
  any_where-filter_where test keep (x ∷ xs) k h =
      ground (arith, k x, any_where-filter_where test keep xs k)

  All-filter_where :
      (P : A → Type 0) (keep : A → Bool) (xs : List A) → All P xs → All P (filter_where keep xs)
  unfolding filter_where
  All-filter_where P keep [] h = tt
  All-filter_where P keep (x ∷ xs) (p, h) = elim (Bool-cases (keep x)) [
    | inl t ↦ rw t (p, All-filter_where P keep xs h)
    | inr t ↦ rw t (All-filter_where P keep xs h)
  ]

-- Objects under another key stay when the key's are removed.
kept_object :
    (key other : Text) (objects : List StoredObject)
    → text_eq other key ≡ false
    → is_stored objects other ≡ true
    → is_stored (filter_where (λ o. not (has_key key o)) objects) other ≡ true
kept_object key other objects apart h =
    any_where-filter_where (has_key other) (λ o. not (has_key key o)) objects keep h
  where
    keep : (o : StoredObject) → has_key other o ≡ true → not (has_key key o) ≡ true
    keep o t = let same = text_eq_sound o.key other t in rw (ap (λ z. text_eq z key) same ∙ apart)

-- Nobody's document stands under the key yet.
abbrev pub IsFree : Text → World → Type 0
IsFree key w = any_where (has_file key) w.documents ≡ false

after_removal :
    (key : Text) (w : World)
    → IsFree key w
    → IsMatched w
    → IsMatched (record w { objects = filter_where (λ o. not (has_key key o)) w.objects })
after_removal key w free m = record {
  stored = All-zip_map w.documents (any_where-false (has_file key) w.documents free) m.stored;
  owned = All-filter_where _ _ w.objects m.owned;
}
  where
    All-zip_map :
        (ds : List HandymanDocument)
        → All (λ d. has_file key d ≡ false) ds
        → All (λ d. is_stored w.objects d.file_key ≡ true) ds
        → All
            (λ d. is_stored (filter_where (λ o. not (has_key key o)) w.objects) d.file_key ≡ true)
            ds
    All-zip_map [] a b = tt
    All-zip_map (d ∷ ds) (p, a) (q, b) =
        (kept_object key d.file_key w.objects p q, All-zip_map ds a b)

-- A put under a free key, with the document that owns it.
after_put :
    (o : StoredObject) (d : HandymanDocument) (w : World)
    → text_eq o.key d.file_key ≡ true
    → IsMatched (record w { objects = filter_where (λ p. not (has_key o.key p)) w.objects })
    → IsMatched (record w {
      objects = o ∷ filter_where (λ p. not (has_key o.key p)) w.objects;
      documents = d ∷ w.documents;
    })
unfolding any_where
after_put o d w same m = record {
  stored = (rw same refl, All-map _ _ w.documents (λ e h. ground (arith, h)) m.stored);
  owned = (
    λ _.
        let back =
          ap (λ z. text_eq z o.key) (sym (text_eq_sound o.key d.file_key same))
          ∙ text_eq_refl o.key in
        rw back refl,
    All-map _ _ (filter_where (λ p. not (has_key o.key p)) w.objects) (λ p h k. ground (arith, h k))
        m.owned,
  );
}

-- Removing twice is removing once.
filter_where_idem :
    {A : Type 0} (keep : A → Bool) (xs : List A)
    → filter_where keep (filter_where keep xs) ≡ filter_where keep xs
unfolding filter_where
filter_where_idem keep [] = refl
filter_where_idem keep (x ∷ xs) = ground (arith, filter_where_idem keep xs)

safe_of_sent : (safe sent : Bool) → safe && sent ≡ true → safe && true ≡ true
safe_of_sent safe sent h = ground arith

module _ (id_text : ℕ → Text) where
  store-IsMatched :
      (d : HandymanDocument) (type : FileType) (size : ℕ) (sent : Bool) (w : World)
      → IsFree d.file_key w
      → IsMatched w
      → IsMatched (store_document id_text d type size sent true w).0
  unfolding store_document storage_upload storage_delete create_document filter_where
  store-IsMatched d type size sent w free m = elim (Bool-cases (is_safe_key d.file_key && sent)) [
    | inr t ↦ rw t m
    | inl t ↦ rw t (
        let safe = safe_of_sent (is_safe_key d.file_key) sent t in
        let without : StoredObject → Bool = λ o. not (has_key d.file_key o) in
        let removed : IsMatched
            (record w { objects = filter_where without (filter_where without w.objects) }) =
          subst (λ z. IsMatched (record w { objects = z }))
            (sym (filter_where_idem without w.objects)) (after_removal d.file_key w free m) in
        elim (Bool-cases (any_where (λ p. p.id == d.handyman_profile_id) w.profiles)) [
          | inr p ↦ rw (p, safe, text_eq_refl d.file_key) removed
          | inl p ↦ rw p (elim (Bool-cases (any_where (λ e. e.id == d.id) w.documents)) [
            | inl q ↦ rw (q, safe, text_eq_refl d.file_key) removed
            | inr q ↦
                rw q (after_put _ d w (text_eq_refl d.file_key) (after_removal d.file_key w free m))
          ])
        ])
  ]

  -- An upload under a fresh name leaves every document with its object and no object under
  -- `handyman-documents/` without a document, wherever it fails, when the clean-up's call succeeds.
  pub upload_document_file-IsMatched :
      (id user_id : ℕ) (kind : DocumentType) (file : Option UploadedFile) (uuid : Text)
      (sent : Bool) (w : World)
      → ((profile_id : ℕ) (type : FileType)
          → IsFree (document_key id_text profile_id kind uuid type) w)
      → IsMatched w
      → IsMatched (upload_document_file id_text id user_id kind file uuid sent true w).0
  unfolding upload_document_file find_profile_by_user
  upload_document_file-IsMatched id user_id kind file uuid sent w fresh m =
      elim (Bool-cases (not (is_empty (buffer_of file)))) [
        | inr t ↦ rw t m
        | inl t ↦ rw t (elim (Option-cases (find_where (λ p. p.user_id == user_id) w.profiles)) [
          | inl n ↦ rw n m
          | inr (profile, p) ↦ rw p (elim (Option-cases (sniff_file_type (buffer_of file))) [
            | inl n ↦ rw n m
            | inr (type, k) ↦ rw k (
                store-IsMatched (new_document id_text id profile.id kind uuid type (name_of file))
                  type (length (buffer_of file)) sent w (fresh profile.id type) m)
          ])
        ])
      ]
