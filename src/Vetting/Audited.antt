-- ===== src/Vetting/Audited.antt =====
-- The audit log after an administrator has opened a profile.
use fetchit_be.Base.{
  ℕ, Bool, true, Option, none, some, List, [], ◌∷◌, ◌==◌, ◌||◌, filter_where, find_where, any_where,
  ◌≡◌, refl, sym, ap, subst, ◌∙◌, arith, All, Bool-cases, Option-cases, inl, inr,
}
use fetchit_be.Schema.{HandymanProfile, HandymanDocument, AuditLog}
use fetchit_be.Texts.{Text}
use fetchit_be.World.{World, Result, M, pure, ok, err, find_profile, continue}
use fetchit_be.Listing.Requests.{SignedDocument, to_signed_document}
use fetchit_be.Vetting.Profile.{find_documents}
use fetchit_be.Vetting.Review.{log}
use fetchit_be.Vetting.Reading.{
  after_rest, log_document_access, sign_for_review, get_handyman_for_review, is_access,
}

abbrev value_or : {B : Type 0} → B → Result B → B
value_or d (ok b) = b
value_or d (err e) = d

world-after_rest :
    (o : Option SignedDocument) (r : World × Result (List SignedDocument))
    → (after_rest o r).0 ≡ r.0
world-after_rest none r = refl
world-after_rest (some d) (w, ok rest) = refl
world-after_rest (some d) (w, err e) = refl

module _ (sign : Text → Option Text) (fails : ℕ → Bool) (admin_user_id : ℕ) where
  abbrev go : List HandymanDocument → M (List SignedDocument)
  go = sign_for_review sign fails admin_user_id

  abbrev logged : HandymanDocument → World → World
  logged d w = (log_document_access fails admin_user_id d.id w).0

  unsigned :
      (d : HandymanDocument) (ds : List HandymanDocument) (w : World)
      → sign d.file_key ≡ none
      → go (d ∷ ds) w ≡ after_rest none (go ds w)
  unfolding sign_for_review
  unsigned d ds w e = rw (sign_for_review, e) refl

  signed_one :
      (d : HandymanDocument) (ds : List HandymanDocument) (w : World) (url : Text)
      → sign d.file_key ≡ some url
      → go (d ∷ ds) w ≡ after_rest (some (to_signed_document d url)) (go ds (logged d w))
  unfolding sign_for_review
  signed_one d ds w url e = rw (sign_for_review, e) refl

  log-stays :
      (test : AuditLog → Bool) (d : HandymanDocument) (w : World)
      → any_where test w.audit_log ≡ true
      → any_where test (logged d w).audit_log ≡ true
  unfolding log_document_access log any_where
  log-stays test d w h = ground arith

  log-logs :
      (d : HandymanDocument) (w : World)
      → (fails d.id || any_where (is_access admin_user_id d.id) (logged d w).audit_log) ≡ true
  unfolding log_document_access log any_where
  log-logs d w = ground arith

  -- Entries stay.
  entries_stay :
      (test : AuditLog → Bool) (ds : List HandymanDocument) (w : World)
      → any_where test w.audit_log ≡ true
      → any_where test (go ds w).0.audit_log ≡ true
  unfolding sign_for_review
  entries_stay test [] w h = h
  entries_stay test (d ∷ ds) w h = elim (Option-cases (sign d.file_key)) [
    | inl e ↦
        ap (λ v. any_where test v.audit_log)
          (ap (λ r. r.0) (unsigned d ds w e) ∙ world-after_rest none (go ds w))
        ∙ entries_stay test ds w h
    | inr (url, e) ↦
        ap (λ v. any_where test v.audit_log)
          (ap (λ r. r.0) (signed_one d ds w url e)
            ∙ world-after_rest (some (to_signed_document d url)) (go ds (logged d w)))
        ∙ entries_stay test ds (logged d w) (log-stays test d w h)
  ]

  -- What is known when the rest of the documents has been signed too.
  rest_signed :
      (d : SignedDocument) (r : World × Result (List SignedDocument)) (signed : List SignedDocument)
      → (after_rest (some d) r).1 ≡ ok signed
      → (rest : List SignedDocument) × (r.1 ≡ ok rest) × (signed ≡ d ∷ rest)
  rest_signed d (w, ok rest) signed h = (rest, refl, cc)
  rest_signed d (w, err e) signed h = absurd (cc)

  abbrev HasEntry : World → SignedDocument → Type 0
  HasEntry v d = (fails d.id || any_where (is_access admin_user_id d.id) v.audit_log) ≡ true

  entry_stays :
      (d : SignedDocument) (ds : List HandymanDocument) (w : World)
      → HasEntry w d
      → HasEntry (go ds w).0 d
  entry_stays d ds w h = elim (Bool-cases (fails d.id)) [
    | inl f ↦ rw f refl
    | inr f ↦ rw f (
        entries_stay (is_access admin_user_id d.id) ds w
          (sym (ap (λ b. b || any_where (is_access admin_user_id d.id) w.audit_log) f) ∙ h))
  ]

  audited :
      (ds : List HandymanDocument) (w : World) (signed : List SignedDocument)
      → (go ds w).1 ≡ ok signed
      → All (HasEntry (go ds w).0) signed
  unfolding sign_for_review
  audited [] w signed h = let e : signed ≡ [] = cc in subst (All (HasEntry w)) (sym e) tt
  audited (d ∷ ds) w signed h = elim (Option-cases (sign d.file_key)) [
    | inl e ↦
        absurd
          (let bad = sym (ap (λ r. r.1) (unsigned d ds w e)) ∙ h in no_rest (go ds w) signed bad)
    | inr (url, e) ↦
        let step = signed_one d ds w url e in
        let (rest, ok_rest, whole) =
          rest_signed (to_signed_document d url) (go ds (logged d w)) signed
            (sym (ap (λ r. r.1) step) ∙ h) in
        let same =
          ap (λ r. r.0) step
          ∙ world-after_rest (some (to_signed_document d url)) (go ds (logged d w)) in
        subst (λ xs. All (HasEntry (go (d ∷ ds) w).0) xs) (sym whole)
          (subst (λ v. All (HasEntry v) (to_signed_document d url ∷ rest)) (sym same)
            (
              entry_stays (to_signed_document d url) ds (logged d w) (log-logs d w),
              audited ds (logged d w) rest ok_rest,
            ))
  ]
    where
      no_rest :
          (r : World × Result (List SignedDocument)) (signed : List SignedDocument)
          → (after_rest none r).1 ≡ ok signed
          → ⊥
      no_rest (v, r) signed h = cc

  abbrev after_sign :
      HandymanProfile
      → World × Result (List SignedDocument)
      → World × Result (HandymanProfile × List SignedDocument)
  after_sign p (v, ok signed) = (v, ok (p, signed))
  after_sign p (v, err e) = (v, err e)

  signed_all :
      (p : HandymanProfile) (r : World × Result (List SignedDocument))
      (seen : HandymanProfile × List SignedDocument)
      → (after_sign p r).1 ≡ ok seen
      → (r.1 ≡ ok seen.1) × ((after_sign p r).0 ≡ r.0)
  signed_all p (v, ok signed) seen h = let e = ap (value_or seen) h in (ap (λ s. ok s.1) e, refl)
  signed_all p (v, err e) seen h = absurd (cc)

  reviewed :
      (profile_id : ℕ) (w : World) (p : HandymanProfile)
      → find_where (λ p. p.id == profile_id) w.profiles ≡ some p
      → get_handyman_for_review sign fails profile_id admin_user_id w
        ≡ after_sign p (go (filter_where (λ d. d.handyman_profile_id == p.id) w.documents) w)
  unfolding get_handyman_for_review find_profile find_documents
  reviewed profile_id w p e =
      rw e (close (go (filter_where (λ d. d.handyman_profile_id == p.id) w.documents) w))
    where
      close :
          (r : World × Result (List SignedDocument))
          → continue r (λ signed. pure (p, signed)) ≡ after_sign p r
      close (v, ok signed) = refl
      close (v, err e) = refl

  -- An administrator who opens a profile is given signed addresses only for documents for which the
  -- audit log then holds an entry of that administrator's access, except where the insert of the
  -- entry failed.
  pub get_handyman_for_review-audited :
      (profile_id : ℕ) (w : World) (profile : HandymanProfile) (signed : List SignedDocument)
      → (get_handyman_for_review sign fails profile_id admin_user_id w).1 ≡ ok (profile, signed)
      → All
          (λ d.
            (fails d.id
              || any_where
                  (is_access admin_user_id d.id)
                  (get_handyman_for_review sign fails profile_id admin_user_id w).0.audit_log)
            ≡ true)
          signed
  unfolding get_handyman_for_review find_profile find_documents
  get_handyman_for_review-audited profile_id w profile signed h =
      elim (Option-cases (find_where (λ p. p.id == profile_id) w.profiles)) [
        | inl e ↦ absurd (ground arith)
        | inr (p, e) ↦
            let documents = filter_where (λ d. d.handyman_profile_id == p.id) w.documents in
            let run = reviewed profile_id w p e in
            let (all, same) =
              signed_all p (go documents w) (profile, signed) (sym (ap (λ r. r.1) run) ∙ h) in
            subst (λ v. All (HasEntry v) signed) (sym (ap (λ r. r.0) run ∙ same))
              (audited documents w signed all)
      ]
