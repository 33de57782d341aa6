-- ===== src/Vetting/Methods.antt =====
-- Each method's writes, derived from its definition: src/modules/handyman/handyman.service.ts and
-- src/modules/admin/admin-verification.service.ts.
use fetchit_be.Base.{
  ℕ, String, Bool, true, not, Option, none, some, List, [], ◌∷◌, ◌==◌, ◌≡◌, ◌⊎◌, refl, arith,
  find_where, any_where, filter_where, sym, subst, inl, inr, Bool-cases, find_where_sound, eq_of_==,
}
use fetchit_be.Schema.{
  Error, User, record_not_found, handyman_profile_completed, HandymanProfile, HandymanDocument,
  ProfileDetails, VerificationStatus, DocumentStatus, unverified, profile_complete,
  documents_submitted, verified, is_unverified, is_documents_submitted, may_submit,
  resource_not_found, handyman_document, handyman_profile_not_found, forbidden, invalid_transition,
  verification, no_documents,
}
use fetchit_be.World.{
  World, Result, ok, err, M, ◌>>=◌, ◌>>◌, emit, or_throw, guard, pure, transaction,
  find_profile_by_user, find_profile, find_user_or_throw, update_profiles, create_profile,
}
use fetchit_be.Vetting.Profile.{
  get_or_create, get_dashboard, link_categories, unlink_categories, write_profile, complete_profile,
  update_profile, update_verification_status, delete_document, submit_documents, CompleteProfileDto,
  default_profile, completed_profile, change_details, replace_categories, rewrite_profile,
  insert_profile, edit_profile, or_on_unique, count_status, write_status, has_some, find_documents,
  may_complete, find_profile_or_throw,
}
use fetchit_be.Vetting.Review.{
  log, review_document_commit, rejected_reason, review_check, approve_commit, approve_handyman,
  reject_handyman_commit, reject_handyman, review_document, find_document, update_document,
}
use fetchit_be.Vetting.Writes.{
  ◌⟶◌, stay, complete, submit, submit_again, approve, reject, has_documents, is_vetted, Writes,
  keep, add, change, remove, review, Same, after_or_throw, after_guard, Writes-Same, after_check,
  and_then, in_transaction,
}

untouched : (w : World) → Writes w w
untouched w = keep refl refl

-- A status write to a found profile along an edge.
status-Writes :
    (test : HandymanProfile → Bool) (p : HandymanProfile) (id : ℕ) (status : VerificationStatus)
    (reviewed_by_id : Option ℕ) (reason : Option String) (now : ℕ) (w : World)
    → find_where test w.profiles ≡ some p
    → p.id ≡ id
    → p.verification_status ⟶ status
    → is_vetted w.documents (write_status status reviewed_by_id reason now p) ≡ true
    → Writes w (update_verification_status id status reviewed_by_id reason now w).0
unfolding update_verification_status update_profiles find_profile_or_throw
status-Writes test p id status reviewed_by_id reason now w found same edge vetted =
    change test p found id same (write_status status reviewed_by_id reason now) (λ q. refl) edge
      (λ _. vetted) (ground arith) (ground arith)

module _ (profile_id : ℕ) (target : VerificationStatus) (w : World) where
  review_check_reads : (review_check profile_id target w).0 ≡ w
  unfolding review_check find_profile
  review_check_reads = ground arith

  review_check_passed :
      (p : HandymanProfile)
      → (review_check profile_id target w).1 ≡ ok p
      → (find_where (λ q. q.id == profile_id) w.profiles ≡ some p)
        × (p.verification_status ≡ documents_submitted)
  unfolding review_check find_profile
  review_check_passed p h = ground arith

  review_check_key :
      (p : HandymanProfile) → (review_check profile_id target w).1 ≡ ok p → p.id ≡ profile_id
  review_check_key p h =
      eq_of_== _ _
        (find_where_sound (λ q. q.id == profile_id) w.profiles p (review_check_passed p h).0)

pub approve_handyman-Writes :
    (profile_id admin now : ℕ) (w : World) → Writes w (approve_handyman profile_id admin now w).0
unfolding approve_handyman approve_commit find_user_or_throw log
approve_handyman-Writes profile_id admin now w =
    after_check (Writes w) (review_check profile_id verified) _ w
      (review_check_reads profile_id verified w) (untouched w)
      (λ p e.
        let (found, s) = review_check_passed profile_id verified w p e in
        Writes-Same w _ _
          (status-Writes (λ q. q.id == profile_id) p profile_id verified (some admin) none now w
            found (review_check_key profile_id verified w p e)
            (subst (λ x. x ⟶ verified) (sym s) approve) refl)
          (commit p))
  where
    commit :
        (p : HandymanProfile)
        → Same
            (update_verification_status profile_id verified (some admin) none now w).0
            (approve_commit profile_id admin p now w).0
    commit p = (ground arith, ground arith)

pub reject_handyman-Writes :
    (profile_id admin : ℕ) (reason : String) (now : ℕ) (w : World)
    → Writes w (reject_handyman profile_id admin reason now w).0
unfolding reject_handyman reject_handyman_commit find_user_or_throw log
reject_handyman-Writes profile_id admin reason now w =
    after_check (Writes w) (review_check profile_id VerificationStatus.rejected) _ w
      (review_check_reads profile_id VerificationStatus.rejected w) (untouched w)
      (λ p e.
        let (found, s) = review_check_passed profile_id VerificationStatus.rejected w p e in
        Writes-Same w _ _
          (status-Writes (λ q. q.id == profile_id) p profile_id VerificationStatus.rejected
            (some admin) (some reason) now w found
            (review_check_key profile_id VerificationStatus.rejected w p e)
            (subst (λ x. x ⟶ VerificationStatus.rejected) (sym s) reject) refl)
          (commit p))
  where
    commit :
        (p : HandymanProfile)
        → Same
            (update_verification_status profile_id VerificationStatus.rejected
              (some admin)
              (some reason)
              now
              w).0
            (reject_handyman_commit profile_id admin reason p now w).0
    commit p = (ground arith, ground arith)

review_document_commit-Writes :
    (doc_id admin : ℕ) (status : DocumentStatus) (reason : String) (now : ℕ) (w : World)
    → Writes w (review_document_commit doc_id admin status reason now w).0
unfolding review_document_commit find_document update_document log
review_document_commit-Writes doc_id admin status reason now w =
    review doc_id
      (λ d. record d {
        status = status;
        rejection_reason = rejected_reason status reason;
        reviewed_by_id = some admin;
        reviewed_at = some now;
      })
      (λ d. refl) (ground arith) (ground arith)

pub review_document-Writes :
    (profile_id doc_id admin : ℕ) (status : DocumentStatus) (reason : String) (now : ℕ) (w : World)
    → Writes w (review_document profile_id doc_id admin status reason now w).0
unfolding review_document find_document
review_document-Writes profile_id doc_id admin status reason now w =
    after_or_throw (Writes w) (find_where (λ d. d.id == doc_id) w.documents) missing checked w
      (untouched w)
      (λ document e.
        after_guard (Writes w) (document.handyman_profile_id == profile_id) missing
          (λ _. review_document_commit doc_id admin status reason now) w (untouched w)
          (λ e2. review_document_commit-Writes doc_id admin status reason now w))
  where
    missing : Error
    missing = resource_not_found handyman_document doc_id

    checked : HandymanDocument → M HandymanDocument
    checked document =
        guard (document.handyman_profile_id == profile_id) missing
        >> review_document_commit doc_id admin status reason now

pub delete_document-Writes :
    (user_id document_id : ℕ) (w : World) → Writes w (delete_document user_id document_id w).0
unfolding delete_document find_profile_by_user
delete_document-Writes user_id document_id w =
    after_or_throw (Writes w) _ handyman_profile_not_found _ w (untouched w) (λ p e.
      after_guard (Writes w) (not (is_documents_submitted p.verification_status)) forbidden _ w
        (untouched w)
        (λ e2. remove (λ q. q.user_id == user_id) p e (ground arith) document_id refl refl))

has_documents_of_some :
    (profile_id : ℕ) (documents : List HandymanDocument)
    → has_some (filter_where (λ d. d.handyman_profile_id == profile_id) documents) ≡ true
    → has_documents documents profile_id ≡ true
unfolding filter_where any_where
has_documents_of_some profile_id [] h = ground arith
has_documents_of_some profile_id (d ∷ documents) h =
    ground (arith, has_documents_of_some profile_id documents)

submit_edge : (s : VerificationStatus) → may_submit s ≡ true → s ⟶ documents_submitted
submit_edge profile_complete h = submit
submit_edge VerificationStatus.rejected h = submit_again
submit_edge unverified h = absurd (cc)
submit_edge documents_submitted h = absurd (cc)
submit_edge verified h = absurd (cc)

pub submit_documents-Writes :
    (user_id now : ℕ) (w : World) → Writes w (submit_documents user_id now w).0
unfolding submit_documents find_profile_by_user find_documents find_user_or_throw
submit_documents-Writes user_id now w =
    after_or_throw (Writes w) _ handyman_profile_not_found _ w (untouched w) (λ p e.
      after_guard (Writes w) (may_submit p.verification_status)
        (invalid_transition (verification p.verification_status) (verification documents_submitted))
        _ w (untouched w)
        (λ may.
          after_guard (Writes w) _
            (invalid_transition no_documents (verification documents_submitted)) _ w (untouched w)
            (λ some_document.
              Writes-Same w _ _
                (status-Writes (λ q. q.user_id == user_id) p p.id documents_submitted none none now
                  w e refl (submit_edge p.verification_status may)
                  (has_documents_of_some p.id w.documents some_document))
                (ground arith, ground arith))))

link_categories-Same :
    (profile_id : ℕ) (categories : List ℕ) (w : World)
    → Same w (link_categories profile_id categories w).0
unfolding link_categories
link_categories-Same profile_id [] w = (refl, refl)
link_categories-Same profile_id (c ∷ cs) w =
    let rest = link_categories-Same profile_id cs (record w {
      categories = record { handyman_profile_id = profile_id; category_id = c } ∷ w.categories;
    }) in
    (ground (arith, rest.0), ground (arith, rest.1))

unlink_categories-Same : (profile_id : ℕ) (w : World) → Same w (unlink_categories profile_id w).0
unfolding unlink_categories
unlink_categories-Same profile_id w = (refl, refl)

replace_categories-Same :
    (profile_id : ℕ) (categories : List ℕ) (w : World)
    → Same w (replace_categories profile_id categories w).0
unfolding replace_categories
replace_categories-Same profile_id [] w = (refl, refl)
replace_categories-Same profile_id (c ∷ cs) w =
    link_categories-Same profile_id (c ∷ cs) (unlink_categories profile_id w).0

create_profile-Writes :
    (p : HandymanProfile) (w : World)
    → p.verification_status ≡ unverified ⊎ p.verification_status ≡ profile_complete
    → Writes w (create_profile p w).0
unfolding create_profile
create_profile-Writes p w s = elim (Bool-cases (any_where (λ q. q.id == p.id) w.profiles)) [
  | inl t ↦ keep (ground arith) (ground arith)
  | inr t ↦ elim (Bool-cases (any_where (λ q. q.user_id == p.user_id) w.profiles)) [
    | inl u ↦ keep (ground arith) (ground arith)
    | inr u ↦ add p t s (ground arith) (ground arith)
  ]
]

module _ (test : HandymanProfile → Bool) (p : HandymanProfile) (w : World)
    (found : find_where test w.profiles ≡ some p) where
  rewrite_profile-Writes :
      (dto : CompleteProfileDto)
      → p.verification_status ≡ unverified
      → Writes w (rewrite_profile p.id dto w).0
  unfolding rewrite_profile update_profiles unlink_categories find_profile_or_throw
  rewrite_profile-Writes dto s =
      let linked =
        link_categories-Same p.id dto.category_ids
          (unlink_categories p.id
            (update_profiles (λ q. q.id == p.id) (completed_profile dto.details) w).0).0 in
      change test p found p.id refl (completed_profile dto.details) (λ q. refl)
        (subst (λ x. x ⟶ profile_complete) (sym s) complete) (λ _. refl) (ground (arith, linked.0))
        (ground (arith, linked.1))

  edit_profile-Writes :
      (details : Option ProfileDetails → Option ProfileDetails) (category_ids : List ℕ)
      → Writes w (edit_profile p.id details category_ids w).0
  unfolding edit_profile update_profiles find_profile_or_throw
  edit_profile-Writes details category_ids =
      let replaced =
        replace_categories-Same p.id category_ids
          (update_profiles (λ q. q.id == p.id) (change_details details) w).0 in
      change test p found p.id refl (change_details details) (λ q. refl)
        (stay p.verification_status) (λ h. h) (ground (arith, replaced.0))
        (ground (arith, replaced.1))

insert_profile-Writes :
    (id user_id : ℕ) (dto : CompleteProfileDto) (w : World)
    → Writes w (insert_profile id user_id dto w).0
unfolding insert_profile
insert_profile-Writes id user_id dto w =
    and_then (Writes w) (create_profile _)
      (λ profile. link_categories profile.id dto.category_ids >> pure profile) w
      (create_profile-Writes (completed_profile dto.details (default_profile id user_id)) w
        (inr refl))
      (λ p v h.
        let linked = link_categories-Same p.id dto.category_ids v in
        Writes-Same w v _ h (ground (arith, linked.0), ground (arith, linked.1)))

pub complete_profile-Writes :
    (id user_id : ℕ) (dto : CompleteProfileDto) (w : World)
    → Writes w (complete_profile id user_id dto w).0
unfolding complete_profile find_profile_by_user find_user_or_throw write_profile
complete_profile-Writes id user_id dto w =
    go (find_where (λ q. q.user_id == user_id) w.profiles) refl
  where
    by_user : HandymanProfile → Bool
    by_user q = q.user_id == user_id

    write_and_emit : Option HandymanProfile → User → M HandymanProfile
    write_and_emit existing user = write_profile id user_id existing dto >>= λ profile.
        emit (handyman_profile_completed user_id profile.id user.email) >> pure profile

    after :
        (existing : Option HandymanProfile) (user : User)
        → Writes w (write_profile id user_id existing dto w).0
        → Writes w (write_and_emit existing user w).0
    after existing user h =
        and_then (Writes w) (write_profile id user_id existing dto) _ w h
          (λ p v k. Writes-Same w v _ k (refl, refl))

    go :
        (existing : Option HandymanProfile)
        → find_where (λ q. q.user_id == user_id) w.profiles ≡ existing
        → Writes w
            ((may_complete existing >> (find_user_or_throw user_id >>= write_and_emit existing))
              w).0
    go none e =
        after_or_throw (Writes w) _ record_not_found (write_and_emit none) w (untouched w)
          (λ user f. after none user (
            in_transaction (Writes w) (insert_profile id user_id dto) w (untouched w)
              (insert_profile-Writes id user_id dto w)))
    go (some p) e =
        after_guard (Writes w) (is_unverified p.verification_status) _ _ w (untouched w) (λ s.
          after_or_throw (Writes w) _ record_not_found (write_and_emit (some p)) w (untouched w)
            (λ user f. after (some p) user (
              in_transaction (Writes w) (rewrite_profile p.id dto) w (untouched w)
                (rewrite_profile-Writes by_user p w e dto (ground arith)))))

pub update_profile-Writes :
    (user_id : ℕ) (details : Option ProfileDetails → Option ProfileDetails) (category_ids : List ℕ)
    (w : World)
    → Writes w (update_profile user_id details category_ids w).0
unfolding update_profile find_profile_by_user
update_profile-Writes user_id details category_ids w =
    after_or_throw (Writes w) _ handyman_profile_not_found
      (λ profile. transaction (edit_profile profile.id details category_ids)) w (untouched w)
      (λ p e.
        in_transaction (Writes w) (edit_profile p.id details category_ids) w (untouched w)
          (edit_profile-Writes (λ q. q.user_id == user_id) p w e details category_ids))

get_or_create-Writes : (id user_id : ℕ) (w : World) → Writes w (get_or_create id user_id w).0
unfolding get_or_create find_profile_by_user or_on_unique
get_or_create-Writes id user_id w = go (find_where (λ q. q.user_id == user_id) w.profiles)
  where
    again : M HandymanProfile
    again v = or_throw (find_where (λ q. q.user_id == user_id) v.profiles) record_not_found v

    on_unique :
        (r : World × Result HandymanProfile) → Writes w r.0 → Writes w (or_on_unique r again).0
    on_unique (v, ok p) h = h
    on_unique (v, err e) h = Writes-Same w v _ h (ground arith, ground arith)

    go :
        (existing : Option HandymanProfile)
        → Writes w
            (elim existing as (λ _. World × Result HandymanProfile) [
              | some p ↦ (w, ok p)
              | none ↦ or_on_unique (create_profile (default_profile id user_id) w) again
            ]).0
    go (some p) = untouched w
    go none =
        on_unique (create_profile (default_profile id user_id) w)
          (create_profile-Writes (default_profile id user_id) w (inl refl))

pub get_dashboard-Writes : (id user_id : ℕ) (w : World) → Writes w (get_dashboard id user_id w).0
unfolding get_dashboard count_status
get_dashboard-Writes id user_id w =
    and_then (Writes w) (get_or_create id user_id) _ w (get_or_create-Writes id user_id w)
      (λ p v h. h)
