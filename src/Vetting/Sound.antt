-- ===== src/Vetting/Sound.antt =====
-- The invariant of the profiles under review, and the life of a profile, over any sequence of calls
-- of src/modules/handyman/handyman.service.ts and src/modules/admin/admin-verification.service.ts.
use mathlib.Core.Option
use mathlib.Core.Path.{subst₂}
use fetchit_be.Base.{
  ℕ, String, Bool, true, false, not, Option, some, List, [], ◌∷◌, ◌==◌, ◌&&◌, ◌≡◌, ◌⊎◌, refl, arith,
  find_where, any_where, update_where, filter_where, sym, subst, inl, inr, if◌then◌else◌, ap, ◌∙◌,
  find_where_sound, All, AllPairs, All-map, All-zip, find_where-All, ==_of_eq, All-update_where,
  AllPairs-update_where, found_everywhere, any_where-false, any_where-update_where,
  find_where-update_where, edit,
}
use fetchit_be.Schema.{
  HandymanProfile, HandymanDocument, ProfileDetails, DocumentStatus, unverified, profile_complete,
  is_documents_submitted,
}
use fetchit_be.World.{World}
use fetchit_be.Vetting.Profile.{
  get_dashboard, complete_profile, update_profile, delete_document, submit_documents,
  CompleteProfileDto,
}
use fetchit_be.Vetting.Review.{approve_handyman, reject_handyman, review_document}
use fetchit_be.Vetting.Writes.{
  ◌⟶◌, stay, has_documents, is_vetted, Writes, keep, add, change, remove, review,
}
use fetchit_be.Vetting.Methods.{
  get_dashboard-Writes, complete_profile-Writes, update_profile-Writes, delete_document-Writes,
  submit_documents-Writes, approve_handyman-Writes, reject_handyman-Writes, review_document-Writes,
}

-- A call of one of the methods; `id` is the key that the database gives to a new profile.
pub data VettingCall : Type 0 where
  dashboard : (id user_id : ℕ) → VettingCall
  completing : (id user_id : ℕ) → CompleteProfileDto → VettingCall
  updating : ℕ → (Option ProfileDetails → Option ProfileDetails) → List ℕ → VettingCall
  deleting : (user_id document_id : ℕ) → VettingCall
  submitting : (user_id now : ℕ) → VettingCall
  approving : (profile_id admin now : ℕ) → VettingCall
  rejecting : (profile_id admin : ℕ) → String → ℕ → VettingCall
  reviewing : (profile_id doc_id admin : ℕ) → DocumentStatus → String → ℕ → VettingCall

-- The state after a call, whether it succeeds or throws.
abbrev pub run_call : VettingCall → World → World
run_call (dashboard id user_id) w = (get_dashboard id user_id w).0
run_call (completing id user_id dto) w = (complete_profile id user_id dto w).0
run_call (updating user_id details categories) w = (update_profile user_id details categories w).0
run_call (deleting user_id document_id) w = (delete_document user_id document_id w).0
run_call (submitting user_id now) w = (submit_documents user_id now w).0
run_call (approving profile_id admin now) w = (approve_handyman profile_id admin now w).0
run_call (rejecting profile_id admin reason now) w =
    (reject_handyman profile_id admin reason now w).0
run_call (reviewing profile_id doc_id admin status reason now) w =
    (review_document profile_id doc_id admin status reason now w).0

abbrev pub run_calls : List VettingCall → World → World
run_calls [] w = w
run_calls (call ∷ calls) w = run_calls calls (run_call call w)

run_call-Writes : (call : VettingCall) (w : World) → Writes w (run_call call w)
run_call-Writes (dashboard id user_id) w = get_dashboard-Writes id user_id w
run_call-Writes (completing id user_id dto) w = complete_profile-Writes id user_id dto w
run_call-Writes (updating user_id details categories) w =
    update_profile-Writes user_id details categories w
run_call-Writes (deleting user_id document_id) w = delete_document-Writes user_id document_id w
run_call-Writes (submitting user_id now) w = submit_documents-Writes user_id now w
run_call-Writes (approving profile_id admin now) w = approve_handyman-Writes profile_id admin now w
run_call-Writes (rejecting profile_id admin reason now) w =
    reject_handyman-Writes profile_id admin reason now w
run_call-Writes (reviewing profile_id doc_id admin status reason now) w =
    review_document-Writes profile_id doc_id admin status reason now w

abbrev pub Distinct : HandymanProfile → HandymanProfile → Type 0
Distinct p q = (p.id == q.id) ≡ false

-- Profiles have distinct keys, and each is vetted.
abbrev pub IsVettedIn : List HandymanProfile → List HandymanDocument → Type 0
IsVettedIn profiles documents =
    AllPairs Distinct profiles × All (λ p. is_vetted documents p ≡ true) profiles

abbrev pub IsVetted : World → Type 0
IsVetted w = IsVettedIn w.profiles w.documents

has_documents-remove :
    (key owner profile_id : ℕ) (documents : List HandymanDocument)
    → (owner == profile_id) ≡ false
    → has_documents
        (filter_where (λ d. not (d.id == key && d.handyman_profile_id == owner)) documents)
        profile_id
      ≡ has_documents documents profile_id
unfolding filter_where any_where
has_documents-remove key owner profile_id [] n = refl
has_documents-remove key owner profile_id (d ∷ documents) n =
    ground (arith, has_documents-remove key owner profile_id documents n)

-- A profile that is not under review keeps its standing when documents go.
vetted_without :
    (documents others : List HandymanDocument) (p : HandymanProfile)
    → is_documents_submitted p.verification_status ≡ false
    → is_vetted documents p ≡ true
    → is_vetted others p ≡ true
vetted_without documents others p s h = ground arith

-- So does one whose documents stay.
vetted_with :
    (documents others : List HandymanDocument) (p : HandymanProfile)
    → has_documents others p.id ≡ has_documents documents p.id
    → is_vetted documents p ≡ true
    → is_vetted others p ≡ true
vetted_with documents others p s h = ground arith

add-IsVetted :
    (q : HandymanProfile) (profiles : List HandymanProfile) (documents : List HandymanDocument)
    → any_where (λ p. p.id == q.id) profiles ≡ false
    → q.verification_status ≡ unverified ⊎ q.verification_status ≡ profile_complete
    → IsVettedIn profiles documents
    → IsVettedIn (q ∷ profiles) documents
add-IsVetted q profiles documents fresh s (distinct, vetted) = (
  (
    All-map (λ (p : HandymanProfile). (p.id == q.id) ≡ false) (Distinct q) profiles
        (λ p n. ground arith) (any_where-false (λ p. p.id == q.id) profiles fresh),
    distinct,
  ),
  (starts s, vetted),
)
  where
    starts :
        q.verification_status ≡ unverified ⊎ q.verification_status ≡ profile_complete
        → is_vetted documents q ≡ true
    starts (inl e) = ground arith
    starts (inr e) = ground arith

module _ (test : HandymanProfile → Bool) (p : HandymanProfile) (profiles : List HandymanProfile)
    (documents : List HandymanDocument) (found : find_where test profiles ≡ some p)
    (sound : IsVettedIn profiles documents) where
  -- A profile is the one that was found, or has another key.
  only_found : All (λ q. (q ≡ p) ⊎ ((p.id == q.id) ≡ false)) profiles
  only_found =
      found_everywhere Distinct (λ q. (q ≡ p) ⊎ ((p.id == q.id) ≡ false)) test profiles p sound.0
        found (inl refl) (λ q n. inr n) (λ q n. inr (ground arith))

  vetted_and_found :
      All (λ q. (is_vetted documents q ≡ true) × ((q ≡ p) ⊎ ((p.id == q.id) ≡ false))) profiles
  vetted_and_found = All-zip (λ q. is_vetted documents q ≡ true) _ profiles sound.1 only_found

  change-IsVetted :
      (key : ℕ) (f : HandymanProfile → HandymanProfile)
      → p.id ≡ key
      → ((q : HandymanProfile) → (f q).id ≡ q.id)
      → is_vetted documents (f p) ≡ true
      → IsVettedIn (update_where (λ q. q.id == key) f profiles) documents
  change-IsVetted key f same keeps good = (
    AllPairs-update_where Distinct (λ q. q.id == key) f profiles
        (λ x y n. ground (arith, keeps x, keeps y)) sound.0,
    All-update_where (λ q. (is_vetted documents q ≡ true) × ((q ≡ p) ⊎ ((p.id == q.id) ≡ false)))
        (λ q. is_vetted documents q ≡ true) (λ q. q.id == key) f profiles (λ q (v, o). one q v o)
        vetted_and_found,
  )
    where
      one :
          (q : HandymanProfile)
          → is_vetted documents q ≡ true
          → (q ≡ p) ⊎ ((p.id == q.id) ≡ false)
          → is_vetted documents (if q.id == key then f q else q) ≡ true
      one q v (inl e) =
          subst (λ x. is_vetted documents (if x.id == key then f x else x) ≡ true) (sym e)
            (subst (λ b. is_vetted documents (if b then f p else p) ≡ true)
              (sym (==_of_eq p.id key same)) good)
      one q v (inr n) =
          let other : (q.id == key) ≡ false = ground arith in
          subst (λ b. is_vetted documents (if b then f q else q) ≡ true) (sym other) v

  remove-IsVetted :
      (key : ℕ)
      → is_documents_submitted p.verification_status ≡ false
      → IsVettedIn profiles
          (filter_where (λ d. not (d.id == key && d.handyman_profile_id == p.id)) documents)
  remove-IsVetted key s = (
    sound.0,
    All-map (λ q. (is_vetted documents q ≡ true) × ((q ≡ p) ⊎ ((p.id == q.id) ≡ false)))
        (λ q. is_vetted _ q ≡ true) profiles (λ q (v, o). one q v o) vetted_and_found,
  )
    where
      one :
          (q : HandymanProfile)
          → is_vetted documents q ≡ true
          → (q ≡ p) ⊎ ((p.id == q.id) ≡ false)
          → is_vetted
              (filter_where (λ d. not (d.id == key && d.handyman_profile_id == p.id)) documents)
              q
            ≡ true
      one q v (inl e) =
          vetted_without documents _ q
            (subst (λ x. is_documents_submitted x.verification_status ≡ false) (sym e) s) v
      one q v (inr n) = vetted_with documents _ q (has_documents-remove key p.id q.id documents n) v

Writes-IsVetted : (w v : World) → Writes w v → IsVetted w → IsVetted v
Writes-IsVetted w v (keep a b) h = subst₂ IsVettedIn (sym a) (sym b) h
Writes-IsVetted w v (add q fresh s a b) h =
    subst₂ IsVettedIn (sym a) (sym b) (add-IsVetted q w.profiles w.documents fresh s h)
Writes-IsVetted w v (change test p found key same f keeps edge good a b) h =
    subst₂ IsVettedIn (sym a) (sym b) (
      change-IsVetted test p w.profiles w.documents found h key f same keeps
        (good (find_where-All (λ q. is_vetted w.documents q ≡ true) test w.profiles p h.1 found)))
Writes-IsVetted w v (remove test p found s key a b) h =
    subst₂ IsVettedIn (sym a) (sym b) (remove-IsVetted test p w.profiles w.documents found h key s)
Writes-IsVetted w v (review key f keeps a b) h = subst₂ IsVettedIn (sym a) (sym b) (
  h.0,
  All-map (λ q. is_vetted w.documents q ≡ true) (λ q. is_vetted _ q ≡ true) w.profiles
      (λ q. vetted_with w.documents _ q (
        any_where-update_where (λ d. d.handyman_profile_id == q.id) (λ d. d.id == key) f w.documents
          (λ d. ap (λ (k : ℕ). k == q.id) (keeps d))))
      h.1,
)

-- From a state in which profiles have distinct keys, a profile under review has a document, a
-- verified profile says by whom and when, and a rejected one by whom and why, every sequence of calls of
-- handymen and administrators (dashboards, completions, updates, deletions and submissions of documents,
-- approvals, rejections, reviews of documents), each run to its end, with or without an error,
-- leads to such a state.
pub run_calls-IsVetted :
    (calls : List VettingCall) (w : World) → IsVetted w → IsVetted (run_calls calls w)
run_calls-IsVetted [] w h = h
run_calls-IsVetted (call ∷ calls) w h =
    run_calls-IsVetted calls (run_call call w)
      (Writes-IsVetted w (run_call call w) (run_call-Writes call w) h)

abbrev pub profile_has : ℕ → HandymanProfile → Bool
profile_has id p = p.id == id

-- One call takes the verification status of a profile along an edge of the intended diagram
-- (unverified, then complete, submitted, and verified or rejected; a rejected profile is submitted
-- again), or leaves it; and the profile stays.
run_call-moves :
    (call : VettingCall) (w : World) (id : ℕ) (p : HandymanProfile)
    → IsVetted w
    → find_where (profile_has id) w.profiles ≡ some p
    → (q : HandymanProfile) × (find_where (profile_has id) (run_call call w).profiles ≡ some q)
      × (p.verification_status ⟶ q.verification_status)
unfolding find_where
run_call-moves call w id p h e = go (run_call call w) (run_call-Writes call w)
  where
    found_behind :
        (q : HandymanProfile)
        → any_where (λ r. r.id == q.id) w.profiles ≡ false
        → find_where (profile_has id) (q ∷ w.profiles) ≡ some p
    found_behind q fresh =
        let other =
          find_where-All (λ (r : HandymanProfile). (r.id == q.id) ≡ false) (profile_has id)
            w.profiles p (any_where-false (λ r. r.id == q.id) w.profiles fresh) e in
        let keyed = find_where_sound (profile_has id) w.profiles p e in
        let apart : (q.id == id) ≡ false = ground arith in rw (apart, e)

    moved :
        (q : HandymanProfile) (key : ℕ) (f : HandymanProfile → HandymanProfile)
        → q.id ≡ key
        → q.verification_status ⟶ (f q).verification_status
        → (p ≡ q) ⊎ ((q.id == p.id) ≡ false)
        → p.verification_status ⟶ (edit (λ r. r.id == key) f p).verification_status
    moved q key f same edge (inl o) =
        subst (λ r. r.verification_status ⟶ (edit (λ r'. r'.id == key) f r).verification_status)
          (sym o)
          (subst (λ b. q.verification_status ⟶ (if b then f q else q).verification_status)
            (sym (==_of_eq q.id key same)) edge)
    moved q key f same edge (inr n) =
        let other : (p.id == key) ≡ false = ground arith in
        subst (λ b. p.verification_status ⟶ (if b then f p else p).verification_status) (sym other)
          (stay p.verification_status)

    go :
        (v : World)
        → Writes w v
        → (q : HandymanProfile) × (find_where (profile_has id) v.profiles ≡ some q)
          × (p.verification_status ⟶ q.verification_status)
    go v (keep a b) = (p, ap (find_where (profile_has id)) a ∙ e, stay p.verification_status)
    go v (add q fresh s a b) =
        (p, ap (find_where (profile_has id)) a ∙ found_behind q fresh, stay p.verification_status)
    go v (change test q found key same f keeps edge good a b) = (
      edit (λ r. r.id == key) f p,
      ap (find_where (profile_has id)) a
          ∙ find_where-update_where (profile_has id) (λ r. r.id == key) f w.profiles
              (λ r. ap (λ (k : ℕ). k == id) (keeps r))
          ∙ ap (Option.map (edit (λ r. r.id == key) f)) e,
      moved q key f same edge (
          find_where-All (λ r. (r ≡ q) ⊎ ((q.id == r.id) ≡ false)) (profile_has id) w.profiles p
            (only_found test q w.profiles w.documents found h) e),
    )
    go v (remove test q found s key a b) =
        (p, ap (find_where (profile_has id)) a ∙ e, stay p.verification_status)
    go v (review key f keeps a b) =
        (p, ap (find_where (profile_has id)) a ∙ e, stay p.verification_status)
