-- ===== src/Auth/Linked.antt =====
-- The account behind a Google account: handleGoogleLogin of
-- src/modules/auth/services/oauth.service.ts.
use mathlib.Core.Option.{some-injective}
use text.Mathlib.Text.{◌==◌ as str_eq}
use fetchit_be.Base.{
  ℕ, String, Bool, true, false, Option, none, some, List, [], ◌∷◌, ◌&&◌, ◌==◌, is_none, ◌≡◌, arith,
  ap, find_where, update_where, AllPairs, find_where-All, find_where_sound, Option-cases,
  Bool-cases, inl, inr,
}
use fetchit_be.Schema.{User}
use fetchit_be.World.{World, ok}
use fetchit_be.Texts.{Text}
use fetchit_be.Auth.Sessions.{is_live, find_user, find_by_email}
use fetchit_be.Users.Repository.{has_google, find_by_google_id, create_user, update_user_row}
use fetchit_be.Users.Service.{create_oauth_user, new_oauth_user}
use fetchit_be.Auth.OAuth.{GoogleUser, linked, link_google_account, link_or_create, resolve}

-- The primary key.
abbrev pub IsKeyed : List User → Type 0
IsKeyed users = AllPairs (λ u v. (u.id == v.id) ≡ false) users

abbrev pub logged_in : ℕ → ℕ → List User → List User
logged_in id now users =
    update_where (λ (x : User). x.id == id) (λ (x : User). record x { last_login_at = some now })
      users

-- Of a live row that some query has found, its key finds it too; and after the link, the Google
-- account does.
pub linked_found :
    (google : GoogleUser) (test : User → Bool) (users : List User) (e : User)
    → IsKeyed users
    → find_where test users ≡ some e
    → find_where (has_google google.google_id) users ≡ none
    → is_none e.deleted_at ≡ true
    → (find_where (λ u. u.id == e.id) users ≡ some e)
      × (find_where
            (has_google google.google_id)
            (update_where (λ v. v.id == e.id) (linked google) users)
          ≡ some (linked google e))
unfolding find_where update_where
linked_found google test [] e k found new live = absurd (cc)
linked_found google test (x ∷ xs) e (p, k) found new live = elim (Bool-cases (test x)) [
  | inl t ↦
      let same : x ≡ e = some-injective x e (rw t at found) in
      (
        ground (arith, ap (λ z. z.id) same),
        ground (arith, ap (λ z. z.id) same, ap (λ z. z.deleted_at) same, ap (linked google) same),
      )
  | inr t ↦
      let found' : find_where test xs ≡ some e = rw t at found in
      let apart : (x.id == e.id) ≡ false = find_where-All _ test xs e p found' in
      let other : has_google google.google_id x ≡ false = ground arith in
      let (a, b) = linked_found google test xs e k found' (ground arith) live in
      (rw apart a, rw (apart, other) b)
]

created_found :
    (id : ℕ) (email username : String) (google_id : ℕ) (avatar : Option Text) (users : List User)
    → let u = new_oauth_user id email username google_id avatar in
      (find_where (is_live id) (u ∷ users) ≡ some u)
      × (find_where (has_google google_id) (u ∷ users) ≡ some u)
unfolding find_where
created_found id email username google_id avatar users = (ground arith, ground arith)

pub resolve_found :
    (id : ℕ) (username : String) (google : GoogleUser) (w : World) (u : User) (b : Bool)
    → IsKeyed w.users
    → (resolve id username google w).1 ≡ ok (some u, b)
    → find_where (has_google google.google_id) (resolve id username google w).0.users ≡ some u
unfolding resolve find_by_google_id find_by_email link_or_create link_google_account update_user_row
    create_oauth_user create_user find_user
resolve_found id username google w u b k h =
    elim (Option-cases (find_where (has_google google.google_id) w.users)) [
      | inr (v, known) ↦ ground arith
      | inl new ↦
          let by_email : User → Bool = λ x. str_eq x.email google.email && is_none x.deleted_at in
          elim (Option-cases (find_where by_email w.users)) [
            | inr (e, found) ↦
                let (keyed, there) =
                  linked_found google by_email w.users e k found new
                    (let s = find_where_sound by_email w.users e found in ground arith) in
                ground arith
            | inl fresh ↦
                let (a, there) =
                  created_found id google.email username google.google_id (some google.picture)
                    w.users in
                ground arith
          ]
    ]
