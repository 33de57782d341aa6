-- ===== src/Auth/Rotation.antt =====
-- What sessions promise: logout and refreshTokens of src/modules/auth/auth.service.ts.
use fetchit_be.Base.{
  refl, List, [], ◌∷◌, ℕ, Bool, true, false, none, some, ◌==◌, ◌&&◌, is_none, ◌≡◌, ◌≢◌, ◌⊎◌, inl,
  inr, arith, sym, subst, find_where, update_where, count_where, All, AllPairs, All-update_where,
  All-trivial, find_where-All, find_where_sound, found_everywhere, count_where-update_where, ap,
  ◌∙◌, Option-cases,
}
use fetchit_be.Schema.{User, RefreshSession, active}
use fetchit_be.World.{World, ok, >>=-eq-ok}
use fetchit_be.Auth.Sessions.{
  Minted, is_live, is_active_session, logout, revoke_all, revoke_by_hash, refresh_check,
  refresh_commit, refresh_tokens, rotate, find_user, find_active,
}

module _ (hash_token : ℕ → ℕ) (user_id token : ℕ) (now : ℕ) (w : World) where
  refresh_check_passed :
      (s : RefreshSession)
      → (refresh_check hash_token user_id token now w).1 ≡ ok s
      → (u : User) × (find_where (is_live user_id) w.users ≡ some u)
        × (u.status ≡ active)
        × (find_where (is_active_session (hash_token token) now) w.sessions ≡ some s)
        × ((s.user_id == u.id) ≡ true)
  unfolding refresh_check find_user find_active
  refresh_check_passed s h = elim (Option-cases (find_where (is_live user_id) w.users)) [
    | inl e ↦ absurd (ground arith)
    | inr (u, e) ↦ (u, e, ground arith, ground arith, ground arith)
  ]

  refresh_check_reads : (refresh_check hash_token user_id token now w).0 ≡ w
  unfolding refresh_check find_user find_active
  refresh_check_reads = ground arith

  -- A session that may be refreshed belongs to the caller.
  refresh_check_owner :
      (s : RefreshSession)
      → (refresh_check hash_token user_id token now w).1 ≡ ok s
      → (s.user_id == user_id) ≡ true
  refresh_check_owner s h =
      let (u, found, live, session, owner) = refresh_check_passed s h in
      let keyed = find_where_sound (is_live user_id) w.users u found in ground arith

-- After a logout without a token, from whatever state, no token refreshes a session of that user,
-- whichever and whenever.
pub logout-refresh_tokens :
    (hash_token : ℕ → ℕ) (user_id token : ℕ) (minted : Minted) (now later : ℕ) (w : World) (t : ℕ)
    → (refresh_tokens hash_token user_id token minted later
        (logout hash_token user_id none now w).0).1
      ≢ ok t
unfolding refresh_tokens logout revoke_all
logout-refresh_tokens hash_token user_id token minted now later w t h =
    let v = (logout hash_token user_id none now w).0 in
    let (s, passed, rest) =
      >>=-eq-ok (refresh_check hash_token user_id token later)
        (λ session. refresh_commit hash_token token session minted) v h in
    let owner = refresh_check_owner hash_token user_id token later v s passed in
    let (u, found, live, session, owned) =
      refresh_check_passed hash_token user_id token later v s passed in
    let active_session =
      find_where_sound (is_active_session (hash_token token) later) v.sessions s session in
    let gone =
      find_where-All
        (λ (r : RefreshSession). (r.user_id == user_id && is_none r.revoked_at) ≡ false)
        (is_active_session (hash_token token) later) v.sessions s
        (All-update_where (λ r. Unit {0})
          (λ (r : RefreshSession). (r.user_id == user_id && is_none r.revoked_at) ≡ false) _ _
          w.sessions (λ r h. ground arith) (All-trivial w.sessions))
        session in
    ground arith

module _ (hash_token : ℕ → ℕ) (token : ℕ) (session : RefreshSession) (minted : Minted)
    (w : World) where
  abbrev holds_old : RefreshSession → Bool
  holds_old s = s.id == session.id && s.token_hash == hash_token token && is_none s.revoked_at

  abbrev rotated_row : ℕ → RefreshSession → RefreshSession
  rotated_row exp s = record s { token_hash = hash_token minted.token; expires_at = exp }

  refresh_commit_world :
      (t : ℕ)
      → (refresh_commit hash_token token session minted w).1 ≡ ok t
      → (exp : ℕ) × ((refresh_commit hash_token token session minted w).0.sessions
          ≡ update_where holds_old (rotated_row exp) w.sessions)
  unfolding refresh_commit rotate
  refresh_commit_world t h = elim (Option-cases minted.exp) [
    | inl e ↦ absurd (ground arith)
    | inr (exp, e) ↦ (exp, ground arith)
  ]

  none_holds_refused :
      (t : ℕ)
      → count_where holds_old w.sessions ≡ 0
      → (refresh_commit hash_token token session minted w).1 ≢ ok t
  unfolding refresh_commit rotate
  none_holds_refused t e h = ground arith

-- Two refreshes of one token that have both read its session: when the first has succeeded, the second
-- does not, whatever it was to get.
refresh_once :
    (hash_token : ℕ → ℕ) (token : ℕ) (session : RefreshSession) (first second : Minted) (w : World)
    (t t' : ℕ)
    → hash_token first.token ≢ hash_token token
    → (refresh_commit hash_token token session first w).1 ≡ ok t
    → (refresh_commit hash_token token session second
        (refresh_commit hash_token token session first w).0).1
      ≢ ok t'
refresh_once hash_token token session first second w t t' fresh done =
    let v = (refresh_commit hash_token token session first w).0 in
    let (exp, sessions) = refresh_commit_world hash_token token session first w t done in
    none_holds_refused hash_token token session second v t' (
      ap (count_where (holds_old hash_token token session second v)) sessions
      ∙ count_where-update_where _ _ w.sessions (λ s. ground arith))

abbrev DistinctHash : RefreshSession → RefreshSession → Type 0
DistinctHash s t = (s.token_hash == t.token_hash) ≡ false

-- The exchange leaves no session with the old token's hash.
exchanged :
    (hash_token : ℕ → ℕ) (token : ℕ) (now : ℕ) (session : RefreshSession) (first : Minted)
    (w : World) (t : ℕ)
    → AllPairs DistinctHash w.sessions
    → hash_token first.token ≢ hash_token token
    → find_where (is_active_session (hash_token token) now) w.sessions ≡ some session
    → (refresh_commit hash_token token session first w).1 ≡ ok t
    → All
        (λ r. (r.token_hash == hash_token token) ≡ false)
        (refresh_commit hash_token token session first w).0.sessions
exchanged hash_token token now session first w t distinct fresh found done =
    let (exp, sessions) = refresh_commit_world hash_token token session first w t done in
    let holds = holds_old hash_token token session first w in
    let active_session =
      find_where_sound (is_active_session (hash_token token) now) w.sessions session found in
    let only =
      found_everywhere DistinctHash
        (λ r. ((r.token_hash == hash_token token) ≡ false) ⊎ (holds r ≡ true))
        (is_active_session (hash_token token) now) w.sessions session distinct found
        (inr (ground arith)) (λ r n. inl (ground arith)) (λ r n. inl (ground arith)) in
    subst (All (λ r. (r.token_hash == hash_token token) ≡ false)) (sym sessions) (
      All-update_where (λ r. ((r.token_hash == hash_token token) ≡ false) ⊎ (holds r ≡ true)) _ _ _
        w.sessions (λ r o. elim o [ inl n ↦ ground arith | inr h ↦ ground arith ]) only)

-- A token that has been exchanged for another is dead: with the hashes of the stored sessions
-- distinct, and the new token's hash another than the old one's, no later refresh accepts the old token,
-- from whichever user.
pub refresh_tokens-rotates :
    (hash_token : ℕ → ℕ) (user_id token : ℕ) (first : Minted) (now : ℕ) (w : World) (t : ℕ)
    (other : ℕ) (second : Minted) (later t' : ℕ)
    → AllPairs DistinctHash w.sessions
    → hash_token first.token ≢ hash_token token
    → (refresh_tokens hash_token user_id token first now w).1 ≡ ok t
    → (refresh_tokens hash_token other token second later
        (refresh_tokens hash_token user_id token first now w).0).1
      ≢ ok t'
unfolding refresh_tokens
refresh_tokens-rotates hash_token user_id token first now w t other second later t' distinct fresh
      done again =
    let (session, passed, rest) =
      >>=-eq-ok (refresh_check hash_token user_id token now)
        (λ s. refresh_commit hash_token token s first) w done in
    let reads = refresh_check_reads hash_token user_id token now w in
    let same = rest ∙ ap (refresh_commit hash_token token session first) reads in
    let (u, owner, live, found, owned) =
      refresh_check_passed hash_token user_id token now w session passed in
    let gone =
      subst (λ r. All (λ s. (s.token_hash == hash_token token) ≡ false) r.0.sessions) (sym same)
        (exchanged hash_token token now session first w t distinct fresh found
          (ap (λ r. r.1) (sym same) ∙ done)) in
    let v = (refresh_tokens hash_token user_id token first now w).0 in
    let (session', passed', rest') =
      >>=-eq-ok (refresh_check hash_token other token later)
        (λ s. refresh_commit hash_token token s second) v again in
    let (u', owner', live', found', owned') =
      refresh_check_passed hash_token other token later v session' passed' in
    let dead = find_where-All _ _ v.sessions session' gone found' in
    let keyed =
      find_where_sound (is_active_session (hash_token token) later) v.sessions session' found' in
    ground arith

revoked_elsewhere :
    (hash other user_id now later : ℕ) (sessions : List RefreshSession)
    → other ≢ hash
    → find_where (is_active_session other later) (
        update_where
          (λ s. s.token_hash == hash && s.user_id == user_id && is_none s.revoked_at)
          (λ s. record s { revoked_at = some now })
          sessions)
      ≡ find_where (is_active_session other later) sessions
unfolding find_where update_where
revoked_elsewhere hash other user_id now later [] n = refl
revoked_elsewhere hash other user_id now later (s ∷ sessions) n =
    ground (arith, revoked_elsewhere hash other user_id now later sessions n)

-- A logout with one token leaves every other device as it was: a token with another hash passes the check
-- of refreshTokens after it exactly if it did before, with the same answer.
logout-refresh_check :
    (hash_token : ℕ → ℕ) (user_id token now : ℕ) (w : World) (owner other later : ℕ)
    → hash_token other ≢ hash_token token
    → (refresh_check hash_token owner other later
        (logout hash_token user_id (some token) now w).0).1
      ≡ (refresh_check hash_token owner other later w).1
unfolding refresh_check logout revoke_by_hash find_user find_active
logout-refresh_check hash_token user_id token now w owner other later n =
    let same =
      revoked_elsewhere (hash_token token) (hash_token other) user_id now later w.sessions n in
    ground arith
