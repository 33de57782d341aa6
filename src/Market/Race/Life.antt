-- ===== src/Market/Race/Life.antt =====
-- The life of a request: the statuses that the writes of overlapping calls take it through.
use mathlib.Core.Option
use fetchit_be.Base.{
  ℕ, ◌≡◌, refl, Bool, true, false, ◌||◌, ◌&&◌, ◌==◌, Option, some, none, List, ◌∷◌, find_where,
  find_where-update_where, find_where-any_where, update_where, arith, sym, ap, ◌∙◌, subst, eq_of_==,
  Bool-cases, inl, inr, any_where, edit, ◌⊎◌,
}
use fetchit_be.Schema.{
  ServiceRequestStatus, ServiceRequest, Application, opened, assigned, in_progress,
  awaiting_confirmation, completed, cancelled, is_opened, is_assigned, same_status,
}
use fetchit_be.World.{World, request_has}
use fetchit_be.Market.Handyman.{ApplyServiceRequestDto, apply_commit, apply_insert}
use fetchit_be.Market.Effects.{
  new_request, create_effect, update_effect, accept_effect, cancel_effect, reject_effect,
  confirm_effect, revive_effect, apply_effect, revive_insert_effect, insert_effect, withdraw_effect,
  start_effect, unassign_effect, complete_effect,
}
use fetchit_be.Market.Race.{
  InFlight, creating, updating, cancelling, accepting, rejecting, confirming, applying, inserting,
  withdrawing, starting, unassigning, completing, commit, System, Step, begin, write, recheck,
  elsewhere, any_time, Reach, here, next, IsInitial,
}
use fetchit_be.Market.Race.Known.{Known}
use fetchit_be.Market.Race.Reachable.{Takes-All, Reach-IsSound, IsSound, Step-IsSound}

-- The transitions of a request, each made by the method that its name tells.
infix 40 ◌⟶◌
pub data ◌⟶◌ : ServiceRequestStatus → ServiceRequestStatus → Type 0 where
  stay : (s : ServiceRequestStatus) → s ⟶ s
  accept : opened ⟶ assigned
  unassign : assigned ⟶ opened
  cancel_open : opened ⟶ cancelled
  cancel_assigned : assigned ⟶ cancelled
  start : assigned ⟶ in_progress
  complete : in_progress ⟶ awaiting_confirmation
  confirm : awaiting_confirmation ⟶ completed

ruleset edges = (stay, accept, unassign, cancel_open, cancel_assigned, start, complete, confirm)

-- The request with key `id` is still there, and its status moved along one edge.
abbrev pub Moves : ℕ → ServiceRequestStatus → List ServiceRequest → Type 0
Moves id from requests =
    (r : ServiceRequest) × (find_where (request_has id) requests ≡ some r) × (from ⟶ r.status)

module _ (id : ℕ) (r : ServiceRequest) (requests : List ServiceRequest)
    (found : find_where (request_has id) requests ≡ some r) where
  unmoved : Moves id r.status requests
  unmoved = (r, found, stay r.status)

  edit-Moves :
      (test : ServiceRequest → Bool) (f : ServiceRequest → ServiceRequest)
      → ((q : ServiceRequest) → (f q).id ≡ q.id)
      → r.status ⟶ (edit test f r).status
      → Moves id r.status (update_where test f requests)
  edit-Moves test f keeps edge = (
    edit test f r,
    find_where-update_where (request_has id) test f requests
          (λ q. ap (λ (k : ℕ). k == id) (keeps q))
        ∙ ap (Option.map (edit test f)) found,
    edge,
  )

  insert-Moves :
      (new : ServiceRequest)
      → any_where (request_has new.id) requests ≡ false
      → Moves id r.status (new ∷ requests)
  unfolding find_where
  insert-Moves new fresh = elim (Bool-cases (new.id == id)) [
    | inl same ↦ cc (
      fresh,
      find_where-any_where (request_has id) requests r found,
      ap (λ (k : ℕ). any_where (request_has k) requests) (eq_of_== new.id id same),
    )
    | inr other ↦ (r, rw other found, stay r.status)
  ]

module _ (id : ℕ) (r : ServiceRequest) (w : World)
    (found : find_where (request_has id) w.requests ≡ some r) where
  abbrev MovesIn : List ServiceRequest → List Application → Type 0
  MovesIn requests applications = Moves id r.status requests

  same : Moves id r.status w.requests
  same = unmoved id r w.requests found

  edited :
      (test : ServiceRequest → Bool) (f : ServiceRequest → ServiceRequest)
      → ((q : ServiceRequest) → (f q).id ≡ q.id)
      → r.status ⟶ (edit test f r).status
      → Moves id r.status (update_where test f w.requests)
  edited = edit-Moves id r w.requests found

  apply-Moves :
      (k request_id profile_id : ℕ) (o : Option Application) (dto : ApplyServiceRequestDto)
      → Moves id r.status
          (apply_commit k request_id
            (record { profile_id = profile_id; existing = o })
            dto
            w).0.requests
  apply-Moves k request_id profile_id none dto =
      apply_effect MovesIn w k request_id profile_id dto same (λ _ _ _ _. same)
  apply-Moves k request_id profile_id (some old) dto =
      revive_effect MovesIn w k request_id profile_id old dto same (λ _. same)

  apply_insert-Moves :
      (k request_id profile_id : ℕ) (o : Option Application) (dto : ApplyServiceRequestDto)
      → Moves id r.status
          (apply_insert k request_id
            (record { profile_id = profile_id; existing = o })
            dto
            w).0.requests
  apply_insert-Moves k request_id profile_id none dto =
      insert_effect MovesIn w k request_id profile_id dto same (λ _ _ _. same)
  apply_insert-Moves k request_id profile_id (some old) dto =
      revive_insert_effect MovesIn w k request_id profile_id old dto same same

  commit-Moves : (c : InFlight) → Known w.applications c → Moves id r.status (commit c w).requests
  unfolding commit
  commit-Moves (creating k user_id dto) _ =
      create_effect MovesIn w k user_id dto same
        (insert-Moves id r w.requests found (new_request k user_id dto))
  commit-Moves (updating k dto) _ =
      update_effect MovesIn w k dto (edited _ _ (λ q. refl) (grind (arith, edges)))
  commit-Moves (cancelling k seen user_id now) known =
      cancel_effect MovesIn w k seen user_id now same
        (edited _ _ (λ q. refl) (cancel_edge k now seen.status known))
    where
      cancel_edge :
          (j t : ℕ) (s : ServiceRequestStatus)
          → (is_opened s || is_assigned s) ≡ true
          → r.status
            ⟶ (edit
                (λ q. q.id == j && same_status q.status s)
                (λ q. record q { status = cancelled; cancelled_at = some t })
                r).status
      cancel_edge j t opened h = grind (arith, edges)
      cancel_edge j t assigned h = grind (arith, edges)
      cancel_edge j t _ h = absurd (cc)
  commit-Moves (accepting request_id app_id user_id app) _ =
      accept_effect MovesIn w request_id app_id user_id app same
        (λ _ _. edited _ _ (λ q. refl) (grind (arith, edges)))
  commit-Moves (rejecting app_id) _ = reject_effect MovesIn w app_id same
  commit-Moves (confirming k seen user_id now) _ =
      confirm_effect MovesIn w k seen user_id now (edited _ _ (λ q. refl) (grind (arith, edges)))
  commit-Moves (applying k request_id seen dto) _ =
      apply-Moves k request_id seen.profile_id seen.existing dto
  commit-Moves (inserting k request_id seen dto) _ =
      apply_insert-Moves k request_id seen.profile_id seen.existing dto
  commit-Moves (withdrawing app_id) _ = withdraw_effect MovesIn w app_id same
  commit-Moves (starting k seen) _ =
      start_effect MovesIn w k (edited _ _ (λ q. refl) (grind (arith, edges)))
  commit-Moves (unassigning k seen) _ =
      unassign_effect MovesIn w k seen same (edited _ _ (λ q. refl) (grind (arith, edges)))
  commit-Moves (completing k seen) _ =
      complete_effect MovesIn w k seen (edited _ _ (λ q. refl) (grind (arith, edges)))

module _ (id : ℕ) where
  IsSound-Step-Moves :
      {t u : System}
      → Step any_time t u
      → IsSound any_time t
      → (r : ServiceRequest) → find_where (request_has id) t.world.requests ≡ some r
      → Moves id r.status u.world.requests
  IsSound-Step-Moves (begin w cs c b) h r found = unmoved id r w.requests found
  IsSound-Step-Moves (write w cs ds c t timely) h r found =
      commit-Moves id r w found c (Takes-All (Known w.applications) t h.1).0
  IsSound-Step-Moves (recheck w cs ds k request_id seen dto t still) h r found =
      unmoved id r w.requests found
  IsSound-Step-Moves (elsewhere w v cs same_requests same_applications) h r found =
      subst (Moves id r.status) (sym same_requests) (unmoved id r w.requests found)

  -- COMPLETED and CANCELLED are final.
  abbrev pub IsFinal : ServiceRequestStatus → Type 0
  IsFinal s = (s ≡ completed) ⊎ (s ≡ cancelled)

  final_edge : (s s' : ServiceRequestStatus) → s ⟶ s' → IsFinal s → s ≡ s'
  final_edge s s' (stay _) h = refl
  final_edge s s' e h = ground arith

  IsSound-stays :
      {t u : System}
      → Reach any_time t u
      → IsSound any_time t
      → (r : ServiceRequest) → find_where (request_has id) t.world.requests ≡ some r
      → IsFinal r.status
      → IsSound any_time u
        × ((r' : ServiceRequest) × (find_where (request_has id) u.world.requests ≡ some r')
            × (r.status ≡ r'.status))
  IsSound-stays here h r found final = (h, (r, found, refl))
  IsSound-stays (next reach st) h r found final =
      let (h', (q, there, same)) = IsSound-stays reach h r found final in
      let (q', later_found, edge) = IsSound-Step-Moves st h' q there in
      (
        Step-IsSound any_time st h',
        (q', later_found, same ∙ final_edge q.status q'.status edge (subst IsFinal same final)),
      )

-- From a state that overlapping calls reach from empty tables, one more step of any of them leaves
-- each request in place, and takes its status along one edge of the diagram or leaves it.
pub Step-Moves :
    {s t u : System}
    → IsInitial s
    → Reach any_time s t
    → Step any_time t u
    → (id : ℕ) (r : ServiceRequest) → find_where (request_has id) t.world.requests ≡ some r
    → Moves id r.status u.world.requests
Step-Moves i reach st id r found = IsSound-Step-Moves id st (Reach-IsSound any_time i reach) r found

-- Once a request is COMPLETED or CANCELLED, whatever calls follow, those then in flight included,
-- leave its status as it is.
final_stays :
    {s t u : System}
    → IsInitial s
    → Reach any_time s t
    → Reach any_time t u
    → (id : ℕ) (r : ServiceRequest) → find_where (request_has id) t.world.requests ≡ some r
    → (r.status ≡ completed) ⊎ (r.status ≡ cancelled)
    → (r' : ServiceRequest) × (find_where (request_has id) u.world.requests ≡ some r')
      × (r.status ≡ r'.status)
final_stays i before after id r found final =
    (IsSound-stays id after (Reach-IsSound any_time i before) r found final).1
