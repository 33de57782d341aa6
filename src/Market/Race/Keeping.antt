-- ===== src/Market/Race/Keeping.antt =====
-- Each call's write keeps the tables consistent, given what the call relies on.
use fetchit_be.Base.{ℕ, ◌≡◌, true, Option, some, none, find_where}
use fetchit_be.Schema.{Application}
use fetchit_be.World.{World, request_has}
use fetchit_be.Market.Handyman.{ApplyServiceRequestDto, apply_commit, apply_insert, is_still_open}
use fetchit_be.Market.Effects.{
  create_effect, update_effect, accept_effect, cancel_effect, reject_effect, confirm_effect,
  revive_effect, apply_effect, revive_insert_effect, insert_effect, withdraw_effect, start_effect,
  unassign_effect, complete_effect,
}
use fetchit_be.Market.Race.{
  InFlight, creating, updating, cancelling, accepting, rejecting, confirming, applying, inserting,
  withdrawing, starting, unassigning, completing, commit, IsTimely, Timing,
}
use fetchit_be.Market.Race.Consistency.{IsConsistent}
use fetchit_be.Market.Race.Safety.{
  IsLive, IsKept, same-IsKept, create-IsKept, details-IsKept, cancel-IsKept, accept-IsKept,
  reject-IsKept, complete-IsKept, revive-IsKept, apply-IsKept, withdraw-IsKept, start-IsKept,
  reopen-IsKept, finish-IsKept,
}
use fetchit_be.Market.Race.Known.{KnownOld, Known}

module _ (timely : Timing) (w : World)
    (h : IsConsistent (IsLive timely) w.requests w.applications) where
  abbrev pub Keeps : World → Type 0
  Keeps v = IsKept timely w.applications v.requests v.applications

  commit_apply-IsKept :
      (id request_id profile_id : ℕ) (existing : Option Application) (dto : ApplyServiceRequestDto)
      → KnownOld w.applications request_id profile_id existing
      → Keeps
          (apply_commit id request_id
            (record { profile_id = profile_id; existing = existing })
            dto
            w).0
  commit_apply-IsKept id request_id profile_id none dto known =
      apply_effect (IsKept timely w.applications) w id request_id profile_id dto
        (same-IsKept timely h)
        (λ live there fresh alone.
          apply-IsKept timely h id request_id profile_id dto (λ s. live) there fresh alone)
  commit_apply-IsKept id request_id profile_id (some old) dto known =
      revive_effect (IsKept timely w.applications) w id request_id profile_id old dto
        (same-IsKept timely h)
        (λ live. revive-IsKept timely h old.id request_id profile_id dto known (λ s. live))

  commit_insert-IsKept :
      (id request_id profile_id : ℕ) (existing : Option Application) (dto : ApplyServiceRequestDto)
      → KnownOld w.applications request_id profile_id existing
      → (timely.inserts ≡ true
          → is_still_open (find_where (request_has request_id) w.requests) ≡ true)
      → Keeps
          (apply_insert id request_id
            (record { profile_id = profile_id; existing = existing })
            dto
            w).0
  commit_insert-IsKept id request_id profile_id none dto known live =
      insert_effect (IsKept timely w.applications) w id request_id profile_id dto
        (same-IsKept timely h)
        (λ there fresh alone.
          apply-IsKept timely h id request_id profile_id dto live there fresh alone)
  commit_insert-IsKept id request_id profile_id (some old) dto known live =
      revive_insert_effect (IsKept timely w.applications) w id request_id profile_id old dto
        (same-IsKept timely h) (revive-IsKept timely h old.id request_id profile_id dto known live)

  pub commit-IsKept :
      (c : InFlight) → IsTimely timely w c → Known w.applications c → Keeps (commit c w)
  unfolding commit
  commit-IsKept (creating id user_id dto) t k =
      create_effect (IsKept timely w.applications) w id user_id dto (same-IsKept timely h)
        (create-IsKept timely h id user_id dto)
  commit-IsKept (updating id dto) t k =
      update_effect (IsKept timely w.applications) w id dto (details-IsKept timely h id dto)
  commit-IsKept (cancelling id seen user_id now) t k =
      cancel_effect (IsKept timely w.applications) w id seen user_id now (same-IsKept timely h)
        (cancel-IsKept timely h id seen now)
  commit-IsKept (accepting request_id app_id user_id app) t k =
      accept_effect (IsKept timely w.applications) w request_id app_id user_id app
        (same-IsKept timely h)
        (λ n m. accept-IsKept timely h request_id app_id app.handyman_profile_id k n)
  commit-IsKept (rejecting app_id) t k =
      reject_effect (IsKept timely w.applications) w app_id (reject-IsKept timely h app_id)
  commit-IsKept (confirming id seen user_id now) t k =
      confirm_effect (IsKept timely w.applications) w id seen user_id now
        (complete-IsKept timely h id now)
  commit-IsKept (applying id request_id seen dto) t k =
      commit_apply-IsKept id request_id seen.profile_id seen.existing dto k
  commit-IsKept (inserting id request_id seen dto) t k =
      commit_insert-IsKept id request_id seen.profile_id seen.existing dto k t
  commit-IsKept (withdrawing app_id) t k =
      withdraw_effect (IsKept timely w.applications) w app_id (withdraw-IsKept timely h app_id)
  commit-IsKept (starting id seen) t k =
      start_effect (IsKept timely w.applications) w id (start-IsKept timely h id)
  commit-IsKept (unassigning id seen) t k =
      unassign_effect (IsKept timely w.applications) w id seen (same-IsKept timely h)
        (reopen-IsKept timely h id seen.profile.id t)
  commit-IsKept (completing id seen) t k =
      complete_effect (IsKept timely w.applications) w id seen (finish-IsKept timely h id)
