-- ===== src/Market/Race.antt =====
-- The methods of the marketplace as they run at the same time: a method has read (`_check`) and is
-- in flight until it writes (`_commit`); between the two, any others may write.
-- A transaction, and a single `updateMany`, is one step; but the transaction of `applyToRequest` reads
-- without a lock before it writes, at READ COMMITTED, and is two: between them others may commit.
pub mod Consistency
pub mod Distinct
pub mod Safety
mod Known
mod Keeping
pub mod Reachable
pub mod Agreement
pub mod Life
use fetchit_be.Base.{ℕ, ◌≡◌, Bool, true, false, some, List, ◌∷◌, [], find_where}
use fetchit_be.Schema.{ServiceRequest, RequestDetails, Application, is_assigned}
use fetchit_be.World.{World, ok, request_has}
use fetchit_be.Market.Customer.{
  CreateServiceRequestDto, create, update_check, update_commit, cancel_check, cancel_commit,
  accept_check, accept_commit, reject_check, reject_commit, confirm_check, confirm_commit,
}
use fetchit_be.Market.Handyman.{
  ApplyServiceRequestDto, ApplySnapshot, JobSnapshot, apply_check, apply_commit, apply_recheck,
  apply_insert, is_still_open, withdraw_check, withdraw_commit, start_check, start_commit,
  unassign_check, unassign_commit, complete_check, complete_commit,
}

-- A call that has read and not yet written, with what it remembers.
pub data InFlight : Type 0 where
  creating : ℕ → ℕ → CreateServiceRequestDto → InFlight
  updating : ℕ → (RequestDetails → RequestDetails) → InFlight
  cancelling : ℕ → ServiceRequest → ℕ → ℕ → InFlight
  accepting : ℕ → ℕ → ℕ → Application → InFlight
  rejecting : ℕ → InFlight
  confirming : ℕ → ServiceRequest → ℕ → ℕ → InFlight
  applying : ℕ → ℕ → ApplySnapshot → ApplyServiceRequestDto → InFlight
  -- The transaction of an application, once it has read the request again and found it OPEN.
  inserting : ℕ → ℕ → ApplySnapshot → ApplyServiceRequestDto → InFlight
  withdrawing : ℕ → InFlight
  starting : ℕ → JobSnapshot → InFlight
  unassigning : ℕ → JobSnapshot → InFlight
  completing : ℕ → JobSnapshot → InFlight

-- The state after the call's write, whether it succeeds or throws.
unfoldable pub commit : InFlight → World → World
commit (creating id user_id dto) w = (create id user_id dto w).0
commit (updating id dto) w = (update_commit id dto w).0
commit (cancelling id seen user_id now) w = (cancel_commit id seen user_id now w).0
commit (accepting request_id app_id user_id app) w =
    (accept_commit request_id app_id user_id app w).0
commit (rejecting app_id) w = (reject_commit app_id w).0
commit (confirming id seen user_id now) w = (confirm_commit id seen user_id now w).0
commit (applying id request_id seen dto) w = (apply_commit id request_id seen dto w).0
commit (inserting id request_id seen dto) w = (apply_insert id request_id seen dto w).0
commit (withdrawing app_id) w = (withdraw_commit app_id w).0
commit (starting id seen) w = (start_commit id w).0
commit (unassigning id seen) w = (unassign_commit id seen w).0
commit (completing id seen) w = (complete_commit id seen w).0

-- The call's checks pass in `w`, and it remembers what it has read there. An insert is not begun: it
-- is what a call that applies turns into.
abbrev pub Begins : World → InFlight → Type 0
Begins w (creating id user_id dto) = Unit
Begins w (updating id dto) =
    (user_id : ℕ) × (seen : ServiceRequest) × ((update_check id user_id w).1 ≡ ok seen)
Begins w (cancelling id seen user_id now) = (cancel_check id user_id w).1 ≡ ok seen
Begins w (accepting request_id app_id user_id app) =
    (accept_check request_id app_id user_id w).1 ≡ ok app
Begins w (rejecting app_id) =
    (request_id user_id : ℕ) × (app : Application) × ((reject_check request_id app_id user_id w).1
      ≡ ok app)
Begins w (confirming id seen user_id now) = (confirm_check id user_id w).1 ≡ ok seen
Begins w (applying id request_id seen dto) =
    (user_id : ℕ) × ((apply_check user_id request_id w).1 ≡ ok seen)
Begins w (inserting id request_id seen dto) = ⊥
Begins w (withdrawing app_id) =
    (user_id : ℕ) × (app : Application) × ((withdraw_check user_id app_id w).1 ≡ ok app)
Begins w (starting id seen) = (user_id : ℕ) × ((start_check user_id id w).1 ≡ ok seen)
Begins w (unassigning id seen) = (user_id : ℕ) × ((unassign_check user_id id w).1 ≡ ok seen)
Begins w (completing id seen) = (user_id : ℕ) × ((complete_check user_id id w).1 ≡ ok seen)

pub record System : Type 0 where
  pub world : World
  pub calls : List InFlight

-- `Takes c cs ds`: `ds` is `cs` without one `c`.
pub data Takes (c : InFlight) : List InFlight → List InFlight → Type 0 where
  first : (cs : List InFlight) → Takes c (c ∷ cs) cs
  later : (d : InFlight) {cs ds : List InFlight} → Takes c cs ds → Takes c (d ∷ cs) (d ∷ ds)

-- Which writes are taken to come in time.
pub record Timing : Type 0 where
  pub releases : Bool
  pub inserts : Bool

abbrev pub any_time : Timing
any_time = record { releases = false; inserts = false }

abbrev pub releases_in_time : Timing
releases_in_time = record { releases = true; inserts = false }

abbrev pub inserts_in_time : Timing
inserts_in_time = record { releases = false; inserts = true }

-- If `releases`, the handyman who cancels is the one who is assigned when the write is made; if
-- `inserts`, the request is still OPEN when an application is inserted. The source checks the one
-- when the call begins, the other by a read of its own before the insert.
abbrev pub IsTimely : Timing → World → InFlight → Type 0
IsTimely timing w (unassigning id seen) =
    timing.releases ≡ true
    → (r : ServiceRequest) → find_where (request_has id) w.requests ≡ some r
    → is_assigned r.status ≡ true
    → r.assigned_handyman_id ≡ some seen.profile.id
IsTimely timing w (inserting id request_id seen dto) =
    timing.inserts ≡ true → is_still_open (find_where (request_has request_id) w.requests) ≡ true
IsTimely timing w c = Unit

-- One step; calls that are no longer timely do not write.
pub data Step (timing : Timing) : System → System → Type 0 where
  begin :
      (w : World) (cs : List InFlight) (c : InFlight)
      → Begins w c
      → Step timing (record { world = w; calls = cs }) (record { world = w; calls = c ∷ cs })
  write :
      (w : World) (cs ds : List InFlight) (c : InFlight)
      → Takes c cs ds
      → IsTimely timing w c
      → Step timing (record { world = w; calls = cs }) (record { world = commit c w; calls = ds })
  -- The transaction of a call that applies has read the request again.
  recheck :
      (w : World) (cs ds : List InFlight) (id request_id : ℕ) (seen : ApplySnapshot)
      (dto : ApplyServiceRequestDto)
      → Takes (applying id request_id seen dto) cs ds
      → (apply_recheck request_id w).1 ≡ ok tt
      → Step timing
          (record { world = w; calls = cs })
          (record { world = w; calls = inserting id request_id seen dto ∷ ds })
  -- Another service writes other tables.
  elsewhere :
      (w v : World) (cs : List InFlight)
      → v.requests ≡ w.requests
      → v.applications ≡ w.applications
      → Step timing (record { world = w; calls = cs }) (record { world = v; calls = cs })

pub data Reach (timing : Timing) (s : System) : System → Type 0 where
  here : Reach timing s s
  next : {t u : System} → Reach timing s t → Step timing t u → Reach timing s u

-- No rows in the two tables, and no call under way.
pub record IsInitial (s : System) : Type 0 where
  pub no_requests : s.world.requests ≡ []
  pub no_applications : s.world.applications ≡ []
  pub no_calls : s.calls ≡ []
