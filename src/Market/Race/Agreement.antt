-- ===== src/Market/Race/Agreement.antt =====
-- The tables' agreement, said of one application or request at a time.
use fetchit_be.Base.{◌≡◌, ◌≢◌, refl, Option, some, none, Memᴰ, All-mem, find_where, arith, not}
use fetchit_be.Schema.{ServiceRequest, Application, ApplicationStatus, opened, cancelled, is_opened}
use fetchit_be.World.{World, request_has}
use fetchit_be.Market.Race.{
  System, Reach, IsInitial, Timing, any_time, releases_in_time, inserts_in_time,
}
use fetchit_be.Market.Race.Consistency.{Suits, Fits, IsWellAssigned, has_handyman}
use fetchit_be.Market.Race.Safety.{IsLive}
use fetchit_be.Market.Race.Reachable.{Reach-IsSound}

-- The row that the foreign key of `a` names.
abbrev pub request_of : World → Application → Option ServiceRequest
request_of w a = find_where (request_has a.service_request_id) w.requests

found_of :
    (timely : Timing) (a : Application) (o : Option ServiceRequest)
    → Suits (IsLive timely) a o
    → (r : ServiceRequest) × (o ≡ some r) × IsLive timely a r
found_of timely a none h = absurd h
found_of timely a (some r) h = (r, refl, h)

fits_of :
    (timely : Timing) {s t : System}
    → IsInitial s
    → Reach timely s t
    → (a : Application) → Memᴰ a t.world.applications
    → (r : ServiceRequest) × (request_of t.world a ≡ some r) × IsLive timely a r
fits_of timely {s} {t} i reach a m = found_of timely a (request_of t.world a) (
    All-mem (Fits (IsLive timely) t.world.requests) t.world.applications
      (Reach-IsSound timely i reach).0.fits m)

-- If every application is inserted while its request is still OPEN, then in every state that
-- overlapping calls reach from empty tables, however long each waits otherwise between its checks and
-- its write, a PENDING application has a request, and that request is OPEN.
pub timely-pending :
    {s t : System}
    → IsInitial s
    → Reach inserts_in_time s t
    → (a : Application) → Memᴰ a t.world.applications
    → a.status ≡ ApplicationStatus.pending
    → (r : ServiceRequest) × (request_of t.world a ≡ some r) × (r.status ≡ opened)
timely-pending i reach a m p =
    let (r, found, live) = fits_of inserts_in_time i reach a m in (r, found, ground arith)

-- In every state that overlapping calls reach from empty tables, an ACCEPTED application has a
-- request, and that request is not CANCELLED.
Reach-accepted :
    {s t : System}
    → IsInitial s
    → Reach any_time s t
    → (a : Application) → Memᴰ a t.world.applications
    → a.status ≡ ApplicationStatus.accepted
    → (r : ServiceRequest) × (request_of t.world a ≡ some r) × (r.status ≢ cancelled)
Reach-accepted i reach a m p =
    let (r, found, live) = fits_of any_time i reach a m in (r, found, ground arith)

-- If every cancellation by a handyman is written while the request is still assigned to that handyman,
-- then in every state that overlapping calls reach from empty tables an ACCEPTED application has a
-- request that is not OPEN and that is assigned to the handyman of the application.
pub timely-accepted :
    {s t : System}
    → IsInitial s
    → Reach releases_in_time s t
    → (a : Application) → Memᴰ a t.world.applications
    → a.status ≡ ApplicationStatus.accepted
    → (r : ServiceRequest) × (request_of t.world a ≡ some r)
      × (r.status ≢ opened)
      × (r.assigned_handyman_id ≡ some a.handyman_profile_id)
timely-accepted i reach a m p =
    let (r, found, live) = fits_of releases_in_time i reach a m in
    (r, found, ground arith, ground arith)

-- In every state that overlapping calls reach from empty tables, a request that is not CANCELLED has
-- an assigned handyman exactly if it is not OPEN.
pub Reach-assigned :
    {s t : System}
    → IsInitial s
    → Reach any_time s t
    → (r : ServiceRequest) → Memᴰ r t.world.requests
    → r.status ≢ cancelled
    → has_handyman r.assigned_handyman_id ≡ not (is_opened r.status)
Reach-assigned {s} {t} i reach r m live =
    let known : IsWellAssigned r =
      All-mem IsWellAssigned t.world.requests (Reach-IsSound any_time i reach).0.assignments m in
    ground arith
