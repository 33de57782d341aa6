-- ===== src/Market/Race/Reachable.antt =====
-- What holds in every state that overlapping calls can reach.
use mathlib.Core.Path.{subst₂}
use fetchit_be.Base.{List, All, All-map, sym, subst}
use fetchit_be.Market.Race.{
  InFlight, commit, System, Takes, first, later, Step, begin, write, recheck, elsewhere, Timing,
  Reach, here, next, IsInitial,
}
use fetchit_be.Market.Race.Consistency.{IsConsistent}
use fetchit_be.Market.Race.Safety.{IsLive}
use fetchit_be.Market.Race.Known.{Known, begin-Known, keep-Known}
use fetchit_be.Market.Race.Keeping.{commit-IsKept}

pub Takes-All :
    (P : InFlight → Type 0) {c : InFlight} {cs ds : List InFlight}
    → Takes c cs ds
    → All P cs
    → P c × All P ds
Takes-All P (first cs) (p, ps) = (p, ps)
Takes-All P (later d t) (p, ps) = let (q, qs) = Takes-All P t ps in (q, (p, qs))

module _ (timely : Timing) where
  -- The invariant of a system.
  abbrev pub IsSound : System → Type 0
  IsSound s =
      IsConsistent (IsLive timely) s.world.requests s.world.applications
      × All (Known s.world.applications) s.calls

  pub Step-IsSound : {s t : System} → Step timely s t → IsSound s → IsSound t
  Step-IsSound (begin w cs c b) (h, k) = (h, (begin-Known timely w c h b, k))
  Step-IsSound (write w cs ds c t ok_now) (h, k) =
      let (known, rest) = Takes-All (Known w.applications) t k in
      let (h', keep) = commit-IsKept timely w h c ok_now known in
      (
        h',
        All-map (Known w.applications) (Known (commit c w).applications) ds
            (λ d. keep-Known w.applications (commit c w).applications d keep) rest,
      )
  Step-IsSound (recheck w cs ds id request_id seen dto t still) (h, k) =
      let (known, rest) = Takes-All (Known w.applications) t k in (h, (known, rest))
  Step-IsSound (elsewhere w v cs same_requests same_applications) (h, k) = (
    subst₂ (IsConsistent (IsLive timely)) (sym same_requests) (sym same_applications) h,
    subst (λ rows. All (Known rows) cs) (sym same_applications) k,
  )

  initial-IsSound : (s : System) → IsInitial s → IsSound s
  initial-IsSound s i = (
    subst₂ (IsConsistent (IsLive timely)) (sym i.no_requests) (sym i.no_applications)
        (record { fits = tt; assignments = tt; apart = tt; distinct = tt }),
    subst (All (Known s.world.applications)) (sym i.no_calls) tt,
  )

  pub Reach-IsSound : {s t : System} → IsInitial s → Reach timely s t → IsSound t
  Reach-IsSound {s} i here = initial-IsSound s i
  Reach-IsSound i (next r st) = Step-IsSound st (Reach-IsSound i r)
