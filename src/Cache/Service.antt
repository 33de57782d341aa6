-- ===== src/Cache/Service.antt =====
-- src/cache/interfaces/cache-provider.interface.ts and src/cache/cache.service.ts: what every
-- provider of the cache offers, and what the service makes of it.
use fetchit_be.Base.{ℕ, ◌+◌, ◌≡◌, refl, String, Bool, Option, none, some, List, [], ◌∷◌, length}
use mathlib.Core.Path.{ap₂}

-- `ICacheProvider`. Each operation is called at a time and on the provider's state.
pub record CacheProvider (V : Type 0) : Type 1 where
  pub State : Type 0
  pub get : ℕ → String → State → State × Option V
  pub set : ℕ → String → V → Option ℕ → State → State
  pub del : ℕ → String → State → State
  pub del_by_pattern : ℕ → String → State → State
  pub exists : ℕ → String → State → State × Bool
  pub clear : ℕ → State → State
  pub mget : ℕ → List String → State → State × List (Option V)
  pub mset : ℕ → List (String × V × Option ℕ) → State → State

-- A call of the service, which hands it to the provider.
pub data Request (V : Type 0) : Type 0 where
  reads : String → Request V
  writes : String → V → Option ℕ → Request V
  removes : String → Request V
  removes_pattern : String → Request V
  asks : String → Request V
  empties : Request V
  reads_all : List String → Request V
  writes_all : List (String × V × Option ℕ) → Request V

pub data Answer (V : Type 0) : Type 0 where
  found : Option V → Answer V
  present : Bool → Answer V
  found_all : List (Option V) → Answer V
  done : Answer V

module _ {V : Type 0} where
  unfoldable pub serve : (P : CacheProvider V) → ℕ → Request V → P.State → P.State × Answer V
  serve P now (reads key) s = let (t, value) = P.get now key s in (t, found value)
  serve P now (writes key value ttl) s = (P.set now key value ttl s, done)
  serve P now (removes key) s = (P.del now key s, done)
  serve P now (removes_pattern pattern) s = (P.del_by_pattern now pattern s, done)
  serve P now (asks key) s = let (t, there) = P.exists now key s in (t, present there)
  serve P now empties s = (P.clear now s, done)
  serve P now (reads_all keys) s = let (t, values) = P.mget now keys s in (t, found_all values)
  serve P now (writes_all entries) s = (P.mset now entries s, done)

  -- The answers to a sequence of calls, each with the time since the one before.
  unfoldable pub answers :
      (P : CacheProvider V) → ℕ → List (ℕ × Request V) → P.State → List (Answer V)
  answers P clock [] s = []
  answers P clock ((wait, request) ∷ requests) s =
      let (t, answer) = serve P (clock + wait) request s in
      answer ∷ answers P (clock + wait) requests t

  -- `getOrSet`; the factory throws where it gives `none`.
  unfoldable pub get_or_produce :
      (P : CacheProvider V) → ℕ → String → Option V → Option ℕ → P.State → P.State × Option V
  get_or_produce P now key produced ttl s =
      let (t, cached) = P.get now key s in
      elim cached [
        | some value ↦ (t, some value)
        | none ↦ elim produced [
          | none ↦ (t, none)
          | some value ↦ (P.set now key value ttl t, some value)
        ]
      ]

  -- `wrap`: the function with its results cached.
  unfoldable pub wrap :
      {A : Type 0} (P : CacheProvider V)
      → (A → String)
      → (A → Option V)
      → Option ℕ
      → ℕ
      → A
      → P.State
      → P.State × Option V
  wrap P key_of f ttl now args s = get_or_produce P now (key_of args) (f args) ttl s

  -- How many entries a call writes.
  unfoldable pub writes_of : Request V → ℕ
  writes_of (writes key value ttl) = 1
  writes_of (writes_all entries) = length entries
  writes_of _ = 0

  unfoldable pub total_writes : List (ℕ × Request V) → ℕ
  total_writes [] = 0
  total_writes ((wait, request) ∷ requests) = writes_of request + total_writes requests

-- A relation between the states of two providers that every call keeps, and under which every call
-- is answered alike. `room` is the number of entries still to be written.
pub record Simulation {V : Type 0} (P Q : CacheProvider V) : Type 1 where
  pub Related : ℕ → ℕ → P.State → Q.State → Type 0
  pub related_later :
      (now later room : ℕ) (s : P.State) (t : Q.State)
      → Related now room s t
      → Related (now + later) room s t
  pub serve_alike :
      (now room : ℕ) (request : Request V) (s : P.State) (t : Q.State)
      → Related now (writes_of request + room) s t
      → ((serve P now request s).1 ≡ (serve Q now request t).1)
        × Related now room (serve P now request s).0 (serve Q now request t).0

pub answers_alike :
    {V : Type 0} {P Q : CacheProvider V} (sim : Simulation P Q) (clock : ℕ)
    (requests : List (ℕ × Request V)) (s : P.State) (t : Q.State)
    → sim.Related clock (total_writes requests) s t
    → answers P clock requests s ≡ answers Q clock requests t
unfolding answers total_writes
answers_alike sim clock [] s t r = refl
answers_alike sim clock ((wait, request) ∷ requests) s t r =
    let (same, next) =
      sim.serve_alike (clock + wait) (total_writes requests) request s t
        (sim.related_later clock wait _ s t r) in
    ap₂ ◌∷◌ same (answers_alike sim (clock + wait) requests _ _ next)
