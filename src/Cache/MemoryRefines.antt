-- ===== src/Cache/MemoryRefines.antt =====
-- The memory provider, as long as it need not evict, is the cache that it promises.
use fetchit_be.Base.{ℕ, suc, ◌+◌, ◌≡◌, ◌≤◌, refl, ap, ◌∙◌, arith, String, Bool, Option, List}
use fetchit_be.Cache.{
  MemoryCache, map_get, get, set, del, del_by_pattern, exists, clear, mget, mset, new, regexp_text,
}
use fetchit_be.Cache.Service.{
  CacheProvider, Request, reads, writes, removes, removes_pattern, asks, empties, reads_all,
  writes_all, found, present, found_all, serve, answers, writes_of, total_writes, Simulation,
  answers_alike,
}
use fetchit_be.Cache.Abstract.{live, is_some, Contents, empty, abstract_cache}
use fetchit_be.Cache.Shown.{
  Shows, shown_at, get-shown_at, exists-shown_at, get-Shows, exists-Shows, set-Shows, with_room,
  mset-Shows, mget-Shows, pattern-Shows, selected, del-Shows, clear-Shows,
}

-- What a pattern stands for: the keys that its regular expression matches, or none.
abbrev pub selects : (String → Option (String → Bool)) → String → String → Bool
selects regexp pattern key = selected (regexp (regexp_text pattern)) key

-- `MemoryCacheProvider`
abbrev pub memory_cache : {V : Type 0} → (String → Option (String → Bool)) → CacheProvider V
memory_cache {V} regexp = record {
  State = MemoryCache V;
  get = get;
  set = set;
  del = λ now key c. del key c;
  del_by_pattern = λ now pattern c. del_by_pattern regexp pattern c;
  exists = exists;
  clear = λ now c. clear c;
  mget = mget;
  mset = mset;
}

module _ {V : Type 0} (default : ℕ) (regexp : String → Option (String → Bool)) where
  memory_serve :
      (now room : ℕ) (request : Request V) (c : MemoryCache V) (m : Contents V)
      → Shows default now (writes_of request + room) c m
      → ((serve (memory_cache regexp) now request c).1
          ≡ (serve (abstract_cache default (selects regexp)) now request m).1)
        × Shows default now room
            (serve (memory_cache regexp) now request c).0
            (serve (abstract_cache default (selects regexp)) now request m).0
  unfolding serve writes_of del_by_pattern
  memory_serve now room request c m h =
      go request (with_room default now _ room c m (omega arith) h) h
    where
      go :
          (request : Request V)
          → Shows default now room c m
          → Shows default now (writes_of request + room) c m
          → ((serve (memory_cache regexp) now request c).1
              ≡ (serve (abstract_cache default (selects regexp)) now request m).1)
            × Shows default now room
                (serve (memory_cache regexp) now request c).0
                (serve (abstract_cache default (selects regexp)) now request m).0
      go (reads key) k h = (
        ap found (get-shown_at default now key c ∙ k.shown key now (omega arith)),
        get-Shows default now room key c m k,
      )
      go (writes key value ttl) k h = (
        refl,
        set-Shows default now room key value ttl c m
            (with_room default now _ (suc room) c m (omega arith) h),
      )
      go (removes key) k h = (refl, del-Shows default now room key c m k)
      go (removes_pattern pattern) k h =
          (refl, pattern-Shows default now room (regexp (regexp_text pattern)) c m k)
      go (asks key) k h = (
        ap present (exists-shown_at default now key c ∙ ap is_some (k.shown key now (omega arith))),
        exists-Shows default now room key c m k,
      )
      go empties k h = (refl, clear-Shows default now room c m k)
      go (reads_all keys) k h =
          let (same, next) = mget-Shows default now room keys c m k in (ap found_all same, next)
      go (writes_all entries) k h = (refl, mset-Shows default now room entries c m h)

  memory_simulation :
      Simulation (memory_cache {V = V} regexp) (abstract_cache default (selects regexp))
  memory_simulation = record {
    Related = Shows default;
    related_later = λ now later room c m h. record {
      lifetime = h.lifetime;
      distinct = h.distinct;
      fits = h.fits;
      shown = λ key at le. h.shown key at (omega (arith, le));
    };
    serve_alike = memory_serve;
  }

  memory_answers :
      (requests : List (ℕ × Request V)) (c : MemoryCache V) (m : Contents V)
      → Shows default 0 (total_writes requests) c m
      → answers (memory_cache regexp) 0 requests c
        ≡ answers (abstract_cache default (selects regexp)) 0 requests m
  unfolding memory_simulation
  memory_answers requests c m h = answers_alike memory_simulation 0 requests c m h

module _ {V : Type 0} where
  -- A memory cache that is made with room for all the entries that a sequence of calls writes
  -- answers every call as the abstract cache with its default lifetime, in which a pattern stands
  -- for what its regular expression matches, whatever the engine of regular expressions: eviction,
  -- clean-up on reading and expiry by the clock are not seen.
  pub memory_answers-abstract :
      (regexp : String → Option (String → Bool)) (max ttl : Option ℕ)
      (requests : List (ℕ × Request V))
      → total_writes requests ≤ (new {V = V} max ttl).max_entries
      → answers (memory_cache regexp) 0 requests (new max ttl)
        ≡ answers
            (abstract_cache (new {V = V} max ttl).default_ttl (selects regexp))
            0
            requests
            empty
  unfolding new map_get live shown_at
  memory_answers-abstract regexp max ttl requests fits =
      memory_answers (new {V = V} max ttl).default_ttl regexp requests (new max ttl) empty (record {
        lifetime = refl;
        distinct = tt;
        fits = omega (arith, fits);
        shown = λ key later le. refl;
      })
