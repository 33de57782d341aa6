-- ===== src/Cache.antt =====
-- src/cache/providers/memory-cache.provider.ts and src/cache/cache.service.ts.
-- A JavaScript Map is the list of its entries in insertion order; setting a key that is there keeps
-- its place. Times are milliseconds, lifetimes whole seconds. Of what stands in the provider's try
-- blocks, only `new RegExp` throws.
pub mod Entries
pub mod Capacity
pub mod Lifetime
pub mod Service
pub mod Abstract
pub mod Shown
pub mod MemoryRefines
pub mod Redis
pub mod RedisLaws
pub mod RedisTexts
pub mod RedisRefines
pub mod Agreement
pub mod Outage
mod Tests
mod RedisTests
use fetchit_be.Base.{
  or_default, ℕ, ◌+◌, ◌*◌, Bool, true, false, Option, none, some, List, [], ◌∷◌, ◌==◌, ltb, leb,
  length, not, if◌then◌else◌, filter_where,
}
use text.Mathlib.Text.{◌==◌ as str_eq}
use Prim.Native.Char.{code}
use Prim.Native.String.{String, ◌++◌}

pub record CacheEntry {ℓ} (V : Type ℓ) : Type ℓ where
  pub value : V
  pub expires_at : Option ℕ

pub record MemoryCache {ℓ} (V : Type ℓ) : Type ℓ where
  pub cache : List (String × CacheEntry V)
  pub max_entries : ℕ
  pub default_ttl : ℕ

unfoldable pub expiry : ℕ → ℕ → Option ℕ
expiry now ttl = if ltb 0 ttl then some (now + ttl * 1000) else none

abbrev pub effective_ttl : Option ℕ → ℕ → ℕ
effective_ttl none default = default
effective_ttl (some ttl) default = ttl

-- `pattern.replace(/\*/g, '.*')`
unfoldable pub star_to_any : String → String
star_to_any String.[] = ""
star_to_any (String.◌∷◌ c s) =
    let rest = star_to_any s in if code c == b'*' then ".*" ++ rest else String.◌∷◌ c rest

-- `.replace(/\?/g, '.')`
unfoldable pub question_to_one : String → String
question_to_one String.[] = ""
question_to_one (String.◌∷◌ c s) =
    let rest = question_to_one s in if code c == b'?' then "." ++ rest else String.◌∷◌ c rest

-- The text of the regular expression: no other character is escaped.
unfoldable pub regexp_text : String → String
unfolding star_to_any question_to_one
regexp_text pattern = "^" ++ question_to_one (star_to_any pattern) ++ "$"

module _ {ℓ} {V : Type ℓ} where
  -- The operations of a Map.
  unfoldable pub map_get : String → List (String × CacheEntry V) → Option (CacheEntry V)
  map_get key [] = none
  map_get key ((k, e) ∷ rest) = if str_eq k key then some e else map_get key rest

  unfoldable pub map_set :
      String → CacheEntry V → List (String × CacheEntry V) → List (String × CacheEntry V)
  map_set key entry [] = (key, entry) ∷ []
  map_set key entry ((k, e) ∷ rest) =
      if str_eq k key then (k, entry) ∷ rest else (k, e) ∷ map_set key entry rest

  unfoldable pub map_delete : String → List (String × CacheEntry V) → List (String × CacheEntry V)
  map_delete key [] = []
  map_delete key ((k, e) ∷ rest) = if str_eq k key then rest else (k, e) ∷ map_delete key rest

  unfoldable pub new : Option ℕ → Option ℕ → MemoryCache V
  new max ttl = record {
    cache = [];
    max_entries = or_default max 1000;
    default_ttl = or_default ttl 300;
  }

  -- `isExpired`: a missing time, and the time 0, never expire.
  unfoldable pub is_expired : ℕ → CacheEntry V → Bool
  is_expired now e = elim e.expires_at [
    | none ↦ false
    | some t ↦ if t == 0 then false else ltb t now
  ]

  unfoldable pub cleanup : ℕ → MemoryCache V → MemoryCache V
  unfolding is_expired
  cleanup now c = record c { cache = filter_where (λ entry. not (is_expired now entry.1)) c.cache }

  -- `if (firstKey)`: the empty key is not evicted.
  evict_first : List (String × CacheEntry V) → List (String × CacheEntry V)
  evict_first [] = []
  evict_first ((k, e) ∷ rest) = if str_eq k "" then (k, e) ∷ rest else rest

  unfoldable pub evict_if_needed : MemoryCache V → MemoryCache V
  unfolding evict_first
  evict_if_needed c =
      if leb c.max_entries (length c.cache) then record c { cache = evict_first c.cache } else c

  unfoldable pub get : ℕ → String → MemoryCache V → MemoryCache V × Option V
  get now key c = elim (map_get key c.cache) [
    | none ↦ (c, none)
    | some e ↦
        if is_expired now e
        then (record c { cache = map_delete key c.cache }, none)
        else (c, some e.value)
  ]

  unfoldable pub set : ℕ → String → V → Option ℕ → MemoryCache V → MemoryCache V
  set now key value ttl c =
      let d = evict_if_needed c in
      record d {
        cache =
            map_set key
              (record { value = value; expires_at = expiry now (effective_ttl ttl d.default_ttl) })
              d.cache;
      }

  unfoldable pub del : String → MemoryCache V → MemoryCache V
  del key c = record c { cache = map_delete key c.cache }

  abbrev pub delete_matching : Option (String → Bool) → MemoryCache V → MemoryCache V
  delete_matching none c = c
  delete_matching (some test) c = record c {
    cache = filter_where (λ entry. not (test entry.0)) c.cache;
  }

  -- `regexp` is the engine's `new RegExp` with `test`; a text that is no regular expression gives
  -- `none`, and the exception is caught.
  unfoldable pub del_by_pattern :
      (String → Option (String → Bool)) → String → MemoryCache V → MemoryCache V
  del_by_pattern regexp pattern c = delete_matching (regexp (regexp_text pattern)) c

  unfoldable pub exists : ℕ → String → MemoryCache V → MemoryCache V × Bool
  exists now key c = elim (map_get key c.cache) [
    | none ↦ (c, false)
    | some e ↦
        if is_expired now e then (record c { cache = map_delete key c.cache }, false) else (c, true)
  ]

  unfoldable pub clear : MemoryCache V → MemoryCache V
  clear c = record c { cache = [] }

  unfoldable pub mget : ℕ → List String → MemoryCache V → MemoryCache V × List (Option V)
  mget now [] c = (c, [])
  mget now (key ∷ keys) c =
      let (d, value) = get now key c in let (d', values) = mget now keys d in (d', value ∷ values)

  unfoldable pub mset : ℕ → List (String × V × Option ℕ) → MemoryCache V → MemoryCache V
  mset now [] c = c
  mset now ((key, value, ttl) ∷ entries) c = mset now entries (set now key value ttl c)

  -- `CacheService.getOrSet`; `made` is what the factory returns.
  unfoldable pub get_or_set : ℕ → String → V → Option ℕ → MemoryCache V → MemoryCache V × V
  get_or_set now key made ttl c =
      let (d, cached) = get now key c in
      elim cached [ some value ↦ (d, value) | none ↦ (set now key made ttl d, made) ]
