-- ===== src/Cache/Tests.antt =====
-- A small cache, and the cache's theorems at it.
use fetchit_be.Base.{ℕ, suc, ◌≡◌, ◌≤◌, refl, none, some, List, [], ◌∷◌, length, arith}
use text.Mathlib.TextEquality.{eq_iff}
use fetchit_be.Cache.{
  MemoryCache, CacheEntry, new, map_get, get, set, get_or_set, evict_if_needed, evict_first,
  map_set, is_expired, expiry,
}
use fetchit_be.Cache.Entries.{HasDistinctKeys}
use fetchit_be.Cache.Capacity.{Call, gets, sets, cleans, run, run-IsBounded}
use fetchit_be.Cache.Lifetime.{get-set}

abbrev calls : List (Call ℕ)
calls = sets 0 "a" 1 none ∷ sets 5 "b" 2 (some 1) ∷ gets 9 "a" ∷ cleans 5000 ∷ []

abbrev entry : CacheEntry ℕ
entry = record { value = 1; expires_at = none }

abbrev full : MemoryCache ℕ
full = record { cache = ("a", entry) ∷ ("b", entry) ∷ []; max_entries = 2; default_ttl = 300 }

abbrev full_of_empty : MemoryCache ℕ
full_of_empty = record {
  cache = ("", entry) ∷ ("b", entry) ∷ [];
  max_entries = 2;
  default_ttl = 300;
}

run-IsBounded_example :
    (length (run calls (new (some 1) none)).cache ≤ (new {V = ℕ} (some 1) none).max_entries)
    × HasDistinctKeys (run calls (new (some 1) none)).cache
run-IsBounded_example =
    run-IsBounded (some 1) none calls
      (ground (arith, eq_iff "a" ""), (ground (arith, eq_iff "b" ""), (tt, (tt, tt))))

-- With the empty key in front, the cache grows.
grows_past_empty_key :
    length (set 0 "c" 3 none full_of_empty).cache ≡ suc (length full_of_empty.cache)
unfolding set evict_if_needed evict_first map_get map_set
grows_past_empty_key = refl

get-set_example : (get 900 "c" (set 0 "c" 3 (some 1) full)).1 ≡ some 3
get-set_example = get-set 0 900 1 "c" 3 full

-- A value is made once during its lifetime.
made_once : (get_or_set 900 "c" 8 (some 1) (get_or_set 0 "c" 3 (some 1) full).0).1 ≡ 3
unfolding get_or_set get set evict_if_needed evict_first map_get map_set is_expired expiry
made_once = refl
