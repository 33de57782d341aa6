-- ===== src/Cache/Lifetime.antt =====
-- What a reader of the cache sees, and when.
use fetchit_be.Base.{
  ℕ, ◌⊎◌, ◌+◌, ◌*◌, ◌≡◌, ◌≢◌, ◌≤◌, ◌==◌, ◌||◌, leb, String, Option, none, some, List, ◌∷◌, arith,
  refl, sym, ◌∙◌, ap, if◌then◌else◌, not, length,
}
use text.Mathlib.TextEquality.{eq_iff}
use text.Mathlib.TextPositions.{eq_refl}
use fetchit_be.Cache.{
  MemoryCache, CacheEntry, map_get, evict_if_needed, evict_first, get, expiry, effective_ttl, set,
  is_expired, cleanup, get_or_set,
}
use fetchit_be.Cache.Entries.{map_get-map_set, HasDistinctKeys, kept, map_get-filter_where}

module _ {V : Type 0} where
  -- What `get` answers, from the entry that the Map holds.
  abbrev answer : ℕ → Option (CacheEntry V) → Option V
  answer now none = none
  answer now (some e) = if is_expired now e then none else some e.value

  get-answer :
      (now : ℕ) (key : String) (c : MemoryCache V)
      → (get now key c).1 ≡ answer now (map_get key c.cache)
  unfolding get
  get-answer now key c = ground arith

  set_entry :
      (now : ℕ) (key : String) (value : V) (ttl : Option ℕ) (c : MemoryCache V)
      → map_get key (set now key value ttl c).cache
        ≡ some (record {
          value = value;
          expires_at = expiry now (effective_ttl ttl (evict_if_needed c).default_ttl);
        })
  unfolding set
  set_entry now key value ttl c =
      map_get-map_set key key _ (evict_if_needed c).cache ∙ rw (eq_refl key)

  -- A value that was set is read back until its lifetime is over, not after, and for ever if the
  -- lifetime is 0.
  pub get-set :
      (now later ttl : ℕ) (key : String) (value : V) (c : MemoryCache V)
      → (get later key (set now key value (some ttl) c)).1
        ≡ (if ttl == 0 || leb later (now + ttl * 1000) then some value else none)
  unfolding is_expired expiry
  get-set now later ttl key value c =
      get-answer later key (set now key value (some ttl) c)
      ∙ ap (answer later) (set_entry now key value (some ttl) c)
      ∙ ground arith

  -- The periodic clean-up is invisible: at the same moment, every key reads as without it.
  get-cleanup :
      (now : ℕ) (key : String) (c : MemoryCache V)
      → HasDistinctKeys c.cache
      → (get now key (cleanup now c)).1 ≡ (get now key c).1
  unfolding cleanup
  get-cleanup now key c distinct =
      get-answer now key (cleanup now c)
      ∙ ap (answer now) (map_get-filter_where _ key c.cache distinct)
      ∙ same (map_get key c.cache)
      ∙ sym (get-answer now key c)
    where
      same :
          (o : Option (CacheEntry V))
          → answer now (kept (λ entry. not (is_expired now entry.1)) key o) ≡ answer now o
      same none = refl
      same (some e) = ground arith

  oldest_evicted :
      (oldest : String) (c : MemoryCache V) (e : CacheEntry V) (rest : List (String × CacheEntry V))
      → c.cache ≡ (oldest, e) ∷ rest
      → oldest ≢ ""
      → c.max_entries ≤ length c.cache
      → (evict_if_needed c).cache ≡ rest
  unfolding evict_if_needed evict_first
  oldest_evicted oldest c e rest front named full = ground (arith, eq_iff oldest "")

  -- Setting a key that is there evicts the oldest key of a full cache, though nothing is added:
  -- the value of the oldest key is lost.
  set-evicts_oldest :
      (now later : ℕ) (key oldest : String) (value : V) (ttl : Option ℕ) (c : MemoryCache V)
      (e : CacheEntry V) (rest : List (String × CacheEntry V))
      → c.cache ≡ (oldest, e) ∷ rest
      → map_get oldest rest ≡ none
      → oldest ≢ ""
      → key ≢ oldest
      → c.max_entries ≤ length c.cache
      → (get later oldest (set now key value ttl c)).1 ≡ none
  unfolding set
  set-evicts_oldest now later key oldest value ttl c e rest front once named other full =
      get-answer later oldest (set now key value ttl c) ∙ ap (answer later) gone
    where
      gone : map_get oldest (set now key value ttl c).cache ≡ none
      gone =
          map_get-map_set key oldest _ (evict_if_needed c).cache
          ∙ ground (
            arith,
            eq_iff key oldest,
            ap (map_get oldest) (oldest_evicted oldest c e rest front named full),
          )

  -- `getOrSet` makes the value once: within its lifetime a second call gives the first one's value,
  -- whatever its own factory would make.
  get_or_set_once :
      (now later ttl : ℕ) (key : String) (made made' : V) (c : MemoryCache V)
      → (get now key c).1 ≡ none
      → (ttl ≡ 0) ⊎ (later ≤ now + ttl * 1000)
      → (get_or_set later key made' (some ttl) (get_or_set now key made (some ttl) c).0).1 ≡ made
  unfolding get_or_set
  get_or_set_once now later ttl key made made' c missing alive =
      ground (arith, get-set now later ttl key made (get now key c).0)
