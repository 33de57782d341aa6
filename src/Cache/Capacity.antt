-- ===== src/Cache/Capacity.antt =====
-- The cache never holds more than its maximum, as long as the empty key is not used.
use fetchit_be.Base.{
  ℕ, suc, ◌≡◌, ◌≢◌, ◌≤◌, ◌<◌, String, Bool, Option, none, some, List, [], ◌∷◌, length, arith, refl,
  leb, All, Bool-cases, inl, inr, ◌∙◌, ◌-◌, ◌⊎◌, sym, subst, filter_where, ap,
}
use text.Mathlib.Text.{◌==◌ as str_eq}
use text.Mathlib.TextEquality.{eq_iff}
use fetchit_be.Cache.{
  MemoryCache, CacheEntry, map_get, map_set, map_delete, new, cleanup, evict_first, evict_if_needed,
  get, set, del, del_by_pattern, delete_matching, exists, clear, regexp_text,
}
use fetchit_be.Cache.Entries.{
  map_get-map_set, length-map_set, length-map_set_new, length-map_delete-le, length-filter_where-le,
  HasDistinctKeys, map_set-HasDistinctKeys, map_get-map_delete, map_delete-HasDistinctKeys, kept,
  map_get-filter_where, filter_where-HasDistinctKeys,
}

module _ {V : Type 0} where
  -- What holds of the Map between two calls; `bound` is the number of entries allowed.
  pub record IsWithin (bound : ℕ) (m : List (String × CacheEntry V)) : Type 0 where
    pub distinct : HasDistinctKeys m
    pub named : map_get "" m ≡ none
    pub bounded : length m ≤ bound

  pub record IsValid (c : MemoryCache V) : Type 0 where
    pub room : 0 < c.max_entries
    pub within : IsWithin c.max_entries c.cache

  filter-IsWithin :
      (bound : ℕ) (test : String × CacheEntry V → Bool) (m : List (String × CacheEntry V))
      → IsWithin bound m
      → IsWithin bound (filter_where test m)
  filter-IsWithin bound test m h = record {
    distinct = filter_where-HasDistinctKeys test m h.distinct;
    named = map_get-filter_where test "" m h.distinct ∙ ap (kept test "") h.named;
    bounded = omega (arith, length-filter_where-le test m, h.bounded);
  }

  delete-IsWithin :
      (bound : ℕ) (key : String) (m : List (String × CacheEntry V))
      → IsWithin bound m
      → IsWithin bound (map_delete key m)
  delete-IsWithin bound key m h = record {
    distinct = map_delete-HasDistinctKeys key m h.distinct;
    named = map_get-map_delete key "" m h.distinct ∙ ground (arith, h.named);
    bounded = omega (arith, length-map_delete-le key m, h.bounded);
  }

  set-IsWithin :
      (bound max : ℕ) (key : String) (e : CacheEntry V) (m : List (String × CacheEntry V))
      → bound < max
      → key ≢ ""
      → IsWithin bound m
      → IsWithin max (map_set key e m)
  set-IsWithin bound max key e m fits some_key h = record {
    distinct = map_set-HasDistinctKeys key e m h.distinct;
    named = map_get-map_set key "" e m ∙ ground (arith, h.named, eq_iff key "");
    bounded = omega (arith, length-map_set key e m, h.bounded);
  }

  -- Eviction makes room: afterwards one more entry fits.
  evict-IsWithin :
      (max : ℕ) (m : List (String × CacheEntry V))
      → 0 < max
      → IsWithin max m
      → IsWithin (max - 1) (evict_first m)
  unfolding evict_first map_get
  evict-IsWithin max [] room h = record { distinct = tt; named = refl; bounded = omega arith }
  evict-IsWithin max ((k, e) ∷ rest) room h = elim (Bool-cases (str_eq k "")) [
    | inl empty ↦ absurd (ground (arith, h.named))
    | inr some_key ↦ rw some_key (record {
      distinct = h.distinct.1;
      named = ground (arith, h.named);
      bounded = omega (arith, h.bounded);
    })
  ]

  evict_if_needed-IsWithin :
      (c : MemoryCache V) → IsValid c → IsWithin (c.max_entries - 1) (evict_if_needed c).cache
  unfolding evict_if_needed
  evict_if_needed-IsWithin c v = elim (Bool-cases (leb c.max_entries (length c.cache))) [
    | inl full ↦ rw full (evict-IsWithin c.max_entries c.cache v.room v.within)
    | inr free ↦ rw free (record {
      distinct = v.within.distinct;
      named = v.within.named;
      bounded = ground (arith, v.room);
    })
  ]

  max-evict_if_needed : (c : MemoryCache V) → (evict_if_needed c).max_entries ≡ c.max_entries
  unfolding evict_if_needed
  max-evict_if_needed c = ground arith

  pub set-IsValid :
      (now : ℕ) (key : String) (value : V) (ttl : Option ℕ) (c : MemoryCache V)
      → key ≢ ""
      → IsValid c
      → IsValid (set now key value ttl c)
  unfolding set
  set-IsValid now key value ttl c some_key v = record {
    room = omega (arith, max-evict_if_needed c, v.room);
    within =
        set-IsWithin (c.max_entries - 1) _ key _ (evict_if_needed c).cache
          (omega (arith, max-evict_if_needed c, v.room)) some_key (evict_if_needed-IsWithin c v);
  }

  -- A read leaves the cache as it is, or deletes the key that has expired.
  get_state :
      (now : ℕ) (key : String) (c : MemoryCache V)
      → ((get now key c).0 ≡ c) ⊎ ((get now key c).0 ≡ del key c)
  unfolding get del
  get_state now key c = ground arith

  exists_state :
      (now : ℕ) (key : String) (c : MemoryCache V)
      → ((exists now key c).0 ≡ c) ⊎ ((exists now key c).0 ≡ del key c)
  unfolding exists del
  exists_state now key c = ground arith

  del-IsValid : (key : String) (c : MemoryCache V) → IsValid c → IsValid (del key c)
  unfolding del
  del-IsValid key c v = record {
    room = v.room;
    within = delete-IsWithin c.max_entries key c.cache v.within;
  }

  read-IsValid :
      (key : String) (c d : MemoryCache V) → (d ≡ c) ⊎ (d ≡ del key c) → IsValid c → IsValid d
  read-IsValid key c d (inl same) v = subst IsValid (sym same) v
  read-IsValid key c d (inr gone) v = subst IsValid (sym gone) (del-IsValid key c v)

  filtered-IsValid :
      (test : String × CacheEntry V → Bool) (c : MemoryCache V)
      → IsValid c
      → IsValid (record c { cache = filter_where test c.cache })
  filtered-IsValid test c v = record {
    room = v.room;
    within = filter-IsWithin c.max_entries test c.cache v.within;
  }

  delete_matching-IsValid :
      (made : Option (String → Bool)) (c : MemoryCache V)
      → IsValid c
      → IsValid (delete_matching made c)
  delete_matching-IsValid none c v = v
  delete_matching-IsValid (some test) c v = filtered-IsValid _ c v

  delete_matching-max :
      (made : Option (String → Bool)) (c : MemoryCache V)
      → (delete_matching made c).max_entries ≡ c.max_entries
  delete_matching-max none c = refl
  delete_matching-max (some test) c = refl

-- A call of the cache, at a time where it matters.
pub data Call (V : Type 0) : Type 0 where
  gets : ℕ → String → Call V
  sets : ℕ → String → V → Option ℕ → Call V
  deletes : String → Call V
  deletes_by_pattern : (String → Option (String → Bool)) → String → Call V
  checks : ℕ → String → Call V
  cleans : ℕ → Call V
  clears : Call V

module _ {V : Type 0} where
  unfoldable pub step : Call V → MemoryCache V → MemoryCache V
  step (gets now key) c = (get now key c).0
  step (sets now key value ttl) c = set now key value ttl c
  step (deletes key) c = del key c
  step (deletes_by_pattern regexp pattern) c = del_by_pattern regexp pattern c
  step (checks now key) c = (exists now key c).0
  step (cleans now) c = cleanup now c
  step clears c = clear c

  unfoldable pub run : List (Call V) → MemoryCache V → MemoryCache V
  run [] c = c
  run (call ∷ calls) c = run calls (step call c)

  -- The call does not set the empty key.
  abbrev pub NamesKey : Call V → Type 0
  NamesKey (sets now key value ttl) = key ≢ ""
  NamesKey _ = Unit

  step-IsValid :
      (call : Call V) (c : MemoryCache V) → NamesKey call → IsValid c → IsValid (step call c)
  unfolding step del_by_pattern cleanup clear map_get
  step-IsValid (gets now key) c k v = read-IsValid key c _ (get_state now key c) v
  step-IsValid (sets now key value ttl) c k v = set-IsValid now key value ttl c k v
  step-IsValid (deletes key) c k v = del-IsValid key c v
  step-IsValid (deletes_by_pattern regexp pattern) c k v =
      delete_matching-IsValid (regexp (regexp_text pattern)) c v
  step-IsValid (checks now key) c k v = read-IsValid key c _ (exists_state now key c) v
  step-IsValid (cleans now) c k v = filtered-IsValid _ c v
  step-IsValid clears c k v = record {
    room = v.room;
    within = record { distinct = tt; named = refl; bounded = omega arith };
  }

  run-IsValid :
      (calls : List (Call V)) (c : MemoryCache V)
      → All NamesKey calls
      → IsValid c
      → IsValid (run calls c)
  unfolding run
  run-IsValid [] c k v = v
  run-IsValid (call ∷ calls) c (k, ks) v =
      run-IsValid calls (step call c) ks (step-IsValid call c k v)

  new-IsValid : (max ttl : Option ℕ) → IsValid (new {V = V} max ttl)
  unfolding new map_get
  new-IsValid max ttl = record {
    room = ground arith;
    within = record { distinct = tt; named = refl; bounded = omega arith };
  }

  step-max : (call : Call V) (c : MemoryCache V) → (step call c).max_entries ≡ c.max_entries
  unfolding step del_by_pattern cleanup clear get exists del set
  step-max (gets now key) c = ground arith
  step-max (sets now key value ttl) c = max-evict_if_needed c
  step-max (checks now key) c = ground arith
  step-max (deletes_by_pattern regexp pattern) c =
      delete_matching-max (regexp (regexp_text pattern)) c
  step-max _ c = refl

  run-max : (calls : List (Call V)) (c : MemoryCache V) → (run calls c).max_entries ≡ c.max_entries
  unfolding run
  run-max [] c = refl
  run-max (call ∷ calls) c = run-max calls (step call c) ∙ step-max call c

  -- A cache made with the default size, or a size other than 0, never holds more entries than that
  -- size, after whatever calls, if none of them sets the empty key; and no key is there twice.
  pub run-IsBounded :
      (max ttl : Option ℕ) (calls : List (Call V))
      → All NamesKey calls
      → (length (run calls (new max ttl)).cache ≤ (new {V = V} max ttl).max_entries)
        × HasDistinctKeys (run calls (new max ttl)).cache
  run-IsBounded max ttl calls k =
      let v = run-IsValid calls (new max ttl) k (new-IsValid max ttl) in
      (omega (arith, v.within.bounded, run-max calls (new max ttl)), v.within.distinct)

  -- The empty key in front is never evicted.
  empty_key_stays :
      (c : MemoryCache V) (e : CacheEntry V) (rest : List (String × CacheEntry V))
      → c.cache ≡ ("", e) ∷ rest
      → (evict_if_needed c).cache ≡ c.cache
  unfolding evict_if_needed evict_first
  empty_key_stays c e rest front = ground (arith, eq_iff "" "")

  -- With the empty key in front, a cache grows at every new key, however full it is.
  set-grows_past_empty_key :
      (now : ℕ) (key : String) (value : V) (ttl : Option ℕ) (c : MemoryCache V) (e : CacheEntry V)
      (rest : List (String × CacheEntry V))
      → c.cache ≡ ("", e) ∷ rest
      → map_get key c.cache ≡ none
      → length (set now key value ttl c).cache ≡ suc (length c.cache)
  unfolding set
  set-grows_past_empty_key now key value ttl c e rest front new_key =
      let stays = empty_key_stays c e rest front in
      length-map_set_new key _ (evict_if_needed c).cache (ap (map_get key) stays ∙ new_key)
      ∙ ap (λ m. suc (length m)) stays
