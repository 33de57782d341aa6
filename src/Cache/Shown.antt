-- ===== src/Cache/Shown.antt =====
-- When the memory provider shows the contents of a cache, and that its operations keep it so.
use fetchit_be.Base.{
  ℕ, suc, ◌+◌, ◌≡◌, ◌≤◌, refl, sym, ap, subst, ◌∙◌, arith, String, Bool, false, not, Option, none,
  some, List, [], ◌∷◌, map, length, if◌then◌else◌, inl, inr, Option-cases, Bool-cases,
}
use text.Mathlib.Text.{◌==◌ as str_eq}
use text.Mathlib.TextEquality.{eq_iff}
use mathlib.Core.Path.{ap₂}
use fetchit_be.Cache.{
  MemoryCache, CacheEntry, map_get, map_set, evict_if_needed, get, set, del, delete_matching,
  exists, clear, mget, mset, is_expired, expiry, effective_ttl,
}
use fetchit_be.Cache.Entries.{
  map_get-map_set, length-map_set, length-map_delete-le, length-filter_where-le, HasDistinctKeys,
  map_set-HasDistinctKeys, map_get-map_delete, map_delete-HasDistinctKeys, kept,
  map_get-filter_where, filter_where-HasDistinctKeys,
}
use fetchit_be.Cache.Abstract.{live, last_moment, is_some, Contents, empty, write, write_all}

-- The keys that a regular expression matches, if there is one.
abbrev pub selected : Option (String → Bool) → String → Bool
selected none key = false
selected (some test) key = test key

module _ {V : Type 0} where
  -- The value that the provider gives for an entry.
  unfoldable pub shown_at : ℕ → Option (CacheEntry V) → Option V
  shown_at now none = none
  shown_at now (some e) = if is_expired now e then none else some e.value

  -- What has expired stays so.
  shown_later :
      (now later : ℕ) (o : Option (CacheEntry V))
      → now ≤ later
      → shown_at now o ≡ none
      → shown_at later o ≡ none
  unfolding shown_at is_expired
  shown_later now later none le h = refl
  shown_later now later (some e) le h = ground arith

  -- The time that is written next to a value says how long it may be read.
  shown_at-expiry :
      (now later ttl : ℕ) (value : V)
      → shown_at later (some (record { value = value; expires_at = expiry now ttl }))
        ≡ live later (some (record { value = value; until = last_moment now ttl }))
  unfolding shown_at live is_expired expiry
  shown_at-expiry now later ttl value = ground arith

module _ {V : Type 0} (default : ℕ) where
  -- The cache has room for the entries still to be written, and shows what the contents show, now
  -- and later.
  pub record Shows (clock room : ℕ) (c : MemoryCache V) (m : Contents V) : Type 0 where
    pub lifetime : c.default_ttl ≡ default
    pub distinct : HasDistinctKeys c.cache
    pub fits : length c.cache + room ≤ c.max_entries
    pub shown :
        (key : String) (later : ℕ)
        → clock ≤ later
        → shown_at later (map_get key c.cache) ≡ live later (m key)

  pub get-shown_at :
      (now : ℕ) (key : String) (c : MemoryCache V)
      → (get now key c).1 ≡ shown_at now (map_get key c.cache)
  unfolding get shown_at
  get-shown_at now key c = ground arith

  pub exists-shown_at :
      (now : ℕ) (key : String) (c : MemoryCache V)
      → (exists now key c).1 ≡ is_some (shown_at now (map_get key c.cache))
  unfolding exists shown_at
  exists-shown_at now key c = elim (Option-cases (map_get key c.cache)) [
    | inl e ↦ rw (exists, e, shown_at) refl
    | inr (a, e) ↦ elim (Bool-cases (is_expired now a)) [
      | inl x ↦ rw (exists, e, shown_at, x) refl
      | inr x ↦ rw (exists, e, shown_at, x) refl
    ]
  ]

  -- Deleting a key that has expired shows nothing.
  expired-Shows :
      (now room : ℕ) (key : String) (c : MemoryCache V) (m : Contents V)
      → shown_at now (map_get key c.cache) ≡ none
      → Shows now room c m
      → Shows now room (del key c) m
  unfolding del shown_at
  expired-Shows now room key c m gone h = record {
    lifetime = h.lifetime;
    distinct = map_delete-HasDistinctKeys key c.cache h.distinct;
    fits = omega (arith, length-map_delete-le key c.cache, h.fits);
    shown = λ j later le.
        ap (shown_at later) (map_get-map_delete key j c.cache h.distinct)
        ∙ elim (Bool-cases (str_eq key j)) [
          | inl same ↦
              let e : key ≡ j = (eq_iff key j).0 same in
              rw same (
                sym (
                  shown_later now later (map_get j c.cache) le
                    (ap (λ z. shown_at now (map_get z c.cache)) (sym e) ∙ gone))
                ∙ h.shown j later le)
          | inr other ↦ rw other (h.shown j later le)
        ];
  }

  pub get-Shows :
      (now room : ℕ) (key : String) (c : MemoryCache V) (m : Contents V)
      → Shows now room c m
      → Shows now room (get now key c).0 m
  unfolding get shown_at del
  get-Shows now room key c m h = elim (Option-cases (map_get key c.cache)) [
    | inl e ↦ rw (get, e) h
    | inr (a, e) ↦ elim (Bool-cases (is_expired now a)) [
      | inl x ↦
          rw (get, e, x)
            (expired-Shows now room key c m (ap (shown_at now) e ∙ rw (shown_at, x) refl) h)
      | inr x ↦ rw (get, e, x) h
    ]
  ]

  pub exists-Shows :
      (now room : ℕ) (key : String) (c : MemoryCache V) (m : Contents V)
      → Shows now room c m
      → Shows now room (exists now key c).0 m
  unfolding exists shown_at del
  exists-Shows now room key c m h = elim (Option-cases (map_get key c.cache)) [
    | inl e ↦ rw (exists, e) h
    | inr (a, e) ↦ elim (Bool-cases (is_expired now a)) [
      | inl x ↦
          rw (exists, e, x)
            (expired-Shows now room key c m (ap (shown_at now) e ∙ rw (shown_at, x) refl) h)
      | inr x ↦ rw (exists, e, x) h
    ]
  ]

  roomy : (c : MemoryCache V) → suc (length c.cache) ≤ c.max_entries → evict_if_needed c ≡ c
  unfolding evict_if_needed
  roomy c le = ground arith

  -- The cache after `set` with no eviction.
  abbrev after_set : ℕ → String → V → Option ℕ → MemoryCache V → MemoryCache V
  after_set now key value ttl c = record c {
    cache =
        map_set key
          (record { value = value; expires_at = expiry now (effective_ttl ttl c.default_ttl) })
          c.cache;
  }

  set_roomy :
      (now : ℕ) (key : String) (value : V) (ttl : Option ℕ) (c : MemoryCache V)
      → suc (length c.cache) ≤ c.max_entries
      → set now key value ttl c ≡ after_set now key value ttl c
  unfolding set
  set_roomy now key value ttl c le = ap (after_set now key value ttl) (roomy c le)

  after_set-Shows :
      (now room : ℕ) (key : String) (value : V) (ttl : Option ℕ) (c : MemoryCache V)
      (m : Contents V)
      → Shows now (suc room) c m
      → Shows now room
          (after_set now key value ttl c)
          (write now key value (effective_ttl ttl default) m)
  unfolding write
  after_set-Shows now room key value ttl c m h = record {
    lifetime = h.lifetime;
    distinct = map_set-HasDistinctKeys key _ c.cache h.distinct;
    fits = omega (arith, length-map_set key _ c.cache, h.fits);
    shown = λ j later le.
        ap (shown_at later) (map_get-map_set key j _ c.cache) ∙ elim (Bool-cases (str_eq key j)) [
          | inl same ↦
              rw (same, h.lifetime) (shown_at-expiry now later (effective_ttl ttl default) value)
          | inr other ↦ rw other (h.shown j later le)
        ];
  }

  pub set-Shows :
      (now room : ℕ) (key : String) (value : V) (ttl : Option ℕ) (c : MemoryCache V)
      (m : Contents V)
      → Shows now (suc room) c m
      → Shows now room (set now key value ttl c) (write now key value (effective_ttl ttl default) m)
  set-Shows now room key value ttl c m h =
      subst (λ z. Shows now room z (write now key value (effective_ttl ttl default) m))
        (sym (set_roomy now key value ttl c (omega (arith, h.fits))))
        (after_set-Shows now room key value ttl c m h)

  pub with_room :
      (now room less : ℕ) (c : MemoryCache V) (m : Contents V)
      → less ≤ room
      → Shows now room c m
      → Shows now less c m
  with_room now room less c m le h = record {
    lifetime = h.lifetime;
    distinct = h.distinct;
    fits = omega (arith, le, h.fits);
    shown = h.shown;
  }

  pub mset-Shows :
      (now room : ℕ) (entries : List (String × V × Option ℕ)) (c : MemoryCache V) (m : Contents V)
      → Shows now (length entries + room) c m
      → Shows now room (mset now entries c) (write_all default now entries m)
  unfolding mset write_all
  mset-Shows now room [] c m h = with_room now _ room c m (omega arith) h
  mset-Shows now room ((key, value, ttl) ∷ entries) c m h = mset-Shows now room entries _ _ (
      set-Shows now (length entries + room) key value ttl c m
        (with_room now _ (suc (length entries + room)) c m (omega arith) h))

  pub mget-Shows :
      (now room : ℕ) (keys : List String) (c : MemoryCache V) (m : Contents V)
      → Shows now room c m
      → ((mget now keys c).1 ≡ map (λ key. live now (m key)) keys)
        × Shows now room (mget now keys c).0 m
  unfolding mget
  mget-Shows now room [] c m h = (refl, h)
  mget-Shows now room (key ∷ keys) c m h =
      let (same, next) =
        mget-Shows now room keys (get now key c).0 m (get-Shows now room key c m h) in
      (ap₂ ◌∷◌ (get-shown_at now key c ∙ h.shown key now (omega arith)) same, next)

  -- Removing the keys that a test picks.
  pub filter-Shows :
      (now room : ℕ) (test : String → Bool) (c : MemoryCache V) (m : Contents V)
      → Shows now room c m
      → Shows now room (delete_matching (some test) c) (λ j. if test j then none else m j)
  unfolding live shown_at
  filter-Shows now room test c m h = record {
    lifetime = h.lifetime;
    distinct = filter_where-HasDistinctKeys _ c.cache h.distinct;
    fits = omega (arith, length-filter_where-le (λ entry. not (test entry.0)) c.cache, h.fits);
    shown = λ j later le.
        ap (shown_at later) (map_get-filter_where _ j c.cache h.distinct)
        ∙ kept_shown j later (map_get j c.cache) (h.shown j later le);
  }
    where
      kept_shown :
          (j : String) (later : ℕ) (o : Option (CacheEntry V))
          → shown_at later o ≡ live later (m j)
          → shown_at later (kept (λ entry. not (test entry.0)) j o)
            ≡ live later (if test j then none else m j)
      kept_shown j later none e = elim (Bool-cases (test j)) [ inl t ↦ rw t refl | inr t ↦ rw t e ]
      kept_shown j later (some a) e = elim (Bool-cases (test j)) [
        | inl t ↦ rw t refl
        | inr t ↦ rw t e
      ]

  -- Removing by pattern: what its regular expression matches goes, and nothing if there is none.
  pub pattern-Shows :
      (now room : ℕ) (made : Option (String → Bool)) (c : MemoryCache V) (m : Contents V)
      → Shows now room c m
      → Shows now room (delete_matching made c) (λ j. if selected made j then none else m j)
  pattern-Shows now room none c m h = h
  pattern-Shows now room (some test) c m h = filter-Shows now room test c m h

  pub del-Shows :
      (now room : ℕ) (key : String) (c : MemoryCache V) (m : Contents V)
      → Shows now room c m
      → Shows now room (del key c) (λ j. if str_eq key j then none else m j)
  unfolding del live shown_at
  del-Shows now room key c m h = record {
    lifetime = h.lifetime;
    distinct = map_delete-HasDistinctKeys key c.cache h.distinct;
    fits = omega (arith, length-map_delete-le key c.cache, h.fits);
    shown = λ j later le.
        ap (shown_at later) (map_get-map_delete key j c.cache h.distinct)
        ∙ elim (Bool-cases (str_eq key j)) [
          | inl same ↦ rw same refl
          | inr other ↦ rw other (h.shown j later le)
        ];
  }

  pub clear-Shows :
      (now room : ℕ) (c : MemoryCache V) (m : Contents V)
      → Shows now room c m
      → Shows now room (clear c) empty
  unfolding clear map_get live shown_at
  clear-Shows now room c m h = record {
    lifetime = h.lifetime;
    distinct = tt;
    fits = omega (arith, h.fits);
    shown = λ j later le. refl;
  }
