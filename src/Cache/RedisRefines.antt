-- ===== src/Cache/RedisRefines.antt =====
-- The Redis provider, while Redis answers, is the cache that it promises.
use fetchit_be.Base.{
  ℕ, ◌+◌, ◌*◌, ◌≡◌, ◌≤◌, ◌==◌, leb, refl, sym, ap, ◌∙◌, arith, String, Bool, true, Option, none,
  some, List, [], ◌∷◌, map, if◌then◌else◌, ◌&&◌, ◌||◌, inl, inr, Option-cases, Bool-cases,
}
use text.Mathlib.Text.{◌==◌ as str_eq}
use Prim.Native.String.{◌++◌}
use mathlib.Core.Path.{ap₂}
use fetchit_be.Cache.{effective_ttl}
use fetchit_be.Cache.Service.{
  Request, reads, writes, removes, removes_pattern, asks, empties, reads_all, writes_all, found,
  present, found_all, serve, answers, Simulation, answers_alike,
}
use fetchit_be.Cache.Abstract.{
  live, live_later, is_some, Contents, empty, write, write_all, abstract_cache,
}
use fetchit_be.Cache.Redis.{
  Client, Json, or_unchanged, prefix_key, parsed, get, set, del, del_keys, del_by_pattern, exists,
  clear, mget, mset, command, redis_cache,
}
use fetchit_be.Cache.RedisLaws.{contains, IsServing, IsJson, IsPlain, prefixed_same}
use fetchit_be.Cache.RedisTexts.{
  stored, is_some-stored, stored-write, parsed-stored, written-write_all,
}

module _ {V : Type 0} (client : Client) (json : Json V) (prefix : String)
    (glob matches : String → String → Bool) (serving : IsServing client glob) (round : IsJson json)
    (plain : IsPlain glob matches prefix) where
  -- From a time on, Redis holds the texts of the contents under their prefixed keys.
  Holds : ℕ → client.Store → Contents V → Type 0
  Holds now s m =
      (key : String) (later : ℕ)
      → now ≤ later
      → serving.read later (prefix ++ key) s ≡ stored json (live later (m key))

  get-Holds :
      (now : ℕ) (key : String) (s : client.Store) (m : Contents V)
      → Holds now s m
      → get client json prefix now key s ≡ live now (m key)
  unfolding get Holds
  get-Holds now key s m h =
      rw (get, serving.get_ok now (prefix ++ key) s)
        (ap (parsed client json prefix) (h key now (omega arith))
          ∙ parsed-stored json client prefix round (live now (m key)))

  exists-Holds :
      (now : ℕ) (key : String) (s : client.Store) (m : Contents V)
      → Holds now s m
      → exists client json prefix now key s ≡ is_some (live now (m key))
  unfolding exists Holds
  exists-Holds now key s m h =
      rw
        (
          exists,
          serving.exists_ok now (prefix ++ key) s,
          h key now (omega arith),
          is_some-stored json (live now (m key)),
        )
        (elim (Bool-cases (is_some (live now (m key)))) [ inl e ↦ rw e refl | inr e ↦ rw e refl ])

  -- A store that reads as after a write, up to the prefix.
  written-Holds :
      (now ttl : ℕ) (key : String) (value : V) (s t : client.Store) (m : Contents V)
      → ((later : ℕ) (j : String)
          → now ≤ later
          → serving.read later j t ≡ (
              if str_eq (prefix ++ key) j
              then (if ttl == 0 || leb later (now + ttl * 1000)
                  then some (json.stringify value)
                  else none)
              else serving.read later j s))
      → Holds now s m
      → Holds now t (write now key value ttl m)
  unfolding Holds
  written-Holds now ttl key value s t m r h j later le =
      r later (prefix ++ j) le
      ∙ rw (prefixed_same prefix key j, h j later le) refl
      ∙ sym (stored-write json now later ttl key j value m)

  plain_set-Holds :
      (now : ℕ) (key : String) (value : V) (s : client.Store) (m : Contents V)
      → Holds now s m
      → Holds now
          (or_unchanged s (client.set now (prefix ++ key) (json.stringify value) s))
          (write now key value 0 m)
  plain_set-Holds now key value s m h =
      let (t, e, r) = serving.set_ok now (prefix ++ key) (json.stringify value) s in
      rw e (written-Holds now 0 key value s t m r h)

  set-Holds :
      (now : ℕ) (key : String) (value : V) (ttl : Option ℕ) (s : client.Store) (m : Contents V)
      → Holds now s m
      → Holds now
          (set client json prefix now key value ttl s)
          (write now key value (effective_ttl ttl 0) m)
  unfolding set
  set-Holds now key value none s m h = plain_set-Holds now key value s m h
  set-Holds now key value (some ttl) s m h = elim (Bool-cases (ttl == 0)) [
    | inl zero_ttl ↦
        let e : ttl ≡ 0 = ground arith in rw (zero_ttl, e) (plain_set-Holds now key value s m h)
    | inr e0 ↦
        let (t, e, r) =
          serving.setex_ok now (prefix ++ key) ttl (json.stringify value) s (ground arith) in
        rw (e0, e)
          (written-Holds now ttl key value s t m (λ later j le. r later j le ∙ rw e0 refl) h)
  ]

  mset-Holds :
      (now : ℕ) (entries : List (String × V × Option ℕ)) (s : client.Store) (m : Contents V)
      → Holds now s m
      → Holds now (mset client json prefix now entries s) (write_all 0 now entries m)
  unfolding mset Holds
  mset-Holds now entries s m h j later le =
      let (t, e, r) = serving.exec_ok now (map (command client json prefix) entries) s in
      rw e (
        r later (prefix ++ j) le
        ∙ written-write_all client json prefix now later entries m j _ (h j later le))

  del-Holds :
      (now : ℕ) (key : String) (s : client.Store) (m : Contents V)
      → Holds now s m
      → Holds now (del client json prefix now key s) (λ j. if str_eq key j then none else m j)
  unfolding del Holds live
  del-Holds now key s m h j later le =
      let (t, e, r) = serving.del_ok now (prefix ++ key) [] s in
      rw e (
        r later (prefix ++ j) le ∙ elim (Bool-cases (str_eq key j)) [
          | inl same ↦ rw (prefixed_same prefix key j, same) refl
          | inr other ↦ rw (prefixed_same prefix key j, other) (h j later le)
        ])

  -- After `keys` and `del`: what the pattern matches is gone, what it does not match is kept.
  del_keys-Holds :
      (now : ℕ) (pattern : String) (gone : String → Bool) (s : client.Store) (m : Contents V)
      → ((j : String) → glob pattern (prefix ++ j) ≡ gone j)
      → Holds now s m
      → Holds now
          (del_keys client json prefix now (client.keys now pattern s) s)
          (λ j. if gone j then none else m j)
  unfolding del_keys Holds live
  del_keys-Holds now pattern gone s m matched h =
      let (ks, e, listed) = serving.keys_ok now pattern s in
      rw e (
        go ks (λ j.
          listed (prefix ++ j)
          ∙ rw (matched j, h j now (omega arith), is_some-stored json (live now (m j))) refl))
    where
      -- A key that is listed is gone, and one that matches and is not listed has expired.
      read_back :
          (ks : List String) (j : String) (later : ℕ) (t : client.Store)
          → now ≤ later
          → contains ks (prefix ++ j) ≡ (gone j && is_some (live now (m j)))
          → serving.read later (prefix ++ j) t
            ≡ (if contains ks (prefix ++ j) then none else serving.read later (prefix ++ j) s)
          → serving.read later (prefix ++ j) t
            ≡ stored json (live later (if gone j then none else m j))
      read_back ks j later t le listed r = r ∙ elim (Bool-cases (gone j)) [
        | inr stays ↦ rw (listed, stays) (h j later le)
        | inl goes ↦ elim (Option-cases (live now (m j))) [
          | inr (value, there) ↦ rw (listed, goes, there) refl
          | inl expired ↦
              rw (listed, goes, expired)
                (h j later le ∙ ap (stored json) (live_later now later (m j) le expired))
        ]
      ]

      go :
          (ks : List String)
          → ((j : String) → contains ks (prefix ++ j) ≡ (gone j && is_some (live now (m j))))
          → Holds now
              (del_keys client json prefix now (some ks) s)
              (λ j. if gone j then none else m j)
      go [] listed j later le = read_back [] j later s le (listed j) refl
      go (k ∷ ks) listed j later le =
          let (t, e, r) = serving.del_ok now k ks s in
          rw e (read_back (k ∷ ks) j later t le (listed j) (r later (prefix ++ j) le))

  parsed_all :
      (now : ℕ) (keys : List String) (s : client.Store) (m : Contents V)
      → Holds now s m
      → map
          (parsed client json prefix)
          (map (λ j. serving.read now j s) (map (prefix_key client json prefix) keys))
        ≡ map (λ key. live now (m key)) keys
  unfolding Holds
  parsed_all now [] s m h = refl
  parsed_all now (key ∷ keys) s m h =
      ap₂ ◌∷◌
        (ap (parsed client json prefix) (h key now (omega arith))
          ∙ parsed-stored json client prefix round (live now (m key)))
        (parsed_all now keys s m h)

  mget-Holds :
      (now : ℕ) (keys : List String) (s : client.Store) (m : Contents V)
      → Holds now s m
      → mget client json prefix now keys s ≡ map (λ key. live now (m key)) keys
  unfolding mget
  mget-Holds now [] s m h = rw (mget, serving.mget_rejects now s) refl
  mget-Holds now (key ∷ keys) s m h =
      rw (mget, serving.mget_ok now (prefix ++ key) (map (prefix_key client json prefix) keys) s)
        (parsed_all now (key ∷ keys) s m h)

  redis_serve :
      (now room : ℕ) (request : Request V) (s : client.Store) (m : Contents V)
      → Holds now s m
      → ((serve (redis_cache client json prefix) now request s).1
          ≡ (serve (abstract_cache 0 matches) now request m).1)
        × Holds now
            (serve (redis_cache client json prefix) now request s).0
            (serve (abstract_cache 0 matches) now request m).0
  unfolding serve del_by_pattern clear
  redis_serve now room (reads key) s m h = (ap found (get-Holds now key s m h), h)
  redis_serve now room (writes key value ttl) s m h = (refl, set-Holds now key value ttl s m h)
  redis_serve now room (removes key) s m h = (refl, del-Holds now key s m h)
  redis_serve now room (removes_pattern pattern) s m h = (
    refl,
    del_keys-Holds now (prefix ++ pattern) (matches pattern) s m (plain.after_prefix pattern) h,
  )
  redis_serve now room (asks key) s m h = (ap present (exists-Holds now key s m h), h)
  redis_serve now room empties s m h =
      (refl, del_keys-Holds now (prefix ++ "*") (λ j. true) s m plain.star h)
  redis_serve now room (reads_all keys) s m h = (ap found_all (mget-Holds now keys s m h), h)
  redis_serve now room (writes_all entries) s m h = (refl, mset-Holds now entries s m h)

  redis_simulation : Simulation (redis_cache client json prefix) (abstract_cache {V = V} 0 matches)
  unfolding Holds
  redis_simulation = record {
    Related = λ now room. Holds now;
    related_later = λ now later room s m h key at le. h key at (omega (arith, le));
    serve_alike = redis_serve;
  }

  -- While Redis answers, the Redis provider answers every call as the abstract cache in which an
  -- entry that is written with no lifetime stays, if at first no prefixed key is held: the prefix,
  -- the texts of the values, and the two commands of a removal by pattern are not seen.
  pub redis_answers-abstract :
      (requests : List (ℕ × Request V)) (s : client.Store)
      → ((key : String) (later : ℕ) → serving.read later (prefix ++ key) s ≡ none)
      → answers (redis_cache client json prefix) 0 requests s
        ≡ answers (abstract_cache 0 matches) 0 requests empty
  unfolding redis_simulation Holds live
  redis_answers-abstract requests s fresh =
      answers_alike redis_simulation 0 requests s empty (λ key later le. fresh key later)
