-- ===== src/Cache/Redis.antt =====
-- src/cache/providers/redis-cache.provider.ts. The Redis client and JSON are parameters. A command
-- of the client gives `none` where its promise is rejected: the provider then answers as if nothing
-- were there, and leaves the store as it is. Commands whose promise stays pending, as it does while
-- the client queues them with no connection (`enableOfflineQueue`, `maxRetriesPerRequest: null`), are
-- not modelled: the call of the provider then does not return before the connection is back.
use fetchit_be.Base.{
  ℕ, ◌==◌, String, Bool, false, Option, none, some, List, [], ◌∷◌, map, if◌then◌else◌,
}
use text.Mathlib.Text.{◌==◌ as str_eq}
use Prim.Native.String.{◌++◌}
use mathlib.Core.List.{List}
use fetchit_be.Cache.Service.{CacheProvider}

-- A command of a pipeline.
pub data Command : Type 0 where
  store : String → String → Command
  store_for : String → ℕ → String → Command

-- What the provider calls of ioredis. `get` of a command gives `some none` where the key is absent.
pub record Client : Type 1 where
  pub Store : Type 0
  pub get : ℕ → String → Store → Option (Option String)
  pub set : ℕ → String → String → Store → Option Store
  pub setex : ℕ → String → ℕ → String → Store → Option Store
  pub del : ℕ → List String → Store → Option Store
  pub keys : ℕ → String → Store → Option (List String)
  pub exists : ℕ → String → Store → Option ℕ
  pub mget : ℕ → List String → Store → Option (List (Option String))
  pub exec : ℕ → List Command → Store → Option Store

-- `JSON.stringify` and `JSON.parse`; the parser throws where it gives `none`.
pub record Json (V : Type 0) : Type 0 where
  pub stringify : V → String
  pub parse : String → Option V

-- `catch`, in an operation that gives nothing.
abbrev pub or_unchanged {ℓ} : {A : Type ℓ} → A → Option A → A
or_unchanged s none = s
or_unchanged s (some t) = t

-- `options.keyPrefix || 'cache:'`
abbrev pub key_prefix : Option String → String
key_prefix none = "cache:"
key_prefix (some prefix) = if str_eq prefix "" then "cache:" else prefix

module _ {V : Type 0} (client : Client) (json : Json V) (prefix : String) where
  abbrev pub prefix_key : String → String
  prefix_key key = prefix ++ key

  -- `if (!data) return null`, then `JSON.parse` under the same `try`.
  unfoldable pub parsed : Option String → Option V
  parsed none = none
  parsed (some text) = if str_eq text "" then none else json.parse text

  unfoldable pub get : ℕ → String → client.Store → Option V
  get now key s = elim (client.get now (prefix_key key) s) [ none ↦ none | some text ↦ parsed text ]

  unfoldable pub set : ℕ → String → V → Option ℕ → client.Store → client.Store
  set now key value none s =
      or_unchanged s (client.set now (prefix_key key) (json.stringify value) s)
  set now key value (some ttl) s =
      if ttl == 0
      then or_unchanged s (client.set now (prefix_key key) (json.stringify value) s)
      else or_unchanged s (client.setex now (prefix_key key) ttl (json.stringify value) s)

  unfoldable pub del : ℕ → String → client.Store → client.Store
  del now key s = or_unchanged s (client.del now (prefix_key key ∷ []) s)

  -- `keys`, then `del` of the keys it gave, if any.
  unfoldable pub del_keys : ℕ → Option (List String) → client.Store → client.Store
  del_keys now none s = s
  del_keys now (some []) s = s
  del_keys now (some (key ∷ keys)) s = or_unchanged s (client.del now (key ∷ keys) s)

  unfoldable pub del_by_pattern : ℕ → String → client.Store → client.Store
  del_by_pattern now pattern s = del_keys now (client.keys now (prefix_key pattern) s) s

  unfoldable pub exists : ℕ → String → client.Store → Bool
  exists now key s = elim (client.exists now (prefix_key key) s) [
    | none ↦ false
    | some result ↦ result == 1
  ]

  unfoldable pub clear : ℕ → client.Store → client.Store
  clear now s = del_keys now (client.keys now (prefix ++ "*") s) s

  unfoldable pub mget : ℕ → List String → client.Store → List (Option V)
  mget now keys s = elim (client.mget now (map prefix_key keys) s) [
    | none ↦ map (λ key. none) keys
    | some results ↦ map parsed results
  ]

  abbrev pub command : String × V × Option ℕ → Command
  command (key, value, none) = store (prefix_key key) (json.stringify value)
  command (key, value, some ttl) =
      if ttl == 0
      then store (prefix_key key) (json.stringify value)
      else store_for (prefix_key key) ttl (json.stringify value)

  unfoldable pub mset : ℕ → List (String × V × Option ℕ) → client.Store → client.Store
  mset now entries s = or_unchanged s (client.exec now (map command entries) s)

  -- `RedisCacheProvider`
  abbrev pub redis_cache : CacheProvider V
  redis_cache = record {
    State = client.Store;
    get = λ now key s. (s, get now key s);
    set = set;
    del = del;
    del_by_pattern = del_by_pattern;
    exists = λ now key s. (s, exists now key s);
    clear = clear;
    mget = λ now keys s. (s, mget now keys s);
    mset = mset;
  }
