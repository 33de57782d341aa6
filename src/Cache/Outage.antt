-- ===== src/Cache/Outage.antt =====
-- The Redis provider while every command of Redis is rejected, as it is by an error reply or after
-- `quit`. A lost connection is another matter: the client then queues commands, with no limit on
-- retries, and the calls of the provider wait.
use fetchit_be.Base.{ℕ, ◌≡◌, String, false, none, List, map}
use fetchit_be.Cache.Service.{
  Request, reads, asks, reads_all, Answer, found, present, found_all, done,
}
use fetchit_be.Cache.Redis.{Client, get, set, del, exists, mget}

-- Every command is rejected.
pub record IsRejecting (client : Client) : Type 0 where
  pub get_rejects : (now : ℕ) (k : String) (s : client.Store) → client.get now k s ≡ none
  pub set_rejects : (now : ℕ) (k v : String) (s : client.Store) → client.set now k v s ≡ none
  pub setex_rejects :
      (now : ℕ) (k : String) (ttl : ℕ) (v : String) (s : client.Store)
      → client.setex now k ttl v s ≡ none
  pub del_rejects : (now : ℕ) (ks : List String) (s : client.Store) → client.del now ks s ≡ none
  pub keys_rejects : (now : ℕ) (p : String) (s : client.Store) → client.keys now p s ≡ none
  pub exists_rejects : (now : ℕ) (k : String) (s : client.Store) → client.exists now k s ≡ none
  pub mget_rejects : (now : ℕ) (ks : List String) (s : client.Store) → client.mget now ks s ≡ none
  pub exec_rejects : (now : ℕ) (cs : List _) (s : client.Store) → client.exec now cs s ≡ none

-- The answer of a cache that holds nothing.
abbrev pub miss : {V : Type 0} → Request V → Answer V
miss (reads key) = found none
miss (asks key) = present false
miss (reads_all keys) = found_all (map (λ key. none) keys)
miss _ = done
