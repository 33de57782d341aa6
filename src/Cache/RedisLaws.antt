-- ===== src/Cache/RedisLaws.antt =====
-- What the Redis provider relies on: the commands of Redis, JSON, and a plain prefix.
use fetchit_be.Base.{
  ℕ, ◌+◌, ◌*◌, ◌≡◌, ◌≤◌, ◌<◌, leb, sym, ap, ◌∙◌, arith, String, Bool, true, false, Option, none,
  some, List, [], ◌∷◌, map, if◌then◌else◌, ◌&&◌, ◌||◌, inl, inr, Bool-cases,
}
use text.Mathlib.Text.{◌==◌ as str_eq}
use text.Mathlib.TextEquality.{eq_iff}
use text.Mathlib.TextLemmas.{append_cancel_left}
use Prim.Native.String.{◌++◌}
use fetchit_be.Cache.Abstract.{is_some}
use fetchit_be.Cache.Redis.{Client, Json, Command, store, store_for}

abbrev pub contains : List String → String → Bool
contains [] j = false
contains (k ∷ ks) j = str_eq k j || contains ks j

-- What a key holds after the commands of a pipeline, from what it held before.
abbrev pub written : ℕ → ℕ → List Command → String → Option String → Option String
written now later [] j before = before
written now later (store key value ∷ commands) j before =
    written now later commands j (if str_eq key j then some value else before)
written now later (store_for key ttl value ∷ commands) j before =
    written now later commands j
      (if str_eq key j then (if leb later (now + ttl * 1000) then some value else none) else before)

-- The documented commands of Redis, when it is reached: `read` is what a key holds at a time.
pub record IsServing (client : Client) (glob : String → String → Bool) : Type 0 where
  pub read : ℕ → String → client.Store → Option String
  pub get_ok : (now : ℕ) (k : String) (s : client.Store) → client.get now k s ≡ some (read now k s)
  pub exists_ok :
      (now : ℕ) (k : String) (s : client.Store)
      → client.exists now k s ≡ some (if is_some (read now k s) then 1 else 0)
  pub mget_ok :
      (now : ℕ) (k : String) (ks : List String) (s : client.Store)
      → client.mget now (k ∷ ks) s ≡ some (map (λ j. read now j s) (k ∷ ks))
  -- MGET with no key is an error.
  pub mget_rejects : (now : ℕ) (s : client.Store) → client.mget now [] s ≡ none
  pub keys_ok :
      (now : ℕ) (pattern : String) (s : client.Store)
      → (ks : List String) × (client.keys now pattern s ≡ some ks)
        × ((j : String) → contains ks j ≡ (glob pattern j && is_some (read now j s)))
  pub set_ok :
      (now : ℕ) (k v : String) (s : client.Store)
      → (t : client.Store) × (client.set now k v s ≡ some t)
        × ((later : ℕ) (j : String)
            → now ≤ later
            → read later j t ≡ (if str_eq k j then some v else read later j s))
  pub setex_ok :
      (now : ℕ) (k : String) (ttl : ℕ) (v : String) (s : client.Store)
      → 0 < ttl
      → (t : client.Store) × (client.setex now k ttl v s ≡ some t)
        × ((later : ℕ) (j : String)
            → now ≤ later
            → read later j t ≡ (
                if str_eq k j
                then (if leb later (now + ttl * 1000) then some v else none)
                else read later j s))
  pub del_ok :
      (now : ℕ) (k : String) (ks : List String) (s : client.Store)
      → (t : client.Store) × (client.del now (k ∷ ks) s ≡ some t)
        × ((later : ℕ) (j : String)
            → now ≤ later
            → read later j t ≡ (if contains (k ∷ ks) j then none else read later j s))
  pub exec_ok :
      (now : ℕ) (commands : List Command) (s : client.Store)
      → (t : client.Store) × (client.exec now commands s ≡ some t)
        × ((later : ℕ) (j : String)
            → now ≤ later
            → read later j t ≡ written now later commands j (read later j s))

-- A value that is written is read back, and no value is written as the empty text.
pub record IsJson {V : Type 0} (json : Json V) : Type 0 where
  pub parse-stringify : (value : V) → json.parse (json.stringify value) ≡ some value
  pub stringify-ne : (value : V) → str_eq (json.stringify value) "" ≡ false

-- The prefix holds no wildcard, so that a prefixed pattern is matched after the prefix.
pub record IsPlain (glob matches : String → String → Bool) (prefix : String) : Type 0 where
  pub after_prefix :
      (pattern key : String) → glob (prefix ++ pattern) (prefix ++ key) ≡ matches pattern key
  pub star : (key : String) → glob (prefix ++ "*") (prefix ++ key) ≡ true

pub prefixed_same : (prefix k j : String) → str_eq (prefix ++ k) (prefix ++ j) ≡ str_eq k j
prefixed_same prefix k j = elim (Bool-cases (str_eq k j)) [
  | inl same ↦
      (eq_iff (prefix ++ k) (prefix ++ j)).1 (ap (λ z. prefix ++ z) ((eq_iff k j).0 same))
      ∙ sym same
  | inr other ↦ elim (Bool-cases (str_eq (prefix ++ k) (prefix ++ j))) [
    | inl same ↦ absurd (
        ground (
          arith,
          (eq_iff k j).1
              (append_cancel_left prefix k j ((eq_iff (prefix ++ k) (prefix ++ j)).0 same)),
        ))
    | inr e ↦ e ∙ sym other
  ]
]
