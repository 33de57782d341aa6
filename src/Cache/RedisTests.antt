-- ===== src/Cache/RedisTests.antt =====
-- A Redis of two Boolean values, and the theorems of the two providers at it.
use fetchit_be.Base.{
  ℕ, ◌+◌, ◌*◌, ◌≡◌, leb, refl, ap, ◌∙◌, arith, String, Bool, true, false, not, Option, none, some,
  List, [], ◌∷◌, map, filter_where, if◌then◌else◌, ◌&&◌, ◌||◌, inl, inr, Bool-cases,
}
use text.Mathlib.Text.{◌==◌ as str_eq}
use text.Mathlib.TextEquality.{eq_iff}
use Prim.Native.String.{◌++◌}
use fetchit_be.Cache.{CacheEntry, map_get, map_set, is_expired, new, expiry, regexp_text}
use fetchit_be.Cache.Entries.{map_get-map_set}
use fetchit_be.Cache.Service.{
  Request, reads, writes, removes_pattern, asks, reads_all, writes_all, answers, total_writes,
  writes_of, serve, done, found, present, found_all,
}
use fetchit_be.Cache.Abstract.{live, is_some, empty, write, write_all, abstract_cache}
use fetchit_be.Cache.MemoryRefines.{selects, memory_cache, memory_answers-abstract}
use fetchit_be.Cache.Redis.{Client, Json, Command, store, store_for, redis_cache}
use fetchit_be.Cache.RedisLaws.{contains, written, IsServing, IsJson, IsPlain, prefixed_same}
use fetchit_be.Cache.RedisRefines.{redis_answers-abstract}
use fetchit_be.Cache.Agreement.{memory_answers-redis_answers}

abbrev Store : Type 0
Store = List (String × CacheEntry String)

abbrev lasting : String → CacheEntry String
lasting v = record { value = v; expires_at = none }

abbrev until : ℕ → String → CacheEntry String
until at v = record { value = v; expires_at = some at }

abbrev run_commands : ℕ → List Command → Store → Store
run_commands now [] s = s
run_commands now (store k v ∷ cs) s = run_commands now cs (map_set k (lasting v) s)
run_commands now (store_for k ttl v ∷ cs) s =
    run_commands now cs (map_set k (until (now + ttl * 1000) v) s)

abbrev alive : ℕ → CacheEntry String → Option String
alive now e = elim e.expires_at [
  | none ↦ some e.value
  | some at ↦ if leb now at then some e.value else none
]

abbrev read_entry : ℕ → Option (CacheEntry String) → Option String
read_entry now none = none
read_entry now (some e) = alive now e

abbrev read : ℕ → String → Store → Option String
read now k s = read_entry now (map_get k s)

abbrev keys_of : Store → List String
keys_of [] = []
keys_of ((k, e) ∷ s) = k ∷ keys_of s

abbrev without : List String → Store → Store
without ks s = filter_where (λ entry. not (contains ks entry.0)) s

-- Patterns that are the name of a key, or a star after the prefix.
abbrev glob : String → String → Bool
glob pattern key = str_eq pattern "cache:*" || str_eq pattern key

abbrev fits_pattern : String → String → Bool
fits_pattern pattern key = str_eq pattern "*" || str_eq pattern key

-- An engine that knows two forms of regular expressions: `^.*$`, and a text between `^` and `$`.
abbrev regexp : String → Option (String → Bool)
regexp source = some (λ key. str_eq source "^.*$" || str_eq source ("^" ++ key ++ "$"))

-- A star becomes `.*` and a question mark `.`; a dot stays as it is.
converted : regexp_text "a.?*" ≡ "^a...*$"
unfolding regexp_text
converted = refl

abbrev client : Client
client = record {
  Store = Store;
  get = λ now k s. some (read now k s);
  set = λ now k v s. some (map_set k (lasting v) s);
  setex = λ now k ttl v s. some (map_set k (until (now + ttl * 1000) v) s);
  del = λ now ks s. some (without ks s);
  keys = λ now pattern s.
      some (filter_where (λ k. glob pattern k && is_some (read now k s)) (keys_of s));
  exists = λ now k s. some (if is_some (read now k s) then 1 else 0);
  mget = λ now ks s. elim ks [ [] ↦ none | k ∷ rest ↦ some (map (λ j. read now j s) (k ∷ rest)) ];
  exec = λ now commands s. some (run_commands now commands s);
}

contains-filter_where :
    (test : String → Bool) (ks : List String) (j : String)
    → contains (filter_where test ks) j ≡ (contains ks j && test j)
unfolding filter_where
contains-filter_where test [] j = refl
contains-filter_where test (k ∷ ks) j = elim (Bool-cases (str_eq k j)) [
  | inl same ↦
      let e : test k ≡ test j = ap test ((eq_iff k j).0 same) in
      let rest = contains-filter_where test ks j in ground arith
  | inr other ↦ let rest = contains-filter_where test ks j in ground arith
]

contains-keys_of : (s : Store) (j : String) → contains (keys_of s) j ≡ is_some (map_get j s)
unfolding map_get
contains-keys_of [] j = refl
contains-keys_of ((k, e) ∷ s) j = elim (Bool-cases (str_eq k j)) [
  | inl same ↦ rw same refl
  | inr other ↦ rw other (contains-keys_of s j)
]

map_get-without :
    (ks : List String) (s : Store) (j : String)
    → map_get j (without ks s) ≡ (if contains ks j then none else map_get j s)
unfolding map_get filter_where
map_get-without ks [] j = ground arith
map_get-without ks ((k, e) ∷ s) j = elim (Bool-cases (str_eq k j)) [
  | inl same ↦
      let e : contains ks k ≡ contains ks j = ap (contains ks) ((eq_iff k j).0 same) in
      let rest = map_get-without ks s j in ground arith
  | inr other ↦ let rest = map_get-without ks s j in ground arith
]

read-map_set :
    (later : ℕ) (k j : String) (e : CacheEntry String) (s : Store)
    → read later j (map_set k e s) ≡ (if str_eq k j then alive later e else read later j s)
read-map_set later k j e s =
    ap (read_entry later) (map_get-map_set k j e s)
    ∙ elim (Bool-cases (str_eq k j)) [ inl same ↦ rw same refl | inr other ↦ rw other refl ]

read-run_commands :
    (now later : ℕ) (commands : List Command) (j : String) (s : Store)
    → read later j (run_commands now commands s) ≡ written now later commands j (read later j s)
read-run_commands now later [] j s = refl
read-run_commands now later (store k v ∷ commands) j s =
    read-run_commands now later commands j (map_set k (lasting v) s)
    ∙ ap (written now later commands j) (read-map_set later k j (lasting v) s)
read-run_commands now later (store_for k ttl v ∷ commands) j s =
    read-run_commands now later commands j (map_set k (until (now + ttl * 1000) v) s)
    ∙ ap (written now later commands j) (read-map_set later k j (until (now + ttl * 1000) v) s)

-- A key that reads is in the store.
there :
    (now : ℕ) (o : Option (CacheEntry String)) (b : Bool)
    → (is_some o && (b && is_some (read_entry now o))) ≡ (b && is_some (read_entry now o))
there now none b = ground arith
there now (some e) b = refl

serving : IsServing client glob
serving = record {
  read = read;
  get_ok = λ now k s. refl;
  exists_ok = λ now k s. refl;
  mget_ok = λ now k ks s. refl;
  mget_rejects = λ now s. refl;
  keys_ok = λ now pattern s. (
    _,
    refl,
    λ j.
        contains-filter_where (λ k. glob pattern k && is_some (read now k s)) (keys_of s) j
        ∙ ap (λ b. b && (glob pattern j && is_some (read now j s))) (contains-keys_of s j)
        ∙ there now (map_get j s) (glob pattern j),
  );
  set_ok = λ now k v s. (_, refl, λ later j le. read-map_set later k j (lasting v) s);
  setex_ok = λ now k ttl v s more.
      (_, refl, λ later j le. read-map_set later k j (until (now + ttl * 1000) v) s);
  del_ok = λ now k ks s. (
    _,
    refl,
    λ later j le.
        ap (read_entry later) (map_get-without (k ∷ ks) s j)
        ∙ elim (Bool-cases (contains (k ∷ ks) j)) [ inl e ↦ rw e refl | inr e ↦ rw e refl ],
  );
  exec_ok = λ now commands s. (_, refl, λ later j le. read-run_commands now later commands j s);
}

abbrev json : Json Bool
json = record {
  stringify = λ b. if b then "true" else "false";
  parse = λ text.
      if str_eq text "true" then some true else if str_eq text "false" then some false else none;
}

round : IsJson json
round = record {
  parse-stringify =
      λ b. elim b as (λ c. json.parse (json.stringify c) ≡ some c) [ true ↦ refl | false ↦ refl ];
  stringify-ne =
      λ b. elim b as (λ c. str_eq (json.stringify c) "" ≡ false) [ true ↦ refl | false ↦ refl ];
}

plain : IsPlain glob fits_pattern "cache:"
plain = record {
  after_prefix = λ pattern key.
      ap (λ b. b || str_eq ("cache:" ++ pattern) ("cache:" ++ key))
        (prefixed_same "cache:" pattern "*")
      ∙ ap (λ b. str_eq pattern "*" || b) (prefixed_same "cache:" pattern key);
  star = λ key. refl;
}

-- Two values, read in their lifetime, removed by pattern and read again.
abbrev requests : List (ℕ × Request Bool)
requests =
    (0, writes "a" true (some 1))
    ∷ (5, writes_all (("b", false, some 60) ∷ []))
    ∷ (900, reads "a")
    ∷ (900, asks "a")
    ∷ (0, removes_pattern "*")
    ∷ (0, reads_all ("a" ∷ "b" ∷ []))
    ∷ []

memory_answers-abstract_example :
    answers (memory_cache regexp) 0 requests (new (some 2) none)
    ≡ answers (abstract_cache 300 (selects regexp)) 0 requests empty
unfolding total_writes new writes_of
memory_answers-abstract_example =
    memory_answers-abstract regexp (some 2) none requests (omega arith)

redis_answers-abstract_example :
    answers (redis_cache client json "cache:") 0 requests []
    ≡ answers (abstract_cache 0 fits_pattern) 0 requests empty
unfolding map_get serving
redis_answers-abstract_example =
    redis_answers-abstract client json "cache:" glob fits_pattern serving round plain requests []
      (λ key later. refl)

memory_answers-redis_answers_example :
    answers (memory_cache regexp) 0 requests (new (some 2) none)
    ≡ answers (redis_cache client json "cache:") 0 requests []
unfolding map_get serving total_writes new writes_of regexp_text
memory_answers-redis_answers_example =
    memory_answers-redis_answers (some 2) none client json "cache:" regexp glob fits_pattern
      (λ key. true) serving round plain requests [] (omega arith) (λ key later. refl)
      (
        (ground arith, refl),
        (((ground arith, refl), tt), (tt, (tt, ((λ key inside. refl), (tt, tt))))),
      )

-- The answers themselves: the values are there until they are removed.
answers_of_requests :
    answers (abstract_cache 0 fits_pattern) 0 requests empty
    ≡ done ∷ done ∷ found (some true) ∷ present false ∷ done ∷ found_all (none ∷ none ∷ []) ∷ []
unfolding answers serve live write write_all is_expired expiry
answers_of_requests = refl

-- A client of which every command is rejected.
abbrev rejecting : Client
rejecting = record {
  Store = Store;
  get = λ now k s. none;
  set = λ now k v s. none;
  setex = λ now k ttl v s. none;
  del = λ now ks s. none;
  keys = λ now pattern s. none;
  exists = λ now k s. none;
  mget = λ now ks s. none;
  exec = λ now commands s. none;
}
