-- ===== src/Cache/Agreement.antt =====
-- The two providers against each other: the factory of cache.module.ts may choose either. They leave
-- entries without a lifetime for different times, and read patterns by different engines: the memory
-- provider by a regular expression in which only `*` and `?` are rewritten, Redis by its own globs.
use fetchit_be.Base.{
  ℕ, ◌≡◌, ◌≤◌, ◌≢◌, refl, sym, ap, ◌∙◌, String, Bool, true, false, Option, none, some, List, [],
  ◌∷◌, All, ◌+◌, if◌then◌else◌, inl, inr, Bool-cases,
}
use text.Mathlib.Text.{◌==◌ as str_eq}
use text.Mathlib.TextEquality.{eq_iff}
use Prim.Native.String.{◌++◌}
use mathlib.Core.Path.{ap₂, fun_ext}
use fetchit_be.Cache.{new, effective_ttl}
use fetchit_be.Cache.Service.{
  Request, reads, writes, removes, removes_pattern, asks, empties, reads_all, writes_all, serve,
  done, answers, total_writes,
}
use fetchit_be.Cache.Abstract.{Held, Contents, empty, write, write_all, abstract_cache}
use fetchit_be.Cache.MemoryRefines.{memory_cache, memory_answers-abstract, selects}
use fetchit_be.Cache.Redis.{Client, Json, redis_cache}
use fetchit_be.Cache.RedisLaws.{IsServing, IsJson, IsPlain}
use fetchit_be.Cache.RedisRefines.{redis_answers-abstract}

timed : (d d' : ℕ) (ttl : Option ℕ) → ttl ≢ none → effective_ttl ttl d ≡ effective_ttl ttl d'
timed d d' none h = absurd (h refl)
timed d d' (some ttl) h = refl

-- Entries are written under keys of the class `keyed`, with a lifetime; and a pattern that is removed
-- stands for the same keys of that class under both readings.
module _ {V : Type 0} (keyed : String → Bool) (matches matches' : String → String → Bool) where
  abbrev pub IsShared : Request V → Type 0
  IsShared (writes key value ttl) = (ttl ≢ none) × (keyed key ≡ true)
  IsShared (writes_all entries) = All (λ entry. (entry.2 ≢ none) × (keyed entry.0 ≡ true)) entries
  IsShared (removes_pattern pattern) =
      (key : String) → keyed key ≡ true → matches pattern key ≡ matches' pattern key
  IsShared _ = Unit

  -- Nothing is held outside the class.
  abbrev IsWithin : Contents V → Type 0
  IsWithin m = (key : String) → keyed key ≡ false → m key ≡ none

  write-IsWithin :
      (now : ℕ) (key : String) (value : V) (ttl : ℕ) (m : Contents V)
      → keyed key ≡ true
      → IsWithin m
      → IsWithin (write now key value ttl m)
  unfolding write
  write-IsWithin now key value ttl m k h j outside = elim (Bool-cases (str_eq key j)) [
    | inl same ↦ absurd (let e = ap keyed ((eq_iff key j).0 same) in cc)
    | inr other ↦ rw other (h j outside)
  ]

  module _ (d d' : ℕ) where
    write_all_shared :
        (now : ℕ) (entries : List (String × V × Option ℕ)) (m : Contents V)
        → All (λ entry. (entry.2 ≢ none) × (keyed entry.0 ≡ true)) entries
        → IsWithin m
        → (write_all d now entries m ≡ write_all d' now entries m)
          × IsWithin (write_all d' now entries m)
    unfolding write_all
    write_all_shared now [] m s h = (refl, h)
    write_all_shared now ((key, value, ttl) ∷ entries) m (s, rest) h =
        let (same, within) =
          write_all_shared now entries (write now key value (effective_ttl ttl d') m) rest
            (write-IsWithin now key value (effective_ttl ttl d') m s.1 h) in
        (
          ap (λ l. write_all d now entries (write now key value l m)) (timed d d' ttl s.0) ∙ same,
          within,
        )

    removed_alike :
        (pattern : String) (m : Contents V)
        → ((key : String) → keyed key ≡ true → matches pattern key ≡ matches' pattern key)
        → IsWithin m
        → (key : String)
        → (if matches pattern key then none else m key)
          ≡ (if matches' pattern key then none else m key)
    removed_alike pattern m s h key = elim (Bool-cases (keyed key)) [
      | inl inside ↦ rw (s key inside) refl
      | inr outside ↦
          rw (h key outside) (nothing (matches pattern key) ∙ sym (nothing (matches' pattern key)))
    ]
      where
        nothing : (b : Bool) → ◌≡◌ {A = Option (Held V)} (if b then none else none) none
        nothing true = refl
        nothing false = refl

    -- Neither the default lifetime nor the reading of patterns is seen.
    serve_shared :
        (now : ℕ) (request : Request V) (m : Contents V)
        → IsShared request
        → IsWithin m
        → (serve (abstract_cache d matches) now request m
            ≡ serve (abstract_cache d' matches') now request m)
          × IsWithin (serve (abstract_cache d' matches') now request m).0
    unfolding serve
    serve_shared now (writes key value ttl) m s h = (
      ap (λ l. (write now key value l m, done)) (timed d d' ttl s.0),
      write-IsWithin now key value (effective_ttl ttl d') m s.1 h,
    )
    serve_shared now (writes_all entries) m s h =
        let (same, within) = write_all_shared now entries m s h in
        (ap (λ n. (n, done)) same, within)
    serve_shared now (reads key) m s h = (refl, h)
    serve_shared now (removes key) m s h = (
      refl,
      λ j outside. elim (Bool-cases (str_eq key j)) [
        | inl same ↦ rw same refl
        | inr other ↦ rw other (h j outside)
      ],
    )
    serve_shared now (removes_pattern pattern) m s h = (
      ap (λ n. (n, done)) (fun_ext (removed_alike pattern m s h)),
      λ j outside. elim (Bool-cases (matches' pattern j)) [
        | inl t ↦ rw t refl
        | inr t ↦ rw t (h j outside)
      ],
    )
    serve_shared now (asks key) m s h = (refl, h)
    serve_shared now empties m s h = (refl, λ j outside. refl)
    serve_shared now (reads_all keys) m s h = (refl, h)

    answers_shared :
        (clock : ℕ) (requests : List (ℕ × Request V)) (m : Contents V)
        → All (λ call. IsShared call.1) requests
        → IsWithin m
        → answers (abstract_cache d matches) clock requests m
          ≡ answers (abstract_cache d' matches') clock requests m
    unfolding answers
    answers_shared clock [] m s h = refl
    answers_shared clock ((wait, request) ∷ requests) m (s, rest) h =
        let (same, within) = serve_shared (clock + wait) request m s h in
        ap₂ ◌∷◌ (ap (λ r. r.1) same) (
          ap (λ r. answers (abstract_cache d matches) (clock + wait) requests r.0) same
          ∙ answers_shared (clock + wait) requests _ rest within)

-- A memory cache with room for what is written and a Redis that answers cannot be told apart, if every
-- entry is written with a lifetime, under a key of some class, each pattern that is removed stands
-- for the same keys of that class as a regular expression and as a glob of Redis, and Redis holds
-- none of the prefixed keys at first.
pub memory_answers-redis_answers :
    {V : Type 0} (max ttl : Option ℕ) (client : Client) (json : Json V) (prefix : String)
    (regexp : String → Option (String → Bool)) (glob matches : String → String → Bool)
    (keyed : String → Bool) (serving : IsServing client glob) (round : IsJson json)
    (plain : IsPlain glob matches prefix) (requests : List (ℕ × Request V)) (s : client.Store)
    → total_writes requests ≤ (new {V = V} max ttl).max_entries
    → ((key : String) (later : ℕ) → serving.read later (prefix ++ key) s ≡ none)
    → All (λ call. IsShared keyed (selects regexp) matches call.1) requests
    → answers (memory_cache regexp) 0 requests (new max ttl)
      ≡ answers (redis_cache client json prefix) 0 requests s
memory_answers-redis_answers max ttl client json prefix regexp glob matches keyed serving round
      plain requests s fits fresh shared =
    memory_answers-abstract regexp max ttl requests fits
    ∙ answers_shared keyed (selects regexp) matches _ 0 0 requests empty shared
        (λ key outside. refl)
    ∙ sym (
        redis_answers-abstract client json prefix glob matches serving round plain requests s fresh)
