-- ===== src/Cache/Abstract.antt =====
-- What a cache promises: every key holds the value last written to it, until its lifetime is over
-- or it is removed.
use fetchit_be.Base.{
  ℕ, ◌+◌, ◌*◌, ◌≡◌, ◌≤◌, refl, arith, String, Bool, true, false, Option, none, some, List, [], ◌∷◌,
  map, if◌then◌else◌, ◌==◌, leb, inl, inr, ◌||◌, Bool-cases,
}
use text.Mathlib.Text.{◌==◌ as str_eq}
use fetchit_be.Cache.{effective_ttl}
use fetchit_be.Cache.Service.{CacheProvider}

-- A value, with the last moment at which it may be read.
pub record Held (V : Type 0) : Type 0 where
  pub value : V
  pub until : Option ℕ

-- A lifetime of 0 seconds has no end.
abbrev pub last_moment : ℕ → ℕ → Option ℕ
last_moment now ttl = if ttl == 0 then none else some (now + ttl * 1000)

module _ {V : Type 0} where
  -- The value that may be read at a time.
  unfoldable pub live : ℕ → Option (Held V) → Option V
  live now none = none
  live now (some h) = elim h.until [
    | none ↦ some h.value
    | some t ↦ if leb now t then some h.value else none
  ]

  -- What is over stays so.
  pub live_later :
      (now later : ℕ) (o : Option (Held V)) → now ≤ later → live now o ≡ none → live later o ≡ none
  unfolding live
  live_later now later none le h = refl
  live_later now later (some e) le h = ground arith

abbrev pub is_some {ℓ} : {A : Type ℓ} → Option A → Bool
is_some none = false
is_some (some a) = true

abbrev pub Contents : Type 0 → Type 0
Contents V = String → Option (Held V)

module _ {V : Type 0} where
  abbrev pub empty : Contents V
  empty key = none

  unfoldable pub write : ℕ → String → V → ℕ → Contents V → Contents V
  write now key value ttl m j =
      if str_eq key j then some (record { value = value; until = last_moment now ttl }) else m j

  -- `default` is the lifetime of an entry that is written with none.
  unfoldable pub write_all : ℕ → ℕ → List (String × V × Option ℕ) → Contents V → Contents V
  write_all default now [] m = m
  write_all default now ((key, value, ttl) ∷ entries) m =
      write_all default now entries (write now key value (effective_ttl ttl default) m)

  -- What is read after a write.
  pub live-write :
      (now later ttl : ℕ) (key j : String) (value : V) (m : Contents V)
      → live later (write now key value ttl m j) ≡ (
          if str_eq key j
          then (if ttl == 0 || leb later (now + ttl * 1000) then some value else none)
          else live later (m j))
  unfolding live write
  live-write now later ttl key j value m = elim (Bool-cases (str_eq key j)) [
    | inl same ↦ rw same (ground arith)
    | inr other ↦ rw other refl
  ]

-- `matches pattern key` is what a pattern stands for.
abbrev pub abstract_cache : {V : Type 0} → ℕ → (String → String → Bool) → CacheProvider V
abstract_cache {V} default matches = record {
  State = Contents V;
  get = λ now key m. (m, live now (m key));
  set = λ now key value ttl m. write now key value (effective_ttl ttl default) m;
  del = λ now key m j. if str_eq key j then none else m j;
  del_by_pattern = λ now pattern m j. if matches pattern j then none else m j;
  exists = λ now key m. (m, is_some (live now (m key)));
  clear = λ now m j. none;
  mget = λ now keys m. (m, map (λ key. live now (m key)) keys);
  mset = λ now entries m. write_all default now entries m;
}
