-- ===== src/Cache/RedisTexts.antt =====
-- The texts that the Redis provider writes for the contents of a cache.
use fetchit_be.Base.{
  ℕ, ◌+◌, ◌*◌, ◌≡◌, ◌==◌, leb, refl, sym, ap, ◌∙◌, arith, String, Option, none, some, List, [], ◌∷◌,
  map, if◌then◌else◌, ◌||◌, inl, inr, Bool-cases,
}
use text.Mathlib.Text.{◌==◌ as str_eq}
use Prim.Native.String.{◌++◌}
use fetchit_be.Cache.Abstract.{live, live-write, is_some, Contents, write, write_all}
use fetchit_be.Cache.Redis.{Client, Json, parsed, command}
use fetchit_be.Cache.RedisLaws.{written, IsJson, prefixed_same}

module _ {V : Type 0} (json : Json V) where
  -- The text of a value.
  abbrev pub stored : Option V → Option String
  stored none = none
  stored (some value) = some (json.stringify value)

  pub is_some-stored : (o : Option V) → is_some (stored o) ≡ is_some o
  is_some-stored none = refl
  is_some-stored (some value) = refl

  -- The texts of what a write leaves at a key.
  pub stored-write :
      (now later ttl : ℕ) (key j : String) (value : V) (m : Contents V)
      → stored (live later (write now key value ttl m j)) ≡ (
          if str_eq key j
          then (if ttl == 0 || leb later (now + ttl * 1000)
              then some (json.stringify value)
              else none)
          else stored (live later (m j)))
  stored-write now later ttl key j value m =
      ap stored (live-write now later ttl key j value m) ∙ elim (Bool-cases (str_eq key j)) [
        | inl same ↦ rw same (elim (Bool-cases (ttl == 0 || leb later (now + ttl * 1000))) [
          | inl e ↦ rw e refl
          | inr e ↦ rw e refl
        ])
        | inr other ↦ rw other refl
      ]

  pub parsed-stored :
      (client : Client) (prefix : String) (round : IsJson json) (o : Option V)
      → parsed client json prefix (stored o) ≡ o
  unfolding parsed
  parsed-stored client prefix round none = refl
  parsed-stored client prefix round (some value) =
      rw (round.stringify-ne value) (round.parse-stringify value)

module _ {V : Type 0} (client : Client) (json : Json V) (prefix : String) where
  -- The commands of a pipeline leave what the writes leave.
  pub written-write_all :
      (now later : ℕ) (entries : List (String × V × Option ℕ)) (m : Contents V) (j : String)
      (before : Option String)
      → before ≡ stored json (live later (m j))
      → written now later (map (command client json prefix) entries) (prefix ++ j) before
        ≡ stored json (live later (write_all 0 now entries m j))
  unfolding write_all
  written-write_all now later [] m j before e = e
  written-write_all now later ((key, value, none) ∷ entries) m j before e =
      written-write_all now later entries (write now key value 0 m) j _ (
        rw (prefixed_same prefix key j, e) refl ∙ sym (stored-write json now later 0 key j value m))
  written-write_all now later ((key, value, some ttl) ∷ entries) m j before e =
      elim (Bool-cases (ttl == 0)) [
        | inl zero_ttl ↦
            let z : ttl ≡ 0 = ground arith in
            rw (zero_ttl) (
              written-write_all now later entries (write now key value ttl m) j _ (
                rw (prefixed_same prefix key j, e, z) refl
                ∙ sym (stored-write json now later ttl key j value m)))
        | inr more ↦ rw more (
            written-write_all now later entries (write now key value ttl m) j _ (
              rw (prefixed_same prefix key j, e, more) refl
              ∙ sym (stored-write json now later ttl key j value m)))
      ]
