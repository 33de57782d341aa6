-- ===== src/Cache/Entries.antt =====
-- The Map under the cache: lookups after a write, sizes, and distinct keys.
use fetchit_be.Base.{
  suc, ◌≡◌, ◌≤◌, String, Bool, Option, none, some, List, [], ◌∷◌, length, arith, refl,
  if◌then◌else◌, filter_where, ◌⊎◌, inl, inr, Bool-cases, ◌∙◌, sym, ap,
}
use text.Mathlib.Text.{◌==◌ as str_eq}
use text.Mathlib.TextEquality.{eq_iff}
use fetchit_be.Cache.{CacheEntry, map_get, map_set, map_delete}

module _ {ℓ} {V : Type ℓ} where
  pub map_get-map_set :
      (k j : String) (e : CacheEntry V) (m : List (String × CacheEntry V))
      → map_get j (map_set k e m) ≡ (if str_eq k j then some e else map_get j m)
  unfolding map_get map_set
  map_get-map_set k j e [] = refl
  map_get-map_set k j e ((i, d) ∷ m) =
      ground (arith, eq_iff k j, eq_iff i k, eq_iff i j, map_get-map_set k j e m)

  -- Setting a key adds one entry, or none if the key is there.
  pub length-map_set :
      (k : String) (e : CacheEntry V) (m : List (String × CacheEntry V))
      → (length (map_set k e m) ≡ suc (length m)) ⊎ (length (map_set k e m) ≡ length m)
  unfolding map_set
  length-map_set k e [] = inl refl
  length-map_set k e ((i, d) ∷ m) = ground (arith, length-map_set k e m)

  pub length-map_set_new :
      (k : String) (e : CacheEntry V) (m : List (String × CacheEntry V))
      → map_get k m ≡ none
      → length (map_set k e m) ≡ suc (length m)
  unfolding map_get map_set
  length-map_set_new k e [] h = refl
  length-map_set_new k e ((i, d) ∷ m) h = ground (arith, length-map_set_new k e m)

  pub length-map_delete-le :
      (k : String) (m : List (String × CacheEntry V)) → length (map_delete k m) ≤ length m
  unfolding map_delete
  length-map_delete-le k [] = omega arith
  length-map_delete-le k ((i, d) ∷ m) = ground (arith, length-map_delete-le k m)

  pub length-filter_where-le :
      (test : String × CacheEntry V → Bool) (m : List (String × CacheEntry V))
      → length (filter_where test m) ≤ length m
  unfolding filter_where
  length-filter_where-le test [] = omega arith
  length-filter_where-le test (x ∷ m) = ground (arith, length-filter_where-le test m)

  -- No key stands in the map twice.
  abbrev pub HasDistinctKeys : List (String × CacheEntry V) → Type ℓ
  HasDistinctKeys [] = Unit
  HasDistinctKeys ((k, e) ∷ m) = (map_get k m ≡ none) × HasDistinctKeys m

  pub map_set-HasDistinctKeys :
      (k : String) (e : CacheEntry V) (m : List (String × CacheEntry V))
      → HasDistinctKeys m
      → HasDistinctKeys (map_set k e m)
  unfolding map_set map_get
  map_set-HasDistinctKeys k e [] h = (refl, tt)
  map_set-HasDistinctKeys k e ((i, d) ∷ m) (p, h) = elim (Bool-cases (str_eq i k)) [
    | inl same ↦ rw same (p, h)
    | inr other ↦ rw other (
      map_get-map_set k i e m ∙ ground (arith, eq_iff k i, eq_iff i k),
      map_set-HasDistinctKeys k e m h,
    )
  ]

  pub map_get-map_delete :
      (k j : String) (m : List (String × CacheEntry V))
      → HasDistinctKeys m
      → map_get j (map_delete k m) ≡ (if str_eq k j then none else map_get j m)
  unfolding map_get map_delete
  map_get-map_delete k j [] h = ground arith
  map_get-map_delete k j ((i, d) ∷ m) (p, h) =
      ground (arith, eq_iff k j, eq_iff i k, eq_iff i j, map_get-map_delete k j m h)

  pub map_delete-HasDistinctKeys :
      (k : String) (m : List (String × CacheEntry V))
      → HasDistinctKeys m
      → HasDistinctKeys (map_delete k m)
  unfolding map_delete
  map_delete-HasDistinctKeys k [] h = tt
  map_delete-HasDistinctKeys k ((i, d) ∷ m) (p, h) = elim (Bool-cases (str_eq i k)) [
    | inl same ↦ rw same h
    | inr other ↦
        rw other (
          map_get-map_delete k i m h ∙ ground (arith, eq_iff k i),
          map_delete-HasDistinctKeys k m h,
        )
  ]

  -- An entry that passes the test, if there is one.
  abbrev pub kept :
      (String × CacheEntry V → Bool) → String → Option (CacheEntry V) → Option (CacheEntry V)
  kept test j none = none
  kept test j (some e) = if test (j, e) then some e else none

  pub map_get-filter_where :
      (test : String × CacheEntry V → Bool) (j : String) (m : List (String × CacheEntry V))
      → HasDistinctKeys m
      → map_get j (filter_where test m) ≡ kept test j (map_get j m)
  unfolding map_get filter_where
  map_get-filter_where test j [] h = refl
  map_get-filter_where test j ((i, d) ∷ m) (p, h) = elim (Bool-cases (str_eq i j)) [
    | inl same ↦
        let e : i ≡ j = (eq_iff i j).0 same in
        let absent : map_get j m ≡ none = ap (λ z. map_get z m) (sym e) ∙ p in
        let rest = map_get-filter_where test j m h ∙ ap (kept test j) absent in
        let at_key : test (i, d) ≡ test (j, d) = ap (λ z. test (z, d)) e in ground arith
    | inr other ↦ let rest = map_get-filter_where test j m h in ground arith
  ]

  pub filter_where-HasDistinctKeys :
      (test : String × CacheEntry V → Bool) (m : List (String × CacheEntry V))
      → HasDistinctKeys m
      → HasDistinctKeys (filter_where test m)
  unfolding filter_where
  filter_where-HasDistinctKeys test [] h = tt
  filter_where-HasDistinctKeys test ((i, d) ∷ m) (p, h) = elim (Bool-cases (test (i, d))) [
    | inl t ↦ rw t (
      map_get-filter_where test i m h ∙ ap (kept test i) p,
      filter_where-HasDistinctKeys test m h,
    )
    | inr t ↦ rw t (filter_where-HasDistinctKeys test m h)
  ]
