-- ===== src/Base/Tables.antt =====
-- A database table as the list of its rows, with the queries that the repositories make:
-- `findUnique`, `updateMany`, `count`.
use Prim.Native.Nat.{ℕ, suc}
use mathlib.Core.Path.{◌≡◌, refl, subst, sym, ap}
use mathlib.Core.Logic.{inl, inr, ◌≢◌}
use mathlib.Core.Bool.{Bool, true, false}
use mathlib.Core.Option.{Option, none, some, some-injective}
use mathlib.Core.Option
use mathlib.Core.List.{List, [], ◌∷◌, Memᴰ}
use native.Mathlib.Omega.{arith}
use fetchit_be.Base.Tests.{if◌then◌else◌, Bool-cases}

module _ {ℓ} {A : Type ℓ} where
  abbrev pub length : List A → ℕ
  length [] = 0
  length (x ∷ xs) = suc (length xs)

  -- The first row that satisfies the test, as `findUnique` and `findFirst` give it.
  unfoldable pub find_where : (A → Bool) → List A → Option A
  find_where test [] = none
  find_where test (x ∷ xs) = if test x then some x else find_where test xs

  -- `findMany` with no order.
  unfoldable pub filter_where : (A → Bool) → List A → List A
  filter_where test [] = []
  filter_where test (x ∷ xs) = let rest = filter_where test xs in if test x then x ∷ rest else rest

  -- The rows after `updateMany`.
  unfoldable pub update_where : (A → Bool) → (A → A) → List A → List A
  update_where test f [] = []
  update_where test f (x ∷ xs) = (if test x then f x else x) ∷ update_where test f xs

  -- The number of rows that satisfy the test: what `count` and `updateMany` report.
  unfoldable pub count_where : (A → Bool) → List A → ℕ
  count_where test [] = 0
  count_where test (x ∷ xs) = let rest = count_where test xs in if test x then suc rest else rest

  unfoldable pub any_where : (A → Bool) → List A → Bool
  any_where test [] = false
  any_where test (x ∷ xs) = if test x then true else any_where test xs

  abbrev pub All {κ} : (A → Type κ) → List A → Type κ
  All P [] = Unit
  All P (x ∷ xs) = P x × All P xs

  pub All-map {κ μ} :
      (P : A → Type κ) (Q : A → Type μ) (xs : List A) → ((x : A) → P x → Q x) → All P xs → All Q xs
  All-map P Q [] f h = tt
  All-map P Q (x ∷ xs) f (p, h) = (f x p, All-map P Q xs f h)

  pub All-zip {κ μ} :
      (P : A → Type κ) (Q : A → Type μ) (xs : List A)
      → All P xs
      → All Q xs
      → All (λ x. P x × Q x) xs
  All-zip P Q [] h k = tt
  All-zip P Q (x ∷ xs) (p, h) (q, k) = ((p, q), All-zip P Q xs h k)

  pub All-update_where {κ μ} :
      (P : A → Type κ) (Q : A → Type μ) (test : A → Bool) (f : A → A) (xs : List A)
      → ((x : A) → P x → Q (if test x then f x else x))
      → All P xs
      → All Q (update_where test f xs)
  unfolding update_where
  All-update_where P Q test f [] k h = tt
  All-update_where P Q test f (x ∷ xs) k (p, h) = (k x p, All-update_where P Q test f xs k h)

  pub find_where_sound :
      (test : A → Bool) (xs : List A) (x : A) → find_where test xs ≡ some x → test x ≡ true
  unfolding find_where
  find_where_sound test [] x e = ground arith
  find_where_sound test (y ∷ ys) x e = ground (arith, find_where_sound test ys x)

  pub find_where-All {κ} :
      (P : A → Type κ) (test : A → Bool) (xs : List A) (x : A)
      → All P xs
      → find_where test xs ≡ some x
      → P x
  unfolding find_where
  find_where-All P test [] x h e = absurd (cc)
  find_where-All P test (y ∷ ys) x (p, h) e = elim (Bool-cases (test y)) [
    | inl t ↦ subst P (some-injective _ _ (rw t at e)) p
    | inr t ↦ find_where-All P test ys x h (rw t at e)
  ]

  pub find_where-update_where :
      (key test : A → Bool) (f : A → A) (xs : List A)
      → ((x : A) → key (f x) ≡ key x)
      → find_where key (update_where test f xs)
        ≡ Option.map (λ x. if test x then f x else x) (find_where key xs)
  unfolding find_where update_where
  find_where-update_where key test f [] k = refl
  find_where-update_where key test f (x ∷ xs) k =
      ground (arith, k x, find_where-update_where key test f xs k)

  -- An update that matches a row has found it: the count is 0 exactly when no row matches.
  pub count_where_zero :
      (test : A → Bool) (xs : List A) → count_where test xs ≡ 0 → All (λ x. test x ≡ false) xs
  unfolding count_where
  count_where_zero test [] e = tt
  count_where_zero test (x ∷ xs) e = (ground arith, count_where_zero test xs (ground arith))

  pub count_where_none :
      (test : A → Bool) (xs : List A) → All (λ x. test x ≡ false) xs → count_where test xs ≡ 0
  unfolding count_where
  count_where_none test [] h = refl
  count_where_none test (x ∷ xs) (p, h) = ground (arith, count_where_none test xs h)

  pub update_where_none :
      (test : A → Bool) (f : A → A) (xs : List A)
      → All (λ x. test x ≡ false) xs
      → update_where test f xs ≡ xs
  unfolding update_where
  update_where_none test f [] h = refl
  update_where_none test f (x ∷ xs) (p, h) = ground (arith, update_where_none test f xs h)

  -- Every row is related to each row behind it.
  abbrev pub AllPairs {κ} : (A → A → Type κ) → List A → Type κ
  AllPairs R [] = Unit
  AllPairs R (x ∷ xs) = All (R x) xs × AllPairs R xs

  pub AllPairs-update_where {κ} :
      (R : A → A → Type κ) (test : A → Bool) (f : A → A) (xs : List A)
      → ((x y : A) → R x y → R (if test x then f x else x) (if test y then f y else y))
      → AllPairs R xs
      → AllPairs R (update_where test f xs)
  unfolding update_where
  AllPairs-update_where R test f [] k h = tt
  AllPairs-update_where R test f (x ∷ xs) k (p, h) = (
    All-update_where (R x) (R (if test x then f x else x)) test f xs (k x) p,
    AllPairs-update_where R test f xs k h,
  )

  pub any_where-false :
      (test : A → Bool) (xs : List A) → any_where test xs ≡ false → All (λ x. test x ≡ false) xs
  unfolding any_where
  any_where-false test [] h = tt
  any_where-false test (x ∷ xs) h = (ground arith, any_where-false test xs (ground arith))

  pub any_where-update_where :
      (key test : A → Bool) (f : A → A) (xs : List A)
      → ((x : A) → key (f x) ≡ key x)
      → any_where key (update_where test f xs) ≡ any_where key xs
  unfolding any_where update_where
  any_where-update_where key test f [] k = refl
  any_where-update_where key test f (x ∷ xs) k =
      ground (arith, k x, any_where-update_where key test f xs k)

  pub find_where-any_where :
      (test : A → Bool) (xs : List A) (x : A)
      → find_where test xs ≡ some x
      → any_where test xs ≡ true
  unfolding find_where any_where
  find_where-any_where test [] x h = ground arith
  find_where-any_where test (y ∷ ys) x h = ground (arith, find_where-any_where test ys x)

  -- A write of some rows as a function on every row.
  abbrev pub edit : (A → Bool) → (A → A) → A → A
  edit test f x = if test x then f x else x

  abbrev pub update_all : (A → A) → List A → List A
  update_all f = update_where (λ _. true) f

  pub update_where-edit :
      (test : A → Bool) (f : A → A) (xs : List A)
      → update_where test f xs ≡ update_all (edit test f) xs
  unfolding update_where
  update_where-edit test f [] = refl
  update_where-edit test f (x ∷ xs) = rw (update_where-edit test f xs)

  pub update_all-update_all :
      (f g : A → A) (xs : List A) → update_all f (update_all g xs) ≡ update_all (λ x. f (g x)) xs
  unfolding update_where
  update_all-update_all f g [] = refl
  update_all-update_all f g (x ∷ xs) = rw (update_all-update_all f g xs)

  pub update_all-id : (xs : List A) → update_all (λ x. x) xs ≡ xs
  unfolding update_where
  update_all-id [] = refl
  update_all-id (x ∷ xs) = rw (update_all-id xs)

  -- A row that was found by one test is found by any other that it satisfies.
  pub any_where_of_find :
      (test key : A → Bool) (xs : List A) (x : A)
      → find_where test xs ≡ some x
      → key x ≡ true
      → any_where key xs ≡ true
  unfolding find_where any_where
  any_where_of_find test key [] x e k = absurd (cc)
  any_where_of_find test key (y ∷ ys) x e k = elim (Bool-cases (test y)) [
    | inl t ↦ rw (some-injective y x (rw t at e), k)
    | inr t ↦ ground (arith, any_where_of_find test key ys x (rw t at e) k)
  ]

  pub count_where-update_all :
      (test : A → Bool) (f : A → A) (xs : List A)
      → ((x : A) → test (f x) ≡ false)
      → count_where test (update_all f xs) ≡ 0
  unfolding count_where update_where
  count_where-update_all test f [] k = refl
  count_where-update_all test f (x ∷ xs) k = ground (arith, k x, count_where-update_all test f xs k)

  pub All-mem {κ} : (P : A → Type κ) {x : A} (xs : List A) → All P xs → Memᴰ x xs → P x
  All-mem P [] h m = elim m [ ]
  All-mem P (y ∷ xs) (p, h) (Memᴰ.head e) = subst P (sym e) p
  All-mem P (y ∷ xs) (p, h) (Memᴰ.tail m) = All-mem P xs h m

  -- A row that the test does not match stays as it is.
  pub Memᴰ-update_where :
      (test : A → Bool) (f : A → A) (xs : List A) (x : A)
      → test x ≡ false
      → Memᴰ x xs
      → Memᴰ x (update_where test f xs)
  unfolding update_where
  Memᴰ-update_where test f [] x t m = elim m [ ]
  Memᴰ-update_where test f (y ∷ xs) x t (Memᴰ.head e) =
      Memᴰ.head (subst (λ z. x ≡ (if test z then f z else z)) e (rw t))
  Memᴰ-update_where test f (y ∷ xs) x t (Memᴰ.tail m) =
      Memᴰ.tail (Memᴰ-update_where test f xs x t m)

  -- A row that is found, and that the test matches, is counted.
  pub count_where_found :
      (key test : A → Bool) (xs : List A) (x : A)
      → find_where key xs ≡ some x
      → test x ≡ true
      → count_where test xs ≢ 0
  unfolding find_where count_where
  count_where_found key test [] x e t = absurd (cc)
  count_where_found key test (y ∷ xs) x e t = elim (Bool-cases (key y)) [
    | inl k ↦
        let e' : some y ≡ some x = rw k at e in ground (arith, ap test (some-injective y x e'))
    | inr k ↦
        let e' : find_where key xs ≡ some x = rw k at e in
        ground (arith, count_where_found key test xs x e' t)
  ]

  -- After a write whose rows no longer match, a second write finds nothing.
  pub count_where-update_where :
      (test : A → Bool) (f : A → A) (xs : List A)
      → ((x : A) → test (f x) ≡ false)
      → count_where test (update_where test f xs) ≡ 0
  unfolding count_where update_where
  count_where-update_where test f [] k = refl
  count_where-update_where test f (x ∷ xs) k =
      ground (arith, k x, count_where-update_where test f xs k)

  pub All-trivial : (xs : List A) → All (λ x. Unit {0}) xs
  All-trivial [] = tt
  All-trivial (x ∷ xs) = (tt, All-trivial xs)

  -- What holds of a found row, and of every row that is related to it, holds of all.
  pub found_everywhere {κ μ} :
      (R : A → A → Type κ) (P : A → Type μ) (test : A → Bool) (xs : List A) (x : A)
      → AllPairs R xs
      → find_where test xs ≡ some x
      → P x
      → ((y : A) → R x y → P y)
      → ((y : A) → R y x → P y)
      → All P xs
  unfolding find_where
  found_everywhere R P test [] x h e px behind before = tt
  found_everywhere R P test (y ∷ ys) x (p, h) e px behind before = elim (Bool-cases (test y)) [
    | inl t ↦
        let same : y ≡ x = some-injective y x (rw t at e) in
        (subst P (sym same) px, All-map (R y) P ys (λ z r. behind z (subst (λ a. R a z) same r)) p)
    | inr t ↦
        let found : find_where test ys ≡ some x = rw t at e in
        (
          before y (find_where-All (R y) test ys x p found),
          found_everywhere R P test ys x h found px behind before,
        )
  ]

  pub filter_where-All {κ} :
      (P : A → Type κ) (test : A → Bool) (xs : List A)
      → ((x : A) → test x ≡ true → P x)
      → All P (filter_where test xs)
  unfolding filter_where
  filter_where-All P test [] k = tt
  filter_where-All P test (x ∷ xs) k = elim (Bool-cases (test x)) [
    | inl t ↦ rw t (k x t, filter_where-All P test xs k)
    | inr t ↦ rw t (filter_where-All P test xs k)
  ]
