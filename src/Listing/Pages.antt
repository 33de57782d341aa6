-- ===== src/Listing/Pages.antt =====
-- What the pages of a list are together.
use fetchit_be.Base.{
  ℕ, zero, suc, ◌+◌, ◌-◌, ◌*◌, ◌/◌, ◌%◌, ◌≡◌, ◌≤◌, ◌<◌, ◌↔◌, refl, sym, ap, subst, ◌∙◌, arith, Bool,
  true, false, List, [], ◌∷◌, ◌++◌, length, ◌==◌, filter_where, count_where, Bool-cases, inl, inr,
}
use native.Mathlib.Nat.{
  zero-add, suc-add, suc-mul, zero-mul, div-add-mod', mod-lt, mul-le-mul_right,
  mul-lt-mul_of_pos_right, lt_of_mul-lt-mul_right,
}
use mathlib.Core.Path.{ap₂}
use fetchit_be.Listing.{
  take, drop, ceil_div, create_pagination_meta, paginate_items, paginate_array, find_many,
  find_page,
}

-- There is a page after the given one exactly where its items do not reach the end.
ceil_div-lt :
    (page total limit : ℕ) → 0 < limit → (page < ceil_div total limit) ↔ (page * limit < total)
ceil_div-lt page total limit pos = elim (Bool-cases (total % limit == 0)) [
  | inl whole ↦ rw whole (
    λ h. omega (
      arith,
      div-add-mod' total limit,
      mul-lt-mul_of_pos_right {m = page} {n = total / limit} {k = limit} h pos,
    ),
    λ h. lt_of_mul-lt-mul_right limit (ground (arith, div-add-mod' total limit)),
  )
  | inr part ↦ rw part (
    λ h. ground (
      arith,
      div-add-mod' total limit,
      mul-le-mul_right {m = page} {n = total / limit} limit (omega (arith, h)),
    ),
    λ h.
        lt_of_mul-lt-mul_right limit (
          ground
            (arith, div-add-mod' total limit, mod-lt total pos, suc-mul (total / limit) limit)),
  )
]

ceil_div-ge : (total limit : ℕ) → 0 < limit → total ≤ ceil_div total limit * limit
ceil_div-ge total limit pos =
    let (to, from) = ceil_div-lt (ceil_div total limit) total limit pos in grind arith

module _ {ℓ} {A : Type ℓ} where
  take-append-drop : (m n : ℕ) (xs : List A) → take m xs ++ take n (drop m xs) ≡ take (m + n) xs
  take-append-drop zero n xs = ap (λ k. take k xs) (sym (zero-add n))
  take-append-drop (suc m) n [] = take-nil n ∙ sym (take-nil (suc m + n))
    where
      take-nil : (k : ℕ) → take {A = A} k [] ≡ []
      take-nil zero = refl
      take-nil (suc k) = refl
  take-append-drop (suc m) n (x ∷ xs) =
      ap (λ ys. x ∷ ys) (take-append-drop m n xs) ∙ ap (λ k. take k (x ∷ xs)) (sym (suc-add m n))

  take_all : (n : ℕ) (xs : List A) → length xs ≤ n → take n xs ≡ xs
  take_all zero [] le = refl
  take_all zero (x ∷ xs) le = absurd (omega arith)
  take_all (suc n) [] le = refl
  take_all (suc n) (x ∷ xs) le = ap (λ ys. x ∷ ys) (take_all n xs (omega arith))

  length-slice_pos :
      (n m : ℕ) (xs : List A) → 0 < n → (0 < length (take n (drop m xs))) ↔ (m < length xs)
  length-slice_pos zero m xs pos = absurd (omega arith)
  length-slice_pos (suc n) zero [] pos = (λ h. h, λ h. h)
  length-slice_pos (suc n) zero (x ∷ xs) pos = (λ h. omega arith, λ h. omega arith)
  length-slice_pos (suc n) (suc m) [] pos = (λ h. absurd (omega arith), λ h. absurd (omega arith))
  length-slice_pos (suc n) (suc m) (x ∷ xs) pos =
      let (to, from) = length-slice_pos (suc n) m xs pos in
      (λ h. omega (arith, to h), λ h. from (omega arith))

  -- A page that is not page 0.
  page_items :
      (items : List A) (n limit : ℕ)
      → paginate_items items (suc n) limit ≡ take limit (drop (n * limit) items)
  unfolding paginate_items
  page_items items n limit =
      let before : suc n - 1 ≡ n = omega arith in
      let not_zero : (suc n == 0) ≡ false = ground arith in
      let count : n * limit + limit - n * limit ≡ limit = omega arith in
      rw (not_zero, before, count) refl

  -- The first pages, one after another.
  abbrev pub pages : List A → ℕ → ℕ → List A
  pages items limit zero = []
  pages items limit (suc n) = pages items limit n ++ (paginate_array items (suc n) limit).items

  pages_taken : (items : List A) (limit n : ℕ) → pages items limit n ≡ take (n * limit) items
  unfolding paginate_array
  pages_taken items limit zero = ap (λ k. take k items) (sym (zero-mul limit))
  pages_taken items limit (suc n) =
      ap (λ ys. ys ++ paginate_items items (suc n) limit) (pages_taken items limit n)
      ∙ ap (λ ys. take (n * limit) items ++ ys) (page_items items n limit)
      ∙ take-append-drop (n * limit) limit items
      ∙ ap (λ k. take k items) (sym (suc-mul n limit))

  -- The pages of a list, of the number that is reported with each, are the list, item for item and
  -- in order; and a page reports a next one exactly where the next one has items. The limit is not 0.
  pub paginate_array-pages :
      (items : List A) (limit n : ℕ)
      → 0 < limit
      → (pages items limit (paginate_array items (suc n) limit).about.total_pages ≡ items)
        × (((paginate_array items (suc n) limit).about.has_next_page ≡ true)
            ↔ (0 < length (paginate_array items (suc (suc n)) limit).items))
  unfolding paginate_array create_pagination_meta
  paginate_array-pages items limit n pos =
      let beyond = ceil_div-lt (suc n) (length items) limit pos in
      let at_next : (0 < length (paginate_items items (suc (suc n)) limit))
          ↔ (suc n * limit < length items) =
        subst (λ ys. (0 < length ys) ↔ (suc n * limit < length items))
          (sym (page_items items (suc n) limit))
          (length-slice_pos limit (suc n * limit) items pos) in
      (
        pages_taken items limit _ ∙ take_all _ items (ceil_div-ge (length items) limit pos),
        (
          λ h. at_next.1 (beyond.0 (ground arith)),
          λ h. let more = beyond.1 (at_next.0 h) in ground arith,
        ),
      )

  count_where-length :
      (test : A → Bool) (rows : List A) → count_where test rows ≡ length (filter_where test rows)
  unfolding count_where filter_where
  count_where-length test [] = refl
  count_where-length test (x ∷ rows) = ground (arith, count_where-length test rows)

  -- A page that the database gives, with the count of all rows that match, is the page of the list
  -- of all rows that match, in their order. The order permutes them, so that it keeps their number.
  pub find_page-paginate_array :
      (test : A → Bool) (order : List A → List A) (n limit : ℕ) (rows : List A)
      → length (order (filter_where test rows)) ≡ length (filter_where test rows)
      → find_page test order (n * limit) (suc n) limit rows
        ≡ paginate_array (order (filter_where test rows)) (suc n) limit
  unfolding find_page find_many paginate_array
  find_page-paginate_array test order n limit rows same =
      let total = count_where-length test rows ∙ sym same in
      let page = sym (page_items (order (filter_where test rows)) n limit) in
      ap₂ (λ ys k. record { items = ys; about = create_pagination_meta (suc n) limit k }) page total
