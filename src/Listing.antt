-- ===== src/Listing.antt =====
-- Pages of a list: src/common/utils/pagination.util.ts and src/common/dto/pagination.dto.ts, and the
-- `findMany` and `count` of a page. The numbers are those that the validation lets through, whole
-- and not negative.
pub mod Pages
pub mod Requests
pub mod Private
pub mod Own
use fetchit_be.Base.{
  ℕ, zero, suc, ◌+◌, ◌-◌, ◌*◌, ◌/◌, ◌%◌, Bool, Option, List, [], ◌∷◌, length, ltb, ◌==◌,
  if◌then◌else◌, or_default, or_else, filter_where, count_where,
}

module _ {ℓ} {A : Type ℓ} where
  abbrev pub take : ℕ → List A → List A
  take zero xs = []
  take (suc n) [] = []
  take (suc n) (x ∷ xs) = x ∷ take n xs

  abbrev pub drop : ℕ → List A → List A
  drop zero xs = xs
  drop (suc n) [] = []
  drop (suc n) (x ∷ xs) = drop n xs

-- `IMeta`
pub record Meta : Type 0 where
  pub page : ℕ
  pub limit : ℕ
  pub total : ℕ
  pub total_pages : ℕ
  pub has_next_page : Bool
  pub has_previous_page : Bool

-- `IPaginatedResult`
pub record PaginatedResult {ℓ} (A : Type ℓ) : Type ℓ where
  pub items : List A
  pub about : Meta

-- `PaginationDto`; the sort is an argument of the listings.
pub record PaginationDto : Type 0 where
  pub page : Option ℕ
  pub limit : Option ℕ

-- `PaginationDto.skip`
unfoldable pub skip : PaginationDto → ℕ
skip dto = (or_default dto.page 1 - 1) * or_default dto.limit 10

-- `Math.ceil(total / limit)`
abbrev pub ceil_div : ℕ → ℕ → ℕ
ceil_div total limit = if total % limit == 0 then total / limit else suc (total / limit)

unfoldable pub create_pagination_meta : ℕ → ℕ → ℕ → Meta
create_pagination_meta page limit total = record {
  page = page;
  limit = limit;
  total = total;
  total_pages = ceil_div total limit;
  has_next_page = ltb page (ceil_div total limit);
  has_previous_page = ltb 1 page;
}

module _ {ℓ} {A : Type ℓ} where
  -- `items.slice(start, end)`
  abbrev pub slice : List A → ℕ → ℕ → List A
  slice items start end = take (end - start) (drop start items)

  -- The items of a page; on page 0 the source's slice ends where the list begins.
  unfoldable pub paginate_items : List A → ℕ → ℕ → List A
  paginate_items items page limit =
      if page == 0
      then []
      else let start_index = (page - 1) * limit in slice items start_index (start_index + limit)

  unfoldable pub paginate_array : List A → ℕ → ℕ → PaginatedResult A
  unfolding paginate_items
  paginate_array items page limit = record {
    items = paginate_items items page limit;
    about = create_pagination_meta page limit (length items);
  }

  -- `findMany({ where, orderBy, skip, take })` on the rows of a table.
  unfoldable pub find_many : (A → Bool) → (List A → List A) → ℕ → ℕ → List A → List A
  find_many test order skipped taken rows =
      take taken (drop skipped (order (filter_where test rows)))

  -- The page, and the count of all rows that match.
  unfoldable pub find_page : (A → Bool) → (List A → List A) → ℕ → ℕ → ℕ → List A → PaginatedResult A
  unfolding find_many create_pagination_meta
  find_page test order skipped page limit rows = record {
    items = find_many test order skipped limit rows;
    about = create_pagination_meta page limit (count_where test rows);
  }
