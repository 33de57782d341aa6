-- ===== src/Categories.antt =====
-- Service categories: src/modules/service-categories/service-categories.service.ts, with
-- src/database/repositories/service-category.repository.ts.
pub mod Slugged
mod Tests
use fetchit_be.Base.{
  ℕ, String, Bool, true, false, not, Option, none, some, List, [], ◌∷◌, ◌++◌, ◌+◌, ◌==◌, ◌&&◌, ◌||◌,
  leb, is_none, map, find_where, filter_where, update_where, any_where, if◌then◌else◌,
}
use fetchit_be.Schema.{
  ServiceCategory, Resource, service_category, resource_not_found, resource_already_exists,
  unique_violation, record_not_found,
}
use fetchit_be.World.{ok, err, M, ◌>>=◌, ◌>>◌, guard, or_throw}
use fetchit_be.Texts.{Text, text_eq, is_space}

-- `toLowerCase`, as far as it gives letters that a slug keeps: beside A to Z, the Kelvin sign and the
-- dotted capital I.
abbrev pub lower : ℕ → ℕ
lower c =
    if leb b'A' c && leb c b'Z'
    then c + 32
    else if c == 0x212a
    then b'k'
    else if c == 0x130
    then b'i'
    else c

-- `replace(/\s+/g, '-')`; the flag says whether white space comes just before.
unfoldable pub dash_spaces : Bool → Text → Text
dash_spaces after_space [] = []
dash_spaces after_space (c ∷ s) =
    let rest = dash_spaces (is_space c) s in
    if is_space c then (if after_space then rest else b'-' ∷ rest) else c ∷ rest

abbrev pub is_slug_char : ℕ → Bool
is_slug_char c = leb b'a' c && leb c b'z' || leb b'0' c && leb c b'9' || c == b'-'

unfoldable pub generate_slug : Text → Text
generate_slug name = filter_where is_slug_char (dash_spaces false (map lower name))

unfoldable pub find_category : ℕ → M (Option ServiceCategory)
find_category id w = (w, ok (find_where (λ c. c.id == id) w.service_categories))

unfoldable pub find_by_slug : Text → M (Option ServiceCategory)
find_by_slug slug w = (w, ok (find_where (λ c. text_eq c.slug slug) w.service_categories))

-- The key, the name and the slug are unique.
abbrev pub collides : ServiceCategory → ServiceCategory → Bool
collides c d = d.id == c.id || text_eq d.name c.name || text_eq d.slug c.slug

unfoldable pub create_category : ServiceCategory → M ServiceCategory
create_category c w =
    if any_where (collides c) w.service_categories
    then (w, err unique_violation)
    else (record w { service_categories = c ∷ w.service_categories }, ok c)

unfoldable pub write_category :
    ℕ → (ServiceCategory → ServiceCategory) → Option ServiceCategory → M ServiceCategory
write_category id f none w = (w, err record_not_found)
write_category id f (some c) w =
    if any_where (λ d. not (d.id == id) && collides (f c) d) w.service_categories
    then (w, err unique_violation)
    else (
      record w { service_categories = update_where (λ d. d.id == id) f w.service_categories },
      ok (f c),
    )

unfoldable pub update_category : ℕ → (ServiceCategory → ServiceCategory) → M ServiceCategory
unfolding write_category
update_category id f w = write_category id f (find_where (λ c. c.id == id) w.service_categories) w

-- The order by name is left out.
unfoldable pub find_active_categories : M (List ServiceCategory)
find_active_categories w = (w, ok (filter_where (λ c. c.is_active) w.service_categories))

unfoldable pub find_one_category : ℕ → M ServiceCategory
unfolding find_category
find_one_category id = do
  found ← find_category id
  or_throw found (resource_not_found service_category id)

pub record CategoryDto : Type 0 where
  pub name : Option Text
  pub description : Option String
  pub icon : Option String
  pub is_active : Option Bool

unfoldable pub create_service_category :
    ℕ → Text → Option String → Option String → M ServiceCategory
unfolding find_by_slug create_category
create_service_category id name description icon = do
  existing ← find_by_slug (generate_slug name)
  guard (is_none existing) resource_already_exists
  create_category (record {
    id = id;
    name = name;
    slug = generate_slug name;
    description = description;
    icon = icon;
    is_active = true;
  })

-- Columns that the body leaves out are left alone; a name brings its slug.
abbrev pub renamed : Option Text → ServiceCategory → ServiceCategory
renamed none c = c
renamed (some name) c = record c { name = name; slug = generate_slug name }

abbrev pub or_old {ℓ} : {A : Type ℓ} → Option A → A → A
or_old none old = old
or_old (some new) old = new

abbrev pub or_old_some {ℓ} : {A : Type ℓ} → Option A → Option A → Option A
or_old_some none old = old
or_old_some (some new) old = some new

abbrev pub changed : CategoryDto → ServiceCategory → ServiceCategory
changed dto c = record (renamed dto.name c) {
  description = or_old_some dto.description c.description;
  icon = or_old_some dto.icon c.icon;
  is_active = or_old dto.is_active c.is_active;
}

-- Whether the slug is another category's.
abbrev pub is_other : ℕ → Option ServiceCategory → Bool
is_other id none = false
is_other id (some c) = not (c.id == id)

unfoldable pub check_slug : ℕ → Option Text → M (Unit {0})
unfolding find_by_slug
check_slug id none w = (w, ok tt)
check_slug id (some name) w =
    ((do
      existing ← find_by_slug (generate_slug name)
      guard (not (is_other id existing)) resource_already_exists)
      w)

unfoldable pub update_service_category : ℕ → CategoryDto → M ServiceCategory
unfolding find_one_category check_slug update_category
update_service_category id dto = do
  category ← find_one_category id
  check_slug id dto.name
  update_category id (changed dto)

unfoldable pub deactivate : ℕ → M ServiceCategory
unfolding find_one_category update_category
deactivate id = do
  category ← find_one_category id
  update_category id (λ c. record c { is_active = false })
