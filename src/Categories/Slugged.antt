-- ===== src/Categories/Slugged.antt =====
-- Every category carries the slug of its name.
use fetchit_be.Base.{
  filter_where-All, All-map, subst, sym, ℕ, String, true, false, not, Option, none, some, List, [],
  ◌∷◌, ◌&&◌, ◌==◌, ◌≡◌, refl, arith, find_where, any_where, is_none, map, if◌then◌else◌, All,
  All-update_where, Bool-cases, Option-cases, inl, inr,
}
use fetchit_be.Schema.{
  ServiceCategory, service_category, resource_not_found, resource_already_exists,
}
use fetchit_be.World.{World, ◌>>◌}
use fetchit_be.Vetting.Writes.{after_check, after_or_throw, after_guard}
use fetchit_be.Texts.{Text, text_eq}
use fetchit_be.Categories.{
  generate_slug, dash_spaces, lower, CategoryDto, create_service_category, update_service_category,
  deactivate, create_category, update_category, find_by_slug, find_category, find_one_category,
  check_slug, write_category, collides, changed, is_slug_char,
}

abbrev pub HasSlug : ServiceCategory → Type 0
HasSlug c = c.slug ≡ generate_slug c.name

-- Of letters a to z, digits and dashes.
abbrev pub IsSlug : Text → Type 0
IsSlug slug = All (λ c. is_slug_char c ≡ true) slug

abbrev IsSlugged : World → Type 0
IsSlugged w = All HasSlug w.service_categories

write-IsSlugged :
    (id : ℕ) (f : ServiceCategory → ServiceCategory) (found : Option ServiceCategory) (w : World)
    → ((c : ServiceCategory) → HasSlug c → HasSlug (f c))
    → IsSlugged w
    → IsSlugged (write_category id f found w).0
unfolding write_category
write-IsSlugged id f none w k h = h
write-IsSlugged id f (some c) w k h =
    elim (Bool-cases (any_where (λ d. not (d.id == id) && collides (f c) d) w.service_categories)) [
      | inl t ↦ rw t h
      | inr t ↦
          rw t (All-update_where HasSlug HasSlug (λ d. d.id == id) f w.service_categories row h)
    ]
  where
    row : (c : ServiceCategory) → HasSlug c → HasSlug (if c.id == id then f c else c)
    row c p = elim (Bool-cases (c.id == id)) [ inl t ↦ rw t (k c p) | inr t ↦ rw t p ]

update-IsSlugged :
    (id : ℕ) (f : ServiceCategory → ServiceCategory) (w : World)
    → ((c : ServiceCategory) → HasSlug c → HasSlug (f c))
    → IsSlugged w
    → IsSlugged (update_category id f w).0
unfolding update_category
update-IsSlugged id f w k h =
    write-IsSlugged id f (find_where (λ c. c.id == id) w.service_categories) w k h

create-IsSlugged :
    (c : ServiceCategory) (w : World) → HasSlug c → IsSlugged w → IsSlugged (create_category c w).0
unfolding create_category
create-IsSlugged c w p h = elim (Bool-cases (any_where (collides c) w.service_categories)) [
  | inl t ↦ rw t h
  | inr t ↦ rw t (p, h)
]

check_slug-same : (id : ℕ) (name : Option Text) (w : World) → (check_slug id name w).0 ≡ w
unfolding check_slug find_by_slug
check_slug-same id none w = refl
check_slug-same id (some name) w = ground arith

changed-HasSlug : (dto : CategoryDto) (c : ServiceCategory) → HasSlug c → HasSlug (changed dto c)
changed-HasSlug dto c p = elim (Option-cases dto.name) [
  | inl n ↦ rw n p
  | inr (name, n) ↦ rw n refl
]

pub data CategoryCall : Type 0 where
  creating : ℕ → Text → Option String → Option String → CategoryCall
  updating : ℕ → CategoryDto → CategoryCall
  deactivating : ℕ → CategoryCall

unfoldable pub run_category_call : CategoryCall → World → World
run_category_call (creating id name description icon) w =
    (create_service_category id name description icon w).0
run_category_call (updating id dto) w = (update_service_category id dto w).0
run_category_call (deactivating id) w = (deactivate id w).0

unfoldable pub run_category_calls : List CategoryCall → World → World
run_category_calls [] w = w
run_category_calls (call ∷ calls) w = run_category_calls calls (run_category_call call w)

update-call :
    (id : ℕ) (dto : CategoryDto) (w : World)
    → IsSlugged w
    → IsSlugged (update_service_category id dto w).0
unfolding update_service_category find_one_category find_category
update-call id dto w h =
    after_or_throw {B = ServiceCategory} IsSlugged
      (find_where (λ c. c.id == id) w.service_categories) (resource_not_found service_category id)
      (λ c. check_slug id dto.name >> update_category id (changed dto)) w h
      (λ c e.
        after_check {B = ServiceCategory} IsSlugged (check_slug id dto.name)
          (λ _. update_category id (changed dto)) w (check_slug-same id dto.name w) h
          (λ a e'. update-IsSlugged id (changed dto) w (changed-HasSlug dto) h))

deactivate-call : (id : ℕ) (w : World) → IsSlugged w → IsSlugged (deactivate id w).0
unfolding deactivate find_one_category find_category
deactivate-call id w h =
    after_or_throw {B = ServiceCategory} IsSlugged
      (find_where (λ c. c.id == id) w.service_categories) (resource_not_found service_category id)
      (λ c. update_category id (λ d. record d { is_active = false })) w h
      (λ c e. update-IsSlugged id (λ d. record d { is_active = false }) w (λ d p. p) h)

call-IsSlugged :
    (call : CategoryCall) (w : World) → IsSlugged w → IsSlugged (run_category_call call w)
unfolding run_category_call create_service_category find_by_slug
call-IsSlugged (creating id name description icon) w h =
    after_guard {B = ServiceCategory} IsSlugged
      (is_none (find_where (λ c. text_eq c.slug (generate_slug name)) w.service_categories))
      resource_already_exists _ w h
      (λ t.
        create-IsSlugged
          (record {
            id = id;
            name = name;
            slug = generate_slug name;
            description = description;
            icon = icon;
            is_active = true;
          })
          w refl h)
call-IsSlugged (updating id dto) w h = update-call id dto w h
call-IsSlugged (deactivating id) w h = deactivate-call id w h

run-IsSlugged :
    (calls : List CategoryCall) (w : World) → IsSlugged w → IsSlugged (run_category_calls calls w)
unfolding run_category_calls
run-IsSlugged [] w h = h
run-IsSlugged (call ∷ calls) w h =
    run-IsSlugged calls (run_category_call call w) (call-IsSlugged call w h)

generate_slug-IsSlug : (name : Text) → IsSlug (generate_slug name)
unfolding generate_slug
generate_slug-IsSlug name =
    filter_where-All (λ c. is_slug_char c ≡ true) is_slug_char (dash_spaces false (map lower name))
      (λ c h. h)

-- After whatever calls, in whatever order and however they fail, every category carries the slug of
-- its name, of small letters, digits and dashes only, if it did before.
pub run_category_calls-IsSlugged :
    (calls : List CategoryCall) (w : World)
    → All HasSlug w.service_categories
    → All
        (λ c. (c.slug ≡ generate_slug c.name) × IsSlug c.slug)
        (run_category_calls calls w).service_categories
run_category_calls-IsSlugged calls w h =
    All-map HasSlug (λ c. (c.slug ≡ generate_slug c.name) × IsSlug c.slug)
      (run_category_calls calls w).service_categories
      (λ c p. (p, subst IsSlug (sym p) (generate_slug-IsSlug c.name))) (run-IsSlugged calls w h)
