-- ===== src/Categories/Tests.antt =====
-- Categories that are made, renamed and taken out of use.
use fetchit_be.Base.{
  none, some, List, [], ◌∷◌, ◌≡◌, refl, map, find_where, filter_where, update_where, any_where, All,
}
use fetchit_be.Texts.{codes, text_eq}
use fetchit_be.Schema.{ServiceCategory, resource_already_exists}
use fetchit_be.World.{World, ok, err}
use fetchit_be.Categories.{
  dash_spaces, generate_slug, CategoryDto, create_service_category, update_service_category,
  deactivate, create_category, update_category, write_category, find_by_slug, find_category,
  find_one_category, find_active_categories, check_slug,
}
use fetchit_be.Categories.Slugged.{
  CategoryCall, creating, updating, deactivating, run_category_call, run_category_calls, IsSlug,
  run_category_calls-IsSlugged,
}

abbrev nothing : World
nothing = record {
  users = [];
  profiles = [];
  categories = [];
  documents = [];
  audit_log = [];
  sessions = [];
  objects = [];
  service_categories = [];
  password_resets = [];
  email_verifications = [];
  requests = [];
  applications = [];
  outbox = [];
}

abbrev rename : CategoryDto
rename = record {
  name = some (codes "Pipe  Work & Co");
  description = none;
  icon = none;
  is_active = none;
}

abbrev calls : List CategoryCall
calls =
    creating 1 (codes "Plumbing") none none
    ∷ creating 2 (codes "PLUMBING!") none none
    ∷ updating 1 rename
    ∷ deactivating 1
    ∷ []

made :
    map (λ (c : ServiceCategory). c.slug) (run_category_calls calls nothing).service_categories
    ≡ codes "pipe-work--co" ∷ []
unfolding run_category_calls run_category_call generate_slug dash_spaces create_service_category
    update_service_category deactivate create_category update_category write_category find_by_slug
    find_category find_one_category check_slug find_where filter_where update_where any_where
    text_eq
made = refl

-- Two names without Latin letters have one slug, the empty one: the second is refused.
refused :
    let w = (create_service_category 1 (0x6c34 ∷ []) none none nothing).0 in
    ((create_service_category 2 (0x96fb ∷ []) none none w).1 ≡ err resource_already_exists)
    × ((find_active_categories (deactivate 1 w).0).1 ≡ ok [])
unfolding generate_slug dash_spaces create_service_category deactivate create_category
    update_category write_category find_by_slug find_category find_one_category
    find_active_categories find_where filter_where update_where any_where text_eq
refused = (refl, refl)

run_category_calls-IsSlugged_example :
    All
      (λ c. (c.slug ≡ generate_slug c.name) × IsSlug c.slug)
      (run_category_calls calls nothing).service_categories
run_category_calls-IsSlugged_example = run_category_calls-IsSlugged calls nothing tt
