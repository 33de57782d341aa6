-- ===== src/Api/Admins.antt =====
-- src/modules/admin/admin-verification.controller.ts, and the endpoints for administrators of
-- src/modules/service-categories/service-categories.controller.ts and of
-- src/modules/users/users.controller.ts.
use fetchit_be.Base.{ℕ, String, Bool, true, Option, none, some, List, [], ◌∷◌}
use fetchit_be.Schema.{HandymanProfile, DocumentStatus, ServiceCategory, admin}
use fetchit_be.World.{M, ◌>>=◌}
use fetchit_be.Texts.{Text}
use fetchit_be.Auth.Access.{RequestUser, authorize}
use fetchit_be.Listing.{PaginationDto, PaginatedResult}
use fetchit_be.Listing.Requests.{SignedDocument}
use fetchit_be.Vetting.Review
use fetchit_be.Vetting.Reading.{
  PendingProfile, get_pending_handymen, get_handyman_for_review, review_document_signed,
}
use fetchit_be.Categories
use fetchit_be.Categories.{CategoryDto}
use fetchit_be.Api.{Reply, reply, protected}

pub data AdminRoute : Type 0 where
  pending_handymen : PaginationDto → AdminRoute
  handyman_for_review : ℕ → AdminRoute
  approve_handyman : ℕ → ℕ → AdminRoute
  reject_handyman : ℕ → String → ℕ → AdminRoute
  review_document : ℕ → ℕ → DocumentStatus → String → ℕ → AdminRoute

pub data AdminBody : Type 0 where
  pending : PaginatedResult PendingProfile → AdminBody
  for_review : HandymanProfile × List SignedDocument → AdminBody
  one_profile : HandymanProfile → AdminBody
  one_document : SignedDocument → AdminBody

-- `sign` is `storage.getSignedUrl`; `fails` says for which documents the audit insert throws.
unfoldable pub run_admin_route :
    (Text → Option Text) → (ℕ → Bool) → AdminRoute → RequestUser → M (Reply AdminBody)
run_admin_route sign fails (pending_handymen pagination) user =
    reply none pending (get_pending_handymen pagination)
run_admin_route sign fails (handyman_for_review id) user =
    reply none for_review (get_handyman_for_review sign fails id user.id)
run_admin_route sign fails (approve_handyman id now) user =
    reply (some "Handyman approved successfully") one_profile
      (Review.approve_handyman id user.id now)
run_admin_route sign fails (reject_handyman id reason now) user =
    reply (some "Handyman rejected") one_profile (Review.reject_handyman id user.id reason now)
run_admin_route sign fails (review_document id doc_id status reason now) user =
    reply (some "Document reviewed successfully") one_document
      (review_document_signed sign id doc_id user.id status reason now)

-- `AdminVerificationController`
unfoldable pub admin_verification_controller :
    (Text → Option Text) → (ℕ → Bool) → AdminRoute → Option ℕ → M (Reply AdminBody)
unfolding run_admin_route
admin_verification_controller sign fails route token =
    protected (admin ∷ []) token (run_admin_route sign fails route)

pub data CategoryRoute : Type 0 where
  add_category : ℕ → Text → Option String → Option String → CategoryRoute
  change_category : ℕ → CategoryDto → CategoryRoute
  drop_category : ℕ → CategoryRoute

-- `@Public()` for the list, `@Roles(ADMIN)` for the others.
unfoldable pub run_category_route : CategoryRoute → RequestUser → M (Reply (Option ServiceCategory))
run_category_route (add_category key name description icon) user =
    reply (some "Category created successfully") some
      (Categories.create_service_category key name description icon)
run_category_route (change_category id dto) user =
    reply (some "Category updated successfully") some (Categories.update_service_category id dto)
run_category_route (drop_category id) user =
    reply (some "Category deactivated successfully") (λ c. none) (Categories.deactivate id)

-- `ServiceCategoriesController`, its public list apart.
unfoldable pub service_categories_controller :
    CategoryRoute → Option ℕ → M (Reply (Option ServiceCategory))
unfolding run_category_route
service_categories_controller route token = protected (admin ∷ []) token (run_category_route route)

unfoldable pub list_categories : Option ℕ → M (Reply (List ServiceCategory))
list_categories token = do
  user ← authorize true [] token
  reply none (λ cs. cs) Categories.find_active_categories
