-- ===== src/Vetting.antt =====
-- How a handyman's profile is completed, submitted and reviewed: src/modules/handyman/
-- handyman.service.ts, src/modules/admin/admin-verification.service.ts and src/database/repositories/
-- handyman-profile.repository.ts. That a category id names a category is left to the database.
pub mod Profile
pub mod Review
pub mod Reading
pub mod Audited
pub mod Writes
pub mod Methods
pub mod Sound
pub mod Overlap
mod Tests
