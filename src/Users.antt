-- ===== src/Users.antt =====
-- Accounts: src/modules/users/users.service.ts and src/database/repositories/user.repository.ts.
pub mod Repository
pub mod Service
mod Tests
