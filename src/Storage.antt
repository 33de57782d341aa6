-- ===== src/Storage.antt =====
-- Object storage: which keys are allowed, which bucket a key lives in, and how the settings of the
-- environment decide it: src/storage, src/config/env.validation.ts and src/config/configuration.ts.
pub mod Keys
pub mod Settings
pub mod Provider
pub mod Inside
pub mod Privacy
mod Tests
