-- ===== src/Uploads.antt =====
-- Files that users send: src/common/utils/file-type.util.ts, src/modules/uploads/uploads.service.ts, and
-- uploadDocumentFile of src/modules/handyman/handyman.service.ts.
pub mod FileType
pub mod FileName
pub mod Objects
pub mod Documents
pub mod Matched
mod Tests
