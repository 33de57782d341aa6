-- ===== src/Auth.antt =====
-- Sign-in and its tokens: src/modules/auth, with the repositories of sessions and of one-time tokens.
-- A token is a number; the hash, the password check, the tokens that are made and whether a mail
-- could be sent are arguments.
pub mod Sessions
pub mod Tokens
pub mod Rotation
pub mod SingleUse
pub mod Login
pub mod Registration
pub mod OAuth
pub mod Access
pub mod Guarded
pub mod Registered
pub mod Verified
pub mod Linked
pub mod Google
mod Tests
