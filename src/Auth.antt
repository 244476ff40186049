-- ===== src/Auth.antt =====
-- aurweb/auth: who a request comes from, and what the account may do.
pub mod Creds
pub mod Sessions
pub mod Login
pub mod Required
mod Tests
