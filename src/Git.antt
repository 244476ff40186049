-- ===== src/Git.antt =====
-- aurweb/git: the access to the package repositories over SSH, and the hook that checks what is pushed.
pub mod Serve
pub mod Lint
pub mod Keys
pub mod Update
mod Tests
