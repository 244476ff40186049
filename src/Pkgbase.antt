-- ===== src/Pkgbase.antt =====
-- aurweb/pkgbase and aurweb/packages/requests.py: package bases, who maintains them, and the
-- requests about them.
pub mod Comaintainers
pub mod Closures
pub mod Requests
pub mod Merging
pub mod Actions
mod Tests
