-- ===== src/Models.antt =====
-- The rows of the database tables (aurweb/models, aurweb/schema.py), with the columns that the
-- modelled code reads or writes. Time stamps are Unix times.
mod Accounts
mod Packages
unfoldable pub use Accounts.*
unfoldable pub use Packages.*
