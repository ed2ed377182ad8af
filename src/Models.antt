-- ===== src/Models.antt =====
-- The tables of backend/app/models.py as rows with their constraints, and its request and response
-- schemas.
mod Rows
mod Schemas
mod Checks
unfoldable pub use Rows.*
unfoldable pub use Schemas.*
unfoldable pub use Checks.*
