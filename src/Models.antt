-- ===== src/Models.antt =====
-- app/shared/models.py and app/shared/schemas.py: the rows of the tables, the request bodies and
-- the JSON objects that the services build. Each child is one schema of the database.
mod Enums
mod Requests
mod Bodies
mod Iam
mod Core
mod B01
mod B02
mod Integration
pub use Enums.*
pub use Requests.*
pub use Bodies.*
pub use Iam.*
pub use Core.*
pub use B01.*
pub use B02.*
pub use Integration.*
