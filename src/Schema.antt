-- ===== src/Schema.antt =====
-- prisma/schema.prisma: the models, with their unique and foreign keys.
mod Enums
mod Dto
mod Rows
mod Tables
pub use Enums.*
pub use Dto.*
pub use Rows.*
pub use Tables.*
