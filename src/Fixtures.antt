-- ===== src/Fixtures.antt =====
-- Concrete stand-ins for what the program does not implement: they show that the assumptions can
-- be met, and the witnesses run on them.
mod Codec
mod Server
mod Floats
mod Ingestion
mod Database
mod Chance
mod Host
mod Wire
pub use Codec.*
pub use Server.*
pub use Floats.*
pub use Ingestion.*
pub use Database.*
pub use Chance.*
unfoldable pub use Host.*
pub use Wire.*
