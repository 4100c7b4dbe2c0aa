-- ===== src/Python.antt =====
-- What the program uses of Python: decimals, dates and times, JSON, and the values that a driver
-- reads from Postgres. The functions of the standard library whose text the program never looks
-- at are the fields of `Runtime`.
mod Calendar
mod Values
mod Codec
mod Chance
unfoldable pub use Calendar.*
pub use Values.*
pub use Codec.*
unfoldable pub use Chance.*
