-- ===== src/World.antt =====
-- What the services run against: the database, the broker, the clocks and the random source, and
-- the actions over them.
mod Failure
mod Rows
mod Broker
mod Library
mod Effects
mod Laws
pub mod Keeps
pub use Failure.*
pub use Rows.*
pub use Broker.*
pub use Library.*
unfoldable pub use Effects.*
pub use Laws.*
