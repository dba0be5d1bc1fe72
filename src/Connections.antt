-- ===== src/Connections.antt =====
-- The map of connections: AdminConnections of pkg/redisutil/connections.go.
-- `Dialing` has the operations on it, `Choice` the random choice of a client, `Reached` is about the
-- clients that they leave, `Endless` about when they return, `Found` about the choice.
mod Dialing
pub mod Reached
mod Choice
pub mod Endless
pub mod Found
unfoldable pub use Dialing.*
unfoldable pub use Choice.*
