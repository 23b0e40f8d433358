-- ===== src/Server.antt =====
-- src/server/: the control channel of one connection.
pub mod Options
pub mod Session
pub mod Messages
pub mod Handled
pub mod Commands
pub mod Middleware
pub mod Internal
pub mod Sound
pub mod Tasks
pub mod Loop
pub mod DataChan
pub mod Shutdown
pub mod Notify
pub mod Setup
pub mod Tests
