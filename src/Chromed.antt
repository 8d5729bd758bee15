-- ===== src/Chromed.antt =====
-- internal/chromed
pub mod Payloads
pub mod RoundTrip
pub mod Blank
pub mod Manager
pub mod Sessions
pub mod Filing
pub mod Processes
pub mod Signals
pub mod Orphans
pub mod Overlap
pub mod Conn
pub mod EndToEnd
pub mod Launch
mod Tests
mod ServiceTests
