-- ===== src/Capabilities.antt =====
-- internal/capabilities
pub mod Payloads
pub mod RoundTrip
pub mod Dispatch
pub mod Grants
pub mod Paths
pub mod Below
pub mod FileWrite
pub mod WriteScope
pub mod Browser
pub mod BrowserPolicy
mod Tests
