-- ===== src/Ctl.antt =====
-- internal/ctl: the payloads of the control protocol.
pub mod Requests
pub mod RoundTrip
pub mod Status
pub mod StatusRoundTrip
mod Tests
