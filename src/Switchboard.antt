-- ===== src/Switchboard.antt =====
-- internal/switchboard: message types, the frame codec, the rate limiter and the router.
pub mod MsgType
pub mod Codec
pub mod Frames
pub mod Bounds
pub mod Limiter
pub mod Router
mod Tests
