-- ===== src/Keeperd.antt =====
-- cmd/keeperd: the state of the daemon, the handler of the frames of wards, the control requests.
pub mod State
pub mod Handlers
pub mod Isolation
pub mod Requests
pub mod Events
pub mod Ctl
pub mod Replies
pub mod Connection
pub mod Unanswered
pub mod Subs
pub mod Provided
pub mod Disconnect
pub mod Hangup
pub mod Proxies
pub mod PortLaws
pub mod PortSharing
pub mod Browser
pub mod Pairing
pub mod Accounts
pub mod AgentAcl
pub mod AgentKdl
pub mod Provisioning
pub mod Lifecycle
pub mod Admission
pub mod Departure
mod Tests
mod ConnTests
mod ProxyTests
mod AgentTests
