-- ===== src/Config.antt =====
-- internal/config/config.go: the configuration files and their checks. Their syntax is KDL, which a
-- library reads: `Document` is what it answers.
pub mod Records
pub mod Parse
pub mod Validate
pub mod Ids
mod Tests
