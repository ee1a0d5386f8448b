-- ===== src/Cli.antt =====
-- cmd/frkrctl: the commands of the command line tool.
pub mod Session
pub mod Shared
pub mod Cobra
pub mod Handlers
pub mod Root
pub mod Client
pub mod User
pub mod Tenant
pub mod Stream
pub mod Metrics
pub mod Setup
