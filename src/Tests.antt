-- ===== src/Tests.antt =====
-- A platform in memory that meets the assumptions, and runs of the program on it.
mod Access
mod Memory
mod Assumptions
mod Secrets
mod Samples
mod Users
mod Vault
mod Clients
mod Brokers
mod Phases
mod Rounds
mod Repeats
mod Monitors
mod Commands
mod Lines
mod Credentials
mod Passwords
mod Shells
mod Copies
mod Starts
mod Schemes
