-- ===== src/Tests.antt =====
-- Tests and examples: the theorems at concrete inputs.
pub mod Data
mod Wire
mod Tcp
mod Transfers
mod Failures
mod Relayed
pub mod Reliable
mod Losses
mod Logger
mod Datagrams
mod Relay
mod Commands
mod Client
mod Server
mod Options
mod Channel
