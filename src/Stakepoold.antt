-- ===== src/Stakepoold.antt =====
-- The daemon beside each voting wallet, backend/stakepoold.
pub mod Context
pub mod Rpc
pub mod Fees
pub mod FeeAddresses
pub mod GetTicket
pub mod NewTickets
pub mod SpentMissed
pub mod Update
pub mod Winning
pub mod Startup
pub mod Saved
pub mod Userdata
pub mod Start
pub mod Connect
mod Example
mod Tests
