-- ===== src/Wallets.antt =====
-- `walletSvrManager` of controllers/hcclient.go: every request goes to all voting wallets, one after
-- the other, and the answers are compared. The handler takes one request at a time, so a request is a
-- function of the wallets' answers.
pub mod Types
pub mod Poll
pub mod Queries
pub mod Import
pub mod Cache
pub mod Lifecycle
pub mod Tickets
pub mod Scripts
pub mod Versions
mod Tests
