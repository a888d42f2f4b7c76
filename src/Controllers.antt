-- ===== src/Controllers.antt =====
-- The web application, controllers/.
pub mod UserAddresses
pub mod Admin
pub mod Address
pub mod VoteBits
pub mod UpdateAll
pub mod Voting
mod Tests
