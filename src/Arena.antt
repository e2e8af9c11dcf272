-- ===== src/Arena.antt =====
-- The paper exchange that a session trades on in rehearsal: testbed/proxy.
pub mod Order
pub mod Contract
pub mod Risk
pub mod Account
pub mod Book
pub mod Amend
pub mod Day
pub mod Expiry
pub mod Match
pub mod Round
pub mod Tools
mod Tests
mod MarketTests
mod ToolsTests
mod QueueTests
