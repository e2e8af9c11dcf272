-- ===== src/Market.antt =====
-- What the broker answers and how it is read: golang/internal/marketdata.
mod Tests
pub mod Symbol
pub mod Order
pub mod Payoff
pub mod Floor
pub mod Exposure
