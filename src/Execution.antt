-- ===== src/Execution.antt =====
-- The ladder that walks a resting order's price: golang/internal/execution.
mod LadderTests
mod Sample
mod Tests
pub mod Price
pub mod Name
pub mod Checks
pub mod Ages
pub mod Ladder
