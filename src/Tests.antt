-- ===== src/Tests.antt =====
-- The theorems at concrete configurations of the driver.
mod Setup
mod DaqTests
mod QueueTests
mod CommandTests
mod CalTests
mod RefcountTests
