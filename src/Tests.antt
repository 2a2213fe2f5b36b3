-- ===== src/Tests.antt =====
-- The theorems at concrete inputs, and runs of the operations.
mod Fixtures
mod Wire
mod Queues
mod Swarms
mod Handler
mod Seats
mod Accounts
mod Requests
mod Start
mod Settings
