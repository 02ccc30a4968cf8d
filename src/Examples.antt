-- ===== src/Examples.antt =====
-- The tests of internal/app/slots_test.go, further inputs, and the theorems at concrete inputs.
mod Fixture
mod Listing
mod Changes
mod Tables
mod Contracts
mod Schedules
mod Stores
mod Tokens
mod Requests
mod Seeding
mod Starting
mod Texts
mod Keyspaces
mod Caches
