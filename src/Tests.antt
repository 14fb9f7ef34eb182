-- ===== src/Tests.antt =====
-- Concrete runs: a Redis server in memory, environments, and the theorems applied to them.
mod Server
mod Wire
mod Runs
mod Reservations
mod Bookings
mod Interleavings
mod Sales
mod Orders
mod Compensations
mod Connections
mod Loops
mod Services
mod Starts
