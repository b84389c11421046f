-- ===== src/Tests.antt =====
-- Runs of the program on concrete rows, and the theorems at them.
mod Data
mod Store
mod Lifecycle
mod Money
mod Holding
mod Booked
mod Leaving
mod Expired
mod Refreshing
mod Providing
mod Advertised
mod Engaging
mod Doubles
mod Entering
