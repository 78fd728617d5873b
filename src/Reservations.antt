-- ===== src/Reservations.antt =====
-- central/src/services/reservations.py: the bookings of the labs.
pub mod Data
pub mod Timeline
pub mod Queries
pub mod Booking
pub mod Extending
pub mod Exclusive
pub mod Limit
pub mod Extension
pub mod Found
pub mod History
mod Tests
