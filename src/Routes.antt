-- ===== src/Routes.antt =====
-- central/src/api/reservations_routes.py: the routes that book labs for signed-in users.
pub mod State
pub mod Booking
pub mod Release
pub mod Answers
mod Owned
mod Tests
