-- ===== src/Trips.antt =====
-- The trip of a booked request, src/trips/trips.service.ts: the driver's way to the pickup and the
-- dropoff, the proofs, the earning, and the customer's confirmation and rating.
pub mod State
pub mod Guards
pub mod Photos
pub mod Driving
pub mod Positions
pub mod Delivery
pub mod Feedback
pub mod Locations
pub mod Ratings
pub mod Lifecycle
mod Tests
