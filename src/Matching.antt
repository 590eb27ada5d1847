-- ===== src/Matching.antt =====
-- Which drivers see a request: src/driver/vehicle-load-capacity.util.ts and
-- src/driver/request-eligibility.ts.
pub mod Capacity
pub mod Schedule
pub mod Eligibility
mod Tests
