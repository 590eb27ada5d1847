-- ===== src/Policy.antt =====
-- The pure policies: src/payments/booking-policy.ts, src/payments/payment-policy.ts,
-- src/payments/customer-pricing.ts, src/customer-requests/furniture-reservation-policy.ts,
-- src/customer-requests/schedule-window.ts, src/customer-requests/booking-confirmation-health.ts
-- and src/trips/location-ordering.ts, a module for each.
pub mod Booking
pub mod Pricing
pub mod Health
pub mod Location
pub mod Schedule
pub mod Reservation
mod Tests
