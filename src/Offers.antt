-- ===== src/Offers.antt =====
-- The acceptance of a driver's offer, and the assignment of the driver once the payment is secured
-- (`acceptDriverOffer` and `finalizeAcceptedOfferPayment` of
-- src/customer-requests/customer-requests.service.ts).
mod Tests
pub mod Guards
pub mod Accept
pub mod Finalize
pub mod Calls
pub mod Rows
pub mod Booking
pub mod Paying
pub mod Runs
pub mod Assigned
