-- ===== src/Payments.antt =====
-- The delayed booking payments, src/payments/delayed-booking-payments.service.ts: the rows of one
-- booking, the calls of Stripe, and the methods of the service over both.
pub mod State
pub mod Stripe
pub mod Rows
pub mod Wallets
pub mod Frames
pub mod Captures
pub mod Calls
pub mod Reconcile
pub mod Authorize
pub mod Finish
pub mod Process
pub mod Commands
pub mod Shares
pub mod Review
pub mod Cancellation
pub mod Tests
