-- ===== src/Payouts.antt =====
-- The payout of a trip's earning to its driver (src/payments/payments.service.ts and
-- src/payments/driver-payout-queue.service.ts).
mod Tests
pub mod State
pub mod Queue
pub mod Updates
pub mod Attempt
pub mod Requests
pub mod Transfers
pub mod Keeping
pub mod Retries
pub mod Outcome
