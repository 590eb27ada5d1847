-- ===== src/Refunds.antt =====
-- The cancellation of a trip whose payment was collected at once: `cancelCollectedTrip`,
-- `refundUnpaidReservation` and `cancelCollectedTripTx` of src/payments/payments.service.ts.
mod Tests
pub mod Amounts
pub mod Calls
pub mod Shares
