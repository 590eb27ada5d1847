-- ===== src/Payouts/Transfers/Waits.antt =====
-- When nothing is paid (`attemptDriverPayoutForTrip` of src/payments/payments.service.ts).
