-- ===== src/Reservations.antt =====
-- Deferred reservations, src/customer-requests/furniture-reservations.service.ts: a driver and a
-- price are reserved now, the pickup is confirmed and paid later.
pub mod State
pub mod Guards
pub mod Transactions
pub mod Withdrawals
pub mod Notices
pub mod Handlers
pub mod Keeping
pub mod Events
pub mod Safety
pub mod Runs
pub mod Deadline
pub mod Confirming
pub mod Sweep
pub mod Once
pub mod Tests
