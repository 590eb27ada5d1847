-- ===== src/Lib.antt =====
-- The money of a booking, and who may carry it: the core of the transport platform's backend.
--
-- A customer posts a transport request, drivers whose vehicles and areas match make offers, and the
-- customer books one. A booking's payment is staged first, authorised after a free countdown of ten
-- minutes, by a card at Stripe or from the customer's wallet, and captured once the customer has
-- confirmed the delivery, or in part if a booking is cancelled late. A worker calls
-- `process` on each open booking again and again; the app's requests call `cancel`,
-- `captureDelivery`, `skipCountdown` and `failApproval`. Furniture that is moved later is reserved
-- first, confirmed and paid two days before the pickup, and given up at the deadline otherwise. The
-- driver of a booking reports his way from the pickup to the dropoff, with proofs; the delivery earns
-- him his share, and the customer confirms and rates it. Once the share is available and the delivery
-- confirmed, a queue pays it out to the driver's account at Stripe, and tries again where that fails.
-- A trip that was paid already and is cancelled before the pickup is paid back, less a fee.
--
-- Files and code:
--   Base        names of the libraries, Boolean tests, lists, results and integers
--   Domain      the enumerations of prisma/schema.prisma that several parts test
--   Policy      the pure rules, a module for each file:
--     Policy/Booking      src/payments/booking-policy.ts, and `heldCancellationRate` of
--                         src/payments/payment-policy.ts
--     Policy/Pricing      src/payments/customer-pricing.ts
--     Policy/Schedule     src/customer-requests/schedule-window.ts
--     Policy/Reservation  src/customer-requests/furniture-reservation-policy.ts
--     Policy/Health       src/customer-requests/booking-confirmation-health.ts
--     Policy/Location     src/trips/location-ordering.ts
--   Matching    src/driver/vehicle-load-capacity.util.ts (Matching/Capacity) and
--               src/driver/request-eligibility.ts (Matching/Schedule for the JSON of working hours,
--               Matching/Eligibility and its Reasons; Reach holds proofs)
--   Payments    src/payments/delayed-booking-payments.service.ts:
--     State, Rows         the rows of one booking, and their updates
--     Stripe              the calls of src/payments/stripe.service.ts, and the actions of a method
--     Reconcile           `releaseStripeIntent`, `release`, `releaseOrReconcile`,
--                         `reconcileUnexpectedCapture`
--     Authorize           `markHeld`, `cancelTx`, `authorizationFailed`
--     Finish              `finishOperation`
--     Process             `process` and `processLocked`, in the order of the code's early returns
--     Commands            `cancel`, `captureDelivery`, `skipCountdown`, `failApproval`
--   Trips       src/trips/trips.service.ts:
--     State, Guards       the rows of one trip, and the tests before a call
--     Photos              `createProofPhotoRowsTx`
--     Driving             `markDriverArrivedAtPickup`, `pickupItem`, `startDelivery`
--     Positions           `updateDriverLocation`, `markNearDeliveryIfNeeded`
--     Delivery            `deliverItem`, `createDriverEarningForDeliveredTrip`
--     Feedback            `confirmCustomerDelivery`, `createDriverRating`
--     Lifecycle           the calls as one step function; its children, Locations and Ratings hold
--                         proofs
--   Reservations  src/customer-requests/furniture-reservations.service.ts:
--     State, Guards       the rows of one request, the calls as a state and error monad, the tests
--     Transactions        the transactions of `tryReserve`, `confirm`, `reconcile` and `cancel`
--     Notices             `notifyOnce`, `notify`
--     Withdrawals         what a cancellation by the payments service writes
--     Handlers            the calls themselves
--     Events              the calls, their transactions and other services' writes as events
--     Sweep               the loop of `sweep` over the pages of requests
--     Keeping, Safety, Runs, Deadline, Confirming, Once hold proofs
--   Offers      src/customer-requests/customer-requests.service.ts, on the rows of Reservations:
--     Guards              the sets of payment statuses, and the tests of an offer's driver
--     Accept, Finalize    the transactions of `acceptDriverOffer` and `finalizeAcceptedOfferPayment`
--     Calls               the calls around them, with `tryReserve` and `finalize` of the reservations
--     Rows, Booking, Paying, Runs, Assigned hold proofs; Runs has the events of both services
--   Payouts     src/payments/payments.service.ts and src/payments/driver-payout-queue.service.ts, on the
--               rows of Payments:
--     State               what a payout reads (`getDriverPayoutContext`), and the calls that it makes
--     Queue               `enqueueDriverPayout`
--     Updates, Attempt    `attemptDriverPayoutForTrip` with its writes, in the order of its returns
--     Requests            the requests for a payout, and `sweepQueuedDriverPayouts`
--     Keeping, Transfers, Retries, Outcome hold proofs
--   Refunds     src/payments/payments.service.ts, on the rows of Payments:
--     Amounts             the amounts and the writes of `cancelCollectedTripTx`
--     Calls               that transaction, `cancelCollectedTrip` and `refundUnpaidReservation`
--     Shares holds proofs
--   PhoneAuth   src/auth/phone-auth-rate-limit.service.ts; PhoneAuth/Cooldown holds proofs
--   The other modules of Payments hold proofs: Calls and Captures for the calls of Stripe, Frames and
--   Wallets for the rows, and a module for each group of results. The Tests modules run the
--   definitions on concrete rows.
--
-- How the code is modelled:
--   - Money in a column of two decimals is a number of cents, a rate a number of percent, a time a
--     number of milliseconds, an id or a currency a number. Columns that may fall below zero are
--     integers. A coordinate or a distance is an integer of a fixed small unit.
--   - A method is a function from the rows and Stripe's world to a result or an error and the rows
--     and the world after it. A transaction that throws brings the rows back and not the world. The
--     row lock makes a transaction one step, so interleavings are sequences of whole transactions.
--   - The clock is read once for a transaction. A method that runs two transactions takes two times.
--   - The answers of Redis to the limits on verification codes are inputs of a call.
--   - Stripe, the time zones of Intl, the geographical time zones and the trigonometry of a distance
--     are parameters. A theorem that needs a fact of them has it as a hypothesis.
--   - In Trips a call may have read its trip and profile at any earlier time; its transaction is one
--     step on the rows as they are then, though the code locks no row there.
--   - Reservations takes the payments service as a record of operations, each of which throws or
--     returns the hold it leaves and what it writes to the request: its columns for the payment, which
--     are not in the row, and maybe the cancellation of the booking. Such a cancellation, by the worker
--     or another call, is an event too. What the trips and the administration write to a request is
--     left out. The chat room and the delivery of a notice are
--     functions that may throw. Transactions of overlapping calls are events of their own.
--   - A database that refuses a write is modelled where the code goes on after it: behind a transfer of
--     Stripe. The ids of a trip's rows are an argument of a payout, since they never change. That
--     Stripe remembers an idempotency key for 24 hours by its clock is a hypothesis.
--   - In Offers a hold is all that an acceptance writes: the columns of the request that repeat the
--     hold's status and amounts are left out, and so are the events for the sockets.
--   - `Reservations.Sweep.sweep` has fuel, a unit for each page of 200; with ids below a bound, more
--     than a 200th of the bound is enough. The other loops run over finite lists.
--
-- Not modelled: logging, notifications and `stage` of the payment service, the rooms and the list of
-- pending confirmations of the trips service, the start of the queues, `paymentDue` of the
-- reservations, texts of messages (an error is a constructor), and the services that only read and
-- write tables or call third parties.
pub mod Base
pub mod Domain
pub mod Policy
pub mod Matching
pub mod Payments
pub mod Offers
pub mod Payouts
pub mod Refunds
pub mod Trips
pub mod Reservations
pub mod PhoneAuth
