-- ===== src/Domain.antt =====
-- The enumerations of prisma/schema.prisma that the modelled services test, and the tests of the
-- request status that several services share.
use transpo24_backend_nest_j.Base.{Bool, true, false}

pub data ServiceKey : Type 0 where
  vehicle_transport motorcycle_transport goods_transport furniture_transport : ServiceKey

pub data RequestStatus : Type 0 where
  reserved draft pending_quotes quoted accepted driver_assigned driver_going_to_pickup :
      RequestStatus
  driver_arrived_pickup item_picked_up pickup_in_progress in_transit : RequestStatus
  driver_going_to_dropoff delivered completed cancelled : RequestStatus

pub data DriverStatus : Type 0 where
  pending_profile pending_documents pending_review approved suspended rejected : DriverStatus

-- `status === 'APPROVED'`
abbrev pub is_approved : DriverStatus → Bool
is_approved approved = true
is_approved _ = false

-- `status === 'CANCELLED'`
abbrev pub is_cancelled : RequestStatus → Bool
is_cancelled cancelled = true
is_cancelled _ = false

-- `status === 'RESERVED'`
abbrev pub is_reserved : RequestStatus → Bool
is_reserved reserved = true
is_reserved _ = false

-- `status === 'DELIVERED'`
abbrev pub is_delivered : RequestStatus → Bool
is_delivered delivered = true
is_delivered _ = false
