-- ===== src/Domain/Rides.antt =====
-- internal/pkg/models/ride.go and payment.go.
use nebengjek.Prelude.{Str, str, Option}
use nebengjek.Domain.Places.{Float64, Int64, Time, Uuid, Location}

-- `other` is a string that is none of the constants.
pub data RideStatus : Type 0 where
  pending driver_pickup ongoing completed : RideStatus
  other : Str → RideStatus

pub data PaymentStatus : Type 0 where
  pending accepted rejected processed : PaymentStatus
  other : Str → PaymentStatus

unfoldable pub ride_status_text : RideStatus → Str
ride_status_text RideStatus.pending = str "PENDING"
ride_status_text RideStatus.driver_pickup = str "PICKUP"
ride_status_text RideStatus.ongoing = str "ONGOING"
ride_status_text RideStatus.completed = str "COMPLETED"
ride_status_text (RideStatus.other s) = s

unfoldable pub payment_status_text : PaymentStatus → Str
payment_status_text PaymentStatus.pending = str "PENDING"
payment_status_text PaymentStatus.accepted = str "ACCEPTED"
payment_status_text PaymentStatus.rejected = str "REJECTED"
payment_status_text PaymentStatus.processed = str "PROCESSED"
payment_status_text (PaymentStatus.other s) = s

pub record Ride : Type 0 where
  pub ride_id : Uuid
  pub match_id : Uuid
  pub driver_id : Uuid
  pub passenger_id : Uuid
  pub status : RideStatus
  pub total_cost : Int64
  pub created_at : Time
  pub updated_at : Time

pub record RideResp : Type 0 where
  pub ride_id : Str
  pub match_id : Str
  pub driver_id : Str
  pub passenger_id : Str
  pub status : Str
  pub total_cost : Int64
  pub created_at : Time
  pub updated_at : Time

pub record RideStartTripEvent : Type 0 where
  pub ride_id : Str
  pub driver_location : Location
  pub passenger_location : Location
  pub timestamp : Time

pub record BillingLedger : Type 0 where
  pub entry_id : Uuid
  pub ride_id : Uuid
  pub distance : Float64
  pub cost : Int64
  pub created_at : Time

pub record RideArrivalReq : Type 0 where
  pub ride_id : Str
  pub adjustment_factor : Float64

pub record Payment : Type 0 where
  pub payment_id : Uuid
  pub ride_id : Uuid
  pub adjusted_cost : Int64
  pub admin_fee : Int64
  pub driver_payout : Int64
  pub status : PaymentStatus
  pub created_at : Time

pub record RideComplete : Type 0 where
  pub ride : Ride
  pub payment : Payment

-- The locations are pointers, which may be nil.
pub record RideStartRequest : Type 0 where
  pub ride_id : Str
  pub driver_location : Option Location
  pub passenger_location : Option Location

pub record PaymentRequest : Type 0 where
  pub ride_id : Str
  pub passenger_id : Str
  pub total_cost : Int64
  pub qr_code_url : Str

pub record PaymentProccessRequest : Type 0 where
  pub ride_id : Str
  pub total_cost : Int64
  pub status : PaymentStatus

-- internal/pkg/models/location.go
pub record LocationAggregate : Type 0 where
  pub ride_id : Str
  pub distance : Float64
  pub latitude : Float64
  pub longitude : Float64

pub record LocationUpdate : Type 0 where
  pub ride_id : Str
  pub driver_id : Str
  pub location : Location
  pub created_at : Time
