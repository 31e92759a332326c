-- ===== src/Domain/Users.antt =====
-- internal/pkg/models/user.go, otp.go, beacon.go and finder.go: what the users service works on.
use nebengjek.Prelude.{Str, Bool, Option}
use nebengjek.Domain.Places.{Float64, Int64, Time, Uuid, Location}

pub record Driver : Type 0 where
  pub user_id : Uuid
  pub vehicle_type : Str
  pub vehicle_plate : Str

-- DriverInfo is a pointer, which may be nil.
pub record User : Type 0 where
  pub id : Uuid
  pub msisdn : Str
  pub full_name : Str
  pub role : Str
  pub created_at : Time
  pub updated_at : Time
  pub is_active : Bool
  pub driver_info : Option Driver
  pub rating : Float64

pub record Otp : Type 0 where
  pub id : Str
  pub msisdn : Str
  pub code : Str

pub record AuthResponse : Type 0 where
  pub token : Str
  pub user_id : Str
  pub role : Str
  pub expires_at : Int64

pub record BeaconRequest : Type 0 where
  pub msisdn : Str
  pub is_active : Bool
  pub latitude : Float64
  pub longitude : Float64

pub record FinderRequest : Type 0 where
  pub msisdn : Str
  pub is_active : Bool
  pub location : Location
  pub target_location : Location

-- internal/pkg/models/websocket.go: the payload is raw JSON.
pub record WsMessage : Type 0 where
  pub event : Str
  pub payload : Str
