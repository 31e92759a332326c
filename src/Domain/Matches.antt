-- ===== src/Domain/Matches.antt =====
-- internal/pkg/models/match.go.
use nebengjek.Prelude.{Str, str, Bool}
use nebengjek.Domain.Places.{Float64, Time, Uuid, Location}

-- The status is a string type in the source: `unset` is the empty string, and `other` a string
-- that is none of the constants.
pub data MatchStatus : Type 0 where
  unset pending driver_confirmed passenger_confirmed accepted rejected : MatchStatus
  other : Str → MatchStatus

unfoldable pub status_text : MatchStatus → Str
status_text unset = str ""
status_text pending = str "PENDING"
status_text driver_confirmed = str "DRIVER_CONFIRMED"
status_text passenger_confirmed = str "PASSENGER_CONFIRMED"
status_text accepted = str "ACCEPTED"
status_text rejected = str "REJECTED"
status_text (other s) = s

pub record Match : Type 0 where
  pub id : Uuid
  pub driver_id : Uuid
  pub passenger_id : Uuid
  pub driver_location : Location
  pub passenger_location : Location
  pub target_location : Location
  pub status : MatchStatus
  pub driver_confirmed : Bool
  pub passenger_confirmed : Bool
  pub created_at : Time
  pub updated_at : Time

pub record MatchDto : Type 0 where
  pub id : Uuid
  pub driver_id : Uuid
  pub passenger_id : Uuid
  pub driver_longitude : Float64
  pub driver_latitude : Float64
  pub passenger_longitude : Float64
  pub passenger_latitude : Float64
  pub target_longitude : Float64
  pub target_latitude : Float64
  pub status : MatchStatus
  pub driver_confirmed : Bool
  pub passenger_confirmed : Bool
  pub created_at : Time
  pub updated_at : Time

unfoldable pub to_dto : Match → MatchDto
to_dto m = record {
  id = m.id;
  driver_id = m.driver_id;
  passenger_id = m.passenger_id;
  driver_longitude = m.driver_location.longitude;
  driver_latitude = m.driver_location.latitude;
  passenger_longitude = m.passenger_location.longitude;
  passenger_latitude = m.passenger_location.latitude;
  target_longitude = m.target_location.longitude;
  target_latitude = m.target_location.latitude;
  status = m.status;
  driver_confirmed = m.driver_confirmed;
  passenger_confirmed = m.passenger_confirmed;
  created_at = m.created_at;
  updated_at = m.updated_at;
}

unfoldable pub to_match : MatchDto → Match
to_match d = record {
  id = d.id;
  driver_id = d.driver_id;
  passenger_id = d.passenger_id;
  driver_location = record {
    latitude = d.driver_latitude;
    longitude = d.driver_longitude;
    timestamp = d.created_at;
  };
  passenger_location = record {
    latitude = d.passenger_latitude;
    longitude = d.passenger_longitude;
    timestamp = d.created_at;
  };
  target_location = record {
    latitude = d.target_latitude;
    longitude = d.target_longitude;
    timestamp = d.created_at;
  };
  status = d.status;
  driver_confirmed = d.driver_confirmed;
  passenger_confirmed = d.passenger_confirmed;
  created_at = d.created_at;
  updated_at = d.updated_at;
}

pub record MatchProposal : Type 0 where
  pub id : Str
  pub passenger_id : Str
  pub driver_id : Str
  pub user_location : Location
  pub driver_location : Location
  pub target_location : Location
  pub match_status : MatchStatus

pub record MatchConfirmRequest : Type 0 where
  pub id : Str
  pub user_id : Str
  pub role : Str
  pub status : Str

pub record NearbyUser : Type 0 where
  pub id : Str
  pub location : Location
  pub distance : Float64
