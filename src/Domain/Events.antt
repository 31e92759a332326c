-- ===== src/Domain/Events.antt =====
-- internal/pkg/models/beacon.go and finder.go: what the users service tells the match service.
use nebengjek.Prelude.{Str, Bool}
use nebengjek.Domain.Places.{Time, Location}

pub record BeaconEvent : Type 0 where
  pub user_id : Str
  pub is_active : Bool
  pub location : Location
  pub timestamp : Time

pub record FinderEvent : Type 0 where
  pub user_id : Str
  pub is_active : Bool
  pub location : Location
  pub target_location : Location
  pub timestamp : Time
