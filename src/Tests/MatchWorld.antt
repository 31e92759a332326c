-- ===== src/Tests/MatchWorld.antt =====
-- A small concrete world for the match service: ids are texts of one number, and the table holds
-- one row.
use nebengjek.Prelude.{refl, Str, str, [], ◌∷◌, true, false, none}
use nebengjek.Exec.{external, redis_nil, no_rows, Result, ok, err}
use nebengjek.Domain.Places.{Uuid, zero_location}
use nebengjek.Domain.Matches.{
  pending, driver_confirmed, Match, MatchDto, to_dto, MatchConfirmRequest, NearbyUser,
}
use nebengjek.Domain.Events.{BeaconEvent}
use nebengjek.Matching.Env.{redis_get, Call, History, Env, MatchConfig}
use nebengjek.Matching.Laws.ActiveRides.{stored_text, AnswersGet}

abbrev pub parse_one : Str → Result Uuid
parse_one (u ∷ []) = ok u
parse_one _ = err (external (str "invalid UUID"))

abbrev pub config : MatchConfig
config = record { search_radius_km = 5; active_ride_ttl_hours = 24 }

-- A match of driver 2 and passenger 3 that the driver has confirmed.
abbrev pub halfway : Match
halfway = record {
  id = 1;
  driver_id = 2;
  passenger_id = 3;
  driver_location = zero_location;
  passenger_location = zero_location;
  target_location = zero_location;
  status = driver_confirmed;
  driver_confirmed = true;
  passenger_confirmed = false;
  created_at = 7;
  updated_at = 7;
}

abbrev pub fresh_match : Match
fresh_match = record halfway { status = pending; driver_confirmed = false }

-- Every call succeeds, and every query finds the given row.
abbrev pub world : MatchDto → Env
world row = record {
  clock = λ h. 9;
  fresh_uuid = λ h. 5;
  parse_uuid = parse_one;
  uuid_string = λ u. u ∷ [];
  reply = λ c h. ok tt;
  count_reply = λ c h. ok 1;
  row_reply = λ c h. ok row;
  rows_reply = λ c h. ok (record { scans = ok row ∷ []; end_of_rows = ok tt });
  text_reply = λ c h. err redis_nil;
  nearby_reply = λ c h. ok [];
  cfg = config;
  repo_cfg = none;
}

-- The same with no row found.
abbrev pub empty_world : Env
empty_world = record (world (to_dto halfway)) { row_reply = λ c h. err no_rows }

abbrev pub confirm_request : Uuid → MatchConfirmRequest
confirm_request user = record {
  id = 1 ∷ [];
  user_id = user ∷ [];
  role = [];
  status = str "ACCEPTED";
}

abbrev pub beacon : BeaconEvent
beacon = record { user_id = 2 ∷ []; is_active = true; location = zero_location; timestamp = 0 }

abbrev pub driver_two : NearbyUser
driver_two = record { id = 2 ∷ []; location = zero_location; distance = 0 }

-- The same with a Redis that answers what was written last.
abbrev get_reply : Call → History → Result Str
get_reply (redis_get k) h = stored_text (λ c t. ok tt) k h
get_reply c h = ok []

abbrev pub redis_world : Env
redis_world = record (world (to_dto halfway)) { text_reply = get_reply }

pub redis_world-AnswersGet : AnswersGet redis_world
redis_world-AnswersGet k t = refl
