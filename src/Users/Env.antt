-- ===== src/Users/Env.antt =====
-- What the users service calls outside its own code: PostgreSQL, Redis, the events and requests of
-- UserGW (services/users/gateways.go), the clock, new UUIDs, and the sockets of its clients.
use nebengjek.Prelude.{Str, List, Bool, Option}
use nebengjek.Exec.{Result, Ok, Exec, call}
use nebengjek.Domain.Places.{Int64, Time, Uuid}
use nebengjek.Domain.Floats.{FloatOps}
use nebengjek.Domain.Events.{BeaconEvent, FinderEvent}
use nebengjek.Domain.Matches.{MatchProposal, MatchConfirmRequest}
use nebengjek.Domain.Rides.{
  RideComplete, RideResp, LocationUpdate, RideArrivalReq, RideStartRequest, PaymentRequest,
  PaymentProccessRequest, Payment, Ride,
}
use nebengjek.Domain.Users.{User, Driver, Otp, BeaconRequest, FinderRequest, WsMessage}

-- A socket, by its identity.
abbrev pub Conn : Type 0
Conn = Uuid

pub data Call : Type 0 where
  now : Call
  new_uuid : Call
  select_user_by_msisdn : Str → Call
  -- `SELECT * FROM users WHERE <field> = $1`
  select_user_by_field : Str → Str → Call
  select_driver : Uuid → Call
  begin_tx : Call
  insert_user : User → Call
  -- `UPDATE users SET role = :role, updated_at = :updated_at WHERE id = :id`
  update_role : User → Call
  insert_driver : Driver → Call
  commit_tx : Call
  rollback_tx : Call
  redis_set : Str → Str → Int64 → Call
  redis_get : Str → Call
  redis_delete : Str → Call
  publish_beacon_event : BeaconEvent → Call
  publish_finder_event : FinderEvent → Call
  publish_location_update : LocationUpdate → Call
  match_confirm : MatchConfirmRequest → Call
  ride_arrived : RideArrivalReq → Call
  process_payment : PaymentProccessRequest → Call
  start_ride : RideStartRequest → Call
  -- the map of clients under its lock, and the sockets
  add_client : Str → Conn → Call
  remove_client : Str → Call
  ws_send : Conn → WsMessage → Call
  ws_close : Conn → Call

abbrev pub History : Type 0
History = List Call

-- The claims of a token.
pub record Claims : Type 0 where
  pub user_id : Uuid
  pub msisdn : Str
  pub role : Str
  pub exp : Int64
  pub iss : Str

-- What `jwt.Parse` returns without an error; the claims are none if they are no `MapClaims`.
pub record Token : Type 0 where
  pub claims : Option Claims
  pub valid : Bool

-- `cfg.JWT`
pub record JwtConfig : Type 0 where
  pub secret : Str
  pub expiration : Int64
  pub issuer : Str

-- JSON, by the type that is written or read.
pub record Json : Type 0 where
  pub encode_otp : Otp → Result Str
  pub decode_otp : Str → Result Otp
  pub decode_beacon : Str → Result BeaconRequest
  pub decode_finder : Str → Result FinderRequest
  pub decode_confirm : Str → Result MatchConfirmRequest
  pub decode_location : Str → Result LocationUpdate
  pub decode_start : Str → Result RideStartRequest
  pub decode_arrival : Str → Result RideArrivalReq
  pub decode_payment : Str → Result PaymentProccessRequest
  pub encode_proposal : MatchProposal → Result Str
  pub encode_ride : Ride → Result Str
  pub encode_payment_request : PaymentRequest → Result Str
  pub encode_payment : Payment → Result Str
  pub decode_proposal : Str → Result MatchProposal
  pub decode_ride_resp : Str → Result RideResp
  pub encode_ride_resp : RideResp → Result Str
  pub decode_ride_complete : Str → Result RideComplete
  pub encode_ride_complete : RideComplete → Result Str

-- The replies. Each may depend on all that was called before.
pub record Env : Type 0 where
  pub clock : History → Time
  pub fresh_uuid : History → Uuid
  pub uuid_string : Uuid → Str
  -- `t.Add(d)` and `t.Unix()`
  pub time_add : Time → Int64 → Time
  pub unix : Time → Int64
  pub reply : Call → History → Ok
  pub user_reply : Call → History → Result User
  pub driver_reply : Call → History → Result Driver
  pub text_reply : Call → History → Result Str
  pub proposal_reply : Call → History → Result MatchProposal
  pub payment_request_reply : Call → History → Result PaymentRequest
  pub payment_reply : Call → History → Result Payment
  pub ride_reply : Call → History → Result Ride
  pub floats : FloatOps
  pub json : Json
  pub jwt : JwtConfig
  -- `token.SignedString(secret)` under HS256, and `jwt.Parse`
  pub sign : Str → Claims → Result Str
  pub parse_token : Str → Str → Result Token

module _ (env : Env) where
  abbrev pub send : Call → Exec Call (Unit {0})
  send c = call c (env.reply c)

  abbrev pub time_now : Exec Call Time
  time_now t = call now (λ h. Result.ok (env.clock h)) t

  abbrev pub uuid_new : Exec Call Uuid
  uuid_new t = call new_uuid (λ h. Result.ok (env.fresh_uuid h)) t
