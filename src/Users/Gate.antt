-- ===== src/Users/Gate.antt =====
-- The checks of tokens in services/users/handler/routes.go: GetWebSocketJWTMiddleware and the route
-- that it stands before, and what GetJWTMiddleware does after echo-jwt.
use nebengjek.Prelude.{
  Str, str, str_eq, List, [], ◌∷◌, Bool, ◌||◌, ◌&&◌, not, ltb, length, Option, none, some,
  if◌then◌else◌,
}
use nebengjek.Exec.{Result, ok, err, message, Exec, fail}
use nebengjek.Utils.Msisdn.{drop}
use nebengjek.Utils.Strings.{take}
use nebengjek.Domain.Users.{WsMessage}
use nebengjek.Users.Env.{Conn, Call, Env}
use nebengjek.Users.Socket.Serve.{is_no_user, handle_websocket}

-- `jwt.MapClaims`: names with what `%v` prints of the value, or none for nil.
abbrev pub MapClaims : Type 0
MapClaims = List (Str × Option Str)

-- What `jwt.Parse` returns without an error; the claims are none if they are no `MapClaims`.
pub record Parsed : Type 0 where
  pub claims : Option MapClaims
  pub valid : Bool

-- `claims[name]`
unfoldable pub claim : Str → MapClaims → Option (Option Str)
claim name [] = none
claim name ((n, v) ∷ claims) = if str_eq n name then some v else claim name claims

-- `fmt.Sprintf("%v", x)`
abbrev pub printed : Option Str → Str
printed none = str "<nil>"
printed (some s) = s

-- A refusal with 401, or the user and the role that are left in the context.
pub data Admission : Type 0 where
  refused : Str → Admission
  admitted : Option Str → Option Str → Admission

abbrev pub with_role : Option Str → Option (Option Str) → Admission
with_role user_id none = refused (str "Missing role in token")
with_role user_id (some role) = admitted user_id role

abbrev pub with_user : Option (Option Str) → Option (Option Str) → Admission
with_user none role = refused (str "Missing user ID in token")
with_user (some user_id) role =
    if is_no_user (printed user_id)
    then refused (str "Invalid user ID in token")
    else with_role user_id role

abbrev pub with_claims : Option MapClaims → Admission
with_claims none = refused (str "Invalid token claims")
with_claims (some claims) = with_user (claim (str "user_id") claims) (claim (str "role") claims)

abbrev pub with_token : Result Parsed → Admission
with_token (err e) = refused (str "Invalid token")
with_token (ok parsed) =
    if parsed.valid then with_claims parsed.claims else refused (str "Invalid token")

-- The values of a context under `user_id` and `role`, if they are set.
pub record Values : Type 0 where
  pub user_id : Option (Option Str)
  pub role : Option (Option Str)

-- `if v, exists := claims[name]; exists { c.Set(name, v) }`
abbrev pub claim_or : Option (Option Str) → Option (Option Str) → Option (Option Str)
claim_or none old = old
claim_or (some v) old = some v

abbrev pub set_claims : Option MapClaims → Values → Values
set_claims none values = values
set_claims (some claims) values = record {
  user_id = claim_or (claim (str "user_id") claims) values.user_id;
  role = claim_or (claim (str "role") claims) values.role;
}

-- `if err == nil && token.Valid`
abbrev pub set_from : Result Parsed → Values → Values
set_from (err e) values = values
set_from (ok parsed) values = if parsed.valid then set_claims parsed.claims values else values

-- `jwt.Parse` under the secret of the configuration is an argument.
module _ (parse : Str → Result Parsed) where
  unfoldable pub web_socket_jwt : Str → Admission
  unfolding take drop
  web_socket_jwt auth_header =
      if str_eq auth_header []
      then refused (str "Missing authorization header")
      else if ltb (length auth_header) 7 || not (str_eq (take 7 auth_header) (str "Bearer "))
      then refused (str "Invalid authorization header format")
      else with_token (parse (drop 7 auth_header))

  -- The SuccessHandler of GetJWTMiddleware, once echo-jwt has let the request through: what it
  -- leaves in the context.
  unfoldable pub success_handler : Str → Values → Values
  unfolding take drop
  success_handler auth_header values =
      if not (str_eq auth_header [])
        && (ltb 7 (length auth_header) && str_eq (take 7 auth_header) (str "Bearer "))
      then set_from (parse (drop 7 auth_header)) values
      else values

  abbrev pub serve_admitted : Env → Admission → Conn → List WsMessage → Exec Call (Unit {0})
  serve_admitted env (refused s) ws msgs = fail (message s)
  serve_admitted env (admitted user_id role) ws msgs = handle_websocket env user_id role ws msgs

  -- GET /ws
  unfoldable pub connect : Env → Str → Conn → List WsMessage → Exec Call (Unit {0})
  unfolding web_socket_jwt
  connect env auth_header ws msgs = serve_admitted env (web_socket_jwt auth_header) ws msgs
