-- ===== src/Middleware/Contexts.antt =====
-- Values in a `context.Context`: internal/pkg/context/context.go and request.go. A key that is a
-- `string` and a `ContextKey` with the same text are different keys.
use nebengjek.Prelude.{Str, str, str_eq, [], Bool, false, Option, some, none, if◌then◌else◌}

pub data Key : Type 0 where
  plain : Str → Key
  typed : Str → Key

pub data Context : Type 0 where
  background : Context
  with_value : Key → Str → Context → Context

key_eq : Key → Key → Bool
key_eq (plain s) (plain t) = str_eq s t
key_eq (typed s) (typed t) = str_eq s t
key_eq (plain s) (typed t) = false
key_eq (typed s) (plain t) = false

-- `ctx.Value(key)`
unfoldable pub value : Key → Context → Option Str
unfolding key_eq
value k background = none
value k (with_value k' v ctx) = if key_eq k' k then some v else value k ctx

abbrev pub request_id_key : Key
request_id_key = typed (str "request_id")

abbrev pub user_id_key : Key
user_id_key = typed (str "user_id")

abbrev pub trace_id_key : Key
trace_id_key = typed (str "trace_id")

abbrev pub service_name_key : Key
service_name_key = typed (str "service_name")

abbrev pub or_empty : Option Str → Str
or_empty none = []
or_empty (some s) = s

-- `if s == "" { s = uuid.New().String() }`
abbrev pub or_new : Str → Str → Str
or_new new_uuid s = if str_eq s [] then new_uuid else s

abbrev pub with_request_id : Str → Context → Str → Context
with_request_id new_uuid ctx request_id = with_value request_id_key (or_new new_uuid request_id) ctx

unfoldable pub get_request_id : Context → Str
unfolding value
get_request_id ctx = or_empty (value request_id_key ctx)

abbrev pub with_user_id : Context → Str → Context
with_user_id ctx user_id = with_value user_id_key user_id ctx

unfoldable pub get_user_id : Context → Str
unfolding value
get_user_id ctx = or_empty (value user_id_key ctx)

abbrev pub with_trace_id : Context → Str → Context
with_trace_id ctx trace_id = with_value trace_id_key trace_id ctx

unfoldable pub get_trace_id : Context → Str
unfolding value
get_trace_id ctx = or_empty (value trace_id_key ctx)

abbrev pub with_service_name : Context → Str → Context
with_service_name ctx service_name = with_value service_name_key service_name ctx

unfoldable pub get_service_name : Context → Str
unfolding value
get_service_name ctx = or_empty (value service_name_key ctx)

-- The time of the start is left out.
pub record RequestContext : Type 0 where
  pub request_id : Str
  pub user_id : Str
  pub trace_id : Str
  pub service_name : Str

-- The two identities are those that `uuid.New` returns.
abbrev pub new_request_context : Str → Str → Str → RequestContext
new_request_context id trace service_name = record {
  request_id = id;
  user_id = [];
  trace_id = trace;
  service_name = service_name;
}

unfoldable pub with_request_context : Context → Option RequestContext → Context
with_request_context ctx none = ctx
with_request_context ctx (some r) = with_value service_name_key r.service_name (
    with_value trace_id_key r.trace_id
      (with_value user_id_key r.user_id (with_value request_id_key r.request_id ctx)))

-- What is read of an `echo.Context`: the header X-Request-ID of the response, X-Trace-ID of the
-- request, and the values under two names, if they are strings.
pub record EchoContext : Type 0 where
  pub response_request_id : Str
  pub trace_header : Str
  pub user_id : Option Str
  pub service_name : Option Str

unfoldable pub from_echo_context : Str → Str → EchoContext → RequestContext
from_echo_context id trace c = record {
  request_id = or_new id c.response_request_id;
  user_id = or_empty c.user_id;
  trace_id = or_new trace c.trace_header;
  service_name = or_empty c.service_name;
}
