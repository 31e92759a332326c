-- ===== src/Tests/Requests.antt =====
-- The handler around a request at concrete inputs.
use nebengjek.Prelude.{none, some, false, true, ◌≡◌, ℕ, List, refl, [], Str, str}
use nebengjek.Middleware.Recovery.{
  original, panicking, Info, Ending, Config, Host, Exchange, handler, Response,
}
use nebengjek.Middleware.Contexts.{
  get_service_name, get_trace_id, get_user_id, get_request_id, plain, new_request_context, value,
  with_request_context, background, Context,
}
use nebengjek.Middleware.Laws.RequestIds.{
  request_context-read, handler-request_id, seen, KeepsValues,
}
use nebengjek.Exec.{message, err, Result}
use nebengjek.Middleware.Laws.Handled.{handler-Handled, inside, CommitsJson, Handled}
use nebengjek.Middleware.Capture.{Value}
use nebengjek.Middleware.Tracing.{new_relic}
use nebengjek.Http.Client.{request_id_header}

abbrev same : Context → Context
same x = x

abbrev write_json : ℕ → List (Str × Str) → Response → Response
write_json code fields r = record r { status = code; committed = true }

abbrev unparsed : Str → Result (List (Str × Value))
unparsed s = err (message (str "unexpected end of JSON input"))

abbrev nothing : List (Str × Value) → Str
nothing fields = []

abbrev host : Host
host = record {
  new_uuid = str "5f0c";
  duration = 3;
  stack = str "goroutine 1";
  live = true;
  attach = same;
  json = write_json;
  parse = unparsed;
  print = nothing;
}

abbrev config : Config
config = record { has_logger = true; tracer = some new_relic; service_name = str "match-service" }

abbrev no_header : Str → Str
no_header name = []

abbrev info : Info
info = record {
  method = str "GET";
  path = str "/internal/users";
  ip = str "10.0.0.1";
  proto = str "HTTP/1.1";
  user_agent = [];
  header = no_header;
}

abbrev idle : Exchange
idle = record {
  ctx = background;
  response = record {
    status = 200;
    size = 0;
    committed = false;
    writer = original (record { hijacks = true; type_name = str "*http.response" });
    body = [];
  };
  request_id_header = [];
  nr_txn = none;
  log = [];
  trace = [];
}

abbrev dereferences_nil : Exchange → Ending × Exchange
dereferences_nil x = (panicking (str "nil pointer dereference"), x)

write_json-CommitsJson : CommitsJson host
write_json-CommitsJson code fields r n = (refl, refl)

handler-Handled_example :
    Handled host config info
      (inside host config info dereferences_nil idle)
      (handler host config info dereferences_nil idle)
handler-Handled_example =
    handler-Handled host config info write_json-CommitsJson dereferences_nil idle

panic_seen : (handler host config info dereferences_nil idle).1.response.status ≡ 500
unfolding handler nebengjek.Middleware.Recovery.handle_panic
panic_seen = refl

same-KeepsValues : KeepsValues host
same-KeepsValues name x = refl

handler-request_id_example :
    request_id_header (value (plain (str "request_id")) (seen host config info idle).ctx) ≡ []
handler-request_id_example = handler-request_id host config info idle same-KeepsValues

request_context-read_example :
    let ctx =
      with_request_context background (some (new_request_context (str "a") (str "b") (str "s"))) in
    (get_request_id ctx ≡ str "a")
    × (get_user_id ctx ≡ [])
    × (get_trace_id ctx ≡ str "b")
    × (get_service_name ctx ≡ str "s")
request_context-read_example =
    request_context-read background (new_request_context (str "a") (str "b") (str "s"))
