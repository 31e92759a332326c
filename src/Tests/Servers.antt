-- ===== src/Tests/Servers.antt =====
-- The theorems about the HTTP client at concrete inputs.
use nebengjek.Prelude.{str, [], ◌≡◌, ◌≤◌, ◌+◌, refl, none, some, true}
use nebengjek.Exec.{ok, returned}
use nebengjek.Http.Client.{Response, Structured, Exchange, do_request, decode_response}
use nebengjek.Http.Laws.Pauses.{exchanges, waited, do_request-bounds}

-- A server that is always busy.
abbrev busy : Response
busy = record { status_code = 503; status = str "busy"; body = ok [] }

abbrev pub http_world : nebengjek.Http.Client.Env
http_world = record {
  base_url = str "http://match";
  api_key = str "key";
  request_id = none;
  new_request = λ m u. ok tt;
  exchange_reply = λ r h. record { response = some busy; error = none };
  wait_reply = λ n h. ok tt;
  parse_structured = λ s. ok (record { success = true; error = []; payload = some s });
}

do_request-bounds_example :
    (exchanges (do_request http_world (str "GET") (str "/") none []).1 ≤ 3 + exchanges [])
    × (waited (do_request http_world (str "GET") (str "/") none []).1 ≤ 300 + waited [])
do_request-bounds_example = do_request-bounds http_world (str "GET") (str "/") none []

abbrev answer : Response
answer = record { status_code = 200; status = str "OK"; body = ok (str "body") }

decodes : (decode_response http_world (some (λ s. ok s)) answer []).0 ≡ returned (some (str "body"))
unfolding decode_response
decodes = refl
