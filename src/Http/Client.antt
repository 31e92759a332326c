-- ===== src/Http/Client.antt =====
-- internal/pkg/http/client.go. `net/http`, the timers and JSON are parameters.
use nebengjek.Prelude.{
  Str, str, ◌++◌, ℕ, zero, suc, ◌*◌, ◌^◌, ltb, leb, Bool, true, false, ◌&&◌, not, Option, none,
  some, List, [], ◌∷◌, format_int,
}
use nebengjek.Exec.{
  deferring, Outcome, wrap, fail_if, Error, message, Result, ok, err, Ok, Exec, pure, fail, panic,
  of_result, wrapping, ◌>>=◌, ◌>>◌,
}

pub record Request : Type 0 where
  pub method : Str
  pub url : Str
  pub body : Option Str
  pub headers : List (Str × Str)

-- The body is what reading it to its end gives.
pub record Response : Type 0 where
  pub status_code : ℕ
  pub status : Str
  pub body : Result Str

-- What `httpClient.Do` returns: both may be there.
pub record Exchange : Type 0 where
  pub response : Option Response
  pub error : Option Error

-- A structured answer, where the data may be missing.
pub record Structured : Type 0 where
  pub success : Bool
  pub error : Str
  pub payload : Option Str

pub data Call : Type 0 where
  exchange : Request → Call
  close_body : Call
  -- the select of a timer, in milliseconds, and `ctx.Done()`
  wait : ℕ → Call

abbrev pub History : Type 0
History = List Call

pub record Env : Type 0 where
  pub base_url : Str
  pub api_key : Str
  -- `ctx.Value("request_id")`, as text
  pub request_id : Option Str
  -- `http.NewRequestWithContext`
  pub new_request : Str → Str → Ok
  pub exchange_reply : Request → History → Exchange
  -- `ctx.Err()` if the context ends before the timer
  pub wait_reply : ℕ → History → Ok
  pub parse_structured : Str → Result Structured

abbrev pub api_key_header : Str → List (Str × Str)
api_key_header [] = []
api_key_header (c ∷ s) = (str "X-API-Key", c ∷ s) ∷ []

abbrev pub request_id_header : Option Str → List (Str × Str)
request_id_header none = []
request_id_header (some id) = (str "X-Request-ID", id) ∷ []

-- `err == nil && resp.StatusCode < 500`; no answer without an error panics.
abbrev pub settled : Exchange → Exec Call Bool
settled x = elim x.error [
  | some e ↦ pure false
  | none ↦ elim x.response [ none ↦ panic | some r ↦ pure (ltb r.status_code 500) ]
]

-- `resp != nil && resp.StatusCode >= 400 && resp.StatusCode < 500`
abbrev pub is_client_error : Option Response → Bool
is_client_error none = false
is_client_error (some r) = leb 400 r.status_code && ltb r.status_code 500

abbrev pub close_if : Option Response → Exec Call (Unit {0})
close_if none t = (Outcome.returned tt, t)
close_if (some r) t = (Outcome.returned tt, close_body ∷ t)

-- `return nil, ctx.Err()`, or go on.
abbrev pub cancelled : Result (Unit {0}) → Exec Call Exchange → Exec Call Exchange
cancelled (ok u) rest = rest
cancelled (err e) rest = pure (record { response = none; error = some e })

module _ (env : Env) where
  abbrev pub send : Request → Exec Call Exchange
  send req t = (Outcome.returned (env.exchange_reply req t), exchange req ∷ t)

  -- `if attempt < 2 { select ... }`
  abbrev pub wait_if : Bool → ℕ → Exec Call (Result (Unit {0}))
  wait_if true ms t = (Outcome.returned (env.wait_reply ms t), wait ms ∷ t)
  wait_if false ms t = (Outcome.returned (ok tt), t)

  unfoldable pub retry_unless : Bool → Exchange → Exec Call Exchange → ℕ → Exec Call Exchange
  retry_unless true x rest attempt = pure x
  retry_unless false x rest attempt = do
    waited ← wait_if (ltb attempt 2) (2 ^ attempt * 100)
    cancelled waited rest

  unfoldable pub after_attempt : Bool → Exchange → Exec Call Exchange → ℕ → Exec Call Exchange
  unfolding retry_unless
  after_attempt true x rest attempt = pure x
  after_attempt false x rest attempt = do
    close_if x.response
    retry_unless (is_client_error x.response) x rest attempt

  -- The attempts that are left, the number of the next one, and the last answer.
  unfoldable pub try_request : Request → ℕ → ℕ → Exchange → Exec Call Exchange
  unfolding after_attempt
  try_request req zero attempt last = pure last
  try_request req (suc left) attempt last = do
    x ← send req
    done ← settled x
    after_attempt done x (try_request req left (suc attempt) x) attempt

  -- A body is given as what `json.Marshal` makes of it.
  abbrev pub request_of : Str → Str → Option Str → Request
  request_of method endpoint body = record {
    method = method;
    url = env.base_url ++ endpoint;
    body = body;
    headers =
        (str "Content-Type", str "application/json")
        ∷ (str "Accept", str "application/json")
        ∷ (api_key_header env.api_key ++ request_id_header env.request_id);
  }

  abbrev pub marshaled : Option (Result Str) → Exec Call (Option Str)
  marshaled none = pure none
  marshaled (some (ok s)) = pure (some s)
  marshaled (some (err e)) = fail (wrap (str "marshal body") e)

  -- The answer and the error of the last attempt.
  unfoldable pub do_request : Str → Str → Option (Result Str) → Exec Call Exchange
  unfolding try_request
  do_request method endpoint body = do
    json ← marshaled body
    wrapping (str "create request") (of_result (env.new_request method (env.base_url ++ endpoint)))
    try_request (request_of method endpoint json) 3 0 (record { response = none; error = none })

  abbrev pub get : Str → Exec Call Exchange
  get endpoint = do_request (str "GET") endpoint none

  abbrev pub post : Str → Option (Result Str) → Exec Call Exchange
  post endpoint body = do_request (str "POST") endpoint body

  abbrev pub put : Str → Option (Result Str) → Exec Call Exchange
  put endpoint body = do_request (str "PUT") endpoint body

  abbrev pub delete : Str → Exec Call Exchange
  delete endpoint = do_request (str "DELETE") endpoint none

  -- `if err != nil { return err }`; what follows reads the response, and panics without one.
  abbrev pub response_or_fail : Exchange → Exec Call Response
  response_or_fail x = elim x.error [
    | some e ↦ fail e
    | none ↦ elim x.response [ none ↦ panic | some r ↦ pure r ]
  ]

  abbrev pub decode_payload : {A : Type 0} → (Str → Result A) → Option Str → Exec Call (Option A)
  decode_payload decode none = pure none
  decode_payload decode (some payload) = do
    a ← wrapping (str "failed to decode JSON response") (of_result (decode payload))
    pure (some a)

  -- What a structured answer leaves in the result: nothing if it has no data.
  abbrev pub read_structured : {A : Type 0} → (Str → Result A) → Structured → Exec Call (Option A)
  read_structured decode s = do
    fail_if (not s.success) (message (str "API error: " ++ s.error))
    decode_payload decode s.payload

  abbrev pub read_body :
      {A : Type 0} → (Str → Result A) → Str → Result Structured → Exec Call (Option A)
  read_body decode body (ok s) = read_structured decode s
  read_body decode body (err e) = do
    a ← wrapping (str "failed to decode JSON response") (of_result (decode body))
    pure (some a)

  abbrev pub read_result : {A : Type 0} → Option (Str → Result A) → Response → Exec Call (Option A)
  read_result none r = pure none
  read_result (some decode) r = do
    body ← wrapping (str "failed to read response body") (of_result r.body)
    read_body decode body (env.parse_structured body)

  -- The result is decoded by `decode`; without one, the body is not read.
  unfoldable pub decode_response :
      {A : Type 0} → Option (Str → Result A) → Response → Exec Call (Option A)
  decode_response result r = deferring close_body (do
    fail_if (leb 400 r.status_code)
        (message (str "HTTP error " ++ (format_int r.status_code ++ (str ": " ++ r.status))))
    read_result result r)

  unfoldable pub get_json : {A : Type 0} → Str → Option (Str → Result A) → Exec Call (Option A)
  get_json endpoint result = do x ← get endpoint; r ← response_or_fail x; decode_response result r

  unfoldable pub post_json :
      {A : Type 0} → Str → Option (Result Str) → Option (Str → Result A) → Exec Call (Option A)
  post_json endpoint body result = do
    x ← post endpoint body
    r ← response_or_fail x
    decode_response result r

  unfoldable pub put_json :
      {A : Type 0} → Str → Option (Result Str) → Option (Str → Result A) → Exec Call (Option A)
  put_json endpoint body result = do
    x ← put endpoint body
    r ← response_or_fail x
    decode_response result r
