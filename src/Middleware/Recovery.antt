-- ===== src/Middleware/Recovery.antt =====
-- The handler around every request: Handler, handlePanic and logRequest of
-- internal/pkg/middleware/unified.go. The stack, the clock, the identity that is made for a
-- request, `c.JSON` and the agent are arguments.
use nebengjek.Prelude.{
  Str, str, str_eq, ◌++◌, List, [], ◌∷◌, leb, ℕ, Bool, true, false, ◌||◌, Option, some, none,
  if◌then◌else◌,
}
use nebengjek.Exec.{Error, Ok, ok, err}
use nebengjek.Middleware.Capture.{Value, extract_error_from_response}
use nebengjek.Middleware.Contexts.{Context, plain, with_value, or_new}
use nebengjek.Middleware.Tracing.{
  Tracer, Transaction, TxnCall, start_transaction, set_web_request, set_web_response, notice_error,
  end_transaction, told, started, get_context,
}
use nebengjek.Exec.{Result}

pub data Level : Type 0 where
  debug : Level
  warn : Level
  error : Level

-- The value of a field of a log entry.
pub data Field : Type 0 where
  text : Str → Field
  number : ℕ → Field
  flag : Bool → Field
  cause : Error → Field

pub record Entry : Type 0 where
  pub level : Level
  pub msg : Str
  pub fields : List (Str × Field)

-- A writer that is not the wrapped one: whether it is a `Hijacker`, and its type.
pub record Original : Type 0 where
  pub hijacks : Bool
  pub type_name : Str

pub data Writer : Type 0 where
  wrapped : Original → Writer
  original : Original → Writer

-- The response, with the body as far as it is captured.
pub record Response : Type 0 where
  pub status : ℕ
  pub size : ℕ
  pub committed : Bool
  pub writer : Writer
  pub body : Str

-- What a handler reads and changes: the context of its request, the response and its header
-- X-Request-ID, the value nr_txn, and what the logger and the agent were told, newest first.
pub record Exchange : Type 0 where
  pub ctx : Context
  pub response : Response
  pub request_id_header : Str
  pub nr_txn : Option Transaction
  pub log : List Entry
  pub trace : List TxnCall

pub record Info : Type 0 where
  pub method : Str
  pub path : Str
  pub ip : Str
  pub proto : Str
  pub user_agent : Str
  -- `Header.Get`
  pub header : Str → Str

pub record Config : Type 0 where
  pub has_logger : Bool
  pub tracer : Option Tracer
  pub service_name : Str

-- How a handler ends: it returns, or panics with a value that is given as text.
pub data Ending : Type 0 where
  returned : Ok → Ending
  panicking : Str → Ending

pub record Host : Type 0 where
  pub new_uuid : Str
  pub duration : ℕ
  pub stack : Str
  -- whether the agent starts a transaction, and `newrelic.NewContext`
  pub live : Bool
  pub attach : Context → Context
  pub json : ℕ → List (Str × Str) → Response → Response
  pub parse : Str → Result (List (Str × Value))
  pub print : List (Str × Value) → Str

abbrev pub logged : Entry → Exchange → Exchange
logged e x = record x { log = e ∷ x.log }

abbrev pub log_if : Bool → Entry → Exchange → Exchange
log_if true e x = logged e x
log_if false e x = x

abbrev pub told_txn : Option Transaction → TxnCall → Exchange → Exchange
told_txn none c x = x
told_txn (some txn) c x = record x { trace = told txn c x.trace }

abbrev pub hijacks : Writer → Bool
hijacks (wrapped o) = true
hijacks (original o) = o.hijacks

abbrev pub type_of : Writer → Str
type_of (wrapped o) = str "*middleware.responseBodyCapture"
type_of (original o) = o.type_name

abbrev pub hijack_fields : Str → Str → Bool → Str → List (Str × Field)
hijack_fields supports type true name = (supports, flag true) ∷ []
hijack_fields supports type false name = (supports, flag false) ∷ (type, text name) ∷ []

abbrev pub original_fields : Writer → List (Str × Field)
original_fields (wrapped o) =
    hijack_fields (str "original_response_writer_supports_hijack")
      (str "original_response_writer_type") o.hijacks o.type_name
original_fields (original o) = []

module _ (h : Host) (c : Config) (info : Info) where
  abbrev pub is_socket : Bool
  is_socket = str_eq info.path (str "/ws") || str_eq (info.header (str "Upgrade")) (str "websocket")

  abbrev pub socket_fields : Writer → List (Str × Field)
  socket_fields w =
      (str "upgrade_header", text (info.header (str "Upgrade")))
      ∷ (str "connection_header", text (info.header (str "Connection")))
      ∷ (str "sec_websocket_key", text (info.header (str "Sec-WebSocket-Key")))
      ∷ (str "sec_websocket_version", text (info.header (str "Sec-WebSocket-Version")))
      ∷ (hijack_fields (str "response_writer_supports_hijack") (str "response_writer_type")
            (hijacks w) (type_of w)
          ++ original_fields w)

  abbrev pub panic_entry : Str → Str → Writer → Entry
  panic_entry r request_id w = record {
    level = error;
    msg = str "Panic recovered";
    fields =
        (str "panic", text r)
        ∷ (str "request_id", text request_id)
        ∷ (str "method", text info.method)
        ∷ (str "path", text info.path)
        ∷ (str "ip", text info.ip)
        ∷ (str "proto", text info.proto)
        ∷ (str "user_agent", text info.user_agent)
        ∷ ((if is_socket then socket_fields w else []) ++ ((str "stack", text h.stack) ∷ []));
  }

  abbrev pub panic_reply : Str → Response → Response
  panic_reply request_id r =
      if r.committed
      then r
      else h.json 500
          ((str "error", str "Internal Server Error")
            ∷ (str "message", str "An unexpected error occurred")
            ∷ (str "request_id", request_id)
            ∷ [])
          r

  abbrev pub replied : Str → Exchange → Exchange
  replied request_id x = record x { response = panic_reply request_id x.response }

  unfoldable pub handle_panic : Str → Str → Option Transaction → Exchange → Exchange
  handle_panic r request_id txn x = replied request_id (
      told_txn txn (notice_error (str "panic: " ++ r))
        (log_if c.has_logger (panic_entry r request_id x.response.writer) x))

  abbrev pub basic_fields : Str → Response → List (Str × Field)
  basic_fields request_id r =
      (str "request_id", text request_id)
      ∷ (str "method", text info.method)
      ∷ (str "path", text info.path)
      ∷ (str "status", number r.status)
      ∷ (str "duration", number h.duration)
      ∷ (str "ip", text info.ip)
      ∷ (str "bytes_out", number r.size)
      ∷ []

  abbrev pub detail_fields : Str → List (Str × Field)
  detail_fields [] = []
  detail_fields (b ∷ s) = (str "error_details", text (b ∷ s)) ∷ []

  -- An answer with a status of 400 or more, after a handler that returned nil.
  abbrev pub status_entry : Str → Response → Entry
  unfolding extract_error_from_response
  status_entry request_id r = record {
    level = if leb 500 r.status then error else warn;
    msg =
        if leb 500 r.status
        then str "Request failed with server error"
        else str "Request completed with error";
    fields =
        basic_fields request_id r
        ++ detail_fields (extract_error_from_response h.parse h.print r.body r.status);
  }

  unfoldable pub request_entry : Str → Ok → Response → Entry
  unfolding status_entry
  request_entry request_id (err e) r = record {
    level = error;
    msg = str "Request failed";
    fields = basic_fields request_id r ++ ((str "error", cause e) ∷ []);
  }
  request_entry request_id (ok u) r =
      if leb 400 r.status then status_entry request_id r else record {
        level = debug;
        msg = str "Request completed";
        fields = basic_fields request_id r;
      }

  abbrev pub log_request : Str → Ok → Exchange → Exchange
  log_request request_id result x =
      log_if c.has_logger (request_entry request_id result x.response) x

  abbrev pub identified : Str → Exchange → Exchange
  identified request_id x = record x {
    request_id_header = request_id;
    ctx =
        with_value (plain (str "service_name")) c.service_name
          (with_value (plain (str "request_id")) request_id x.ctx);
  }

  -- `if m.config.Tracer != nil`; the context of the transaction takes the place of the request's.
  abbrev pub traced : Option Transaction → Exchange → Exchange
  traced none x = x
  traced (some txn) x = record x {
    ctx = get_context h.attach txn;
    nr_txn = some txn;
    trace = told txn set_web_request (told txn (start_transaction info.path) x.trace);
  }

  abbrev pub inner : Writer → Original
  inner (original o) = o
  inner (wrapped o) = record { hijacks = true; type_name = type_of (wrapped o) }

  abbrev pub capturing : Response → Response
  capturing r = record r { writer = wrapped (inner r.writer); body = [] }

  abbrev pub transaction : Option Tracer → Option Transaction
  transaction none = none
  transaction (some tracer) = some (started h.live tracer)

  -- What the handler is called on.
  unfoldable pub entered : Str → Option Transaction → Exchange → Exchange
  entered request_id txn x =
      let y = traced txn (identified request_id x) in record y { response = capturing y.response }

  abbrev pub left : Str → Option Transaction → Ending × Exchange → Ok × Exchange
  left request_id txn (returned result, x) =
      (result, told_txn txn set_web_response (log_request request_id result x))
  left request_id txn (panicking r, x) = (ok tt, handle_panic r request_id txn x)

  -- `defer txn.End()`
  abbrev pub closed : Option Transaction → Ok × Exchange → Ok × Exchange
  closed txn (result, x) = (result, told_txn txn end_transaction x)

  unfoldable pub handler : (Exchange → Ending × Exchange) → Exchange → Ok × Exchange
  unfolding entered
  handler next x =
      let request_id = or_new h.new_uuid (info.header (str "X-Request-ID")) in
      let txn = transaction c.tracer in
      closed txn (left request_id txn (next (entered request_id txn x)))
