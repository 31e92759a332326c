-- ===== src/Middleware/Laws/RequestIds.antt =====
-- Where the identity of a request is found: the contexts of internal/pkg/middleware/unified.go, of
-- internal/pkg/observability/tracer.go and of internal/pkg/context.
use nebengjek.Prelude.{
  true, false, List, ap, Option, ◌∷◌, some, none, ◌≡◌, refl, [], Str, str, str_eq,
}
use nebengjek.Middleware.Recovery.{transaction, entered, Info, Config, Host, Exchange}
use nebengjek.Http.Client.{request_id_header}
use nebengjek.Middleware.Contexts.{
  background, RequestContext, or_new, get_service_name, plain, get_trace_id, get_user_id, value,
  Context, get_request_id, with_request_context,
}
use nebengjek.Middleware.Tracing.{
  started, Tracer, no_op_txn, new_relic_txn, Transaction, get_context,
}

-- `newrelic.NewContext` adds the transaction, and no value under a string.
abbrev pub KeepsValues : Host → Type 0
KeepsValues h = (name : Str) (x : Context) → value (plain name) (h.attach x) ≡ value (plain name) x

-- The header of the requests that a handler sends, by the tracer.
abbrev pub headers_for : Option Tracer → Str → List (Str × Str)
headers_for none id = (str "X-Request-ID", id) ∷ []
headers_for (some tracer) id = []

module _ (h : Host) (c : Config) (info : Info) (x : Exchange) where
  -- What the handler is called on.
  abbrev pub seen : Exchange
  seen =
      entered h c info (or_new h.new_uuid (info.header (str "X-Request-ID")))
        (transaction h c info c.tracer) x

  txn_context :
      (keeps : KeepsValues h) (name : Str) (txn : Transaction)
      → value (plain name) (get_context h.attach txn) ≡ none
  unfolding get_context value
  txn_context keeps name no_op_txn = refl
  txn_context keeps name (new_relic_txn true) = keeps name background
  txn_context keeps name (new_relic_txn false) = refl

  headers_seen :
      (keeps : KeepsValues h) (id : Str) (tracer : Option Tracer)
      → request_id_header (
          value
            (plain (str "request_id"))
            (entered h c info id (transaction h c info tracer) x).ctx)
        ≡ headers_for tracer id
  unfolding entered value str_eq str
  headers_seen keeps id none = refl
  headers_seen keeps id (some tracer) =
      ap request_id_header (txn_context keeps (str "request_id") (started h.live tracer))

  -- With a tracer, even the one that does nothing, the context that a handler sees has no request
  -- identity, so that the requests it sends to other services have no header X-Request-ID. This is
  -- for an agent that adds no value under a string. Without a tracer the requests have the identity
  -- that the request came with, or else a new one.
  pub handler-request_id :
      (keeps : KeepsValues h)
      → request_id_header (value (plain (str "request_id")) seen.ctx)
        ≡ headers_for c.tracer (or_new h.new_uuid (info.header (str "X-Request-ID")))
  handler-request_id keeps =
      headers_seen keeps (or_new h.new_uuid (info.header (str "X-Request-ID"))) c.tracer

-- What was put into a context is read back, and the name of the service as well.
pub request_context-read :
    (ctx : Context) (r : RequestContext)
    → let ctx' = with_request_context ctx (some r) in
      (get_request_id ctx' ≡ r.request_id)
      × (get_user_id ctx' ≡ r.user_id)
      × (get_trace_id ctx' ≡ r.trace_id)
      × (get_service_name ctx' ≡ r.service_name)
unfolding with_request_context get_request_id get_user_id get_trace_id get_service_name value str_eq
    str
request_context-read ctx r = (refl, refl, refl, refl)
